-- ===== src/EndToEnd.antt =====
-- A data source and the event builder together: zmPusher.cc to zmMerger.cc, over a socket that
-- delivers both parts of a message.
use zdaq.Base.{
  ℕ, ◌+◌, ◌%◌, ◌^◌, ◌≤◌, ◌<◌, ◌≡◌, ap, ◌∙◌, sym, ◌≢◌, Bool, true, false, List, [], ◌∷◌, ◌++◌, arith,
  length, length-append, ok, some, inl, inr, ◌⊎◌, refl, ltb, Option-cases,
}
use zdaq.Base.Memory.{Bytes}
use zdaq.Base.Order.{nat_ord}
use zdaq.Base.Map.{IsSorted, find, insert, update}
use zdaq.Zlib.{Zlib, compress_bound}
use zdaq.Buffer.{Buffer, image}
use zdaq.Buffer.Fields.{view}
use zdaq.Wire.{source_header, data_header, Identity}
use zdaq.Wire.RoundTrip.{scan_identity-data_header}
use zdaq.Processor.{Processor}
use zdaq.Merger.{Merger}
use zdaq.Merger.Data.{number_of_sources, push, process_data}
use zdaq.Merger.Events.{Events, collected, NoneFull, find-push_self}
use zdaq.Merger.Contract.{overflow, Taken, process_data_incomplete}
use zdaq.Source.{Source, Part, delivered, fill, buffer_size}
use zdaq.Source.Pusher.{publish}
use zdaq.Source.Ready.{IsReady, fill-IsReady, publish-received}

length-insert : (k : ℕ) (v : List Buffer) (ev : Events) → length (insert k v ev) ≤ length ev + 1
unfolding insert
length-insert k v [] = omega arith
length-insert k v ((j, w) ∷ ev) = ground (arith, length-insert k v ev)

length-update :
    (k : ℕ) (f : List Buffer → List Buffer) (ev : Events) → length (update k f ev) ≤ length ev
unfolding update
length-update k f [] = omega arith
length-update k f ((j, w) ∷ ev) = ground (arith, length-update k f ev)

-- The map grows by one event at most.
length-push : (gtc : ℕ) (b : Buffer) (ev : Events) → length (push gtc b ev) ≤ length ev + 1
unfolding push
length-push gtc b ev = elim (Option-cases (find gtc ev)) [
  | inl missing ↦ rw (missing, push) (omega (arith, length-insert gtc (b ∷ []) ev))
  | inr (dss, there) ↦ rw (there, push) (omega (arith, length-update gtc (λ v. v ++ b ∷ []) ev))
]

roomy :
    (on : Bool) (gtc : ℕ) (b : Buffer) (ev : Events)
    → (on ≡ false) ⊎ (length ev < 200)
    → overflow on (push gtc b ev) ≡ push gtc b ev
unfolding overflow
roomy false gtc b ev space = refl
roomy true gtc b ev (inl off) = absurd (cc off)
roomy true gtc b ev (inr few) =
    let fits : ltb 200 (length (push gtc b ev)) ≡ false =
      ground (arith, length-push gtc b ev, few) in
    rw fits refl

-- A payload that is written into a source and published arrives in the merger's event map: it is the
-- last of the buffers kept under its event number, with the identities of the source and all its
-- bytes, and the rest of the map is as it was. This is where the buffer does not complete its event
-- and the map has room for it: purging is off, or fewer than 200 events wait. No complete event waits
-- before.
pub published_arrives :
    {J P : Type 0} (ops : Processor J P) (z : Zlib) (det dif bx gtc : ℕ) (p : Bytes) (s : Source)
    (m : Merger P)
    → IsReady det dif s
    → det < 2 ^ 32
    → dif < 2 ^ 32
    → bx < 2 ^ 64
    → gtc < 2 ^ 32
    → 20 + compress_bound (length p) ≤ buffer_size
    → IsSorted m.events
    → NoneFull (number_of_sources m) m.events
    → length (collected gtc m.events) + 1 ≢ number_of_sources m
    → (m.purge ≡ false) ⊎ (length m.events < 200)
    → (filled sent : Source) × (head body : Part) × (b : Buffer) × (m' : Merger P) × (fill p s
        ≡ ok filled)
      × (publish z bx gtc (length p) delivered filled ≡ ok (sent, head ∷ body ∷ []))
      × IsReady det dif sent
      × (process_data ops z head.body body.body m ≡ ok m')
      × (m'.events ≡ push gtc b m.events)
      × (find gtc m'.events ≡ some (collected gtc m.events ++ b ∷ []))
      × (view b ≡ record {
        detector = det % 2 ^ 16;
        flags = 0;
        source = dif;
        event = gtc;
        bx = bx;
        body = p;
      })
published_arrives ops z det dif bx gtc p s m ready hdet hdif hbx hgtc room sorted none_full
      open_still space =
    let (filled, written, ready', there) = fill-IsReady det dif p s ready (omega arith) in
    let (c, r, e, sent, taken, expanded, seen, ready'') =
      publish-received z det dif bx gtc (length p) filled ready' hbx hgtc room in
    let id : Identity = record { detector = det; source = dif; gtc = gtc } in
    let head = data_header (source_header det dif) gtc bx in
    let t : Taken ops z head (image c) m id e = record {
      packed = r;
      scanned = scan_identity-data_header det dif gtc bx hdet hdif hgtc;
      copied = taken;
      expanded = expanded;
      sorted = sorted;
      none_full = none_full;
    } in
    let (m', processed, events, _, _, _) =
      process_data_incomplete ops z head (image c) m id e t
        (λ full. open_still (sym (length-append (collected gtc m.events) (e ∷ [])) ∙ full)) in
    let kept = events ∙ roomy m.purge gtc e m.events space in
    (
      filled,
      record filled { buffer = c },
      record { socket = 0; more = true; body = head },
      record { socket = 0; more = false; body = image c },
      e,
      m',
      written,
      sent,
      ready'',
      processed,
      kept,
      ap (find gtc) kept ∙ find-push_self gtc e m.events,
      seen
          ∙ ap
              (λ (bytes : Bytes). record {
                detector = det % 2 ^ 16;
                flags = 0;
                source = dif;
                event = gtc;
                bx = bx;
                body = bytes;
              })
              there,
    )
