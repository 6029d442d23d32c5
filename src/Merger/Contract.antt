-- ===== src/Merger/Contract.antt =====
-- What `processData` promises: a buffer that leaves its event incomplete is kept, one that completes
-- it sends the event to the processors and out of the map. Both for a map with no complete event in
-- it, which is what `processData` itself leaves (Merger/Invariant).
use zdaq.Base.{
  ℕ, ◌+◌, ◌^◌, ◌<◌, ◌≡◌, refl, ap, ◌∙◌, sym, subst, ◌≢◌, Bool, true, false, not, List, [], ◌∷◌,
  ◌++◌, some, length, ltb, if◌then◌else◌, u32, u64, arith, All, ok,
}
use zdaq.Base.Memory.{Bytes}
use zdaq.Base.Order.{nat_ord}
use zdaq.Base.Map.{Map, keys, find, erase, IsSorted}
use zdaq.Base.Entries.{update_same, Once, find-Once, keep_self}
use zdaq.Zlib.{Zlib}
use zdaq.Buffer.{Buffer, uncompress}
use zdaq.Wire.{Identity, scan_identity, scan_int}
use zdaq.Processor.{Processor}
use zdaq.Merger.{Merger}
use zdaq.Merger.Receive.{copy_in}
use zdaq.Merger.Processors.{process_event}
use zdaq.Merger.Data.{
  push, is_full, extended, erase_full, purge_old, purge_all, purged, build_events,
  number_of_sources, store, finish, process_data,
}
use zdaq.Merger.Events.{
  Events, collected, NoneFull, push-IsSorted, find-push_self, find-push_ne, push-NoneFull,
  erase_full_none, erase_full-push,
}
use zdaq.Merger.Building.{is_full_none, build_none, build_once, process_event_zero}

pub scan_identity_small : (s : Bytes) {id : Identity} → scan_identity s ≡ some id → id.gtc < 2 ^ 32
unfolding scan_identity scan_int
scan_identity_small s h = ground arith

-- When nothing is old, only the overflow of the map purges.
unfoldable pub overflow : Bool → Events → Events
overflow on ev = if on then (if ltb 200 (length ev) then purge_all ev else ev) else ev

purged_zero : (on : Bool) (ev : Events) → purged on 0 ev ≡ overflow on ev
unfolding purged overflow purge_old
purged_zero on ev = rw (
    keep_self (λ (e : ℕ × List Buffer). not (ltb (u64 (e.0 + 1000)) (extended 0))) ev
      (nothing_old ev))
  where
    nothing_old : (es : Events) → All (λ e. not (ltb (u64 (e.0 + 1000)) (extended 0)) ≡ true) es
    nothing_old [] = tt
    nothing_old (e ∷ es) = (ground arith, nothing_old es)

-- One message, up to the stored buffer.
module _ {J P : Type 0} (ops : Processor J P) (z : Zlib) (idd body : Bytes) (m : Merger P) where
  pub record Taken (id : Identity) (b : Buffer) : Type 0 where
    pub packed : Buffer
    pub scanned : scan_identity idd ≡ some id
    pub copied : copy_in body ≡ ok packed
    pub expanded : uncompress z packed ≡ ok b
    pub sorted : IsSorted m.events
    pub none_full : NoneFull (number_of_sources m) m.events

  module _ (id : Identity) (b : Buffer) (t : Taken id b) where
    stored : Merger P
    stored = store id t.packed.psize b m

    process_data_built :
        (built : Merger P × ℕ)
        → build_events ops (keys stored.events) 0 stored ≡ ok built
        → process_data ops z idd body m ≡ ok (finish id built)
    unfolding process_data stored
    process_data_built built e = rw (t.scanned, t.copied, t.expanded, e)

    others_not_full :
        (k : ℕ) → k ≢ id.gtc → is_full (number_of_sources m) k (push id.gtc b m.events) ≡ false
    others_not_full k ne =
        rw (is_full, find-push_ne id.gtc b k m.events ne)
          (is_full_none (number_of_sources m) k m.events t.none_full)

    -- A buffer that does not complete its event waits in the map, behind those that came before it;
    -- nothing is handed to the processors, and nothing else moves unless the map overflows.
    pub process_data_incomplete :
        length (collected id.gtc m.events ++ b ∷ []) ≢ number_of_sources m
        → (m' : Merger P) × (process_data ops z idd body m ≡ ok m')
          × (m'.events ≡ overflow m.purge (push id.gtc b m.events))
          × (m'.processors ≡ m.processors)
          × (m'.build ≡ m.build)
          × (m'.evt ≡ m.evt)
    unfolding finish store stored
    process_data_incomplete open_still =
        let ev = push id.gtc b m.events in
        let none_full =
          push-NoneFull (number_of_sources m) id.gtc b m.events t.none_full open_still in
        let idle : build_events ops (keys ev) 0 stored ≡ ok (stored, 0) =
          build_none ops (keys ev) 0 stored (all_false (keys ev) none_full) in
        (
          finish id (stored, 0),
          process_data_built (stored, 0) idle,
          ap (purged m.purge 0) (erase_full_none (number_of_sources m) ev none_full)
              ∙ purged_zero m.purge ev,
          refl,
          refl,
          refl,
        )
      where
        all_false :
            (ks : List ℕ)
            → NoneFull (number_of_sources m) (push id.gtc b m.events)
            → All (λ k. is_full (number_of_sources m) k (push id.gtc b m.events) ≡ false) ks
        all_false [] h = tt
        all_false (k ∷ ks) h =
            (is_full_none (number_of_sources m) k (push id.gtc b m.events) h, all_false ks h)

    -- The state that the processors leave, before the map is cleaned.
    module _ (full : length (collected id.gtc m.events ++ b ∷ []) ≡ number_of_sources m) where
      stored_full : is_full (number_of_sources m) id.gtc (push id.gtc b m.events) ≡ true
      stored_full = rw (find-push_self id.gtc b m.events, is_full) (ground arith)

      once : Once id.gtc (keys (push id.gtc b m.events))
      once =
          find-Once id.gtc (push id.gtc b m.events) (push-IsSorted id.gtc b m.events t.sorted)
            (find-push_self id.gtc b m.events)

      small : u32 id.gtc ≡ id.gtc
      small = omega (arith, scan_identity_small idd t.scanned)

      -- Event 0 is taken out of the map when it is complete, and no processor sees it.
      pub process_data_zero :
          id.gtc ≡ 0
          → (m' : Merger P) × (process_data ops z idd body m ≡ ok m')
            × (m'.events ≡ overflow m.purge (erase 0 m.events))
            × (m'.processors ≡ m.processors)
            × (m'.build ≡ m.build)
      unfolding finish store stored
      process_data_zero zero_gtc =
          let d = number_of_sources m in
          let dss = collected id.gtc m.events ++ b ∷ [] in
          let ev = push id.gtc b m.events in
          let there = find-push_self id.gtc b m.events in
          let ignored : process_event ops (u32 id.gtc) stored ≡ ok stored =
            subst (λ k. process_event ops k stored ≡ ok stored) (sym zero_gtc ∙ sym small)
              (process_event_zero ops stored dss
                (subst (λ k. find k ev ≡ some dss) zero_gtc there)) in
          let built =
            build_once ops (keys stored.events) id.gtc 0 stored stored once stored_full ignored
              others_not_full others_not_full in
          (
            finish id (stored, u32 id.gtc),
            process_data_built (stored, u32 id.gtc) built,
            ap (λ k. purged m.purge k (erase_full d ev)) (small ∙ zero_gtc)
                ∙ purged_zero m.purge (erase_full d ev)
                ∙ ap (λ e. overflow m.purge (erase_full d e))
                    (sym (update_same id.gtc dss ev there))
                ∙ ap (overflow m.purge) (erase_full-push d id.gtc b dss m.events t.none_full full)
                ∙ ap (λ k. overflow m.purge (erase k m.events)) zero_gtc,
            refl,
            refl,
          )
