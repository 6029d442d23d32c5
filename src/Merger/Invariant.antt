-- ===== src/Merger/Invariant.antt =====
-- What holds of a merger between two messages, whatever the sources send and whenever they register.
use zdaq.Base.{
  ℕ, ◌^◌, ◌≤◌, ◌<◌, ◌≡◌, subst, ◌≢◌, inl, inr, Bool, true, false, ◌||◌, none, some, not, List, [],
  ◌∷◌, ◌==◌, length, keep, arith, All, ok, Option-cases, Result-cases, Bool-cases,
}
use zdaq.Base.Memory.{Bytes}
use zdaq.Base.Order.{nat_ord}
use zdaq.Base.Map.{keys, IsSorted, keep-IsSorted}
use zdaq.Base.Entries.{keep-All}
use zdaq.Zlib.{Zlib}
use zdaq.Buffer.{Buffer, uncompress}
use zdaq.Wire.{Identity, scan_identity}
use zdaq.Puller.{Zmq, Arrival, Puller, handle}
use zdaq.Processor.{Processor}
use zdaq.Merger.{Merger}
use zdaq.Merger.Receive.{copy_in}
use zdaq.Merger.Data.{erase_full, build_events, store, finish, process_data, poll_step}
use zdaq.Merger.Events.{
  Events, NoneFull, push-IsSorted, purged-IsSorted, purged-All, purged_bounded,
}
use zdaq.Merger.Contract.{scan_identity_small}
use zdaq.Merger.Kept.{AllSmall, push-AllSmall, build_events-Kept}

-- The map is in order and event numbers are 32 bits wide. A merger that is settled has no complete
-- event waiting, and with purging on no more than 200 events.
pub record IsWell {P : Type 0} (settled : Bool) (m : Merger P) : Type 0 where
  pub sorted : IsSorted m.events
  pub small : AllSmall m.events
  pub none_full : settled ≡ true → NoneFull m.difs m.events
  pub bounded : settled ≡ true → m.purge ≡ true → length m.events ≤ 200

module _ {J P : Type 0} (ops : Processor J P) where
  finish-IsWell :
      (settled : Bool) (id : Identity) (m : Merger P) (l : ℕ)
      → IsSorted m.events
      → AllSmall m.events
      → IsWell settled (finish id (m, l))
  unfolding finish erase_full
  finish-IsWell settled id m l s a =
      let test = λ (e : ℕ × List Buffer). not (length e.1 == m.difs) in
      let rest = keep test m.events in
      let rest_sorted = keep-IsSorted test m.events s in
      record {
        sorted = purged-IsSorted m.purge l rest rest_sorted;
        small = purged-All _ m.purge l rest (keep-All _ test m.events a);
        none_full = λ _.
            purged-All (λ e. length e.1 ≢ m.difs) m.purge l rest (open_entries m.difs m.events);
        bounded = λ _ on. rw on (purged_bounded l rest rest_sorted);
      }
    where
      open_entries :
          (d : ℕ) (ev : Events) → All (λ e. length e.1 ≢ d) (keep (λ e. not (length e.1 == d)) ev)
      open_entries d [] = tt
      open_entries d (e ∷ ev) = elim (Bool-cases (length e.1 == d)) [
        | inl full ↦ rw full (open_entries d ev)
        | inr short ↦ rw short (λ eq. ground arith, open_entries d ev)
      ]

  built_IsWell :
      (settled : Bool) (id : Identity) (packed : ℕ) (b : Buffer) (m : Merger P)
      → IsSorted m.events
      → AllSmall m.events
      → id.gtc < 2 ^ 32
      → (built : Merger P × ℕ)
      → build_events ops (keys (store id packed b m).events) 0 (store id packed b m) ≡ ok built
      → IsWell settled (finish id built)
  unfolding store
  built_IsWell settled id packed b m sorted all_small small (m₁, l) done =
      let kept = build_events-Kept ops _ 0 (store id packed b m) done in
      finish-IsWell settled id m₁ l (kept.sorted_kept (push-IsSorted id.gtc b m.events sorted))
        (kept.small_kept (push-AllSmall id.gtc b m.events small all_small))

  -- Every message that is processed leaves the merger settled, whatever the sources have sent before,
  -- however many of them have registered since, and whatever number was set.
  pub process_data-IsWell :
      (z : Zlib) (settled : Bool) (idd body : Bytes) (m : Merger P) {m' : Merger P}
      → IsSorted m.events
      → AllSmall m.events
      → process_data ops z idd body m ≡ ok m'
      → IsWell settled m'
  unfolding process_data
  process_data-IsWell z settled idd body m {m'} sorted small h =
      elim (Option-cases (scan_identity idd)) [
        | inl unread ↦ absurd (cc (rw (unread, process_data) at h))
        | inr (id, scanned) ↦ elim (Result-cases (copy_in body)) [
          | inr (e, bad) ↦ absurd (cc (rw (scanned, bad, process_data) at h))
          | inl (packed, copied) ↦ elim (Result-cases (uncompress z packed)) [
            | inr (e, bad) ↦ absurd (cc (rw (scanned, copied, bad, process_data) at h))
            | inl (b, expanded) ↦
                let stored = store id packed.psize b m in
                elim (Result-cases (build_events ops (keys stored.events) 0 stored)) [
                  | inr (e, bad) ↦
                      absurd (cc (rw (scanned, copied, expanded, bad, process_data) at h))
                  | inl (built, done) ↦
                      subst (IsWell settled)
                        (cc (rw (scanned, copied, expanded, done, process_data) at h))
                        (built_IsWell settled id packed.psize b m sorted small
                          (scan_identity_small idd scanned) built done)
                ]
          ]
        ]
      ]

  -- Whether a message is processed.
  abbrev pub is_processed : Zmq → Arrival → Merger P → Bool
  is_processed q a m = elim (handle q a m.puller).processed [ none ↦ false | some p ↦ true ]

  puller_IsWell :
      (settled : Bool) (p : Puller) (m : Merger P)
      → IsWell settled m
      → IsWell settled (record m { puller = p })
  puller_IsWell settled p m w = record {
    sorted = w.sorted;
    small = w.small;
    none_full = w.none_full;
    bounded = w.bounded;
  }

  pub poll_step-IsWell :
      (z : Zlib) (q : Zmq) (settled : Bool) (a : Arrival) (m : Merger P) {m' : Merger P}
      {out : List (Bytes × Bytes)}
      → IsWell settled m
      → poll_step ops z q a m ≡ ok (m', out)
      → IsWell (is_processed q a m || settled) m'
  unfolding poll_step
  poll_step-IsWell z q settled a m {m'} w h =
      let p = (handle q a m.puller).puller in
      elim (Option-cases (handle q a m.puller).processed) [
        | inl nothing ↦
            rw (nothing, is_processed)
              (subst (IsWell settled) (cc (rw (nothing, poll_step) at h))
                (puller_IsWell settled p m w))
        | inr ((identity, body), given) ↦
            elim (Result-cases (process_data ops z identity body (record m { puller = p }))) [
              | inr (e, bad) ↦ absurd (cc (rw (given, bad, poll_step) at h))
              | inl (done, ran) ↦
                  rw (given, is_processed)
                    (subst (IsWell true) (cc (rw (given, ran, poll_step) at h)) (
                      process_data-IsWell z true identity body (record m { puller = p }) w.sorted
                        w.small ran))
            ]
      ]
