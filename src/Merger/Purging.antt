-- ===== src/Merger/Purging.antt =====
-- Which waiting events `processData` gives up, and what a forwarded message leaves for it.
use zdaq.Base.{
  ℕ, ◌+◌, ◌-◌, ◌^◌, ◌≤◌, ◌<◌, ◌≡◌, refl, ◌∙◌, true, false, not, List, [], ◌∷◌, Option, none, some,
  length, ltb, le→ltb, if◌then◌else◌, u64, arith, ok,
}
use zdaq.Base.Memory.{Bytes}
use zdaq.Base.Order.{nat_ord}
use zdaq.Base.Map.{find, keep_at, find-keep, IsSorted}
use zdaq.Buffer.{Buffer, new, set_size}
use zdaq.Wire.{is_registering}
use zdaq.Puller.{Puller, Zmq, message, handle, has_publisher}
use zdaq.Merger.Receive.{copy_in}
use zdaq.Merger.Data.{extended, purge_old, purged}
use zdaq.Merger.Events.{Events}
use zdaq.Merger.Kept.{AllSmall}

find-purge_old :
    (last : ℕ) (ev : Events) (k : ℕ)
    → IsSorted ev
    → last < 2 ^ 31
    → k < 2 ^ 32
    → find k (purge_old last ev) ≡ (if ltb (k + 1000) last then none else find k ev)
unfolding purge_old
find-purge_old last ev k s low hk =
    find-keep k (λ e. not (ltb (u64 (e.0 + 1000)) (extended last))) ev s ∙ kept (find k ev)
  where
    kept :
        (o : Option (List Buffer))
        → keep_at (λ e. not (ltb (u64 (e.0 + 1000)) (extended last))) k o
          ≡ (if ltb (k + 1000) last then none else o)
    kept none = ground arith
    kept (some v) = ground arith

purge_old_negative :
    (last : ℕ) (ev : Events) → AllSmall ev → 2 ^ 31 ≤ last → last < 2 ^ 32 → purge_old last ev ≡ []
unfolding purge_old
purge_old_negative last [] a high bound = refl
purge_old_negative last (e ∷ ev) a high bound =
    ground (arith, purge_old_negative last ev a.1 high bound)

-- After an event below 2 ^ 31 an event waits on unless it is more than 1000 behind, as long as no more
-- than 200 do.
pub find-purged :
    (last : ℕ) (ev : Events) (k : ℕ)
    → IsSorted ev
    → last < 2 ^ 31
    → k < 2 ^ 32
    → length (purge_old last ev) ≤ 200
    → find k (purged true last ev) ≡ (if ltb (k + 1000) last then none else find k ev)
unfolding purged
find-purged last ev k s low hk few =
    rw (le→ltb 200 (length (purge_old last ev)) few) (find-purge_old last ev k s low hk)

-- After an event from 2 ^ 31 on, whose number is negative as an int32_t, every event that waits is
-- given up, however close.
pub purged_negative :
    (last : ℕ) (ev : Events)
    → AllSmall ev
    → 2 ^ 31 ≤ last
    → last < 2 ^ 32
    → purged true last ev ≡ []
unfolding purged
purged_negative last ev a high bound = rw (purge_old_negative last ev a high bound)

-- A message that was forwarded is processed here with an empty body, whatever it held; the buffer made
-- from it has a payload size that has wrapped around.
pub handle-forwarded :
    (q : Zmq) (identity body : Bytes) (p : Puller)
    → has_publisher p ≡ true
    → is_registering identity ≡ false
    → ((handle q (message identity body true) p).forwarded ≡ (identity, body) ∷ [])
      × ((handle q (message identity body true) p).processed ≡ some (identity, []))
      × (c : Buffer) × (copy_in [] ≡ ok c)
      × (c.psize ≡ 2 ^ 32 - 20)
unfolding handle copy_in set_size new
handle-forwarded q identity body p publishing plain =
    (ground (arith, q.nullified body), ground (arith, q.nullified body), _, refl, refl)
