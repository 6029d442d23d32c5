-- ===== src/Merger/Kept.antt =====
-- zmMerger.cc, the loop over the complete events: what it leaves as it was.
use zdaq.Base.{
  ℕ, ◌^◌, ◌<◌, ◌≡◌, refl, ◌∙◌, subst, inl, inr, List, [], ◌∷◌, ◌++◌, ◌==◌, length, u32, arith, All,
  ok, Option-cases, Result-cases, Bool-cases,
}
use zdaq.Base.Memory.{Bytes}
use zdaq.Base.Order.{nat_ord}
use zdaq.Base.Map.{Map, find, IsSorted, update-IsSorted}
use zdaq.Base.Entries.{insert-All, update-All}
use zdaq.Buffer.{Buffer}
use zdaq.Processor.{Processor}
use zdaq.Merger.{Merger}
use zdaq.Merger.Processors.{Round, run_processors, after_event, process_found, process_event}
use zdaq.Merger.Data.{push, is_full, build_step, build_events}
use zdaq.Merger.Events.{Events}

abbrev pub AllSmall : Events → Type 0
AllSmall = All (λ e. e.0 < 2 ^ 32)

pub push-AllSmall :
    (gtc : ℕ) (b : Buffer) (ev : Events) → gtc < 2 ^ 32 → AllSmall ev → AllSmall (push gtc b ev)
unfolding push
push-AllSmall gtc b ev h a = elim (Option-cases (find gtc ev)) [
  | inl missing ↦ rw (missing, push) (insert-All _ gtc (b ∷ []) ev h a)
  | inr (dss, there) ↦ rw (there, push) (update-All _ gtc (λ v. v ++ b ∷ []) ev (λ j w q. q) a)
]

-- What the loop over the complete events leaves as it was.
pub record Kept {P : Type 0} (m m' : Merger P) : Type 0 where
  difs_kept : m'.difs ≡ m.difs
  purge_kept : m'.purge ≡ m.purge
  pub running_kept : m'.running ≡ m.running
  pub sorted_kept : IsSorted m.events → IsSorted m'.events
  pub small_kept : AllSmall m.events → AllSmall m'.events

Kept-refl : {P : Type 0} (m : Merger P) → Kept m m
Kept-refl m = record {
  difs_kept = refl;
  purge_kept = refl;
  running_kept = refl;
  sorted_kept = λ s. s;
  small_kept = λ s. s;
}

Kept-trans : {P : Type 0} {m m' m'' : Merger P} → Kept m m' → Kept m' m'' → Kept m m''
Kept-trans k l = record {
  difs_kept = l.difs_kept ∙ k.difs_kept;
  purge_kept = l.purge_kept ∙ k.purge_kept;
  running_kept = l.running_kept ∙ k.running_kept;
  sorted_kept = λ s. l.sorted_kept (k.sorted_kept s);
  small_kept = λ s. l.small_kept (k.small_kept s);
}

module _ {J P : Type 0} (ops : Processor J P) where
  after_event-Kept :
      (m : Merger P) (idx : ℕ) (done : Map Bytes P × Round) → Kept m (after_event ops m idx done)
  after_event-Kept m idx (ps, r) = record {
    difs_kept = refl;
    purge_kept = refl;
    running_kept = refl;
    sorted_kept = update-IsSorted idx (λ _. r.dss) m.events;
    small_kept = update-All _ idx (λ _. r.dss) m.events (λ j w q. q);
  }

  process_found-Kept :
      (idx : ℕ) (m : Merger P) (dss : List Buffer) {m' : Merger P}
      → process_found ops idx m dss ≡ ok m'
      → Kept m m'
  process_found-Kept idx m dss {m'} h = elim (Bool-cases (length dss == m.difs)) [
    | inr short ↦ subst (Kept m) (cc (rw (short, process_found) at h)) (Kept-refl m)
    | inl full ↦ elim (Bool-cases (idx == 0)) [
      | inl zero_event ↦
          subst (Kept m) (cc (rw (full, zero_event, process_found) at h)) (Kept-refl m)
      | inr other ↦
          elim (Result-cases (
            run_processors ops idx m.run_header m.processors (record {
              write_header = m.write_header;
              next_event_header = m.next_event_header;
              dss = dss;
            }))) [
              | inr (e, bad) ↦ absurd (cc (rw (full, other, bad, process_found) at h))
              | inl (done, ran) ↦
                  subst (Kept m) (cc (rw (full, other, ran, process_found) at h))
                    (after_event-Kept m idx done)
            ]
    ]
  ]

  process_event-Kept :
      (idx : ℕ) (m : Merger P) {m' : Merger P} → process_event ops idx m ≡ ok m' → Kept m m'
  unfolding process_event
  process_event-Kept idx m {m'} h = elim (Option-cases (find idx m.events)) [
    | inl missing ↦ absurd (cc (rw (missing, process_event) at h))
    | inr (dss, there) ↦ process_found-Kept idx m dss (rw (there, process_event) at h)
  ]

  build_step-Kept :
      (k l : ℕ) (m : Merger P) {m' : Merger P} {l' : ℕ}
      → build_step ops k l m ≡ ok (m', l')
      → Kept m m'
  build_step-Kept k l m {m'} h = elim (Bool-cases (is_full m.difs k m.events)) [
    | inr short ↦ subst (Kept m) (cc (rw (short, build_step) at h)) (Kept-refl m)
    | inl full ↦ elim (Result-cases (process_event ops (u32 k) m)) [
      | inr (e, bad) ↦ absurd (cc (rw (full, bad, build_step) at h))
      | inl (m₁, done) ↦
          subst (Kept m) (cc (rw (full, done, build_step) at h)) (process_event-Kept (u32 k) m done)
    ]
  ]

  pub build_events-Kept :
      (ks : List ℕ) (l : ℕ) (m : Merger P) {m' : Merger P} {l' : ℕ}
      → build_events ops ks l m ≡ ok (m', l')
      → Kept m m'
  unfolding build_events
  build_events-Kept [] l m {m'} h = subst (Kept m) (ground arith) (Kept-refl m)
  build_events-Kept (k ∷ ks) l m {m'} h = elim (Result-cases (build_step ops k l m)) [
    | inr (e, bad) ↦ absurd (cc (rw (bad, build_events) at h))
    | inl ((m₁, l₁), done) ↦
        Kept-trans (build_step-Kept k l m done)
          (build_events-Kept ks l₁ m₁ (rw (done, build_events) at h))
  ]
