-- ===== src/Merger/Building.antt =====
-- The loop of `processData` over the complete events: it meets one at most, the event that the new
-- buffer completes.
use zdaq.Base.{
  ℕ, ◌≡◌, refl, ap, ◌≢◌, inl, inr, true, false, List, [], ◌∷◌, ◌==◌, some, length, u32, arith,
  Option-cases, All, Result-cases, ok,
}
use zdaq.Base.Order.{nat_ord}
use zdaq.Base.Memory.{Bytes}
use zdaq.Base.Map.{Map, find}
use zdaq.Base.Entries.{Absent, Once, here, later, find-All}
use zdaq.Buffer.{Buffer}
use zdaq.Processor.{Processor}
use zdaq.Merger.{Merger}
use zdaq.Merger.Processors.{Round, header_step, turn, run_processors, after_event, process_event}
use zdaq.Merger.Data.{is_full, build_events}
use zdaq.Merger.Events.{Events, NoneFull}

pub is_full_none : (d k : ℕ) (ev : Events) → NoneFull d ev → is_full d k ev ≡ false
is_full_none d k ev h = elim (Option-cases (find k ev)) [
  | inl missing ↦ rw (missing, is_full)
  | inr (dss, there) ↦
      let open_still : length dss ≢ d = find-All (λ v. length v ≢ d) k ev h there in
      rw (there, is_full) (ground arith)
]

module _ {J P : Type 0} (ops : Processor J P) where
  pub build_none :
      (ks : List ℕ) (l : ℕ) (m : Merger P)
      → All (λ k. is_full m.difs k m.events ≡ false) ks
      → build_events ops ks l m ≡ ok (m, l)
  unfolding build_events
  build_none [] l m h = refl
  build_none (k ∷ ks) l m h = rw h.0 (build_none ks l m h.1)

  All-false :
      (ks : List ℕ) (gtc : ℕ) (m : Merger P)
      → ((k : ℕ) → k ≢ gtc → is_full m.difs k m.events ≡ false)
      → Absent gtc ks
      → All (λ k. is_full m.difs k m.events ≡ false) ks
  All-false [] gtc m f a = tt
  All-false (k ∷ ks) gtc m f a = (f k a.0, All-false ks gtc m f a.1)

  pub build_once :
      (ks : List ℕ) (gtc l : ℕ) (m m' : Merger P)
      → Once gtc ks
      → is_full m.difs gtc m.events ≡ true
      → process_event ops (u32 gtc) m ≡ ok m'
      → ((k : ℕ) → k ≢ gtc → is_full m.difs k m.events ≡ false)
      → ((k : ℕ) → k ≢ gtc → is_full m'.difs k m'.events ≡ false)
      → build_events ops ks l m ≡ ok (m', u32 gtc)
  unfolding build_events
  build_once [] gtc l m m' once full done before after = elim once [ ]
  build_once (k ∷ ks) gtc l m m' (here a) full done before after =
      rw (full, done) (build_none ks (u32 gtc) m' (All-false ks gtc m' after a))
  build_once (k ∷ ks) gtc l m m' (later ne o) full done before after =
      rw (before k ne) (build_once ks gtc l m m' o full done before after)

  pub process_event_complete :
      (idx : ℕ) (m : Merger P) (dss : List Buffer) (done : Map Bytes P × Round)
      → find idx m.events ≡ some dss
      → length dss ≡ m.difs
      → idx ≢ 0
      → run_processors ops idx m.run_header m.processors (record {
        write_header = m.write_header;
        next_event_header = m.next_event_header;
        dss = dss;
      })
        ≡ ok done
      → process_event ops idx m ≡ ok (after_event ops m idx done)
  unfolding process_event
  process_event_complete idx m dss done there full nonzero ran =
      let full' : (length dss == m.difs) ≡ true = ground arith in
      let nonzero' : (idx == 0) ≡ false = ground arith in
      rw (there, process_event) (rw (full', nonzero', ran))

  pub process_event_zero :
      (m : Merger P) (dss : List Buffer) → find 0 m.events ≡ some dss → process_event ops 0 m ≡ ok m
  unfolding process_event
  process_event_zero m dss there = rw (there, process_event) (ground arith)

  header_step-dss :
      (idx : ℕ) (header : List ℕ) (r : Round) (p : P) {p' : P} {r' : Round}
      → header_step ops idx header r p ≡ ok (p', r')
      → r'.dss ≡ r.dss
  header_step-dss idx header r p h = ground (arith, Result-cases (ops.process_run_header header p))

  turn-length :
      (idx : ℕ) (header : List ℕ) (r : Round) (p : P) {p' : P} {r' : Round}
      → turn ops idx header r p ≡ ok (p', r')
      → length r'.dss ≡ length r.dss
  unfolding turn
  turn-length idx header r p {p'} {r'} h = elim (Result-cases (header_step ops idx header r p)) [
    | inr (e, bad) ↦ absurd (cc (rw (bad, turn) at h))
    | inl ((p₁, r₁), good) ↦ elim (Result-cases (ops.process_event idx r₁.dss p₁)) [
      | inr (e, bad) ↦ absurd (cc (rw (good, turn) at h))
      | inl ((p₂, dss), ran) ↦
          let same = ops.same_length idx r₁.dss p₁ ran in
          let kept = ap length (header_step-dss idx header r p good) in
          let result = rw (good, turn) at h in ground arith
    ]
  ]

  -- The processors give back as many buffers as they got.
  pub run_processors-length :
      (idx : ℕ) (header : List ℕ) (ps : Map Bytes P) (r : Round) {ps' : Map Bytes P} {r' : Round}
      → run_processors ops idx header ps r ≡ ok (ps', r')
      → length r'.dss ≡ length r.dss
  unfolding run_processors
  run_processors-length idx header [] r h = ground arith
  run_processors-length idx header ((name, p) ∷ rest) r {ps'} {r'} h =
      elim (Result-cases (turn ops idx header r p)) [
        | inr (e, bad) ↦ absurd (ground arith)
        | inl ((p₁, r₁), good) ↦ elim (Result-cases (run_processors ops idx header rest r₁)) [
          | inr (e, bad) ↦ absurd (ground arith)
          | inl ((rest', r₂), ran) ↦
              let first = turn-length idx header r p good in
              let others = run_processors-length idx header rest r₁ ran in ground arith
        ]
      ]
