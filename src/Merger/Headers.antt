-- ===== src/Merger/Headers.antt =====
-- The run header: which processors get it.
use zdaq.Base.{
  ℕ, ◌≡◌, refl, true, false, List, [], ◌∷◌, arith, Result, ok, ◌>>=◌, Result-cases, inl, inr,
}
use zdaq.Base.Memory.{Bytes}
use zdaq.Base.Map.{Map}
use zdaq.Buffer.{Buffer}
use zdaq.Processor.{Processor}
use zdaq.Merger.{minus_one}
use zdaq.Merger.Processors.{Round, is_due, turn, run_processors}

module _ {J P : Type 0} (ops : Processor J P) (idx : ℕ) (header : List ℕ) where
  -- An event through the processors, with no header.
  pub plain : Map Bytes P → List Buffer → Result (Map Bytes P × List Buffer)
  plain [] dss = ok ([], dss)
  plain ((name, p) ∷ rest) dss = do
    (p', dss') ← ops.process_event idx dss p
    (rest', dss'') ← plain rest dss'
    ok ((name, p') ∷ rest', dss'')

  abbrev plain_round : Round → Map Bytes P × List Buffer → Result (Map Bytes P × Round)
  plain_round r (ps, dss) = ok (ps, record r { dss = dss })

  run_processors-plain :
      (ps : Map Bytes P) (r : Round)
      → r.write_header ≡ false
      → run_processors ops idx header ps r ≡ (plain ps r.dss >>= plain_round r)
  unfolding run_processors turn plain
  run_processors-plain [] r off = refl
  run_processors-plain ((name, p) ∷ rest) r off =
      elim (Result-cases (ops.process_event idx r.dss p)) [
        | inr (e, bad) ↦ ground arith
        | inl ((p', dss'), good) ↦
            ground (arith, run_processors-plain rest (record r { dss = dss' }))
      ]

  -- When the header is due, the first processor gets it ahead of the event, and no other one does.
  pub run_processors-header :
      (name : Bytes) (p : P) (rest : Map Bytes P) (r : Round)
      → r.write_header ≡ true
      → is_due r.next_event_header idx ≡ true
      → run_processors ops idx header ((name, p) ∷ rest) r ≡ (do
        p₁ ← ops.process_run_header header p
        (ps, dss) ← plain ((name, p₁) ∷ rest) r.dss
        ok (ps, record { write_header = false; next_event_header = minus_one; dss = dss }))
  unfolding run_processors turn plain
  run_processors-header name p rest r on due =
      elim (Result-cases (ops.process_run_header header p)) [
        | inr (e, bad) ↦ ground arith
        | inl (p₁, headed) ↦ elim (Result-cases (ops.process_event idx r.dss p₁)) [
          | inr (e, bad) ↦ ground arith
          | inl ((p₂, dss), good) ↦ ground (
            arith,
            run_processors-plain rest
                (record { write_header = false; next_event_header = minus_one; dss = dss }),
          )
        ]
      ]
