-- ===== src/Merger/Processors.antt =====
-- zmMerger.cc, `processEvent`: one complete event goes through every processor, in the order of the
-- names.
use zdaq.Base.{
  ℕ, ◌+◌, Bool, false, ◌&&◌, List, [], ◌∷◌, ◌==◌, none, some, length, ltb, if◌then◌else◌, u32, ◌^◌,
  Result, ok, err, ◌>>=◌, indeterminate,
}
use zdaq.Base.Memory.{Bytes}
use zdaq.Base.Order.{nat_ord}
use zdaq.Base.Map
use zdaq.Base.Map.{Map}
use zdaq.Buffer.{Buffer}
use zdaq.Processor.{Processor}
use zdaq.Merger.{Merger, minus_one}

-- What the loop over the processors changes besides them.
pub record Round : Type 0 where
  pub write_header : Bool
  pub next_event_header : ℕ
  pub dss : List Buffer

-- `_nextEventHeader > 0 && _nextEventHeader == idx`, on an int32_t.
abbrev pub is_due : ℕ → ℕ → Bool
is_due next idx = ltb 0 next && ltb next (2 ^ 31) && next == idx

module _ {J P : Type 0} (ops : Processor J P) (idx : ℕ) (header : List ℕ) where
  abbrev pub header_step : Round → P → Result (P × Round)
  header_step r p =
      if r.write_header && is_due r.next_event_header idx
      then (do
        p' ← ops.process_run_header header p
        ok (p', record r { write_header = false; next_event_header = minus_one }))
      else ok (p, r)

  -- The body of the loop.
  unfoldable pub turn : Round → P → Result (P × Round)
  turn r p = do
    (p₁, r₁) ← header_step r p
    (p₂, dss) ← ops.process_event idx r₁.dss p₁
    ok (p₂, record r₁ { dss = dss })

  unfoldable pub run_processors : Map Bytes P → Round → Result (Map Bytes P × Round)
  run_processors [] r = ok ([], r)
  run_processors ((name, p) ∷ rest) r = do
    (p', r₁) ← turn r p
    (rest', r₂) ← run_processors rest r₁
    ok ((name, p') ∷ rest', r₂)

module _ {J P : Type 0} (ops : Processor J P) where
  abbrev pub after_event : Merger P → ℕ → Map Bytes P × Round → Merger P
  after_event m idx (ps, r) = record m {
    evt = idx;
    build = u32 (m.build + 1);
    processors = ps;
    write_header = r.write_header;
    next_event_header = r.next_event_header;
    events = Map.update idx (λ _. r.dss) m.events;
  }

  abbrev pub process_found : ℕ → Merger P → List Buffer → Result (Merger P)
  process_found idx m dss =
      if length dss == m.difs
      then if idx == 0 then ok m else (do
        done ← run_processors ops idx m.run_header m.processors (record {
          write_header = m.write_header;
          next_event_header = m.next_event_header;
          dss = dss;
        })
        ok (after_event m idx done))
      else ok m

  -- With no entry under the number, the code dereferences the end of the map.
  unfoldable pub process_event : ℕ → Merger P → Result (Merger P)
  process_event idx m = elim (Map.find idx m.events) [
    | none ↦ err indeterminate
    | some dss ↦ process_found idx m dss
  ]
