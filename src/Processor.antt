-- ===== src/Processor.antt =====
-- include/zmMerger.hh: `zmprocessor`, the virtual interface of the plugins. The vector of pointers is
-- passed by value and the buffers by reference: a processor may change the buffers that the next one
-- is given, and not how many there are. `J` is `Json::Value`.
use zdaq.Base.{ℕ, ◌≡◌, List, Result, ok, length}
use zdaq.Buffer.{Buffer}

pub record Processor (J P : Type 0) : Type 0 where
  pub start : ℕ → P → P
  pub stop : P → P
  pub process_event : ℕ → List Buffer → P → Result (P × List Buffer)
  pub process_run_header : List ℕ → P → Result P
  pub load_parameters : J → P → Result P
  pub same_length :
      (key : ℕ) (dss : List Buffer) (p : P) {p' : P} {dss' : List Buffer}
      → process_event key dss p ≡ ok (p', dss')
      → length dss' ≡ length dss
