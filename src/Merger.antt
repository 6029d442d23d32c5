-- ===== src/Merger.antt =====
-- src/zmMerger.cc: the event builder. It collects the buffers of one event number until every source
-- has sent one, hands the event to the processors, and forgets it. `P` is the type of the plugins'
-- objects and `J` that of `Json::Value`; a merger is a puller with the fields below.
pub mod Receive
pub mod Processors
pub mod Data
pub mod Events
pub mod Building
pub mod Contract
pub mod Kept
pub mod Invariant
pub mod Running
pub mod Runs
pub mod Headers
pub mod Purging
pub mod Status
use zdaq.Base.{
  ℕ, ◌+◌, ◌≡◌, Bool, true, false, List, [], ◌∷◌, ◌==◌, map, Option, none, some, length,
  if◌then◌else◌, u32, ◌-◌, ◌^◌, Result, ok, ◌>>=◌,
}
use zdaq.Base.Memory.{Bytes}
use zdaq.Base.Order.{nat_ord, bytes_ord}
use zdaq.Base.Map
use zdaq.Base.Map.{Map}
use zdaq.Buffer.{Buffer}
use zdaq.Puller
use zdaq.Puller.{Puller}
use zdaq.Processor.{Processor}

-- `nextEventHeader` is an int32_t, by its bit pattern.
pub record Merger (P : Type 0) : Type 0 where
  pub puller : Puller
  pub difs : ℕ
  pub processors : Map Bytes P
  pub events : Map ℕ (List Buffer)
  pub running : Bool
  pub purge : Bool
  pub write_header : Bool
  pub run : ℕ
  pub evt : ℕ
  pub build : ℕ
  pub total_size : ℕ
  pub compressed_size : ℕ
  pub next_event_header : ℕ
  pub run_header : List ℕ
  pub received : Map Bytes ℕ

abbrev pub minus_one : ℕ
minus_one = 2 ^ 32 - 1

-- `_run`, `_evt`, `_build` and the sizes are not initialised before `start`; they are 0 here.
unfoldable pub make : {P : Type 0} → Merger P
make = record {
  puller = Puller.make;
  difs = 0;
  processors = [];
  events = [];
  running = false;
  purge = true;
  write_header = false;
  run = 0;
  evt = 0;
  build = 0;
  total_size = 0;
  compressed_size = 0;
  next_event_header = minus_one;
  run_header = [];
  received = [];
}

module _ {P : Type 0} where
  unfoldable pub clear : Merger P → Merger P
  clear m = record m { events = []; processors = []; received = [] }

  -- The object that the plugin's library makes is given.
  unfoldable pub register_processor : Bytes → P → Merger P → Merger P
  register_processor name p m = record m { processors = Map.insert name p m.processors }

  unfoldable pub unregister_processor : Bytes → Merger P → Merger P
  unregister_processor name m = record m { processors = Map.erase name m.processors }

  unfoldable pub register_data_source : Bytes → Merger P → Merger P
  register_data_source url m = record m { puller = Puller.add_input_stream url true m.puller }

  unfoldable pub set_number_of_data_source : ℕ → Merger P → Merger P
  set_number_of_data_source k m = record m { difs = k }

  unfoldable pub set_purge : Bool → Merger P → Merger P
  set_purge t m = record m { purge = t }

  unfoldable pub set_run_header_event : ℕ → Merger P → Merger P
  set_run_header_event n m = record m { next_event_header = n }

  -- The call that asks for the run header to be written.
  unfoldable pub process_run_header : Merger P → Merger P
  process_run_header m = record m { write_header = true }

  unfoldable pub number_of_data_packet : ℕ → Merger P → ℕ
  number_of_data_packet k m = elim (Map.find k m.events) [ none ↦ 0 | some v ↦ u32 (length v) ]

  module _ {J : Type 0} (ops : Processor J P) where
    unfoldable pub load_each : J → Map Bytes P → Result (Map Bytes P)
    load_each params [] = ok []
    load_each params ((name, p) ∷ rest) = do
      p' ← ops.load_parameters params p
      rest' ← load_each params rest
      ok ((name, p') ∷ rest')

    unfoldable pub load_parameters : J → Merger P → Result (Merger P)
    unfolding load_each
    load_parameters params m = do
      ps ← load_each params m.processors
      ok (record m { processors = ps })

    -- The thread that `start` makes begins by `scanMemory`.
    unfoldable pub start : ℕ → Merger P → Merger P
    start nr m = record m {
      run = nr;
      evt = 0;
      build = 0;
      total_size = 0;
      compressed_size = 0;
      events = [];
      processors = map (λ e. (e.0, ops.start nr e.1)) m.processors;
      running = true;
    }

    unfoldable pub scan_memory : Merger P → Merger P
    scan_memory m = record m { puller = Puller.begin_poll (Puller.enable_polling m.puller) }

    unfoldable pub stop : Merger P → Merger P
    stop m = record m {
      running = false;
      puller = Puller.disable_polling m.puller;
      processors = map (λ e. (e.0, ops.stop e.1)) m.processors;
    }
