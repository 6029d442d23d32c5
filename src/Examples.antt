-- ===== src/Examples.antt =====
-- Concrete buffers, sources and mergers, and the runs of the theorems on them.
mod Buffers
mod Texts
mod Sources
mod Mergers
mod Monitors
mod Monitorings
mod Runs
mod Machines
mod Jobs
mod FailedStarts
mod Writers
mod Callers
mod Tails
mod Webs
mod Apps
mod Collectors
mod Routers
mod Triggers
use zdaq.Base.{ℕ, List, [], ◌∷◌, ◌++◌, refl, ok, length}
use zdaq.Base.Memory.{Bytes}
use zdaq.Buffer.{Buffer}
use zdaq.Processor.{Processor}
use zdaq.Merger
use zdaq.Merger.{Merger}

-- Detector 5, source 2, event 7, crossing 77, and three bytes of payload.
abbrev pub frame_bytes : Bytes
frame_bytes =
    5 ∷ 0 ∷ 0 ∷ 0 ∷ 2 ∷ 0 ∷ 0 ∷ 0 ∷ 7 ∷ 0 ∷ 0 ∷ 0 ∷ 77 ∷ 0 ∷ 0 ∷ 0 ∷ 0 ∷ 0 ∷ 0 ∷ 0 ∷ 1 ∷ 2 ∷ 3 ∷ []

abbrev pub small_buffer : Buffer
small_buffer = record { cap = 64; mem = frame_bytes; psize = 3 }

-- A plugin that notes the number and the number of buffers of each event.
abbrev pub Log : Type 0
Log = List (ℕ × ℕ)

abbrev pub recorder : Processor (Unit {0}) Log
recorder = record {
  start = λ nr log. [];
  stop = λ log. log;
  process_event = λ key dss log. ok (log ++ (key, length dss) ∷ [], dss);
  process_run_header = λ header log. ok ((0, length header) ∷ log);
  load_parameters = λ params log. ok log;
  same_length = λ key dss p h. cc;
}

-- Two sources are expected; event 7 has one buffer and event 4 too.
abbrev pub waiting : Merger Log
waiting = record (Merger.make {P = Log}) {
  difs = 2;
  events = (4, small_buffer ∷ []) ∷ (7, small_buffer ∷ []) ∷ [];
  processors = (b'A' ∷ [], []) ∷ (b'B' ∷ [], []) ∷ [];
}
