-- ===== src/Examples/Runs.antt =====
-- A merger from its construction on: a plugin, a start, and a message.
use zdaq.Base.{◌≡◌, refl, true, false, [], ◌∷◌, ok}
use zdaq.Zlib.{storing}
use zdaq.Buffer
use zdaq.Buffer.{uncompress}
use zdaq.Base.Map
use zdaq.Base.Order.{nat_ord, bytes_ord}
use zdaq.Base.Text.{scan_digits, decimal}
use zdaq.Base.Memory.{Bytes, blit, slice, read, decode}
use zdaq.Puller.{emptying, message, handle}
use zdaq.Puller
use zdaq.Wire.{
  data_header, source_header, id_header, is_registering, scan_identity, expect, scan_int, scan_long,
  skip_space,
}
use zdaq.Merger.Receive.{copy_in}
use zdaq.Merger.Processors.{process_event, run_processors, turn}
use zdaq.Merger
use zdaq.Merger.{Merger}
use zdaq.Merger.Data.{
  poll_step, process_data, store, push, build_events, finish, purged, erase_full, purge_old,
  count_source,
}
use zdaq.Merger.Invariant.{IsWell}
use zdaq.Merger.Runs.{Step, Reach, Reach-IsWell}
use zdaq.Examples.{Log, recorder, frame_bytes}

abbrev text : Bytes
text = data_header (source_header 5 2) 7 77

-- One source is expected, and its message completes the event.
abbrev started : Merger Log
started = record (Merger.make {P = Log}) {
  processors = (b'A' ∷ [], []) ∷ [];
  running = true;
  run = 12;
}

abbrev registered : Merger Log
registered = record started { puller = record started.puller { nregistered = 1 } }

abbrev processed : Merger Log
processed = record registered {
  difs = 1;
  processors = (b'A' ∷ [], (7, 1) ∷ []) ∷ [];
  evt = 7;
  build = 1;
  total_size = 3;
  compressed_size = 3;
  received = (source_header 5 2, 1) ∷ [];
}

starts_up :
    started ≡ Merger.start recorder 12 (Merger.register_processor (b'A' ∷ []) [] Merger.make)
unfolding Merger.make Merger.start Merger.register_processor Map.insert
starts_up = refl

registers_source :
    poll_step recorder storing emptying (message (id_header 5 2) [] false) started
    ≡ ok (registered, [])
unfolding poll_step handle is_registering id_header Merger.make zdaq.Puller.make
registers_source = refl

completes :
    poll_step recorder storing emptying (message text frame_bytes false) registered
    ≡ ok (processed, [])
unfolding poll_step handle is_registering data_header source_header Merger.make zdaq.Puller.make
    process_data scan_identity expect scan_int scan_long skip_space copy_in blit Buffer.new
    Buffer.set_size uncompress read slice decode store push build_events process_event
    run_processors turn finish purged erase_full purge_old count_source Map.find Map.insert
    Map.update decimal scan_digits
completes = refl

reached : Reach recorder storing emptying true processed
unfolding zdaq.Merger.Runs.settles handle Merger.make zdaq.Puller.make is_registering data_header
    source_header
reached =
    let plugged = Reach.next Reach.here (Step.registers (b'A' ∷ []) [] refl) in
    let began = Reach.next plugged (Step.starts 12 starts_up) in
    let known =
      Reach.next began (Step.arrive (message (id_header 5 2) [] false) [] registers_source) in
    Reach.next known (Step.arrive (message text frame_bytes false) [] completes)

Reach-IsWell_example : IsWell true processed
Reach-IsWell_example = Reach-IsWell recorder storing emptying reached
