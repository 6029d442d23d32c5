-- ===== src/Examples/Mergers.antt =====
-- One message at a merger that waits for the second buffer of event 7.
use zdaq.Base.{
  ℕ, ◌+◌, ◌-◌, ◌^◌, ◌≤◌, ◌<◌, ◌≡◌, ◌≢◌, refl, true, false, [], ◌∷◌, ◌++◌, none, some, ok, arith,
  length, ltb, if◌then◌else◌, ◌==◌, ◌>>=◌,
}
use zdaq.Base.Memory.{Bytes, slice, decode, read, blit}
use zdaq.Base.Map.{Map, find}
use zdaq.Base.Order.{nat_ord}
use zdaq.Zlib.{storing}
use zdaq.Buffer
use zdaq.Buffer.{Buffer, uncompress}
use zdaq.Wire.{data_header, source_header, Identity, is_registering}
use zdaq.Wire.RoundTrip.{scan_identity-data_header}
use zdaq.Puller.{emptying, handle, message, has_publisher, Puller, add_output_stream}
use zdaq.Merger
use zdaq.Merger.{Merger, minus_one}
use zdaq.Merger.Receive.{copy_in, buffer_size}
use zdaq.Merger.Processors.{Round, run_processors}
use zdaq.Merger.Data.{process_data, push, purged, purge_old, number_of_sources}
use zdaq.Merger.Events.{NoneFull, find-push, collected}
use zdaq.Merger.Contract.{Taken, overflow, process_data_incomplete}
use zdaq.Merger.Headers.{plain, run_processors-header}
use zdaq.Merger.Purging.{find-purged, purged_negative, handle-forwarded}
use zdaq.Examples.{Log, recorder, waiting, frame_bytes}

-- The buffer that `frame_bytes` is taken into.
abbrev taken : Buffer
taken = record { cap = buffer_size; mem = frame_bytes; psize = 3 }

abbrev text : ℕ → Bytes
text gtc = data_header (source_header 5 2) gtc 77

abbrev named : ℕ → Identity
named gtc = record { detector = 5; source = 2; gtc = gtc }

taken_in : copy_in frame_bytes ≡ ok taken
unfolding copy_in blit Buffer.new Buffer.set_size
taken_in = refl

not_packed : uncompress storing taken ≡ ok taken
unfolding uncompress read slice decode
not_packed = refl

waiting-NoneFull : NoneFull (number_of_sources waiting) waiting.events
unfolding Merger.make zdaq.Puller.make
waiting-NoneFull = (λ h. grind arith, (λ h. grind arith, tt))

message-Taken :
    (gtc : ℕ)
    → gtc < 2 ^ 32
    → Taken recorder storing (text gtc) frame_bytes waiting (named gtc) taken
message-Taken gtc h = record {
  packed = taken;
  scanned = scan_identity-data_header 5 2 gtc 77 (omega arith) (omega arith) h;
  copied = taken_in;
  expanded = not_packed;
  sorted = (refl, tt);
  none_full = waiting-NoneFull;
}

third_event : length (collected 9 waiting.events ++ taken ∷ []) ≢ number_of_sources waiting
unfolding find Merger.make zdaq.Puller.make
third_event h = grind arith

process_data_incomplete_example :
    (m' : Merger Log) × (process_data recorder storing (text 9) frame_bytes waiting ≡ ok m')
    × (m'.events ≡ overflow waiting.purge (push 9 taken waiting.events))
    × (m'.processors ≡ waiting.processors)
    × (m'.build ≡ waiting.build)
    × (m'.evt ≡ waiting.evt)
process_data_incomplete_example =
    process_data_incomplete recorder storing (text 9) frame_bytes waiting (named 9) taken
      (message-Taken 9 (omega arith)) third_event

abbrev logged : Map Bytes Log
logged = (b'A' ∷ [], (7, 2) ∷ []) ∷ (b'B' ∷ [], (7, 2) ∷ []) ∷ []

abbrev after : Round
after = record {
  write_header = false;
  next_event_header = minus_one;
  dss = collected 7 waiting.events ++ taken ∷ [];
}

-- One source is expected, and sends event 0.
abbrev alone : Merger Log
alone = record waiting { difs = 1; events = [] }

zero-Taken : Taken recorder storing (text 0) frame_bytes alone (named 0) taken
zero-Taken = record {
  packed = taken;
  scanned = scan_identity-data_header 5 2 0 77 (omega arith) (omega arith) (omega arith);
  copied = taken_in;
  expanded = not_packed;
  sorted = tt;
  none_full = tt;
}

only_buffer : length (collected 0 alone.events ++ taken ∷ []) ≡ number_of_sources alone
unfolding find Merger.make zdaq.Puller.make
only_buffer = refl

few_left : length (purge_old 1500 waiting.events) ≤ 200
unfolding purge_old
few_left = omega arith

find-purged_example :
    find 7 (purged true 1500 waiting.events)
    ≡ (if ltb (7 + 1000) 1500 then none else find 7 waiting.events)
find-purged_example =
    find-purged 1500 waiting.events 7 (refl, tt) (omega arith) (omega arith) few_left

purged_negative_example : purged true (2 ^ 31) waiting.events ≡ []
purged_negative_example =
    purged_negative (2 ^ 31) waiting.events (omega arith, (omega arith, tt)) (omega arith)
      (omega arith)

abbrev requested : Round
requested = record { write_header = true; next_event_header = 7; dss = taken ∷ [] }

run_processors-header_example :
    run_processors recorder 7 (3 ∷ []) ((b'A' ∷ [], []) ∷ (b'B' ∷ [], []) ∷ []) requested ≡ (do
      p₁ ← recorder.process_run_header (3 ∷ []) []
      (ps, dss) ← plain recorder 7 (3 ∷ []) ((b'A' ∷ [], p₁) ∷ (b'B' ∷ [], []) ∷ []) (taken ∷ [])
      ok (ps, record { write_header = false; next_event_header = minus_one; dss = dss }))
run_processors-header_example =
    run_processors-header recorder 7 (3 ∷ []) (b'A' ∷ []) [] ((b'B' ∷ [], []) ∷ []) requested refl
      refl

abbrev publishing : Puller
publishing = record {
  connect_stream = [];
  bind_stream = [];
  outputs = (b'P' ∷ []) ∷ [];
  running = true;
  nregistered = 0;
}

plain_text : is_registering (text 9) ≡ false
unfolding is_registering data_header source_header
plain_text = refl

handle-forwarded_example :
    ((handle emptying (message (text 9) frame_bytes true) publishing).forwarded
      ≡ (text 9, frame_bytes) ∷ [])
    × ((handle emptying (message (text 9) frame_bytes true) publishing).processed
        ≡ some (text 9, []))
    × (c : Buffer) × (copy_in [] ≡ ok c)
    × (c.psize ≡ 2 ^ 32 - 20)
handle-forwarded_example = handle-forwarded emptying (text 9) frame_bytes publishing refl plain_text

find-push_example :
    find 7 (push 7 taken waiting.events)
    ≡ (if 7 == 7 then some (collected 7 waiting.events ++ taken ∷ []) else find 7 waiting.events)
find-push_example = find-push 7 taken 7 waiting.events
