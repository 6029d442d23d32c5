-- ===== src/Examples/Collectors.antt =====
-- A collector that is told not to purge.
use zdaq.Base.{◌≡◌, refl, none, some, [], ok, if◌then◌else◌}
use zdaq.Base.Memory.{Bytes}
use zdaq.Base.Text.{codes, bytes_eq, scan_digits}
use zdaq.Zlib.{storing}
use zdaq.Puller.{emptying}
use zdaq.Json.Packed.{packed}
use zdaq.Processor.{Processor}
use zdaq.Web.{Request}
use zdaq.Examples.{Log}
use zdaq.Examples.Apps.{environment}
use zdaq.Fsm.Runs
use zdaq.Fsm.Runs.{moves}
use zdaq.Merger
use zdaq.Wire.{scan_long, skip_space}
use zdaq.Builder
use zdaq.Builder.Machine
use zdaq.Builder.Runs.{registers, Run-IsInStep}
use zdaq.Collector
use zdaq.Collector.{Collector}
use zdaq.Collector.Machine.{make_server}
use zdaq.Collector.Sound.{IsInStep}
use zdaq.Collector.Reach.{here, next, purges, Reach-IsInStep}

abbrev noting : Processor Bytes Log
noting = record {
  start = λ nr log. [];
  stop = λ log. log;
  process_event = λ key dss log. ok (log, dss);
  process_run_header = λ header log. ok log;
  load_parameters = λ params log. ok log;
  same_length = λ key dss p h. cc;
}

abbrev plugin : Bytes → Log
plugin name = []

abbrev request : Request
request k = if bytes_eq k (codes "active") then some (codes "0") else none

abbrev told : Collector Bytes Log
told = (Collector.c_purge packed request (Collector.make packed environment)).1

Reach-IsInStep_example :
    IsInStep (make_server packed noting plugin environment (codes "evb")).fsm.state told
Reach-IsInStep_example =
    Reach-IsInStep packed noting plugin storing emptying environment (codes "evb")
      (next here (purges request refl))

abbrev three : Request
three k = if bytes_eq k (codes "dsnumber") then some (codes "3") else none

abbrev widened : Collector Bytes Log
widened = (Builder.registerds packed three (Collector.make packed environment)).1

expects_three : widened.merger.difs ≡ 3
unfolding Builder.registerds Collector.make Merger.make Merger.set_number_of_data_source bytes_eq
    scan_long skip_space scan_digits
expects_three = refl

Run-IsInStep_example :
    IsInStep (Machine.make_server packed noting plugin environment (codes "evb")).fsm.state widened
Run-IsInStep_example =
    Run-IsInStep packed noting plugin storing emptying environment (codes "evb")
      (moves Runs.here (registers three refl))
