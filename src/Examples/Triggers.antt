-- ===== src/Examples/Triggers.antt =====
-- A trigger that runs, is halted and runs again.
use zdaq.Base.{◌≡◌, refl, false, true, [], ok, err, indeterminate}
use zdaq.Base.Memory.{Bytes, cut}
use zdaq.Base.Text.{codes, bytes_eq}
use zdaq.Json.Packed.{packed, lookup}
use zdaq.Fsm.Messages.{content}
use zdaq.Examples.Apps.{environment}
use zdaq.Examples.Machines.{asking}
use zdaq.Application.{make_app}
use zdaq.Trigger.{Trigger, live, deleted, set_up, configure, round, start, halt, any_lags}
use zdaq.Trigger.Halted.{round_halted}

abbrev params : Bytes
params = packed.put (codes "microsleep") (packed.number 5) (
    packed.put (codes "tcpPort") (packed.number 6) (
      packed.put (codes "datasize") (packed.number 7)
        (packed.put (codes "ntrg") (packed.number 100) packed.null)))

abbrev trigger : Trigger Bytes
trigger = record {
  app = record (make_app packed environment) { param = params };
  running = true;
  paused = false;
  throttled = false;
  event = 300;
  bx = 300;
  microsleep = 5;
  datasize = 7;
  ntrg = 100;
  port = 6;
  hardware = codes "hw";
  location = codes "b1";
  publisher = live (record { hardware = codes "hw"; location = codes "b1" });
}

abbrev after_halt : Trigger Bytes
after_halt = record trigger { running = false; paused = true; bx = 0; publisher = deleted }

halted : halt packed (asking []) trigger ≡ ok (asking [], after_halt)
unfolding halt
halted = refl

configured : configure packed (asking []) after_halt ≡ ok (asking [], after_halt)
unfolding configure set_up content lookup cut bytes_eq
configured = refl

round_halted_example :
    round packed 0 [] 17
      (record after_halt { event = 0; running = true; paused = false; throttled = false })
    ≡ err indeterminate
unfolding start any_lags
round_halted_example =
    round_halted packed (asking []) (asking []) (asking []) trigger
      (record { hardware = codes "hw"; location = codes "b1" }) 0 17 [] refl halted configured refl
      refl
