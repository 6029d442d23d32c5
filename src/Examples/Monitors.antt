-- ===== src/Examples/Monitors.antt =====
-- A publisher, and the item of a subscriber.
use zdaq.Base.{◌≡◌, refl, ok, err, overrun, ◌++◌, arith, List, [], ◌∷◌, Option, none, some}
use zdaq.Base.Memory.{Bytes}
use zdaq.Base.Text.{codes, scan_digits}
use zdaq.Json.Packed.{packed}
use zdaq.Monitor.{Publisher, Item, post, process_data, receive, split}
use zdaq.Wire.{scan_long, skip_space}
use zdaq.Monitor.RoundTrip.{process_data-post, process_data-overrun}

abbrev publisher : Publisher
publisher = record { hardware = codes "hv"; location = codes "b1" }

abbrev kept : Item Bytes
kept = record {
  address = codes "tcp://a:1";
  hardware = codes "lv";
  location = codes "b2";
  time = 3;
  status = packed.text (codes "off");
}

process_data-post_example :
    let message = post packed 17 (packed.text (codes "on")) publisher in
    process_data packed message.0 message.1 kept
    ≡ ok (record {
      address = codes "tcp://a:1";
      hardware = codes "hv";
      location = codes "b1";
      time = 17;
      status = packed.text (codes "on");
    })
process_data-post_example =
    process_data-post packed 17 (packed.text (codes "on")) publisher kept
      (omega arith, (omega arith, tt)) (omega arith, (omega arith, tt)) (omega arith)

abbrev updated : Item Bytes
updated = record kept { hardware = codes "hv"; location = codes "b1"; time = 17; status = [] }

abbrev messages : List (Option (Bytes × Bytes))
messages = none ∷ some (codes "hv@b1@17", []) ∷ []

taken : receive packed messages (kept ∷ kept ∷ []) ≡ ok (kept ∷ updated ∷ [])
unfolding receive process_data split scan_long skip_space scan_digits
taken = refl

process_data-overrun_example :
    process_data packed (codes "hv" ++ (codes "@" ++ codes "b1")) [] kept ≡ err overrun
process_data-overrun_example =
    process_data-overrun packed (codes "hv") (codes "b1") [] kept (omega arith, (omega arith, tt))
      (omega arith, (omega arith, tt))
