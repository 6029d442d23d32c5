-- ===== src/Monitor.antt =====
-- src/zPublisher.cc and src/zSubscriber.cc: the status of a piece of hardware, published with the text
-- "hardware@location@time" in front of it, and the items that a subscriber keeps of its streams.
pub mod RoundTrip
pub mod Streams
use zdaq.Base.{
  ℕ, ◌+◌, Bool, true, false, Option, none, some, List, [], ◌∷◌, ◌++◌, leb, ◌==◌, length,
  if◌then◌else◌, Result, ok, err, ◌>>=◌, guard, overrun,
}
use zdaq.Base.Memory.{Bytes}
use zdaq.Base.Text.{codes, decimal}
use zdaq.Wire.{scan_long}
use zdaq.Json.{Json}

pub record Publisher : Type 0 where
  pub hardware : Bytes
  pub location : Bytes

abbrev pub head_text : ℕ → Publisher → Bytes
head_text time p = p.hardware ++ (codes "@" ++ (p.location ++ (codes "@" ++ decimal time)))

-- `boost::split(strs, s, is_any_of("@"))`: at least one piece, and empty ones are kept.
abbrev prepend : ℕ → List Bytes → List Bytes
prepend c [] = (c ∷ []) ∷ []
prepend c (piece ∷ pieces) = (c ∷ piece) ∷ pieces

unfoldable pub split : Bytes → List Bytes
split [] = [] ∷ []
split (c ∷ s) = let pieces = split s in if c == b'@' then [] ∷ pieces else prepend c pieces

pub record Item (J : Type 0) : Type 0 where
  pub address : Bytes
  pub hardware : Bytes
  pub location : Bytes
  pub time : ℕ
  pub status : J

-- `strs[0]`, `strs[1]` and `strs[2]`.
abbrev pub fields : List Bytes → Result (Bytes × Bytes × Bytes)
fields [] = err overrun
fields (h ∷ []) = err overrun
fields (h ∷ l ∷ []) = err overrun
fields (h ∷ l ∷ t ∷ rest) = ok (h, l, t)

-- `sscanf(…, "%lld", &_time)`, a 64-bit pattern, which leaves the time where there is no number.
abbrev pub time_in : ℕ → Bytes → ℕ
time_in time s = elim (scan_long s) [ none ↦ time | some found ↦ found.0 ]

module _ {J : Type 0} (json : Json J) where
  -- The two parts of a message; `time` is that of the clock.
  unfoldable pub post : ℕ → J → Publisher → Bytes × Bytes
  post time status p = (head_text time p, json.write status)

  abbrev make_item : Bytes → Item J
  make_item address = record {
    address = address;
    hardware = [];
    location = [];
    time = 0;
    status = json.null;
  }

  abbrev pub status_in : J → Bytes → J
  status_in status contents = elim (json.parse contents) [ none ↦ status | some v ↦ v ]

  unfoldable pub process_data : Bytes → Bytes → Item J → Result (Item J)
  process_data address contents item = do
    (hardware, location, time) ← fields (split address)
    ok (record item {
      hardware = hardware;
      location = location;
      time = time_in item.time time;
      status = status_in item.status contents;
    })

-- A handler is given the vector of the items by reference.
pub record Subscriber (J : Type 0) : Type 0 where
  pub items : List (Item J)
  pub handlers : List (List (Item J) → List (Item J))
  pub running : Bool

unfoldable make : {J : Type 0} → Subscriber J
make = record { items = []; handlers = []; running = false }

unfoldable clear : {J : Type 0} → Subscriber J → Subscriber J
clear s = record s { items = []; handlers = [] }

unfoldable add_handler :
    {J : Type 0} → (List (Item J) → List (Item J)) → Subscriber J → Subscriber J
add_handler f s = record s { handlers = s.handlers ++ f ∷ [] }

-- `start` and `stop`, without the thread that polls in between.
unfoldable start : {J : Type 0} → Subscriber J → Subscriber J
start s = record s { running = true }

unfoldable stop : {J : Type 0} → Subscriber J → Subscriber J
stop s = record s { running = false }

-- `_nItems`, once the items are copied into the array of 1024.
unfoldable polled : {J : Type 0} → Subscriber J → Result ℕ
polled s = do _ ← guard (leb (length s.items) 1024) overrun; ok (length s.items)

abbrev handled : {J : Type 0} → List (List (Item J) → List (Item J)) → List (Item J) → List (Item J)
handled [] items = items
handled (f ∷ fs) items = handled fs (f items)

module _ {J : Type 0} (json : Json J) where
  unfoldable add_stream : Bytes → Subscriber J → Subscriber J
  add_stream address s = record s { items = s.items ++ make_item json address ∷ [] }

  -- A message or none for each item that is polled, in their order.
  unfoldable pub receive : List (Option (Bytes × Bytes)) → List (Item J) → Result (List (Item J))
  receive [] items = ok items
  receive (m ∷ ms) [] = err overrun
  receive (none ∷ ms) (item ∷ items) = do rest ← receive ms items; ok (item ∷ rest)
  receive (some message ∷ ms) (item ∷ items) = do
    item' ← process_data json message.0 message.1 item
    rest ← receive ms items
    ok (item' ∷ rest)

  abbrev any_arrived : List (Option (Bytes × Bytes)) → Bool
  any_arrived [] = false
  any_arrived (none ∷ ms) = any_arrived ms
  any_arrived (some message ∷ ms) = true

  -- One round of the loop; without a message the handlers are not called.
  unfoldable pub poll_round : List (Option (Bytes × Bytes)) → Subscriber J → Result (Subscriber J)
  poll_round ms s =
      if any_arrived ms
      then (do items ← receive ms s.items; ok (record s { items = handled s.handlers items }))
      else ok s
