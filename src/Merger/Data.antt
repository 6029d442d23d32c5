-- ===== src/Merger/Data.antt =====
-- zmMerger.cc, `processData`: what one message does to the event map, and the polling step around it.
use zdaq.Base.{
  ℕ, ◌+◌, ◌-◌, ◌^◌, Bool, false, not, List, [], ◌∷◌, ◌++◌, ◌==◌, none, some, length, keep, ltb,
  if◌then◌else◌, u32, u64, Result, ok, ◌>>=◌, indeterminate, or_fault,
}
use zdaq.Base.Memory.{Bytes}
use zdaq.Base.Order.{nat_ord, bytes_ord}
use zdaq.Base.Map
use zdaq.Base.Map.{Map, keys}
use zdaq.Zlib.{Zlib}
use zdaq.Buffer
use zdaq.Buffer.{Buffer}
use zdaq.Wire.{Identity, scan_identity, source_header}
use zdaq.Puller.{Zmq, Arrival, handle}
use zdaq.Processor.{Processor}
use zdaq.Merger.{Merger}
use zdaq.Merger.Receive.{copy_in}
use zdaq.Merger.Processors.{process_event}

-- `it_gtc->second.push_back(b)`, or a new entry.
unfoldable pub push : ℕ → Buffer → Map ℕ (List Buffer) → Map ℕ (List Buffer)
push gtc b events = elim (Map.find gtc events) [
  | none ↦ Map.insert gtc (b ∷ []) events
  | some dss ↦ Map.update gtc (λ v. v ++ b ∷ []) events
]

abbrev pub is_full : ℕ → ℕ → Map ℕ (List Buffer) → Bool
is_full difs k events = elim (Map.find k events) [ none ↦ false | some dss ↦ length dss == difs ]

-- An int32_t, by its bit pattern, compared with a uint64_t: the sign is extended.
abbrev pub extended : ℕ → ℕ
extended w = if ltb w (2 ^ 31) then w else w + (2 ^ 64 - 2 ^ 32)

unfoldable pub erase_full : ℕ → Map ℕ (List Buffer) → Map ℕ (List Buffer)
erase_full difs = keep (λ e. not (length e.1 == difs))

unfoldable pub purge_old : ℕ → Map ℕ (List Buffer) → Map ℕ (List Buffer)
purge_old lastgtc = keep (λ e. not (ltb (u64 (e.0 + 1000)) (extended lastgtc)))

unfoldable pub purge_all : Map ℕ (List Buffer) → Map ℕ (List Buffer)
purge_all = keep (λ e. not (ltb 1 e.0))

unfoldable pub purged : Bool → ℕ → Map ℕ (List Buffer) → Map ℕ (List Buffer)
purged on lastgtc events =
    if on
    then (let recent = purge_old lastgtc events in
        if ltb 200 (length recent) then purge_all recent else recent)
    else events

-- The count of the messages of one source, under the text "DS-<detector>-<source>".
unfoldable pub count_source : Bytes → Map Bytes ℕ → Map Bytes ℕ
count_source name received = elim (Map.find name received) [
  | none ↦ Map.insert name 1 received
  | some n ↦ Map.update name (λ c. u64 (c + 1)) received
]

module _ {P : Type 0} where
  abbrev pub number_of_sources : Merger P → ℕ
  number_of_sources m = if m.puller.nregistered == 0 then m.difs else m.puller.nregistered

  -- The state after the buffer is stored.
  unfoldable pub store : Identity → ℕ → Buffer → Merger P → Merger P
  store id packed b m = record m {
    difs = number_of_sources m;
    compressed_size = u32 (m.compressed_size + packed);
    total_size = u32 (m.total_size + b.psize);
    events = push id.gtc b m.events;
  }

  -- What follows the loop: complete events go, then old ones, and the source is counted.
  unfoldable pub finish : Identity → Merger P × ℕ → Merger P
  finish id (m, lastgtc) = record m {
    events = purged m.purge lastgtc (erase_full m.difs m.events);
    received = count_source (source_header id.detector id.source) m.received;
  }

module _ {J P : Type 0} (ops : Processor J P) where
  abbrev pub build_step : ℕ → ℕ → Merger P → Result (Merger P × ℕ)
  build_step k lastgtc m =
      if is_full m.difs k m.events
      then (do m' ← process_event ops (u32 k) m; ok (m', u32 k))
      else ok (m, lastgtc)

  -- The loop over the map that hands over the complete events; `lastgtc` is the last of them.
  unfoldable pub build_events : List ℕ → ℕ → Merger P → Result (Merger P × ℕ)
  build_events [] lastgtc m = ok (m, lastgtc)
  build_events (k ∷ ks) lastgtc m = do
    (m', last') ← build_step k lastgtc m
    build_events ks last' m'

  unfoldable pub process_data : Zlib → Bytes → Bytes → Merger P → Result (Merger P)
  process_data z idd body m = do
    id ← or_fault (scan_identity idd) indeterminate
    packed ← copy_in body
    b ← Buffer.uncompress z packed
    let stored = store id packed.psize b m
    built ← build_events (keys stored.events) 0 stored
    ok (finish id built)

  -- One arrival at the polling loop of a merger.
  unfoldable pub poll_step :
      Zlib → Zmq → Arrival → Merger P → Result (Merger P × List (Bytes × Bytes))
  poll_step z q a m =
      let h = handle q a m.puller in
      let m' = record m { puller = h.puller } in
      elim h.processed [
        | none ↦ ok (m', h.forwarded)
        | some (identity, body) ↦ do done ← process_data z identity body m'; ok (done, h.forwarded)
      ]
