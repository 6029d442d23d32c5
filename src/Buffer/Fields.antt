-- ===== src/Buffer/Fields.antt =====
-- The header fields and the payload of a buffer as a record, and every setter as an update of it.
use zdaq.Base.{ℕ, ◌+◌, ◌-◌, ◌/◌, ◌%◌, ◌^◌, ◌≤◌, ◌<◌, ◌≡◌, arith, le→leb, length, ok}
use zdaq.Base.Memory.{memory_laws, Bytes, blit, read}
use zdaq.Buffer.{
  Buffer, detector_id, data_source_id, event_id, bx_id, payload, size, set_detector_id,
  set_data_source_id, set_event_id, set_bx_id, set_payload, set_size,
}

-- The upper half of the first word holds flags: bit 0 of `flags` says that the payload is compressed.
pub record Packet : Type 0 where
  pub detector : ℕ
  pub flags : ℕ
  pub source : ℕ
  pub event : ℕ
  pub bx : ℕ
  pub body : Bytes

unfoldable pub view : Buffer → Packet
view b = record {
  detector = detector_id b;
  flags = read 0 4 b.mem / 2 ^ 16;
  source = data_source_id b;
  event = event_id b;
  bx = bx_id b;
  body = payload b;
}

module _ (b : Buffer) (v : ℕ) where
  view-set_data_source_id :
      v < 2 ^ 32 → view (set_data_source_id v b) ≡ record (view b) { source = v }
  unfolding view set_data_source_id detector_id data_source_id event_id bx_id payload
  view-set_data_source_id h = grind memory_laws

  view-set_event_id : v < 2 ^ 32 → view (set_event_id v b) ≡ record (view b) { event = v }
  unfolding view set_event_id detector_id data_source_id event_id bx_id payload
  view-set_event_id h = grind memory_laws

  view-set_bx_id : v < 2 ^ 64 → view (set_bx_id v b) ≡ record (view b) { bx = v }
  unfolding view set_bx_id detector_id data_source_id event_id bx_id payload
  view-set_bx_id h = grind memory_laws

  -- Only the low 16 bits of the identity are stored, and the flags stay.
  view-set_detector_id : view (set_detector_id v b) ≡ record (view b) { detector = v % 2 ^ 16 }
  unfolding view set_detector_id detector_id data_source_id event_id bx_id payload
  view-set_detector_id = grind memory_laws

-- Where there is room the payload is the bytes given and no header field moves.
pub view-set_payload :
    (p : Bytes) (b : Buffer)
    → 20 + length p ≤ b.cap
    → (c : Buffer) × (set_payload p b ≡ ok c) × (view c ≡ record (view b) { body = p })
unfolding set_payload view detector_id data_source_id event_id bx_id payload
view-set_payload p b fits =
    (record b { mem = blit 20 p b.mem; psize = length p }, rw (le→leb _ _ fits), grind memory_laws)

-- `set_size` inverts `size`, for the sizes of real messages.
pub size-set_size : (s : ℕ) (b : Buffer) → s < 2 ^ 32 → size (set_size s b) ≡ s
unfolding size set_size
size-set_size s b h = omega arith

-- A message shorter than the header leaves a payload size that has wrapped around.
pub payload_size-set_size : (s : ℕ) (b : Buffer) → s < 20 → (set_size s b).psize ≡ 2 ^ 32 - (20 - s)
unfolding set_size
payload_size-set_size s b h = omega arith

-- Each setter writes its own field and nothing else; of a detector identity 16 bits are kept.
pub view-setters :
    (b : Buffer) (det source event bx : ℕ)
    → source < 2 ^ 32
    → event < 2 ^ 32
    → bx < 2 ^ 64
    → (view (set_detector_id det b) ≡ record (view b) { detector = det % 2 ^ 16 })
      × (view (set_data_source_id source b) ≡ record (view b) { source = source })
      × (view (set_event_id event b) ≡ record (view b) { event = event })
      × (view (set_bx_id bx b) ≡ record (view b) { bx = bx })
view-setters b det source event bx hs he hb = (
  view-set_detector_id b det,
  view-set_data_source_id b source hs,
  view-set_event_id b event he,
  view-set_bx_id b bx hb,
)
