-- ===== src/Buffer.antt =====
-- include/zmBuffer.hh: `zdaq::buffer`, the block of bytes that the processes exchange. It is 20
-- bytes of header and the payload. `_iptr` and `_i64ptr` alias `_ptr`: words are read and written in
-- the same bytes, little endian, as on the machines that the program runs on.
pub mod Fields
pub mod Compression
use zdaq.Base.{
  ℕ, ◌+◌, ◌-◌, ◌*◌, ◌/◌, ◌%◌, ◌^◌, ◌≡◌, Bool, List, [], arith, leb, ◌==◌, if◌then◌else◌, u32,
  length, Result, ok, err, ◌>>=◌, ◌>>◌, guard, or_fault, overrun, indeterminate,
}
use zdaq.Base.Memory.{Bytes, blit, slice, read, write}
use zdaq.Zlib.{Zlib}

-- `cap` is the size of the allocation; `psize` is `_psize`, a uint32.
pub record Buffer : Type 0 where
  pub cap : ℕ
  pub mem : Bytes
  pub psize : ℕ

abbrev pub header_size : ℕ
header_size = 20

unfoldable pub new : ℕ → Buffer
new max_size = record { cap = max_size; mem = []; psize = 0 }

unfoldable pub detector_id : Buffer → ℕ
detector_id b = read 0 4 b.mem % 2 ^ 16

unfoldable pub data_source_id : Buffer → ℕ
data_source_id b = read 4 4 b.mem

unfoldable pub event_id : Buffer → ℕ
event_id b = read 8 4 b.mem

unfoldable pub bx_id : Buffer → ℕ
bx_id b = read 12 8 b.mem

unfoldable pub payload : Buffer → Bytes
payload b = slice 20 b.psize b.mem

unfoldable pub size : Buffer → ℕ
size b = u32 (b.psize + 20)

-- The bytes that a sender copies out of the buffer, `size()` of them.
unfoldable pub image : Buffer → Bytes
unfolding size
image b = slice 0 (size b) b.mem

-- (w & 0xFFFF0000) | (id & 0xFFFF), in arithmetic.
unfoldable pub set_detector_id : ℕ → Buffer → Buffer
set_detector_id id b = record b {
  mem = write 0 4 (read 0 4 b.mem / 2 ^ 16 * 2 ^ 16 + id % 2 ^ 16) b.mem;
}

unfoldable pub set_data_source_id : ℕ → Buffer → Buffer
set_data_source_id id b = record b { mem = write 4 4 id b.mem }

unfoldable pub set_event_id : ℕ → Buffer → Buffer
set_event_id id b = record b { mem = write 8 4 id b.mem }

unfoldable pub set_bx_id : ℕ → Buffer → Buffer
set_bx_id id b = record b { mem = write 12 8 id b.mem }

-- The copy has the length of the text given.
unfoldable pub set_payload : Bytes → Buffer → Result Buffer
set_payload p b = do
  guard (leb (20 + length p) b.cap) overrun
  ok (record b { mem = blit 20 p b.mem; psize = length p })

unfoldable pub set_payload_size : ℕ → Buffer → Buffer
set_payload_size s b = record b { psize = s }

-- `s - 20` wraps.
unfoldable pub set_size : ℕ → Buffer → Buffer
set_size s b = record b { psize = u32 (s + 2 ^ 32 - 20) }

-- `_iptr[0] & (1 << 16)`: 0 or 65536.
abbrev pub masked : Buffer → ℕ
masked b = read 0 4 b.mem / 2 ^ 16 % 2 * 2 ^ 16

abbrev with_bit : ℕ → ℕ
with_bit w = if w / 2 ^ 16 % 2 == 0 then w + 2 ^ 16 else w

abbrev without_bit : ℕ → ℕ
without_bit w = if w / 2 ^ 16 % 2 == 0 then w else w - 2 ^ 16

-- `unsigned char obuf[0x100000]`.
abbrev pub obuf_size : ℕ
obuf_size = 0x100000

-- The copy back over the payload, the new flag word, the new size.
replace : Bytes → (ℕ → ℕ) → Buffer → Result Buffer
replace out flag b = do
  guard (leb (20 + length out) b.cap) overrun
  let mem = blit 20 out b.mem
  ok (record b { mem = write 0 4 (flag (read 0 4 mem)) mem; psize = length out })

-- zlib's return code is not looked at: where it fails, what is copied is not determined.
unfoldable pub compress : Zlib → Buffer → Result Buffer
unfolding replace
compress z b = if masked b == 1 then ok b else do
  guard (leb (20 + b.psize) b.cap) overrun
  guard (leb (length (z.deflate (payload b))) obuf_size) indeterminate
  replace (z.deflate (payload b)) with_bit b

unfoldable pub uncompress : Zlib → Buffer → Result Buffer
unfolding replace
uncompress z b = if masked b == 0 then ok b else do
  guard (leb (20 + b.psize) b.cap) overrun
  out ← or_fault (z.inflate (payload b)) indeterminate
  guard (leb (length out) obuf_size) indeterminate
  replace out without_bit b
