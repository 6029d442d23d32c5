-- ===== src/Writer/Headers.antt =====
-- The run header in the file: the headers that fit in the buffer made for them, and those that do not.
use zdaq.Base.{
  ℕ, ◌+◌, ◌*◌, ◌≤◌, ◌<◌, ◌≡◌, refl, ◌∙◌, true, List, [], ◌∷◌, ◌++◌, length, length-append, arith,
  ok, err, overrun, lt→leb, le→leb, lt→ltb, u32,
}
use zdaq.Base.Memory.{blit, encode, length-encode, slice-blit_self}
use zdaq.Zlib.{Zlib}
use zdaq.Buffer.{
  Buffer, new, set_detector_id, set_data_source_id, set_event_id, set_bx_id, set_payload, compress,
  size, payload,
}
use zdaq.Buffer.Compression.{HasRoom, compress_always, length-deflate}
use zdaq.Writer.{
  Writer, is_open, words, header_buffer, process_run_header, append_to, block, store_buffer,
}

length-words : (vs : List ℕ) → length (words vs) ≡ 4 * length vs
length-words [] = refl
length-words (v ∷ vs) =
    length-append (encode 4 v) (words vs) ∙ omega (arith, length-encode 4 v, length-words vs)

cap-header_buffer : (n : ℕ) → (header_buffer n).cap ≡ 128 + n
unfolding new set_detector_id set_data_source_id set_event_id set_bx_id
cap-header_buffer n = refl

-- A header of 37 to 255 words, which the writer accepts, is copied past the end of the buffer made for
-- it: that has room for 108 bytes and one for each word, and a word takes four.
pub process_run_header_overrun :
    (z : Zlib) (header : List ℕ) (w : Writer)
    → is_open w ≡ true
    → 36 < length header
    → length header < 256
    → process_run_header z header w ≡ err overrun
unfolding process_run_header set_payload
process_run_header_overrun z header w on long short =
    let fails : (header_buffer (length header)).cap < 20 + length (words header) =
      omega (arith, cap-header_buffer (length header), length-words header) in
    rw (on, lt→ltb (length header) 256 short, lt→leb _ _ fails) refl

-- A header of at most 31 words is stored: the run number, the number 1, and one buffer that holds the
-- words, compressed.
pub process_run_header_stored :
    (z : Zlib) (header : List ℕ) (w : Writer)
    → is_open w ≡ true
    → length header ≤ 31
    → (b c : Buffer) × (w' : Writer) × (set_payload (words header) (header_buffer (length header))
        ≡ ok b)
      × (compress z b ≡ ok c)
      × (payload b ≡ words header)
      × (process_run_header z header w ≡ ok w')
      × (w'.files ≡ append_to (block c) (append_to (encode 4 w.run ++ encode 4 1) w.files))
      × (w'.total_size ≡ u32 (w.total_size + size c))
unfolding process_run_header store_buffer set_payload payload
process_run_header_stored z header w on short =
    let n = length header in
    let p = words header in
    let hb = header_buffer n in
    let b : Buffer = record hb { mem = blit 20 p hb.mem; psize = length p } in
    let room : HasRoom b = record {
      inside = omega (arith, cap-header_buffer n, length-words header);
      in_cap = omega (arith, cap-header_buffer n, length-words header);
      in_obuf = omega (arith, cap-header_buffer n, length-words header);
    } in
    let (c, made, seen, cap_kept, sized) = compress_always z b room in
    let inside : size c ≤ c.cap =
      unfold size in omega (arith, cap_kept, sized, length-deflate z b, room.in_cap) in
    let fits : 20 + length p ≤ hb.cap = room.inside in
    let w₁ = record w { files = append_to (encode 4 w.run ++ encode 4 1) w.files } in
    (
      b,
      c,
      record w₁ { total_size = u32 (w.total_size + size c); files = append_to (block c) w₁.files },
      rw (le→leb _ _ fits) refl,
      made,
      slice-blit_self 20 p hb.mem,
      rw (on, lt→ltb n 256 (omega arith), le→leb _ _ fits, made, le→leb (size c) c.cap inside) refl,
      refl,
      refl,
    )
