-- ===== src/Examples/Buffers.antt =====
-- Buffers: compression there and back, the setters, the sizes.
use zdaq.Base.{◌%◌, ◌≡◌, refl, [], ◌∷◌, ok, arith}
use zdaq.Base.Memory.{slice, decode, read, blit, encode, write}
use zdaq.Zlib.{storing}
use zdaq.Buffer.{Buffer, compress, uncompress, payload}
use zdaq.Buffer.Fields.{view}
use zdaq.Buffer.Compression.{HasRoom, uncompress-compress, compress_twice}
use zdaq.Examples.{small_buffer}

small_buffer-HasRoom : HasRoom small_buffer
small_buffer-HasRoom = record { inside = omega arith; in_cap = omega arith; in_obuf = omega arith }

small_buffer-unmarked : (view small_buffer).flags % 2 ≡ 0
unfolding view read slice decode
small_buffer-unmarked = refl

uncompress-compress_example :
    (c d : Buffer) × (compress storing small_buffer ≡ ok c)
    × (uncompress storing c ≡ ok d)
    × (view d ≡ view small_buffer)
    × (d.cap ≡ 64)
    × (d.psize ≡ 3)
uncompress-compress_example =
    uncompress-compress storing small_buffer small_buffer-HasRoom small_buffer-unmarked

abbrev once : Buffer
once = record {
  cap = 64;
  mem =
      5 ∷ 0 ∷ 1 ∷ 0 ∷ 2 ∷ 0 ∷ 0 ∷ 0 ∷ 7 ∷ 0 ∷ 0 ∷ 0 ∷ 77 ∷ 0 ∷ 0 ∷ 0 ∷ 0 ∷ 0 ∷ 0 ∷ 0 ∷ 0x78 ∷ 1 ∷ 2
      ∷ 3 ∷ [];
  psize = 4;
}

abbrev twice : Buffer
twice = record {
  cap = 64;
  mem =
      5 ∷ 0 ∷ 1 ∷ 0 ∷ 2 ∷ 0 ∷ 0 ∷ 0 ∷ 7 ∷ 0 ∷ 0 ∷ 0 ∷ 77 ∷ 0 ∷ 0 ∷ 0 ∷ 0 ∷ 0 ∷ 0 ∷ 0 ∷ 0x78 ∷ 0x78
      ∷ 1 ∷ 2 ∷ 3 ∷ [];
  psize = 5;
}

compress_once : compress storing small_buffer ≡ ok once
unfolding compress payload read write slice decode encode blit
compress_once = refl

once-HasRoom : HasRoom once
once-HasRoom = record { inside = omega arith; in_cap = omega arith; in_obuf = omega arith }

compress_again : compress storing once ≡ ok twice
unfolding compress payload read write slice decode encode blit
compress_again = refl

compress_twice_example :
    (e : Buffer) × (uncompress storing twice ≡ ok e)
    × (payload e ≡ storing.deflate (payload small_buffer))
    × ((view e).flags % 2 ≡ 0)
    × (uncompress storing e ≡ ok e)
compress_twice_example =
    compress_twice storing small_buffer once twice small_buffer-HasRoom compress_once once-HasRoom
      compress_again
