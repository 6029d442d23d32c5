-- ===== src/Zlib.antt =====
-- zlib, which the buffers call and the repository does not hold. `deflate` is what `compress`
-- writes when its output fits, `inflate` what `uncompress` writes; `none` is Z_DATA_ERROR. Its
-- manual documents that the one undoes the other, and the bound (`compressBound`).
use zdaq.Base.{
  ℕ, ◌+◌, ◌/◌, ◌^◌, ◌≤◌, ◌≡◌, Option, none, some, [], ◌∷◌, refl, arith, length, if◌then◌else◌, ◌==◌,
}
use zdaq.Base.Memory.{Bytes}

abbrev pub compress_bound : ℕ → ℕ
compress_bound n = n + n / 2 ^ 12 + n / 2 ^ 14 + n / 2 ^ 25 + 13

pub record Zlib : Type 0 where
  pub deflate : Bytes → Bytes
  pub inflate : Bytes → Option Bytes
  pub inflate-deflate : (s : Bytes) → inflate (deflate s) ≡ some s
  pub length-deflate : (s : Bytes) → length (deflate s) ≤ compress_bound (length s)

-- A stand-in that stores the bytes behind a mark, so that the assumptions can be met.
abbrev unmark : Bytes → Option Bytes
unmark [] = none
unmark (c ∷ s) = if c == 0x78 then some s else none

abbrev pub storing : Zlib
storing = record {
  deflate = λ s. 0x78 ∷ s;
  inflate = unmark;
  inflate-deflate = λ s. refl;
  length-deflate = λ s. omega arith;
}
