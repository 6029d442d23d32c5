-- ===== src/Base/Memory.antt =====
-- Arrays of bytes. A list holds the bytes up to the last one written; those behind it are 0, as
-- `memset` left them. `blit` is `memcpy` into an array, `slice` reads from it; an array's size is
-- kept beside it, and checked by the caller. Words are little endian.
use Prim.Native.Nat.{ℕ, zero, suc, ◌+◌, ◌*◌, ◌/◌, ◌%◌, ◌^◌, ◌≤◌, ◌<◌}
use mathlib.Core.Path.{◌≡◌, refl, ap, subst, ◌∙◌}
use mathlib.Core.List.{List, [], ◌∷◌, ◌++◌}
use native.Mathlib.Omega.{arith}
use native.Mathlib.Nat.{pow-suc}
use zdaq.Base.Lists.{length}

abbrev pub Bytes : Type 0
Bytes = List ℕ

unfoldable pub blit : ℕ → Bytes → Bytes → Bytes
blit zero [] mem = mem
blit zero (b ∷ bs) [] = b ∷ bs
blit zero (b ∷ bs) (x ∷ mem) = b ∷ blit zero bs mem
blit (suc o) bs [] = 0 ∷ blit o bs []
blit (suc o) bs (x ∷ mem) = x ∷ blit o bs mem

unfoldable pub slice : ℕ → ℕ → Bytes → Bytes
slice zero zero mem = []
slice zero (suc n) [] = 0 ∷ slice zero n []
slice zero (suc n) (x ∷ mem) = x ∷ slice zero n mem
slice (suc o) n [] = slice o n []
slice (suc o) n (x ∷ mem) = slice o n mem

pub length-slice : (o n : ℕ) (mem : Bytes) → length (slice o n mem) ≡ n
unfolding slice
length-slice zero zero mem = refl
length-slice zero (suc n) [] = ap suc (length-slice zero n [])
length-slice zero (suc n) (x ∷ mem) = ap suc (length-slice zero n mem)
length-slice (suc o) n [] = length-slice o n []
length-slice (suc o) n (x ∷ mem) = length-slice o n mem

slice_self : (bs : Bytes) → slice zero (length bs) bs ≡ bs
unfolding slice
slice_self [] = refl
slice_self (b ∷ bs) = ap (◌∷◌ b) (slice_self bs)

-- What was copied in is read back.
pub slice-blit_self : (o : ℕ) (bs mem : Bytes) → slice o (length bs) (blit o bs mem) ≡ bs
unfolding slice blit
slice-blit_self zero [] mem = refl
slice-blit_self zero (b ∷ bs) [] = ap (◌∷◌ b) (slice_self bs)
slice-blit_self zero (b ∷ bs) (x ∷ mem) = ap (◌∷◌ b) (slice-blit_self zero bs mem)
slice-blit_self (suc o) bs [] = slice-blit_self o bs []
slice-blit_self (suc o) bs (x ∷ mem) = slice-blit_self o bs mem

-- What lies before the copied bytes is untouched.
pub slice-blit_before :
    (p n o : ℕ) (bs mem : Bytes) → p + n ≤ o → slice p n (blit o bs mem) ≡ slice p n mem
unfolding slice blit
slice-blit_before zero zero o bs mem h = refl
slice-blit_before zero (suc n) zero bs mem h = absurd (omega arith)
slice-blit_before zero (suc n) (suc o) bs [] h =
    ap (◌∷◌ 0) (slice-blit_before zero n o bs [] (omega arith))
slice-blit_before zero (suc n) (suc o) bs (x ∷ mem) h =
    ap (◌∷◌ x) (slice-blit_before zero n o bs mem (omega arith))
slice-blit_before (suc p) n zero bs mem h = absurd (omega arith)
slice-blit_before (suc p) n (suc o) bs [] h = slice-blit_before p n o bs [] (omega arith)
slice-blit_before (suc p) n (suc o) bs (x ∷ mem) h = slice-blit_before p n o bs mem (omega arith)

slice-nil_behind : (p n : ℕ) (bs : Bytes) → length bs ≤ p → slice p n bs ≡ slice p n []
unfolding slice
slice-nil_behind p n [] h = refl
slice-nil_behind zero n (b ∷ bs) h = absurd (omega arith)
slice-nil_behind (suc p) n (b ∷ bs) h = slice-nil_behind p n bs (omega arith)

-- Nor is what lies behind them.
pub slice-blit_after :
    (p n o : ℕ) (bs mem : Bytes) → o + length bs ≤ p → slice p n (blit o bs mem) ≡ slice p n mem
unfolding slice blit
slice-blit_after p n zero [] mem h = refl
slice-blit_after zero n zero (b ∷ bs) mem h = absurd (omega arith)
slice-blit_after (suc p) n zero (b ∷ bs) [] h = slice-nil_behind p n bs (omega arith)
slice-blit_after (suc p) n zero (b ∷ bs) (x ∷ mem) h =
    slice-blit_after p n zero bs mem (omega arith)
slice-blit_after zero n (suc o) bs mem h = absurd (omega arith)
slice-blit_after (suc p) n (suc o) bs [] h = slice-blit_after p n o bs [] (omega arith)
slice-blit_after (suc p) n (suc o) bs (x ∷ mem) h = slice-blit_after p n o bs mem (omega arith)

-- The first `n` bytes, and the rest.
unfoldable pub cut : ℕ → Bytes → Bytes × Bytes
cut zero s = ([], s)
cut (suc n) [] = ([], [])
cut (suc n) (c ∷ s) = (c ∷ (cut n s).0, (cut n s).1)

pub cut-append : (s t : Bytes) → cut (length s) (s ++ t) ≡ (s, t)
unfolding cut
cut-append [] t = refl
cut-append (c ∷ s) t = ap (λ p. (c ∷ p.0, p.1)) (cut-append s t)

-- A number in `n` bytes, the lowest first; what does not fit is cut off.
unfoldable pub encode : ℕ → ℕ → Bytes
encode zero v = []
encode (suc n) v = v % 256 ∷ encode n (v / 256)

-- An element of an array counts modulo 256.
unfoldable pub decode : Bytes → ℕ
decode [] = 0
decode (b ∷ bs) = b % 256 + 256 * decode bs

pub length-encode : (n v : ℕ) → length (encode n v) ≡ n
unfolding encode
length-encode zero v = refl
length-encode (suc n) v = ap suc (length-encode n (v / 256))

pub decode-encode : (n v : ℕ) → v < 256 ^ n → decode (encode n v) ≡ v
unfolding encode decode
decode-encode zero v h = omega arith
decode-encode (suc n) v h = omega (arith, decode-encode n (v / 256) (omega (arith, pow-suc 256 n)))

pub decode_lt : (bs : Bytes) → decode bs < 256 ^ length bs
unfolding decode
decode_lt [] = omega arith
decode_lt (b ∷ bs) = omega (arith, decode_lt bs, pow-suc 256 (length bs))

-- The number in the `n` bytes at `o`, and an array with a number written there.
unfoldable pub read : ℕ → ℕ → Bytes → ℕ
read o n mem = decode (slice o n mem)

unfoldable pub write : ℕ → ℕ → ℕ → Bytes → Bytes
write o n v mem = blit o (encode n v) mem

pub read_lt : (o n : ℕ) (mem : Bytes) → read o n mem < 256 ^ n
unfolding read
read_lt o n mem = subst (λ k. decode (slice o n mem) < 256 ^ k) (length-slice o n mem) (decode_lt _)

pub read-write_self : (o n v : ℕ) (mem : Bytes) → v < 256 ^ n → read o n (write o n v mem) ≡ v
unfolding read write
read-write_self o n v mem h =
    ap decode (
      subst (λ k. slice o k (blit o (encode n v) mem) ≡ encode n v) (length-encode n v)
        (slice-blit_self o (encode n v) mem))
    ∙ decode-encode n v h

pub slice-write_before :
    (p k o n v : ℕ) (mem : Bytes) → p + k ≤ o → slice p k (write o n v mem) ≡ slice p k mem
unfolding write
slice-write_before p k o n v mem h = slice-blit_before p k o (encode n v) mem h

pub slice-write_after :
    (p k o n v : ℕ) (mem : Bytes) → o + n ≤ p → slice p k (write o n v mem) ≡ slice p k mem
unfolding write
slice-write_after p k o n v mem h =
    slice-blit_after p k o (encode n v) mem (omega (arith, length-encode n v))

pub read-write_before :
    (p k o n v : ℕ) (mem : Bytes) → p + k ≤ o → read p k (write o n v mem) ≡ read p k mem
unfolding read
read-write_before p k o n v mem h = ap decode (slice-write_before p k o n v mem h)

pub read-write_after :
    (p k o n v : ℕ) (mem : Bytes) → o + n ≤ p → read p k (write o n v mem) ≡ read p k mem
unfolding read
read-write_after p k o n v mem h = ap decode (slice-write_after p k o n v mem h)

pub read-blit_before :
    (p k o : ℕ) (bs mem : Bytes) → p + k ≤ o → read p k (blit o bs mem) ≡ read p k mem
unfolding read
read-blit_before p k o bs mem h = ap decode (slice-blit_before p k o bs mem h)

-- A prefix copied to another array reads as the original does.
pub blit_empty : (bs : Bytes) → blit 0 bs [] ≡ bs
unfolding blit
blit_empty [] = refl
blit_empty (b ∷ bs) = refl

pub slice-slice : (p n k : ℕ) (mem : Bytes) → p + n ≤ k → slice p n (slice 0 k mem) ≡ slice p n mem
unfolding slice
slice-slice zero zero k mem h = refl
slice-slice zero (suc n) zero mem h = absurd (omega arith)
slice-slice zero (suc n) (suc k) [] h = ap (◌∷◌ 0) (slice-slice zero n k [] (omega arith))
slice-slice zero (suc n) (suc k) (x ∷ mem) h = ap (◌∷◌ x) (slice-slice zero n k mem (omega arith))
slice-slice (suc p) n zero mem h = absurd (omega arith)
slice-slice (suc p) n (suc k) [] h = slice-slice p n k [] (omega arith)
slice-slice (suc p) n (suc k) (x ∷ mem) h = slice-slice p n k mem (omega arith)

-- What grind uses of memory.
pub ruleset memory_laws = (
  arith, read_lt, read-write_self, read-write_before, read-write_after, slice-write_after,
  read-blit_before, slice-blit_self,
)
