-- ===== src/Wire.antt =====
-- The text in front of every message: what zmPusher.cc and zmSender.cc print into their
-- `stringstream`, and what zmPuller.cc and zmMerger.cc read from it by `sscanf`.
pub mod RoundTrip
use zdaq.Base.{
  ℕ, ◌+◌, ◌-◌, ◌%◌, ◌^◌, ◌≡◌, Bool, true, false, ◌&&◌, ◌||◌, Option, none, some, List, [], ◌∷◌,
  ◌++◌, leb, ◌==◌, if◌then◌else◌, u32,
}
use Prim.Native.Nat.{min}
use zdaq.Base.Memory.{Bytes}
use zdaq.Base.Text.{codes, decimal, scan_digits, is_digit}

infixl 5 ◌>>=◌
abbrev pub ◌>>=◌ {ℓ κ} : {A : Type ℓ} {B : Type κ} → Option A → (A → Option B) → Option B
none >>= f = none
some a >>= f = f a

-- `_header` of a sender, and the text of one message.
unfoldable pub source_header : ℕ → ℕ → Bytes
source_header det source = codes "DS-" ++ (decimal det ++ (codes "-" ++ decimal source))

unfoldable pub data_header : Bytes → ℕ → ℕ → Bytes
data_header header gtc bx = header ++ (codes " " ++ (decimal gtc ++ (codes " " ++ decimal bx)))

-- The text that registers a source.
unfoldable pub id_header : ℕ → ℕ → Bytes
id_header det source = codes "ID-" ++ (decimal det ++ (codes "-" ++ decimal source))

-- `identity.compare(0, 2, "ID") == 0`.
unfoldable pub is_registering : Bytes → Bool
is_registering [] = false
is_registering (a ∷ []) = false
is_registering (a ∷ b ∷ s) = a == b'I' && b == b'D'

abbrev pub is_space : ℕ → Bool
is_space c = c == 32 || leb 9 c && leb c 13

-- White space in a format skips any amount of it.
unfoldable pub skip_space : Bytes → Bytes
skip_space [] = []
skip_space (c ∷ s) = if is_space c then skip_space s else c ∷ s

-- Any other character in a format stands for itself.
unfoldable pub expect : Bytes → Bytes → Option Bytes
expect [] s = some s
expect (f ∷ fs) [] = none
expect (f ∷ fs) (c ∷ s) = if f == c then expect fs s else none

-- `%ld` as a 64-bit pattern: glibc stops at LONG_MAX and LONG_MIN where the number does not fit.
abbrev scan_number : Bool → Bytes → Option (ℕ × Bytes)
scan_number negative [] = none
scan_number negative (c ∷ s) =
    if is_digit c
    then (let (v, rest) = scan_digits 0 (c ∷ s) in
        some (if negative then (2 ^ 64 - min v (2 ^ 63)) % 2 ^ 64 else min v (2 ^ 63 - 1), rest))
    else none

abbrev scan_sign : Bytes → Option (ℕ × Bytes)
scan_sign [] = none
scan_sign (c ∷ s) =
    if c == b'-'
    then scan_number true s
    else if c == b'+'
    then scan_number false s
    else scan_number false (c ∷ s)

unfoldable pub scan_long : Bytes → Option (ℕ × Bytes)
unfolding skip_space
scan_long s = scan_sign (skip_space s)

-- `%d` stores the low 32 bits.
unfoldable pub scan_int : Bytes → Option (ℕ × Bytes)
scan_int s = do (v, rest) ← scan_long s; some (u32 v, rest)

pub record Identity : Type 0 where
  pub detector : ℕ
  pub source : ℕ
  pub gtc : ℕ

-- `sscanf(…, "DS-%d-%d %d %ld", …)`: `none` where it stops before the event number; the bunch crossing
-- behind it is read into a variable that nobody looks at.
unfoldable pub scan_identity : Bytes → Option Identity
scan_identity s = do
  s₁ ← expect (codes "DS-") s
  (det, s₂) ← scan_int s₁
  s₃ ← expect (codes "-") s₂
  (source, s₄) ← scan_int s₃
  (gtc, s₅) ← scan_int (skip_space s₄)
  some (record { detector = det; source = source; gtc = gtc })
