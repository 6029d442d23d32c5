-- ===== src/Base/Text.antt =====
-- Texts are lists of bytes. Decimal numbers as `<<` prints them and `sscanf` reads them.
use Prim.Native.Nat.{ℕ, zero, suc, ◌+◌, ◌-◌, ◌*◌, ◌/◌, ◌%◌, ◌<◌}
use Prim.Native.Char.{code}
use Prim.Native.String.{String}
use mathlib.Core.Path.{◌≡◌, refl}
use mathlib.Core.Bool.{Bool, true, false, ◌&&◌}
use mathlib.Core.Logic.{◌≢◌, inl, inr}
use mathlib.Core.List.{[], ◌∷◌, ◌++◌}
use native.Mathlib.Omega.{arith}
use zdaq.Base.Tests.{ltb, leb, ◌==◌, if◌then◌else◌, Bool-cases}
use zdaq.Base.Memory.{Bytes}
use zdaq.Base.Results.{Result, ok, err, thrown}

abbrev pub codes : String → Bytes
codes String.[] = []
codes (String.◌∷◌ c s) = code c ∷ codes s

-- `s.substr(0, n)`, and `s.substr(n, …)`, which throws where the text is shorter.
abbrev pub first_chars : ℕ → Bytes → Bytes
first_chars zero s = []
first_chars (suc n) [] = []
first_chars (suc n) (c ∷ s) = c ∷ first_chars n s

abbrev pub chars_from : ℕ → Bytes → Result Bytes
chars_from zero s = ok s
chars_from (suc n) [] = err thrown
chars_from (suc n) (c ∷ s) = chars_from n s

unfoldable pub bytes_eq : Bytes → Bytes → Bool
bytes_eq [] [] = true
bytes_eq [] (d ∷ t) = false
bytes_eq (c ∷ s) [] = false
bytes_eq (c ∷ s) (d ∷ t) = c == d && bytes_eq s t

pub bytes_eq→eq : (s t : Bytes) → bytes_eq s t ≡ true → s ≡ t
unfolding bytes_eq
bytes_eq→eq [] [] h = refl
bytes_eq→eq [] (d ∷ t) h = cc
bytes_eq→eq (c ∷ s) [] h = cc
bytes_eq→eq (c ∷ s) (d ∷ t) h = ground (arith, bytes_eq→eq s t)

pub bytes_eq_refl : (s : Bytes) → bytes_eq s s ≡ true
unfolding bytes_eq
bytes_eq_refl [] = refl
bytes_eq_refl (c ∷ s) = ground (arith, bytes_eq_refl s)

pub bytes_eq_ne : (s t : Bytes) → s ≢ t → bytes_eq s t ≡ false
bytes_eq_ne s t ne = elim (Bool-cases (bytes_eq s t)) [
  | inl same ↦ absurd (ne (bytes_eq→eq s t same))
  | inr differ ↦ differ
]

pub bytes_eq→ne : (s t : Bytes) → bytes_eq s t ≡ false → s ≢ t
bytes_eq→ne s t differ e = cc (differ, bytes_eq_refl s, e)

-- The digits of `n` in front of `out`; each round divides by ten. `decimal` gives enough fuel.
unfoldable pub digits : ℕ → ℕ → Bytes → Bytes
digits zero n out = out
digits (suc f) n out = elim (ltb n 10) [
  | true ↦ (b'0' + n) ∷ out
  | false ↦ digits f (n / 10) ((b'0' + n % 10) ∷ out)
]

unfoldable pub decimal : ℕ → Bytes
unfolding digits
decimal n = digits (suc n) n []

digits-append : (f n : ℕ) (out rest : Bytes) → digits f n out ++ rest ≡ digits f n (out ++ rest)
unfolding digits
digits-append zero n out rest = refl
digits-append (suc f) n out rest =
    ground (arith, digits-append f (n / 10) ((b'0' + n % 10) ∷ out) rest)

abbrev pub is_digit : ℕ → Bool
is_digit c = leb b'0' c && leb c b'9'

-- The longest run of digits, read after `acc`, and what follows it.
unfoldable pub scan_digits : ℕ → Bytes → ℕ × Bytes
scan_digits acc [] = (acc, [])
scan_digits acc (c ∷ s) = if is_digit c then scan_digits (acc * 10 + (c - b'0')) s else (acc, c ∷ s)

scan_digits-digits :
    (f n : ℕ) (out : Bytes) → n < f → scan_digits 0 (digits f n out) ≡ scan_digits n out
unfolding digits scan_digits
scan_digits-digits zero n out h = elim h [ ]
scan_digits-digits (suc f) n out h =
    ground (arith, scan_digits-digits f (n / 10) ((b'0' + n % 10) ∷ out))

-- Reading back what was printed, whatever stands behind it.
pub scan_digits-decimal :
    (n : ℕ) (rest : Bytes) → scan_digits 0 (decimal n ++ rest) ≡ scan_digits n rest
unfolding decimal
scan_digits-decimal n rest =
    rw (digits-append (suc n) n [] rest) (scan_digits-digits (suc n) n rest (omega arith))

abbrev pub StartsWithDigit : Bytes → Type 0
StartsWithDigit s = (c : ℕ) × (r : Bytes) × (s ≡ c ∷ r) × (is_digit c ≡ true)

digits-StartsWithDigit : (f n : ℕ) (out : Bytes) → n < f → StartsWithDigit (digits f n out)
unfolding digits
digits-StartsWithDigit zero n out h = elim h [ ]
digits-StartsWithDigit (suc f) n out h = elim (Bool-cases (ltb n 10)) [
  | inl small ↦ rw (small, digits) (b'0' + n, out, refl, ground arith)
  | inr large ↦
      rw (large, digits) (digits-StartsWithDigit f (n / 10) ((b'0' + n % 10) ∷ out) (ground arith))
]

pub decimal-StartsWithDigit : (n : ℕ) (rest : Bytes) → StartsWithDigit (decimal n ++ rest)
unfolding decimal
decimal-StartsWithDigit n rest =
    rw (digits-append (suc n) n [] rest) (digits-StartsWithDigit (suc n) n rest (omega arith))
