-- ===== src/Wire/RoundTrip.antt =====
-- What the senders print is what the merger reads.
use zdaq.Base.{ℕ, ◌^◌, ◌<◌, ◌≡◌, refl, true, false, some, [], ◌∷◌, ◌++◌, arith, ap, ◌∙◌, sym}
use mathlib.Core.List.{append_assoc}
use zdaq.Base.Memory.{Bytes}
use zdaq.Base.Text.{
  codes, decimal, scan_digits, is_digit, scan_digits-decimal, decimal-StartsWithDigit,
}
use zdaq.Wire.{
  source_header, data_header, id_header, is_registering, skip_space, expect, scan_long, scan_int,
  scan_identity,
}

-- No digit stands in front.
abbrev pub IsBreak : Bytes → Type 0
IsBreak [] = Unit
IsBreak (c ∷ s) = is_digit c ≡ false

scan_digits-IsBreak : (n : ℕ) (rest : Bytes) → IsBreak rest → scan_digits n rest ≡ (n, rest)
unfolding scan_digits
scan_digits-IsBreak n [] b = refl
scan_digits-IsBreak n (c ∷ s) b = rw b

scan_long-cons :
    (c : ℕ) (r : Bytes) (n : ℕ) (rest : Bytes)
    → is_digit c ≡ true
    → scan_digits 0 (c ∷ r) ≡ (n, rest)
    → n < 2 ^ 63
    → scan_long (c ∷ r) ≡ some (n, rest)
unfolding scan_long
scan_long-cons c r n rest digit scanned fits = ground arith

-- A printed number below 2 ^ 63 is read back, up to the first character that is no digit.
pub scan_long-decimal :
    (n : ℕ) (rest : Bytes)
    → n < 2 ^ 63
    → IsBreak rest
    → scan_long (decimal n ++ rest) ≡ some (n, rest)
scan_long-decimal n rest fits break =
    let (c, r, e, digit) = decimal-StartsWithDigit n rest in
    let scanned : scan_digits 0 (c ∷ r) ≡ (n, rest) =
      ap (scan_digits 0) (sym e) ∙ scan_digits-decimal n rest ∙ scan_digits-IsBreak n rest break in
    rw e (scan_long-cons c r n rest digit scanned fits)

pub scan_int-decimal :
    (n : ℕ) (rest : Bytes)
    → n < 2 ^ 32
    → IsBreak rest
    → scan_int (decimal n ++ rest) ≡ some (n, rest)
unfolding scan_int
scan_int-decimal n rest fits break =
    rw (scan_long-decimal n rest (omega arith) break) (ground arith)

skip_space-decimal : (n : ℕ) (rest : Bytes) → skip_space (decimal n ++ rest) ≡ decimal n ++ rest
unfolding skip_space
skip_space-decimal n rest =
    let (c, r, e, digit) = decimal-StartsWithDigit n rest in rw e (ground arith)

scan_identity_of :
    (s s₁ s₂ s₃ s₄ s₅ : Bytes) (det source gtc : ℕ)
    → expect (codes "DS-") s ≡ some s₁
    → scan_int s₁ ≡ some (det, s₂)
    → expect (codes "-") s₂ ≡ some s₃
    → scan_int s₃ ≡ some (source, s₄)
    → scan_int (skip_space s₄) ≡ some (gtc, s₅)
    → scan_identity s ≡ some (record { detector = det; source = source; gtc = gtc })
unfolding scan_identity
scan_identity_of s s₁ s₂ s₃ s₄ s₅ det source gtc e₁ e₂ e₃ e₄ e₅ = rw (e₁, e₂, e₃, e₄, e₅)

-- Every identity that a sender prints is read back by the merger.
pub scan_identity-data_header :
    (det source gtc bx : ℕ)
    → det < 2 ^ 32
    → source < 2 ^ 32
    → gtc < 2 ^ 32
    → scan_identity (data_header (source_header det source) gtc bx)
      ≡ some (record { detector = det; source = source; gtc = gtc })
unfolding data_header source_header expect skip_space
scan_identity-data_header det source gtc bx hd hs hg =
    let rest₃ = codes " " ++ decimal bx in
    let rest₂ = codes " " ++ (decimal gtc ++ rest₃) in
    let rest₁ = codes "-" ++ (decimal source ++ rest₂) in
    scan_identity_of (data_header (source_header det source) gtc bx)
      ((decimal det ++ (codes "-" ++ decimal source)) ++ rest₂) rest₁ (decimal source ++ rest₂)
      rest₂ rest₃ det source gtc refl
      (ap scan_int (append_assoc (decimal det) (codes "-" ++ decimal source) rest₂)
        ∙ scan_int-decimal det rest₁ hd refl)
      refl (scan_int-decimal source rest₂ hs refl)
      (ap scan_int (skip_space-decimal gtc rest₃) ∙ scan_int-decimal gtc rest₃ hg refl)

-- A data header is never taken for a registration, and a registration always is one.
pub registering_headers :
    (det source gtc bx : ℕ)
    → (is_registering (data_header (source_header det source) gtc bx) ≡ false)
      × (is_registering (id_header det source) ≡ true)
unfolding is_registering data_header source_header id_header
registering_headers det source gtc bx = (refl, refl)
