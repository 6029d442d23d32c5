-- ===== src/Caller/Encoding.antt =====
-- fsmwebCaller.cc: `url_encode` with its HTML 5 table, and the decoding that servers do.
use zdaq.Base.{
  ℕ, ◌+◌, ◌-◌, ◌*◌, ◌/◌, ◌%◌, ◌≤◌, ◌<◌, ◌≡◌, refl, ap, ◌∙◌, Bool, false, Bool-cases, inl, inr, ◌||◌,
  ◌&&◌, [], ◌∷◌, ◌++◌, ltb, leb, ◌==◌, if◌then◌else◌, length, length-append, All, arith, Result, ok,
  ◌>>◌, guard, overrun, le→leb,
}
use zdaq.Base.Memory.{Bytes}

-- `isalnum`, in the C locale.
abbrev pub is_alnum : ℕ → Bool
is_alnum c = leb b'0' c && leb c b'9' || leb b'A' c && leb c b'Z' || leb b'a' c && leb c b'z'

-- `html5[c]`; `rfc3986` has no reader.
abbrev pub html5 : ℕ → ℕ
html5 c =
    if is_alnum c || c == b'*' || c == b'-' || c == b'.' || c == b'_'
    then c
    else if c == b' '
    then b'+'
    else 0

-- A digit of `%02X`.
abbrev pub hex_digit : ℕ → ℕ
hex_digit d = if ltb d 10 then b'0' + d else b'A' + (d - 10)

abbrev pub encode_char : ℕ → Bytes
encode_char c =
    if html5 c == 0 then b'%' ∷ hex_digit (c / 16) ∷ hex_digit (c % 16) ∷ [] else html5 c ∷ []

-- The text ends at the first 0.
unfoldable pub url_encode : Bytes → Bytes
url_encode [] = []
url_encode (c ∷ s) = if c == 0 then [] else encode_char c ++ url_encode s

-- `char out[4096]`, with the 0 that ends the text.
abbrev pub out_size : ℕ
out_size = 4096

unfoldable pub encoded : Bytes → Result Bytes
unfolding url_encode
encoded s = do guard (leb (length (url_encode s) + 1) out_size) overrun; ok (url_encode s)

-- What a server makes of it: a plus is a space, and a percent sign stands before two digits.
abbrev pub digit_value : ℕ → ℕ
digit_value c = if leb c b'9' then c - b'0' else c - b'A' + 10

abbrev plain : ℕ → ℕ
plain c = if c == b'+' then b' ' else c

unfoldable pub decode : Bytes → Bytes
decode [] = []
decode (c ∷ []) = plain c ∷ []
decode (c ∷ a ∷ []) = plain c ∷ plain a ∷ []
decode (c ∷ a ∷ b ∷ s) =
    if c == b'%'
    then (digit_value a * 16 + digit_value b) ∷ decode s
    else plain c ∷ decode (a ∷ b ∷ s)

decode-plain : (c : ℕ) (s : Bytes) → (c == b'%') ≡ false → decode (c ∷ s) ≡ plain c ∷ decode s
unfolding decode
decode-plain c [] h = refl
decode-plain c (a ∷ []) h = refl
decode-plain c (a ∷ b ∷ s) h = rw h refl

decode_escaped :
    (a b : ℕ) (s : Bytes)
    → decode (b'%' ∷ a ∷ b ∷ s) ≡ (digit_value a * 16 + digit_value b) ∷ decode s
unfolding decode
decode_escaped a b s = refl

digit_value-hex_digit : (d : ℕ) → d < 16 → digit_value (hex_digit d) ≡ d
digit_value-hex_digit d h = ground arith

html5-cases : (c : ℕ) → (html5 c == 0) ≡ false → (plain (html5 c) ≡ c) × ((html5 c == b'%') ≡ false)
html5-cases c h = ground arith

decode-encode_char : (c : ℕ) (s : Bytes) → c < 256 → decode (encode_char c ++ s) ≡ c ∷ decode s
decode-encode_char c s h = elim (Bool-cases (html5 c == 0)) [
  | inl escaped ↦ rw escaped (
      decode_escaped (hex_digit (c / 16)) (hex_digit (c % 16)) s
      ∙ ap (λ x. x ∷ decode s)
          (omega (
            arith,
            digit_value-hex_digit (c / 16) (omega arith),
            digit_value-hex_digit (c % 16) (omega arith),
          )))
  | inr kept ↦
      let (same, no_percent) = html5-cases c kept in
      rw kept (decode-plain (html5 c) s no_percent ∙ ap (λ x. x ∷ decode s) same)
]

-- Every text of bytes other than 0 is decoded to itself.
pub decode-url_encode : (s : Bytes) → All (λ c. (0 < c) × (c < 256)) s → decode (url_encode s) ≡ s
unfolding url_encode
decode-url_encode [] a = unfold decode in refl
decode-url_encode (c ∷ s) a =
    let nonzero : (c == 0) ≡ false = ground (arith, a.0) in
    rw nonzero
      (decode-encode_char c (url_encode s) a.0.1 ∙ ap (λ x. c ∷ x) (decode-url_encode s a.1))

length-encode_char : (c : ℕ) → length (encode_char c) ≤ 3
length-encode_char c = elim (Bool-cases (html5 c == 0)) [
  | inl escaped ↦ rw escaped (omega arith)
  | inr kept ↦ rw kept (omega arith)
]

length-url_encode : (s : Bytes) → length (url_encode s) ≤ 3 * length s
unfolding url_encode
length-url_encode [] = omega arith
length-url_encode (c ∷ s) = elim (Bool-cases (c == 0)) [
  | inl ends ↦ rw ends (omega arith)
  | inr goes ↦ rw goes (
      omega (
        arith,
        length-append (encode_char c) (url_encode s),
        length-encode_char c,
        length-url_encode s,
      ))
]

-- A text of at most 1365 bytes fits in the array that it is encoded into.
pub encoded_ok : (s : Bytes) → length s ≤ 1365 → encoded s ≡ ok (url_encode s)
unfolding encoded
encoded_ok s short =
    rw (le→leb (length (url_encode s) + 1) out_size (omega (arith, length-url_encode s))) refl
