-- ===== src/Tail/Slots.antt =====
-- fileTailer.cc, `tail`: what is printed for the slots of lines that stand in the array.
use zdaq.Base.{
  ℕ, ◌+◌, ◌<◌, ◌≡◌, ◌≢◌, refl, ap, ◌∙◌, sym, Bool, true, false, ltb, if◌then◌else◌, Option, none,
  some, List, [], ◌∷◌, ◌++◌, length, length-append, arith, All, ok,
}
use mathlib.Core.List.{append_assoc, append-nil}
use zdaq.Base.Memory.{Bytes}
use zdaq.Tail.{Slot, c_string, formatted, print_slot, print_slots, any_printed}

-- No newline, no zero byte and no conversion.
abbrev pub IsPlain : Bytes → Type 0
IsPlain = All (λ c. (c ≢ b'\n') × (c ≢ 0) × (c ≢ b'%'))

abbrev pub ended : Bytes → Bytes
ended l = l ++ b'\n' ∷ []

abbrev pub join : List Bytes → Bytes
join [] = []
join (t ∷ ts) = t ++ join ts

c_string-append : (a s : Bytes) → c_string (length a) (a ++ s) ≡ c_string 0 s
unfolding c_string
c_string-append [] s = refl
c_string-append (c ∷ a) s = c_string-append a s

c_string_plain : (s b : Bytes) → All (λ c. c ≢ 0) s → c_string 0 (s ++ 0 ∷ b) ≡ ok s
unfolding c_string
c_string_plain [] b plain = refl
c_string_plain (c ∷ s) b plain = ground (arith, c_string_plain s b plain.1, plain.0)

formatted_plain : (s : Bytes) → All (λ c. c ≢ b'%') s → formatted s ≡ ok s
unfolding formatted
formatted_plain [] plain = refl
formatted_plain (c ∷ []) plain = ground (arith, plain.0)
formatted_plain (c ∷ d ∷ s) plain = ground (arith, formatted_plain (d ∷ s) plain.1, plain.0)

-- A slot of the array that holds `pre` stands for a text.
abbrev pub Shows : Bytes → Slot → Bytes → Type 0
Shows pre (none, none) t = t ≡ []
Shows pre (none, some q) t = ◌≡◌ {A = Bool} true false
Shows pre (some p, some q) t = ◌≡◌ {A = Bool} true false
Shows pre (some p, none) t =
    (l : Bytes) × (a : Bytes) × (b : Bytes) × IsPlain l
    × (t ≡ ended l)
    × (p ≡ length a)
    × (pre ≡ a ++ (ended l ++ 0 ∷ b))

abbrev pub AllShow : Bytes → List Slot → List Bytes → Type 0
AllShow pre [] [] = Unit
AllShow pre [] (t ∷ ts) = ◌≡◌ {A = Bool} true false
AllShow pre (slot ∷ slots) [] = ◌≡◌ {A = Bool} true false
AllShow pre (slot ∷ slots) (t ∷ ts) = Shows pre slot t × AllShow pre slots ts

ended_lacks : (l : Bytes) → IsPlain l → All (λ c. c ≢ 0) (ended l) × All (λ c. c ≢ b'%') (ended l)
ended_lacks [] plain = ((omega arith, tt), (omega arith, tt))
ended_lacks (c ∷ l) plain = let (x, y) = ended_lacks l plain.1 in ((plain.0.1, x), (plain.0.2, y))

module _ (maxbuff size : ℕ) where
  print_slot_lem :
      (pre rest : Bytes) (ib : ℕ) (slot : Slot) (t : Bytes)
      → Shows pre slot t
      → ib + length t < maxbuff
      → ib + length t < size
      → print_slot maxbuff size (pre ++ rest) ib slot ≡ ok t
  unfolding print_slot
  print_slot_lem pre rest ib (none, none) t h small fits = cc
  print_slot_lem pre rest ib (none, some q) t h small fits = absurd (cc h)
  print_slot_lem pre rest ib (some p, some q) t h small fits = absurd (cc h)
  print_slot_lem pre rest ib (some p, none) t (l, a, b, plain, et, ep, ea) small fits =
      let (no_zero, no_percent) = ended_lacks l plain in
      let at_line : pre ++ rest ≡ a ++ (ended l ++ 0 ∷ (b ++ rest)) =
        ap (λ x. x ++ rest) ea
        ∙ append_assoc a (ended l ++ 0 ∷ b) rest
        ∙ ap (◌++◌ a) (append_assoc (ended l) (0 ∷ b) rest) in
      let text : c_string p (pre ++ rest) ≡ ok t =
        rw (at_line, ep, et)
          (c_string-append a (ended l ++ 0 ∷ (b ++ rest))
            ∙ c_string_plain (ended l) (b ++ rest) no_zero) in
      let format : formatted t ≡ ok t = rw et (formatted_plain (ended l) no_percent) in
      let starts : ltb ib maxbuff ≡ true = ground arith in
      let room : ltb (ib + length t) size ≡ true = ground arith in
      rw (starts, text, format, room) (ap ok (append-nil t))

  -- The texts that the slots stand for, one behind the other.
  pub print_slots_lem :
      (pre rest : Bytes) (ib : ℕ) (slots : List Slot) (ts : List Bytes)
      → AllShow pre slots ts
      → ib + length (join ts) < maxbuff
      → ib + length (join ts) < size
      → print_slots maxbuff size (pre ++ rest) ib slots ≡ ok (join ts)
  unfolding print_slots
  print_slots_lem pre rest ib [] [] h small fits = refl
  print_slots_lem pre rest ib [] (t ∷ ts) h small fits = absurd (cc h)
  print_slots_lem pre rest ib (slot ∷ slots) [] h small fits = absurd (cc h)
  print_slots_lem pre rest ib (slot ∷ slots) (t ∷ ts) h small fits =
      let longer = length-append t (join ts) in
      let one =
        print_slot_lem pre rest ib slot t h.0 (omega (arith, longer)) (omega (arith, longer)) in
      let more =
        print_slots_lem pre rest (ib + length t) slots ts h.1 (omega (arith, longer))
          (omega (arith, longer)) in
      rw (one, more) refl

-- A text that was printed, if there is any.
abbrev pub if_any : Bytes → Option Bytes
if_any [] = none
if_any (c ∷ cs) = some (c ∷ cs)

pub if_any-ended : (l s : Bytes) → if_any (ended l ++ s) ≡ some (ended l ++ s)
if_any-ended [] s = refl
if_any-ended (c ∷ l) s = refl

pub any_printed_lem :
    (pre : Bytes) (slots : List Slot) (ts : List Bytes)
    → AllShow pre slots ts
    → (if any_printed slots then some (join ts) else none) ≡ if_any (join ts)
any_printed_lem pre [] [] h = refl
any_printed_lem pre [] (t ∷ ts) h = absurd (cc h)
any_printed_lem pre (slot ∷ slots) [] h = absurd (cc h)
any_printed_lem pre ((none, none) ∷ slots) (t ∷ ts) h = rw h.0 (any_printed_lem pre slots ts h.1)
any_printed_lem pre ((none, some q) ∷ slots) (t ∷ ts) h = absurd (cc h.0)
any_printed_lem pre ((some p, some q) ∷ slots) (t ∷ ts) h = absurd (cc h.0)
any_printed_lem pre ((some p, none) ∷ slots) (t ∷ ts) ((l, a, b, plain, et, ep, ea), h) =
    rw et (sym (if_any-ended l (join ts)))

-- What is written behind the lines leaves them as they are.
Shows-append :
    (pre more : Bytes) (slot : Slot) (t : Bytes) → Shows pre slot t → Shows (pre ++ more) slot t
Shows-append pre more (none, none) t h = h
Shows-append pre more (none, some q) t h = h
Shows-append pre more (some p, some q) t h = h
Shows-append pre more (some p, none) t (l, a, b, plain, et, ep, ea) = (
  l,
  a,
  b ++ more,
  plain,
  et,
  ep,
  ap (λ x. x ++ more) ea
      ∙ append_assoc a (ended l ++ 0 ∷ b) more
      ∙ ap (◌++◌ a) (append_assoc (ended l) (0 ∷ b) more),
)

pub AllShow-append :
    (pre more : Bytes) (slots : List Slot) (ts : List Bytes)
    → AllShow pre slots ts
    → AllShow (pre ++ more) slots ts
AllShow-append pre more [] [] h = h
AllShow-append pre more [] (t ∷ ts) h = h
AllShow-append pre more (slot ∷ slots) [] h = h
AllShow-append pre more (slot ∷ slots) (t ∷ ts) h =
    (Shows-append pre more slot t h.0, AllShow-append pre more slots ts h.1)

pub AllShow-snoc :
    (pre : Bytes) (slots : List Slot) (ts : List Bytes) (slot : Slot) (t : Bytes)
    → AllShow pre slots ts
    → Shows pre slot t
    → AllShow pre (slots ++ slot ∷ []) (ts ++ t ∷ [])
AllShow-snoc pre [] [] slot t h k = (k, tt)
AllShow-snoc pre [] (u ∷ ts) slot t h k = absurd (cc h)
AllShow-snoc pre (s ∷ slots) [] slot t h k = absurd (cc h)
AllShow-snoc pre (s ∷ slots) (u ∷ ts) slot t h k = (h.0, AllShow-snoc pre slots ts slot t h.1 k)
