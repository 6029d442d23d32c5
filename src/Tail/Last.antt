-- ===== src/Tail/Last.antt =====
-- fileTailer.cc: `tail` of a file that fits into the array gives the last lines.
use zdaq.Base.{
  ℕ, zero, suc, ◌+◌, ◌-◌, ◌≤◌, ◌<◌, ◌≡◌, refl, ap, ◌∙◌, sym, subst, true, false, ◌==◌, inl, inr,
  ◌⊎◌, Option, none, some, List, [], ◌∷◌, ◌++◌, map, length, length-append, length-map, get_elem?,
  arith, All, ok,
}
use mathlib.Core.List.{append_assoc, append-nil}
use zdaq.Base.Memory.{Bytes}
use zdaq.Tail.{Slot, scan, finish, fresh, byte_before, empty_slots, file_tail, tail}
use zdaq.Tail.Slots.{
  IsPlain, ended, join, AllShow, AllShow-append, AllShow-snoc, if_any, if_any-ended,
  any_printed_lem, print_slots_lem,
}
use zdaq.Tail.Chars.{state}
use zdaq.Tail.Lines.{found_after, Counted-after, scan_line}

-- A file of whole lines.
abbrev pub text_of : List Bytes → Bytes
text_of lines = join (map ended lines)

abbrev pub drop {ℓ} : {A : Type ℓ} → ℕ → List A → List A
drop zero xs = xs
drop (suc n) [] = []
drop (suc n) (x ∷ xs) = drop n xs

-- The last `n` lines, all of them if there are no more.
abbrev pub last_lines : ℕ → List Bytes → List Bytes
last_lines n lines = drop (length lines - n) lines

-- The text of some lines; there is none without a line.
abbrev pub text_if_any : List Bytes → Option Bytes
text_if_any [] = none
text_if_any (line ∷ lines) = some (text_of (line ∷ lines))

if_any-text_of : (lines : List Bytes) → if_any (text_of lines) ≡ text_if_any lines
if_any-text_of [] = refl
if_any-text_of (line ∷ lines) = if_any-ended line (text_of lines)

-- What the slots stand for after some more lines.
abbrev slide : List Bytes → List Bytes → List Bytes
slide ts [] = ts
slide [] (l ∷ ls) = []
slide (t ∷ ts) (l ∷ ls) = slide (ts ++ ended l ∷ []) ls

drop_all : (xs : List Bytes) → drop (length xs) xs ≡ []
drop_all [] = refl
drop_all (x ∷ xs) = drop_all xs

slide-eq-drop : (ts ls : List Bytes) → slide ts ls ≡ drop (length ls) (ts ++ map ended ls)
slide-eq-drop ts [] = sym (append-nil ts)
slide-eq-drop [] (l ∷ ls) =
    sym (subst (λ k. drop k (map ended ls) ≡ []) (length-map ended ls) (drop_all (map ended ls)))
slide-eq-drop (t ∷ ts) (l ∷ ls) =
    slide-eq-drop (ts ++ ended l ∷ []) ls
    ∙ ap (drop (length ls)) (append_assoc ts (ended l ∷ []) (map ended ls))

abbrev blanks : ℕ → List Bytes
blanks zero = []
blanks (suc n) = [] ∷ blanks n

join-drop-blanks :
    (n k : ℕ) (ls : List Bytes) → join (drop k (blanks n ++ ls)) ≡ join (drop (k - n) ls)
join-drop-blanks zero k ls = ap (λ j. join (drop j ls)) (omega arith)
join-drop-blanks (suc n) zero ls =
    join-drop-blanks n zero ls ∙ ap (λ j. join (drop j ls)) (omega arith)
join-drop-blanks (suc n) (suc k) ls =
    join-drop-blanks n k ls ∙ ap (λ j. join (drop j ls)) (omega arith)

map-drop : (k : ℕ) (ls : List Bytes) → drop k (map ended ls) ≡ map ended (drop k ls)
map-drop zero ls = refl
map-drop (suc k) [] = refl
map-drop (suc k) (l ∷ ls) = map-drop k ls

join-slide : (n : ℕ) (ls : List Bytes) → join (slide (blanks n) ls) ≡ text_of (last_lines n ls)
join-slide n ls =
    ap join (slide-eq-drop (blanks n) ls)
    ∙ join-drop-blanks n (length ls) (map ended ls)
    ∙ ap join (map-drop (length ls - n) ls)

length-text_of-drop : (k : ℕ) (ls : List Bytes) → length (text_of (drop k ls)) ≤ length (text_of ls)
length-text_of-drop zero ls = omega arith
length-text_of-drop (suc k) [] = omega arith
length-text_of-drop (suc k) (l ∷ ls) =
    omega (arith, length-text_of-drop k ls, length-append (ended l) (text_of ls))

-- A zero byte ends the part of the array that is written, if there is any.
abbrev EndsIn : Bytes → Type 0
EndsIn pre = (pre ≡ []) ⊎ ((q : Bytes) × (pre ≡ q ++ 0 ∷ []))

get_elem?-append :
    (q : Bytes) (b : ℕ) (rest : Bytes) → get_elem? (q ++ b ∷ rest) (length q) ≡ some b
get_elem?-append [] b rest = refl
get_elem?-append (c ∷ q) b rest = get_elem?-append q b rest

module _ (maxbuff nlines : ℕ) where
  scan_lines :
      (ls : List Bytes) (pre : Bytes) (slots : List Slot) (ts : List Bytes) (n : ℕ) (rest : Bytes)
      → All IsPlain ls
      → AllShow pre slots ts
      → length slots ≡ nlines
      → 1 ≤ nlines
      → n ≤ nlines
      → EndsIn pre
      → length pre + length rest ≡ maxbuff
      → length pre + length (text_of ls) + length ls + 1 < maxbuff
      → (pre' : Bytes) × (rest' : Bytes) × (slots' : List Slot) × (n' : ℕ) × (scan maxbuff nlines
            true
            (text_of ls)
            (state maxbuff nlines pre rest slots (length pre) n)
          ≡ ok (true, state maxbuff nlines pre' rest' slots' (length pre') n'))
        × AllShow pre' slots' (slide ts ls)
        × EndsIn pre'
  unfolding scan
  scan_lines [] pre slots ts n rest plain shows same one small ends sized h =
      (pre, rest, slots, n, refl, shows, ends)
  scan_lines (l ∷ ls) pre [] ts n rest plain shows same one small ends sized h =
      absurd (omega (arith, same, one))
  scan_lines (l ∷ ls) pre (slot ∷ slots) [] n rest plain shows same one small ends sized h =
      absurd (cc shows)
  scan_lines (l ∷ ls) pre (slot ∷ slots) (t ∷ ts) n rest plain shows same one small ends sized h =
      let whole : length (text_of (l ∷ ls)) ≡ length l + 1 + length (text_of ls) =
        omega (arith, length-append (ended l) (text_of ls), length-append l (b'\n' ∷ [])) in
      let pre₁ = pre ++ (ended l ++ 0 ∷ []) in
      let longer : length pre₁ ≡ length pre + length l + 2 = omega (
        arith,
        length-append pre (ended l ++ 0 ∷ []),
        length-append (ended l) (0 ∷ []),
        length-append l (b'\n' ∷ []),
      ) in
      let new : Slot = (some (length pre), none) in
      let (rest₁, sized₁, read) =
        scan_line maxbuff nlines l pre slot slots t ts n (text_of ls) rest plain.0 shows same small
          sized (omega (arith, h, whole)) in
      let shows₁ =
        AllShow-snoc pre₁ slots ts new (ended l)
          (AllShow-append pre (ended l ++ 0 ∷ []) slots ts shows.1)
          (l, pre, [], plain.0, refl, refl, refl) in
      let counted = Counted-after maxbuff nlines slot new slots n same small in
      let (pre₂, rest₂, slots₂, n₂, rest_read, shows₂, ends₂) =
        scan_lines ls pre₁ (slots ++ new ∷ []) (ts ++ ended l ∷ []) (found_after maxbuff nlines n)
          rest₁ plain.1 shows₁ counted.0 one counted.2
          (inr (pre ++ ended l, sym (append_assoc pre (ended l) (0 ∷ [])))) sized₁
          (omega (arith, h, whole, longer)) in
      (pre₂, rest₂, slots₂, n₂, read ∙ rest_read, shows₂, ends₂)

  -- The file ended with a newline: there is nothing to finish.
  finish_lines :
      (pre rest : Bytes) (slots : List Slot) (n : ℕ)
      → EndsIn pre
      → finish maxbuff nlines true (true, state maxbuff nlines pre rest slots (length pre) n)
        ≡ ok (state maxbuff nlines pre rest slots (length pre) n)
  unfolding finish
  finish_lines pre rest slots n (inl e) =
      let z : length pre ≡ 0 = ap length e in
      let start : (length pre == 0) ≡ true = ground (arith, z) in rw start refl
  finish_lines pre rest slots n (inr (q, e)) =
      let longer : length pre ≡ length q + 1 = ap length e ∙ length-append q (0 ∷ []) in
      let later : (length pre == 0) ≡ false = ground (arith, longer) in
      let at : length pre - 1 ≡ length q = omega (arith, longer) in
      let whole : pre ++ rest ≡ q ++ 0 ∷ rest =
        ap (λ x. x ++ rest) e ∙ append_assoc q (0 ∷ []) rest in
      let zero_byte : get_elem? (pre ++ rest) (length pre - 1) ≡ some 0 =
        rw (at, whole) (get_elem?-append q 0 rest) in
      rw (later, byte_before, zero_byte) refl

  AllShow-blanks : (n : ℕ) → AllShow [] (empty_slots maxbuff nlines n) (blanks n)
  AllShow-blanks zero = tt
  AllShow-blanks (suc n) = (refl, AllShow-blanks n)

  length-empty_slots : (n : ℕ) → length (empty_slots maxbuff nlines n) ≡ n
  length-empty_slots zero = refl
  length-empty_slots (suc n) = ap suc (length-empty_slots n)

  -- Of a file that consists of whole lines, holds no zero byte and no '%', and fits into the array
  -- with a byte more for each line, `tail` gives the last `nlines` lines, or all of them if there are
  -- no more, whatever stood in the array, if the caller's array is longer than the file. Of a file
  -- without a line it gives nothing: the caller's array is left as it was.
  pub tail-eq-last_lines :
      (ls : List Bytes) (size : ℕ) (buff : Bytes)
      → 1 ≤ nlines
      → length buff ≡ maxbuff
      → All IsPlain ls
      → length (text_of ls) + length ls + 1 < maxbuff
      → length (text_of ls) < size
      → tail maxbuff nlines (some (text_of ls)) size buff ≡ ok (text_if_any (last_lines nlines ls))
  unfolding tail file_tail fresh
  tail-eq-last_lines ls size buff one sized plain fits room =
      let (pre, rest, slots, n, scanned, shows, ends) =
        scan_lines ls [] (empty_slots maxbuff nlines nlines) (blanks nlines) 0 buff plain
          (AllShow-blanks nlines) (length-empty_slots nlines) one (omega arith) (inl refl)
          (omega (arith, sized)) (omega (arith, fits)) in
      let texts = join-slide nlines ls in
      let shorter : length (join (slide (blanks nlines) ls)) ≤ length (text_of ls) =
        rw texts (length-text_of-drop (length ls - nlines) ls) in
      rw
        (
          scanned,
          finish_lines pre rest slots n ends,
          print_slots_lem maxbuff size pre rest 0 slots (slide (blanks nlines) ls) shows
              (omega (arith, shorter, fits)) (omega (arith, shorter, room)),
          any_printed_lem pre slots (slide (blanks nlines) ls) shows,
          texts,
          if_any-text_of (last_lines nlines ls),
        )
        refl
