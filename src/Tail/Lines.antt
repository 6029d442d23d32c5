-- ===== src/Tail/Lines.antt =====
-- fileTailer.cc, `fileTail`: one line of a file that fits into the array.
use zdaq.Base.{
  ℕ, suc, ◌+◌, ◌≤◌, ◌<◌, ◌≡◌, refl, ◌∙◌, true, ltb, if◌then◌else◌, none, some, List, [], ◌∷◌, ◌++◌,
  length, length-append, arith, ok,
}
use mathlib.Core.List.{append_assoc}
use zdaq.Base.Memory.{Bytes}
use zdaq.Tail.{Slot, shift, begin_line, scan}
use zdaq.Tail.Slots.{IsPlain, ended, AllShow, AllShow-append, AllShow-snoc}
use zdaq.Tail.Chars.{state, Counted, scan_char, scan_newline}

module _ (maxbuff nlines : ℕ) where
  begin_not :
      (pre rest : Bytes) (slots : List Slot) (start n : ℕ)
      → start < length pre
      → begin_line maxbuff nlines (state maxbuff nlines pre rest slots start n)
        ≡ ok (state maxbuff nlines pre rest slots start n)
  unfolding begin_line
  begin_not pre rest slots start n h = ground arith

  -- A line has begun at `start`; what is left of it is read.
  scan_rest :
      (l : Bytes) (pre : Bytes) (slots : List Slot) (ts : List Bytes) (start n : ℕ)
      (cs rest : Bytes)
      → IsPlain l
      → AllShow pre (slots ++ (none, none) ∷ []) ts
      → Counted maxbuff nlines (slots ++ (none, none) ∷ []) n
      → start < length pre
      → length pre + length rest ≡ maxbuff
      → length pre + length l + 3 < maxbuff
      → let pre' = pre ++ (ended l ++ 0 ∷ []) in
        (rest' : Bytes) × (length pre' + length rest' ≡ maxbuff)
        × (scan maxbuff nlines true
              (ended l ++ cs)
              (state maxbuff nlines pre rest (slots ++ (none, none) ∷ []) start n)
            ≡ scan maxbuff nlines true cs (
                state maxbuff nlines pre' rest' (slots ++ (some start, none) ∷ []) (length pre') n))
  scan_rest l pre slots ts start n cs [] plain shows counted before sized h =
      absurd (omega (arith, sized, h))
  scan_rest l pre slots ts start n cs (x ∷ []) plain shows counted before sized h =
      absurd (omega (arith, sized, h))
  scan_rest [] pre slots ts start n cs (x ∷ y ∷ rest) plain shows counted before sized h = (
    rest,
    omega (arith, sized, length-append pre (b'\n' ∷ 0 ∷ [])),
    scan_newline maxbuff nlines pre slots ts start n cs x y rest
        (state maxbuff nlines pre (x ∷ y ∷ rest) (slots ++ (none, none) ∷ []) start n) shows counted
        (omega (arith, h))
        (begin_not pre (x ∷ y ∷ rest) (slots ++ (none, none) ∷ []) start n before),
  )
  scan_rest (c ∷ l) pre slots ts start n cs (x ∷ y ∷ rest) plain shows counted before sized h =
      let slots₁ = slots ++ (none, none) ∷ [] in
      let pre₁ = pre ++ c ∷ [] in
      let longer : length pre₁ ≡ suc (length pre) = omega (arith, length-append pre (c ∷ [])) in
      let (rest', sized', read) =
        scan_rest l pre₁ slots ts start n cs (y ∷ rest) plain.1
          (AllShow-append pre (c ∷ []) slots₁ ts shows) counted (omega (arith, longer, before))
          (omega (arith, longer, sized)) (omega (arith, longer, h)) in
      let first =
        scan_char maxbuff nlines pre slots₁ ts start n shows counted c (ended l ++ cs) x (y ∷ rest)
          (state maxbuff nlines pre (x ∷ y ∷ rest) slots₁ start n) plain.0.0 (omega (arith, h))
          (begin_not pre (x ∷ y ∷ rest) slots₁ start n before) in
      let joined = append_assoc pre (c ∷ []) (ended l ++ 0 ∷ []) in
      (rest', rw (← joined) sized', first ∙ rw (← joined) read)

  begin_new :
      (pre rest : Bytes) (slot : Slot) (slots : List Slot) (n : ℕ)
      → begin_line maxbuff nlines (state maxbuff nlines pre rest (slot ∷ slots) (length pre) n)
        ≡ ok (
            state maxbuff nlines pre rest
              (slots ++ (none, none) ∷ [])
              (length pre)
              (if ltb n nlines then suc n else n))
  unfolding begin_line shift
  begin_new pre rest slot slots n = ground arith

  abbrev pub found_after : ℕ → ℕ
  found_after n = if ltb n nlines then suc n else n

  pub Counted-after :
      (slot new : Slot) (slots : List Slot) (n : ℕ)
      → length (slot ∷ slots) ≡ nlines
      → n ≤ nlines
      → Counted maxbuff nlines (slots ++ new ∷ []) (found_after n)
  Counted-after slot new slots n same small =
      let longer : length (slots ++ new ∷ []) ≡ length slots + 1 = length-append slots (new ∷ []) in
      (omega (arith, longer, same), ground (arith, same), ground (arith, same))

  -- A whole line, with the first slot given up for it.
  pub scan_line :
      (l : Bytes) (pre : Bytes) (slot : Slot) (slots : List Slot) (t : Bytes) (ts : List Bytes)
      (n : ℕ) (cs rest : Bytes)
      → IsPlain l
      → AllShow pre (slot ∷ slots) (t ∷ ts)
      → length (slot ∷ slots) ≡ nlines
      → n ≤ nlines
      → length pre + length rest ≡ maxbuff
      → length pre + length l + 3 < maxbuff
      → let pre' = pre ++ (ended l ++ 0 ∷ []) in
        (rest' : Bytes) × (length pre' + length rest' ≡ maxbuff)
        × (scan maxbuff nlines true
              (ended l ++ cs)
              (state maxbuff nlines pre rest (slot ∷ slots) (length pre) n)
            ≡ scan maxbuff nlines true cs (
                state maxbuff nlines pre' rest'
                  (slots ++ (some (length pre), none) ∷ [])
                  (length pre')
                  (found_after n)))
  scan_line l pre slot slots t ts n cs [] plain shows same small sized h =
      absurd (omega (arith, sized, h))
  scan_line l pre slot slots t ts n cs (x ∷ []) plain shows same small sized h =
      absurd (omega (arith, sized, h))
  scan_line [] pre slot slots t ts n cs (x ∷ y ∷ rest) plain shows same small sized h = (
    rest,
    omega (arith, sized, length-append pre (b'\n' ∷ 0 ∷ [])),
    scan_newline maxbuff nlines pre slots (ts ++ [] ∷ []) (length pre) (found_after n) cs x y rest
        (state maxbuff nlines pre (x ∷ y ∷ rest) (slot ∷ slots) (length pre) n)
        (AllShow-snoc pre slots ts (none, none) [] shows.1 refl)
        (Counted-after slot (none, none) slots n same small) (omega (arith, h))
        (begin_new pre (x ∷ y ∷ rest) slot slots n),
  )
  scan_line (c ∷ l) pre slot slots t ts n cs (x ∷ y ∷ rest) plain shows same small sized h =
      let slots₁ = slots ++ (none, none) ∷ [] in
      let shows₁ = AllShow-snoc pre slots ts (none, none) [] shows.1 refl in
      let counted = Counted-after slot (none, none) slots n same small in
      let pre₁ = pre ++ c ∷ [] in
      let longer : length pre₁ ≡ suc (length pre) = omega (arith, length-append pre (c ∷ [])) in
      let (rest', sized', read) =
        scan_rest l pre₁ slots (ts ++ [] ∷ []) (length pre) (found_after n) cs (y ∷ rest) plain.1
          (AllShow-append pre (c ∷ []) slots₁ (ts ++ [] ∷ []) shows₁) counted
          (omega (arith, longer)) (omega (arith, longer, sized)) (omega (arith, longer, h)) in
      let first =
        scan_char maxbuff nlines pre slots₁ (ts ++ [] ∷ []) (length pre) (found_after n) shows₁
          counted c (ended l ++ cs) x (y ∷ rest)
          (state maxbuff nlines pre (x ∷ y ∷ rest) (slot ∷ slots) (length pre) n) plain.0.0
          (omega (arith, h)) (begin_new pre (x ∷ y ∷ rest) slot slots n) in
      let joined = append_assoc pre (c ∷ []) (ended l ++ 0 ∷ []) in
      (rest', rw (← joined) sized', first ∙ rw (← joined) read)
