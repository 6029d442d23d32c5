-- ===== src/Tail/Chars.antt =====
-- fileTailer.cc, `fileTail`: one character of a file that fits into the array.
use zdaq.Base.{
  ℕ, zero, suc, ◌+◌, ◌-◌, ◌≤◌, ◌<◌, ◌≡◌, ◌≢◌, refl, ap, ◌∙◌, subst, true, false, ltb, leb, ◌==◌,
  none, some, List, [], ◌∷◌, ◌++◌, length, length-append, get_elem?, get_elem?-some, set, arith, ok,
}
use mathlib.Core.List.{append_assoc}
use zdaq.Base.Memory.{Bytes}
use zdaq.Tail.{
  Slot, Tail, is_at, set_last, test_for_room, put, begin_line, wrap_around, room_at, store, scan,
}
use zdaq.Tail.Slots.{ended, Shows, AllShow}

pub set-append :
    (pre : Bytes) (x : ℕ) (rest : Bytes) (c : ℕ)
    → set (pre ++ x ∷ rest) (length pre) c ≡ (pre ++ c ∷ []) ++ rest
set-append [] x rest c = refl
set-append (b ∷ pre) x rest c = ap (◌∷◌ b) (set-append pre x rest c)

pub set_last-append :
    (p : ℕ) (slots : List Slot)
    → set_last false p (slots ++ (none, none) ∷ []) ≡ ok (slots ++ (some p, none) ∷ [])
unfolding set_last
set_last-append p [] = refl
set_last-append p (slot ∷ []) = refl
set_last-append p (slot ∷ next ∷ slots) = rw (set_last-append p (next ∷ slots)) refl

pub AllShow-get :
    (pre : Bytes) (slots : List Slot) (ts : List Bytes) (i : ℕ) {slot : Slot}
    → AllShow pre slots ts
    → get_elem? slots i ≡ some slot
    → (t : Bytes) × Shows pre slot t
AllShow-get pre [] ts i h e = absurd (cc e)
AllShow-get pre (s ∷ slots) [] i h e = absurd (cc h)
AllShow-get pre (s ∷ slots) (t ∷ ts) zero {slot} h e = (t, subst (λ x. Shows pre x t) (cc e) h.0)
AllShow-get pre (s ∷ slots) (t ∷ ts) (suc i) h e = AllShow-get pre slots ts i h.1 e

-- A line that stands in the array begins before what is written next.
pub Shows-room :
    (pre : Bytes) (slot : Slot) (t : Bytes)
    → Shows pre slot t
    → (is_at slot.0 (length pre) ≡ false) × (is_at slot.0 (suc (length pre)) ≡ false)
Shows-room pre (none, none) t h = (refl, refl)
Shows-room pre (none, some q) t h = absurd (cc h)
Shows-room pre (some p, some q) t h = absurd (cc h)
Shows-room pre (some p, none) t (l, a, b, plain, et, ep, ea) =
    let longer : length pre ≡ length a + length (ended l ++ 0 ∷ b) =
      ap length ea ∙ length-append a (ended l ++ 0 ∷ b) in
    let some_of : length (ended l ++ 0 ∷ b) ≡ length (ended l) + suc (length b) =
      length-append (ended l) (0 ∷ b) in
    (ground (arith, longer, some_of), ground (arith, longer, some_of))

pub room_lem :
    (pre : Bytes) (slots : List Slot) (ts : List Bytes) (index : ℕ)
    → AllShow pre slots ts
    → index < length slots
    → test_for_room slots index (length pre) ≡ ok true
unfolding test_for_room
room_lem pre slots ts index h small =
    let (slot, there) = get_elem?-some slots index small in
    let (t, shows) = AllShow-get pre slots ts index h there in
    let (here, next) = Shows-room pre slot t shows in rw (there, test_for_room, here, next) refl

module _ (maxbuff nlines : ℕ) where
  -- The array holds `pre`, and the next byte goes behind it.
  abbrev pub state : Bytes → Bytes → List Slot → ℕ → ℕ → Tail
  state pre rest slots start n = record {
    buff = pre ++ rest;
    lines = slots;
    buffp = length pre;
    linestart = start;
    wrap = false;
    nfound = n;
  }

  -- The numbers of slots and lines fit.
  abbrev pub Counted : List Slot → ℕ → Type 0
  Counted slots n = (length slots ≡ nlines) × (1 ≤ n) × (n ≤ nlines)

  pub wrap_not :
      (pre rest : Bytes) (slots : List Slot) (start n : ℕ)
      → suc (length pre) < maxbuff
      → wrap_around maxbuff nlines (state pre rest slots start n)
        ≡ ok (state pre rest slots start n)
  unfolding wrap_around
  wrap_not pre rest slots start n h = ground arith

  pub put_lem :
      (c : ℕ) (pre : Bytes) (x : ℕ) (rest : Bytes) (slots : List Slot) (start n : ℕ)
      → length pre < maxbuff
      → put maxbuff nlines c (state pre (x ∷ rest) slots start n)
        ≡ ok (state (pre ++ c ∷ []) rest slots start n)
  put_lem c pre x rest slots start n h =
      let room : ltb (length pre) maxbuff ≡ true = ground arith in
      let longer : suc (length pre) ≡ length (pre ++ c ∷ []) =
        omega (arith, length-append pre (c ∷ [])) in
      rw (room, set-append pre x rest c, longer) refl

  module _ (pre : Bytes) (slots : List Slot) (ts : List Bytes) (start n : ℕ)
      (shows : AllShow pre slots ts) (counted : Counted slots n) where
    -- A character of a line, once the line has begun.
    pub scan_char :
        (c : ℕ) (cs : Bytes) (x : ℕ) (rest : Bytes) (s : Tail)
        → c ≢ b'\n'
        → suc (length pre) < maxbuff
        → begin_line maxbuff nlines s ≡ ok (state pre (x ∷ rest) slots start n)
        → scan maxbuff nlines true (c ∷ cs) s
          ≡ scan maxbuff nlines true cs (state (pre ++ c ∷ []) rest slots start n)
    unfolding scan store
    scan_char c cs x rest s ne h begun =
        let room : room_at maxbuff nlines (state pre (x ∷ rest) slots start n) ≡ ok true =
          room_lem pre slots ts (nlines - n) shows
            (omega (arith, counted.0, counted.1, counted.2)) in
        let other : (c == b'\n') ≡ false = ground arith in
        rw
          (
            begun,
            wrap_not pre (x ∷ rest) slots start n h,
            room,
            put_lem c pre x rest slots start n (omega (arith, h)),
            other,
          )
          refl

  -- The newline that ends a line.
  pub scan_newline :
      (pre : Bytes) (slots : List Slot) (ts : List Bytes) (start n : ℕ) (cs : Bytes) (x y : ℕ)
      (rest : Bytes) (s : Tail)
      → AllShow pre (slots ++ (none, none) ∷ []) ts
      → Counted (slots ++ (none, none) ∷ []) n
      → suc (suc (suc (length pre))) < maxbuff
      → begin_line maxbuff nlines s
        ≡ ok (state pre (x ∷ y ∷ rest) (slots ++ (none, none) ∷ []) start n)
      → let pre' = pre ++ b'\n' ∷ 0 ∷ [] in
        scan maxbuff nlines true (b'\n' ∷ cs) s
        ≡ scan maxbuff nlines true cs
            (state pre' rest (slots ++ (some start, none) ∷ []) (length pre') n)
  unfolding scan store
  scan_newline pre slots ts start n cs x y rest s shows counted h begun =
      let slots₁ = slots ++ (none, none) ∷ [] in
      let room : room_at maxbuff nlines (state pre (x ∷ y ∷ rest) slots₁ start n) ≡ ok true =
        room_lem pre slots₁ ts (nlines - n) shows
          (omega (arith, counted.0, counted.1, counted.2)) in
      let pre₁ = pre ++ b'\n' ∷ [] in
      let longer : length pre₁ ≡ suc (length pre) = omega (arith, length-append pre (b'\n' ∷ [])) in
      let joined : pre₁ ++ 0 ∷ [] ≡ pre ++ b'\n' ∷ 0 ∷ [] =
        append_assoc pre (b'\n' ∷ []) (0 ∷ []) in
      let longest : length (pre ++ b'\n' ∷ 0 ∷ []) ≡ suc (suc (length pre)) =
        omega (arith, length-append pre (b'\n' ∷ 0 ∷ [])) in
      let stays : leb maxbuff (suc (length (pre ++ b'\n' ∷ 0 ∷ []))) ≡ false =
        ground (arith, longest) in
      rw
        (
          begun,
          wrap_not pre (x ∷ y ∷ rest) slots₁ start n (omega (arith, h)),
          room,
          put_lem b'\n' pre x (y ∷ rest) slots₁ start n (omega (arith, h)),
          put_lem 0 pre₁ y rest slots₁ start n (omega (arith, h, longer)),
          set_last-append start slots,
          joined,
          stays,
        )
        refl
