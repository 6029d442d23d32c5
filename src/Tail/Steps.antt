-- ===== src/Tail/Steps.antt =====
-- fileTailer.cc: every step of the scan stays in its arrays.
use zdaq.Base.{
  ℕ, suc, ◌-◌, ◌≤◌, ◌<◌, ◌≡◌, refl, ◌∙◌, Bool, true, false, ◌&&◌, ◌||◌, not, ltb, leb, ◌==◌,
  if◌then◌else◌, Bool-cases, inl, inr, none, List, [], ◌∷◌, ◌++◌, length, length-append, length-set,
  get_elem?-some, set, arith, ok,
}
use zdaq.Tail.{
  Slot, Tail, is_at, shift, set_last, test_for_room, put, begin_line, wrap_around, room_at,
  end_line, store,
}

pub shift_ok :
    (slots : List Slot)
    → 1 ≤ length slots
    → (out : List Slot) × (shift slots ≡ ok out) × (length out ≡ length slots)
unfolding shift
shift_ok [] h = absurd (omega arith)
shift_ok (slot ∷ slots) h =
    (slots ++ (none, none) ∷ [], refl, omega (arith, length-append slots ((none, none) ∷ [])))

pub set_last_ok :
    (wrap : Bool) (p : ℕ) (slots : List Slot)
    → 1 ≤ length slots
    → (out : List Slot) × (set_last wrap p slots ≡ ok out) × (length out ≡ length slots)
unfolding set_last
set_last_ok wrap p [] h = absurd (omega arith)
set_last_ok wrap p (slot ∷ []) h = (_, refl, refl)
set_last_ok wrap p (slot ∷ next ∷ slots) h =
    let (out, done, same) = set_last_ok wrap p (next ∷ slots) (omega arith) in
    (slot ∷ out, rw done refl, omega (arith, same))

pub test_for_room_ok :
    (slots : List Slot) (index p : ℕ)
    → index < length slots
    → (room : Bool) × (test_for_room slots index p ≡ ok room)
unfolding test_for_room
test_for_room_ok slots index p h =
    let (slot, there) = get_elem?-some slots index h in
    (not (is_at slot.0 p || is_at slot.0 (suc p)), rw (there, test_for_room) refl)

module _ (maxbuff nlines : ℕ) (big : 2 ≤ maxbuff) (some_lines : 1 ≤ nlines) where
  -- The state between two characters: both arrays have their sizes, the next byte lies in the buffer,
  -- and a line has been found once a character was read.
  pub record IsFit (s : Tail) : Type 0 where
    pub sized : length s.buff ≡ maxbuff
    pub slotted : length s.lines ≡ nlines
    pub inside : s.buffp < maxbuff
    pub counted : s.nfound ≤ nlines
    pub first : s.nfound ≡ 0 → (s.buffp ≡ 0) × (s.linestart ≡ 0) × (s.wrap ≡ false)

  pub begin_line_ok :
      (s : Tail)
      → IsFit s
      → (t : Tail) × (begin_line maxbuff nlines s ≡ ok t) × IsFit t × (1 ≤ t.nfound)
  unfolding begin_line
  begin_line_ok s i = elim (Bool-cases (s.buffp == s.linestart && not s.wrap)) [
    | inl new ↦
        let (lines, shifted, same) = shift_ok s.lines (omega (arith, i.slotted)) in
        (
          record s {
            lines = lines;
            nfound = if ltb s.nfound nlines then suc s.nfound else s.nfound;
          },
          rw (new, shifted) refl,
          record {
            sized = i.sized;
            slotted = same ∙ i.slotted;
            inside = i.inside;
            counted = ground (arith, i.counted);
            first = λ z. absurd (ground (arith, i.counted));
          },
          ground (arith, i.counted),
        )
    | inr old ↦ (
      s,
      rw old refl,
      i,
      elim (Bool-cases (s.nfound == 0)) [
        | inl nothing ↦ absurd (ground (arith, old, i.first (ground (arith, nothing))))
        | inr found ↦ ground (arith, found)
      ],
    )
  ]

  pub put_ok :
      (c : ℕ) (s : Tail)
      → s.buffp < maxbuff
      → put maxbuff nlines c s ≡ ok (record s { buff = set s.buff s.buffp c; buffp = suc s.buffp })
  put_ok c s h = ground arith

  pub wrap_around_ok :
      (s : Tail)
      → IsFit s
      → 1 ≤ s.nfound
      → (t : Tail) × (wrap_around maxbuff nlines s ≡ ok t)
        × IsFit t
        × (1 ≤ t.nfound)
        × (suc t.buffp < maxbuff)
  unfolding wrap_around
  wrap_around_ok s i found = elim (Bool-cases (suc s.buffp == maxbuff)) [
    | inl at_end ↦
        let (lines, stored, same) =
          set_last_ok false s.linestart s.lines (omega (arith, i.slotted)) in
        (
          record s {
            buff = set s.buff s.buffp 0;
            lines = lines;
            wrap = true;
            linestart = 0;
            buffp = 0;
          },
          rw (at_end, put_ok 0 s i.inside, stored) refl,
          record {
            sized = length-set s.buff s.buffp 0 ∙ i.sized;
            slotted = same ∙ i.slotted;
            inside = omega arith;
            counted = i.counted;
            first = λ z. absurd (omega (arith, found, z));
          },
          found,
          omega arith,
        )
    | inr before ↦ (s, rw before refl, i, found, ground (arith, before, i.inside))
  ]

  pub room_at_ok :
      (s : Tail) → IsFit s → 1 ≤ s.nfound → (room : Bool) × (room_at maxbuff nlines s ≡ ok room)
  room_at_ok s i found =
      test_for_room_ok s.lines (nlines - s.nfound) s.buffp
        (omega (arith, i.slotted, i.counted, found))

  pub end_line_ok :
      (s : Tail)
      → length s.buff ≡ maxbuff
      → length s.lines ≡ nlines
      → s.nfound ≤ nlines
      → 1 ≤ s.nfound
      → s.buffp < maxbuff
      → (t : Tail) × (end_line maxbuff nlines s ≡ ok t) × IsFit t
  end_line_ok s sized slotted counted found inside =
      let (lines, stored, same) = set_last_ok s.wrap s.linestart s.lines (omega (arith, slotted)) in
      let next = if leb maxbuff (suc (suc s.buffp)) then 0 else suc s.buffp in
      (
        record s {
          buff = set s.buff s.buffp 0;
          lines = lines;
          wrap = false;
          buffp = next;
          linestart = next;
        },
        rw (put_ok 0 s inside, stored) refl,
        record {
          sized = length-set s.buff s.buffp 0 ∙ sized;
          slotted = same ∙ slotted;
          inside = ground arith;
          counted = counted;
          first = λ z. absurd (omega (arith, found, z));
        },
      )

  pub store_ok :
      (c : ℕ) (s : Tail)
      → IsFit s
      → 1 ≤ s.nfound
      → suc s.buffp < maxbuff
      → (t : Tail) × (store maxbuff nlines c s ≡ ok t) × IsFit t
  unfolding store
  store_ok c s i found room =
      let s' : Tail = record s { buff = set s.buff s.buffp c; buffp = suc s.buffp } in
      let sized = length-set s.buff s.buffp c ∙ i.sized in
      elim (Bool-cases (c == b'\n')) [
        | inl newline ↦
            let (t, ended, fit) = end_line_ok s' sized i.slotted i.counted found room in
            (t, rw (put_ok c s i.inside, newline, ended) refl, fit)
        | inr other ↦ (
          s',
          rw (put_ok c s i.inside, other) refl,
          record {
            sized = sized;
            slotted = i.slotted;
            inside = room;
            counted = i.counted;
            first = λ z. absurd (omega (arith, found, z));
          },
        )
      ]
