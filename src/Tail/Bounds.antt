-- ===== src/Tail/Bounds.antt =====
-- fileTailer.cc: no access leaves the arrays of `fileTail`.
use zdaq.Base.{
  ℕ, zero, suc, ◌-◌, ◌≤◌, ◌≡◌, refl, ap, Bool, true, false, ◌&&◌, ◌||◌, not, ◌==◌, Bool-cases, inl,
  inr, some, [], ◌∷◌, length, get_elem?-some, set, arith, ok,
}
use zdaq.Base.Memory.{Bytes}
use zdaq.Tail.{Tail, scan, last_line, byte_before, finish, fresh, empty_slots, file_tail}
use zdaq.Tail.Steps.{
  IsFit, begin_line_ok, put_ok, wrap_around_ok, room_at_ok, store_ok, set_last_ok,
}

module _ (maxbuff nlines : ℕ) (big : 2 ≤ maxbuff) (some_lines : 1 ≤ nlines) where
  scan_ok :
      (stops : Bool) (cs : Bytes) (s : Tail)
      → IsFit maxbuff nlines big some_lines s
      → (out : Bool × Tail) × (scan maxbuff nlines stops cs s ≡ ok out)
        × IsFit maxbuff nlines big some_lines out.1
  unfolding scan
  scan_ok stops [] s i = ((true, s), refl, i)
  scan_ok stops (c ∷ cs) s i =
      let (s₁, begun, i₁, found₁) = begin_line_ok maxbuff nlines big some_lines s i in
      let (s₂, wrapped, i₂, found₂, inside) =
        wrap_around_ok maxbuff nlines big some_lines s₁ i₁ found₁ in
      let (room, tested) = room_at_ok maxbuff nlines big some_lines s₂ i₂ found₂ in
      elim (Bool-cases (stops && not room)) [
        | inl full ↦ ((false, s₂), rw (begun, wrapped, tested, full) refl, i₂)
        | inr free ↦
            let (s₃, stored, i₃) = store_ok maxbuff nlines big some_lines c s₂ i₂ found₂ inside in
            let (out, rest, fit) = scan_ok stops cs s₃ i₃ in
            (out, rw (begun, wrapped, tested, free, stored) rest, fit)
      ]

  last_line_ok :
      (stops : Bool) (s : Tail)
      → IsFit maxbuff nlines big some_lines s
      → 1 ≤ s.nfound
      → (t : Tail) × (last_line maxbuff nlines stops s ≡ ok t)
  last_line_ok stops s i found =
      let (room, tested) = room_at_ok maxbuff nlines big some_lines s i found in
      let (lines, stored, same) =
        set_last_ok s.wrap s.linestart s.lines (omega (arith, i.slotted)) in
      elim (Bool-cases (stops || room)) [
        | inl go ↦ (
          record s { buff = set s.buff s.buffp 0; lines = lines },
          rw (tested, go, put_ok maxbuff nlines big some_lines 0 s i.inside, stored) refl,
        )
        | inr stay ↦ (s, rw (tested, stay) refl)
      ]

  finish_ok :
      (stops : Bool) (end : Bool × Tail)
      → IsFit maxbuff nlines big some_lines end.1
      → (t : Tail) × (finish maxbuff nlines stops end ≡ ok t)
  unfolding finish
  finish_ok stops (false, s) i = (s, refl)
  finish_ok stops (true, s) i = elim (Bool-cases (s.buffp == 0)) [
    | inl start ↦ (s, rw start refl)
    | inr later ↦
        let found : 1 ≤ s.nfound = elim (Bool-cases (s.nfound == 0)) [
          | inl nothing ↦ absurd (ground (arith, later, i.first (ground (arith, nothing))))
          | inr one ↦ ground (arith, one)
        ] in
        let (b, there) = get_elem?-some s.buff (s.buffp - 1) (omega (arith, i.sized, i.inside)) in
        elim (Bool-cases (b == 0)) [
          | inl ended ↦ (s, rw (later, byte_before, there, ended) refl)
          | inr open_line ↦
              let (t, done) = last_line_ok stops s i found in
              (t, rw (later, byte_before, there, open_line) done)
        ]
  ]

  length-empty_slots : (n : ℕ) → length (empty_slots maxbuff nlines n) ≡ n
  length-empty_slots zero = refl
  length-empty_slots (suc n) = ap suc (length-empty_slots n)

  fresh-IsFit :
      (buff : Bytes)
      → length buff ≡ maxbuff
      → IsFit maxbuff nlines big some_lines (fresh maxbuff nlines buff)
  unfolding fresh
  fresh-IsFit buff sized = record {
    sized = sized;
    slotted = length-empty_slots nlines;
    inside = omega arith;
    counted = omega arith;
    first = λ z. (refl, refl, refl);
  }

  -- With an array of two bytes or more and room for a line, reading a file of any length and content
  -- ends, and no read or write leaves the arrays.
  pub file_tail_ok :
      (s buff : Bytes)
      → length buff ≡ maxbuff
      → (t : Tail) × (file_tail maxbuff nlines (some s) buff ≡ ok t)
  unfolding file_tail
  file_tail_ok s buff sized =
      let (end, scanned, fit) =
        scan_ok true s (fresh maxbuff nlines buff) (fresh-IsFit buff sized) in
      let (t, done) = finish_ok true end fit in (t, rw scanned done)
