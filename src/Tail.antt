-- ===== src/Tail.antt =====
-- src/fileTailer.cc: the last lines of a file, kept in an array of `maxbuff` bytes that is written
-- round and round. A pointer into the array is an offset, `none` a null pointer. What stands in the
-- array at first is given, since nothing is written there.
pub mod Steps
pub mod Bounds
pub mod Slots
pub mod Chars
pub mod Lines
pub mod Last
use zdaq.Base.{
  ℕ, zero, suc, ◌+◌, ◌-◌, ◌≡◌, Bool, true, false, ◌&&◌, ◌||◌, not, ltb, leb, ◌==◌, if◌then◌else◌,
  Option, none, some, List, [], ◌∷◌, ◌++◌, length, get_elem?, set, Result, ok, err, ◌>>=◌, ◌>>◌,
  guard, overrun, indeterminate, crash,
}
use zdaq.Base.Memory.{Bytes}

-- `lines[i]`: where the line, or its first half, begins, and its second half.
abbrev pub Slot : Type 0
Slot = Option ℕ × Option ℕ

pub record Tail : Type 0 where
  pub buff : Bytes
  pub lines : List Slot
  pub buffp : ℕ
  pub linestart : ℕ
  pub wrap : Bool
  pub nfound : ℕ

abbrev pub is_at : Option ℕ → ℕ → Bool
is_at none p = false
is_at (some q) p = q == p

-- There has to be a line to shift.
unfoldable pub shift : List Slot → Result (List Slot)
shift [] = err overrun
shift (slot ∷ slots) = ok (slots ++ (none, none) ∷ [])

abbrev pub at_half : Bool → ℕ → Slot → Slot
at_half false p (first, second) = (some p, second)
at_half true p (first, second) = (first, some p)

-- `lines[nlines - 1][wrap] = p`.
unfoldable pub set_last : Bool → ℕ → List Slot → Result (List Slot)
set_last wrap p [] = err overrun
set_last wrap p (slot ∷ []) = ok (at_half wrap p slot ∷ [])
set_last wrap p (slot ∷ next ∷ slots) = do rest ← set_last wrap p (next ∷ slots); ok (slot ∷ rest)

unfoldable pub test_for_room : List Slot → ℕ → ℕ → Result Bool
test_for_room lines index buffp = elim (get_elem? lines index) [
  | none ↦ err overrun
  | some slot ↦ ok (not (is_at slot.0 buffp || is_at slot.0 (suc buffp)))
]

module _ (maxbuff nlines : ℕ) where
  -- `*buffp++ = c`, inside the array.
  abbrev pub put : ℕ → Tail → Result Tail
  put c s = do
    guard (ltb s.buffp maxbuff) overrun
    ok (record s { buff = set s.buff s.buffp c; buffp = suc s.buffp })

  unfoldable pub begin_line : Tail → Result Tail
  begin_line s =
      if s.buffp == s.linestart && not s.wrap
      then (do
        lines ← shift s.lines
        ok (record s {
          lines = lines;
          nfound = if ltb s.nfound nlines then suc s.nfound else s.nfound;
        }))
      else ok s

  -- At the last byte of the array the line goes on at its beginning.
  unfoldable pub wrap_around : Tail → Result Tail
  wrap_around s =
      if suc s.buffp == maxbuff
      then (do
        s' ← put 0 s
        lines ← set_last false s'.linestart s'.lines
        ok (record s' { lines = lines; wrap = true; linestart = 0; buffp = 0 }))
      else ok s

  abbrev pub room_at : Tail → Result Bool
  room_at s = test_for_room s.lines (nlines - s.nfound) s.buffp

  abbrev pub end_line : Tail → Result Tail
  end_line s = do
    s' ← put 0 s
    lines ← set_last s'.wrap s'.linestart s'.lines
    let next = if leb maxbuff (suc s'.buffp) then 0 else s'.buffp
    ok (record s' { lines = lines; wrap = false; buffp = next; linestart = next })

  unfoldable pub store : ℕ → Tail → Result Tail
  store c s = do s' ← put c s; if c == b'\n' then end_line s' else ok s'

  -- The loop over the characters; the Boolean is whether it came to the end of the file. Without
  -- `stops` it goes on where there is no room.
  unfoldable pub scan : Bool → Bytes → Tail → Result (Bool × Tail)
  scan stops [] s = ok (true, s)
  scan stops (c ∷ cs) s = do
    s₁ ← begin_line s
    s₂ ← wrap_around s₁
    room ← room_at s₂
    if stops && not room then ok (false, s₂) else (do s₃ ← store c s₂; scan stops cs s₃)

  abbrev pub byte_before : Tail → Result ℕ
  byte_before s = elim (get_elem? s.buff (s.buffp - 1)) [ none ↦ err overrun | some b ↦ ok b ]

  abbrev pub last_line : Bool → Tail → Result Tail
  last_line stops s = do
    room ← room_at s
    if stops || room
        then (do
          s' ← put 0 s
          lines ← set_last s'.wrap s'.linestart s'.lines
          ok (record s' { lines = lines; buffp = s.buffp }))
        else ok s

  -- The input may have ended without a newline.
  unfoldable pub finish : Bool → Bool × Tail → Result Tail
  finish stops (false, s) = ok s
  finish stops (true, s) =
      if s.buffp == 0
      then ok s
      else (do b ← byte_before s; if b == 0 then ok s else last_line stops s)

  abbrev pub empty_slots : ℕ → List Slot
  empty_slots zero = []
  empty_slots (suc n) = (none, none) ∷ empty_slots n

  unfoldable pub fresh : Bytes → Tail
  fresh buff = record {
    buff = buff;
    lines = empty_slots nlines;
    buffp = 0;
    linestart = 0;
    wrap = false;
    nfound = 0;
  }

  -- `getc` of a file that could not be opened.
  unfoldable pub file_tail : Option Bytes → Bytes → Result Tail
  file_tail none buff = err crash
  file_tail (some s) buff = do end ← scan true s (fresh buff); finish true end

  -- The same on the standard input, with the other conditions.
  unfoldable pub find_tail : Bytes → Bytes → Result Tail
  find_tail s buff = do end ← scan false s (fresh buff); finish false end

-- The text from an offset to the next zero byte.
unfoldable pub c_string : ℕ → Bytes → Result Bytes
c_string p [] = err overrun
c_string (suc p) (b ∷ bs) = c_string p bs
c_string zero (b ∷ bs) = if b == 0 then ok [] else (do rest ← c_string zero bs; ok (b ∷ rest))

-- `sprintf` with the text as its format: a conversion asks for an argument that is not there.
unfoldable pub formatted : Bytes → Result Bytes
formatted [] = ok []
formatted (c ∷ []) = if c == b'%' then err indeterminate else ok (c ∷ [])
formatted (c ∷ d ∷ s) = elim (c == b'%') [
  | true ↦ elim (d == b'%') [
    | true ↦ do rest ← formatted s; ok (b'%' ∷ rest)
    | false ↦ err indeterminate
  ]
  | false ↦ do rest ← formatted (d ∷ s); ok (c ∷ rest)
]

module _ (maxbuff size : ℕ) (buff : Bytes) where
  -- What is printed at `ib` for a pointer that is not null. The array of the caller has `size` bytes.
  abbrev pub print : ℕ → Option ℕ → Result Bytes
  print ib none = err crash
  print ib (some p) = do
    line ← c_string p buff
    text ← formatted line
    guard (ltb (ib + length text) size) overrun
    ok text

  -- Both halves of a slot; the text of the second is that of the first.
  unfoldable pub print_slot : ℕ → Slot → Result Bytes
  print_slot ib (first, second) = do
    a ← elim first [ none ↦ ok [] | some p ↦ if ltb ib maxbuff then print ib (some p) else ok [] ]
    b ← elim second [
      | none ↦ ok []
      | some q ↦ if ltb (ib + length a) maxbuff then print (ib + length a) first else ok []
    ]
    ok (a ++ b)

  unfoldable pub print_slots : ℕ → List Slot → Result Bytes
  print_slots ib [] = ok []
  print_slots ib (slot ∷ slots) = do
    a ← print_slot ib slot
    b ← print_slots (ib + length a) slots
    ok (a ++ b)

-- Whether `sprintf` runs at all.
abbrev pub any_printed : List Slot → Bool
any_printed [] = false
any_printed ((none, none) ∷ slots) = any_printed slots
any_printed ((none, some q) ∷ slots) = true
any_printed ((some p, second) ∷ slots) = true

-- The text that is left in the caller's array; `none` where nothing is written there, not even the
-- zero byte of an empty text.
unfoldable pub tail : ℕ → ℕ → Option Bytes → ℕ → Bytes → Result (Option Bytes)
tail maxbuff nlines file size buff = do
  t ← file_tail maxbuff nlines file buff
  text ← print_slots maxbuff size t.buff 0 t.lines
  ok (if any_printed t.lines then some text else none)
