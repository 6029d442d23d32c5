-- ===== src/Router/Listed.antt =====
-- zmRouter.cc, `list`, against the files that src/zmPublisher.cc binds its sockets to.
use zdaq.Base.{
  ℕ, zero, suc, ◌+◌, ◌/◌, ◌%◌, ◌≡◌, refl, ◌∙◌, true, false, Bool-cases, inl, inr, leb, ltb,
  if◌then◌else◌, List, [], ◌∷◌, ◌++◌, length, ok, err, overrun, All, All-append, length-append,
  some, map, arith,
}
use mathlib.Core.List.{append-nil, append_assoc}
use zdaq.Base.Memory.{Bytes}
use zdaq.Base.Text.{codes, decimal, digits, bytes_eq}
use zdaq.Wire.{source_header, expect}
use zdaq.Source.Publisher.{bind_address}
use zdaq.Router.{
  Router, is_line_end, is_tail, dsfilter, add_input_stream, stream_address, add_listed, list,
}

abbrev IsOneLine : Bytes → Type 0
IsOneLine s = All (λ c. is_line_end c ≡ false) s

digits-IsOneLine : (f n : ℕ) (out : Bytes) → IsOneLine out → IsOneLine (digits f n out)
unfolding digits
digits-IsOneLine zero n out plain = plain
digits-IsOneLine (suc f) n out plain = elim (Bool-cases (ltb n 10)) [
  | inl small ↦ rw (small, digits) (ground (arith, small), plain)
  | inr large ↦
      rw (large, digits) (digits-IsOneLine f (n / 10) ((b'0' + n % 10) ∷ out) (ground arith, plain))
]

is_tail-append : (s t : Bytes) → IsOneLine s → is_tail t ≡ true → is_tail (s ++ t) ≡ true
unfolding is_tail
is_tail-append [] t plain h = h
is_tail-append (c ∷ s) t plain h =
    let later = is_tail-append s t plain.1 h in
    elim (Bool-cases (bytes_eq (c ∷ (s ++ t)) (codes ".ipc"))) [
      | inl here ↦ rw here refl
      | inr there ↦ rw (there, plain.0, later) refl
    ]

decimal-IsOneLine : (n : ℕ) → IsOneLine (decimal n)
unfolding decimal
decimal-IsOneLine n = digits-IsOneLine (suc n) n [] tt

ipc_tail : is_tail (codes ".ipc") ≡ true
unfolding is_tail bytes_eq
ipc_tail = refl

-- The file that a publisher binds its socket to.
abbrev pub file_of : ℕ × ℕ → Bytes
file_of (det, dif) = source_header det dif ++ codes ".ipc"

abbrev pub bound_to : ℕ × ℕ → Bytes
bound_to (det, dif) = bind_address det dif

stream_address-file_of : (d : ℕ × ℕ) → stream_address (file_of d) ≡ bound_to d
unfolding stream_address bind_address
stream_address-file_of (det, dif) = refl

dsfilter-file_of : (d : ℕ × ℕ) → dsfilter (file_of d) ≡ true
unfolding dsfilter source_header expect
dsfilter-file_of (det, dif) =
    is_tail-append (decimal det ++ (codes "-" ++ decimal dif)) (codes ".ipc")
      (All-append (λ c. is_line_end c ≡ false) (decimal det) (codes "-" ++ decimal dif)
        (decimal-IsOneLine det) (refl, decimal-IsOneLine dif))
      ipc_tail

add_listed-files :
    (ids : List (ℕ × ℕ)) (r : Router)
    → leb (length r.inputs) 255 ≡ true
    → add_listed (map file_of ids) r ≡ (
        if leb (length r.inputs + length ids) 255
        then ok (record r { inputs = r.inputs ++ map bound_to ids })
        else err overrun)
unfolding add_listed add_input_stream
add_listed-files [] r room =
    let same : length r.inputs + 0 ≡ length r.inputs = omega arith in
    rw (same, room, append-nil r.inputs) refl
add_listed-files (d ∷ ids) r room = elim (Bool-cases (ltb (length r.inputs) 255)) [
  | inr full ↦
      let beyond : leb (length r.inputs + suc (length ids)) 255 ≡ false = ground arith in
      rw (dsfilter-file_of d, full, beyond) refl
  | inl fits ↦
      let r' : Router = record r { inputs = r.inputs ++ bound_to d ∷ [] } in
      let more = length-append r.inputs (bound_to d ∷ []) in
      let rest = add_listed-files ids r' (ground (arith, more)) in
      let count : length r'.inputs + length ids ≡ length r.inputs + suc (length ids) =
        omega (arith, more) in
      let behind = append_assoc r.inputs (bound_to d ∷ []) (map bound_to ids) in
      rw (dsfilter-file_of d, fits, stream_address-file_of d) (rest ∙ rw (count, behind) refl)
]

-- A router with at most 255 inputs that lists a directory with the files of some publishers connects
-- to exactly the addresses that they are bound to, in the order of the files and behind the inputs that
-- it has, if these are at most 255 in all; beyond that it writes past the end of its array.
pub list-files :
    (ids : List (ℕ × ℕ)) (r : Router)
    → leb (length r.inputs) 255 ≡ true
    → list (some (map file_of ids)) r ≡ (
        if leb (length r.inputs + length ids) 255
        then ok (record r { inputs = r.inputs ++ map bound_to ids })
        else err overrun)
unfolding list
list-files ids r room = add_listed-files ids r room
