-- ===== src/Router.antt =====
-- src/zmRouter.cc: what the sources of a computer publish, forwarded to one output.
pub mod Listed
use zdaq.Base.{
  ℕ, Bool, true, false, not, ◌&&◌, ◌||◌, ◌==◌, ltb, if◌then◌else◌, Option, none, some, List, [],
  ◌∷◌, ◌++◌, length, Result, ok, err, ◌>>=◌, ◌>>◌, guard, overrun,
}
use zdaq.Base.Memory.{Bytes}
use zdaq.Base.Text.{codes, bytes_eq}
use zdaq.Wire.{expect}

-- The sockets by the addresses that they are connected or bound to.
pub record Router : Type 0 where
  pub inputs : List Bytes
  pub outputs : List Bytes
  pub running : Bool

-- `_running`, which the constructor leaves as it is, is given.
unfoldable pub make : Bool → Router
make running = record { inputs = []; outputs = []; running = running }

abbrev pub is_line_end : ℕ → Bool
is_line_end c = c == 10 || c == 13

-- The pattern `DS-.*+\.ipc`, of all the name.
unfoldable pub is_tail : Bytes → Bool
is_tail [] = false
is_tail (c ∷ s) = bytes_eq (c ∷ s) (codes ".ipc") || not (is_line_end c) && is_tail s

unfoldable pub dsfilter : Bytes → Bool
dsfilter name = elim (expect (codes "DS-") name) [ none ↦ false | some rest ↦ is_tail rest ]

-- The items to poll are an array of 255.
unfoldable pub add_input_stream : Bytes → Router → Result Router
add_input_stream fn r = do
  guard (ltb (length r.inputs) 255) overrun
  ok (record r { inputs = r.inputs ++ fn ∷ [] })

unfoldable pub add_output_stream : Bytes → Router → Router
add_output_stream fn r = record r { outputs = r.outputs ++ fn ∷ [] }

-- Whatever directory is listed, the address is one of /dev/shm.
unfoldable pub stream_address : Bytes → Bytes
stream_address name = codes "ipc:///dev/shm/" ++ name

unfoldable pub add_listed : List Bytes → Router → Result Router
add_listed [] r = ok r
add_listed (name ∷ names) r =
    if dsfilter name
    then (do r' ← add_input_stream (stream_address name) r; add_listed names r')
    else add_listed names r

-- The names in the directory, in their order, or none where it cannot be opened.
unfoldable pub list : Option (List Bytes) → Router → Result Router
list none r = ok r
list (some names) r = add_listed names r

unfoldable pub start : Router → Router
start r = record r { running = true }

unfoldable pub stop : Router → Router
stop r = record r { running = false }

-- One round of `poll`: a message or none at each socket, and what is forwarded.
unfoldable pub forwarded : List (Option (Bytes × Bytes)) → List (Bytes × Bytes)
forwarded [] = []
forwarded (none ∷ ms) = forwarded ms
forwarded (some m ∷ ms) = m ∷ forwarded ms

abbrev has_output : Router → Bool
has_output r = elim r.outputs [ [] ↦ false | fn ∷ rest ↦ true ]

unfoldable pub poll_round : List (Option (Bytes × Bytes)) → Router → List (Bytes × Bytes)
poll_round ms r = if r.running && has_output r then forwarded ms else []
