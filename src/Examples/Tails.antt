-- ===== src/Examples/Tails.antt =====
-- The last two lines of a file of three.
use zdaq.Base.{◌≡◌, refl, some, List, [], ◌∷◌, ok, arith}
use zdaq.Base.Memory.{Bytes}
use zdaq.Base.Text.{codes}
use zdaq.Tail.{Tail, file_tail, tail}
use zdaq.Tail.Bounds.{file_tail_ok}
use zdaq.Tail.Last.{text_of, last_lines, text_if_any, tail-eq-last_lines}

abbrev file_lines : List Bytes
file_lines = codes "ab" ∷ codes "c" ∷ codes "" ∷ []

-- What happens to stand in an array of 16 bytes.
abbrev stack_bytes : Bytes
stack_bytes = codes "################"

tail-eq-last_lines_example :
    tail 16 2 (some (text_of file_lines)) 10 stack_bytes
    ≡ ok (text_if_any (last_lines 2 file_lines))
tail-eq-last_lines_example =
    tail-eq-last_lines 16 2 file_lines 10 stack_bytes (omega arith) refl
      (
        ((omega arith, omega arith, omega arith), ((omega arith, omega arith, omega arith), tt)),
        (((omega arith, omega arith, omega arith), tt), (tt, tt)),
      )
      (omega arith) (omega arith)

file_tail_ok_example :
    (t : Tail) × (file_tail 16 2 (some (codes "a line that is far too long")) stack_bytes ≡ ok t)
file_tail_ok_example =
    file_tail_ok 16 2 (omega arith) (omega arith) (codes "a line that is far too long") stack_bytes
      refl
