-- ===== src/Examples/Writers.antt =====
-- A binary writer: an event in a file, and two run headers.
use zdaq.Base.{
  ℕ, zero, suc, ◌+◌, ◌≡◌, refl, true, false, some, List, [], ◌∷◌, ◌++◌, map, u32, arith, ok, err,
  overrun,
}
use zdaq.Base.Memory.{Bytes, encode}
use zdaq.Zlib.{storing}
use zdaq.Buffer.{Buffer, image, size, compress, set_payload, payload}
use zdaq.Writer.{Writer, append_to, block, words, header_buffer, record_event, process_run_header}
use zdaq.Writer.Records.{read_record, recorded, AllStored, IsStorable, record_event-read_record}
use zdaq.Writer.Headers.{process_run_header_overrun, process_run_header_stored}
use zdaq.Examples.{small_buffer}

abbrev writing : Writer
writing = record {
  directory = [];
  run = 12;
  event = 3;
  total_size = 0;
  descriptor = some 5;
  started = true;
  dummy = false;
  files = [] ∷ [];
  opened = 1;
  opening = λ n. some 5;
}

small_buffer-IsStorable : IsStorable small_buffer
small_buffer-IsStorable = record {
  room = record { inside = omega arith; in_cap = omega arith; in_obuf = omega arith };
  small = omega arith;
}

record_event-read_record_example :
    (w' : Writer) × (cs : List Buffer) × (record_event storing
        (small_buffer ∷ small_buffer ∷ [])
        writing
      ≡ ok (w', cs))
    × (w'.files ≡ append_to (recorded 3 cs) ([] ∷ []))
    × (w'.event ≡ u32 (3 + 1))
    × ((rest : Bytes) → read_record (recorded 3 cs ++ rest) ≡ (3, map image cs, rest))
    × AllStored storing (small_buffer ∷ small_buffer ∷ []) cs
record_event-read_record_example =
    record_event-read_record storing (small_buffer ∷ small_buffer ∷ []) writing refl
      (small_buffer-IsStorable, (small_buffer-IsStorable, tt)) (omega arith) (omega arith)

abbrev zeros : ℕ → List ℕ
zeros zero = []
zeros (suc n) = 0 ∷ zeros n

process_run_header_overrun_example : process_run_header storing (zeros 37) writing ≡ err overrun
process_run_header_overrun_example =
    process_run_header_overrun storing (zeros 37) writing refl (omega arith) (omega arith)

process_run_header_stored_example :
    (b c : Buffer) × (w' : Writer) × (set_payload (words (1 ∷ 2 ∷ [])) (header_buffer 2) ≡ ok b)
    × (compress storing b ≡ ok c)
    × (payload b ≡ words (1 ∷ 2 ∷ []))
    × (process_run_header storing (1 ∷ 2 ∷ []) writing ≡ ok w')
    × (w'.files ≡ append_to (block c) (append_to (encode 4 12 ++ encode 4 1) ([] ∷ [])))
    × (w'.total_size ≡ u32 (0 + size c))
process_run_header_stored_example =
    process_run_header_stored storing (1 ∷ 2 ∷ []) writing refl (omega arith)
