-- ===== src/Writer.antt =====
-- src/pluggins/binarywriter.cc: the plugin that writes events to files. The operating system's part is
-- given: `opening` says, for each call of `open`, which descriptor it returns (`none` where it fails).
-- Each file has a name of its own, and `write` writes all that it is given.
pub mod Records
pub mod Dummy
pub mod Plugin
pub mod Headers
use zdaq.Base.{
  ℕ, ◌+◌, ◌*◌, suc, ◌≡◌, refl, ap, Bool, true, false, ◌&&◌, List, [], ◌∷◌, ◌++◌, ◌==◌, Option, none,
  some, not, length, ltb, leb, if◌then◌else◌, u32, Result, ok, err, ◌>>=◌, ◌>>◌, guard, or_fault,
  overrun, thrown, Result-cases, Bool-cases, inl, inr,
}
use zdaq.Base.Memory.{Bytes, encode}
use zdaq.Base.Text.{codes}
use zdaq.Zlib.{Zlib}
use zdaq.Json.{Json, get, has}
use zdaq.Buffer
use zdaq.Buffer.{Buffer}

-- `files` are the contents written, those of the file opened last in front.
pub record Writer : Type 0 where
  pub directory : Bytes
  pub run : ℕ
  pub event : ℕ
  pub total_size : ℕ
  pub descriptor : Option ℕ
  pub started : Bool
  pub dummy : Bool
  pub files : List Bytes
  pub opened : ℕ
  pub opening : ℕ → Option ℕ

unfoldable pub make : Bytes → (ℕ → Option ℕ) → Writer
make dire opening = record {
  directory = dire;
  run = 0;
  event = 0;
  total_size = 0;
  descriptor = none;
  started = false;
  dummy = false;
  files = [];
  opened = 0;
  opening = opening;
}

-- `_fdOut > 0`.
abbrev pub is_open : Writer → Bool
is_open w = elim w.descriptor [ none ↦ false | some fd ↦ ltb 0 fd ]

unfoldable pub start : ℕ → Writer → Writer
start nr w = elim (w.opening w.opened) [
  | none ↦ record w { run = nr; descriptor = none; opened = suc w.opened }
  | some fd ↦ record w {
    run = nr;
    descriptor = some fd;
    opened = suc w.opened;
    files = [] ∷ w.files;
    event = 0;
    started = true;
  }
]

unfoldable pub stop : Writer → Writer
stop w =
    if is_open w
    then record w { started = false; descriptor = none }
    else record w { started = false }

-- `write` on the open file.
abbrev pub append_to : Bytes → List Bytes → List Bytes
append_to bytes [] = []
append_to bytes (f ∷ fs) = (f ++ bytes) ∷ fs

-- A buffer in a file: its size, and its bytes.
abbrev pub block : Buffer → Bytes
block c = encode 4 (Buffer.size c) ++ Buffer.image c

unfoldable pub store_buffer : Zlib → Buffer → Writer → Result (Writer × Buffer)
store_buffer z b w = do
  c ← Buffer.compress z b
  guard (leb (Buffer.size c) c.cap) overrun
  ok (
    record w {
      total_size = u32 (w.total_size + Buffer.size c);
      files = append_to (block c) w.files;
    },
    c,
  )

unfoldable pub store_buffers : Zlib → List Buffer → Writer → Result (Writer × List Buffer)
store_buffers z [] w = ok (w, [])
store_buffers z (b ∷ bs) w = do
  (w₁, c) ← store_buffer z b w
  (w₂, cs) ← store_buffers z bs w₁
  ok (w₂, c ∷ cs)

-- The event number and the number of buffers, and the buffers unless they are to be left out.
unfoldable pub record_event : Zlib → List Buffer → Writer → Result (Writer × List Buffer)
record_event z dss w = do
  let w₁ = record w { files = append_to (encode 4 w.event ++ encode 4 (u32 (length dss))) w.files }
  (w₂, dss') ← if w₁.dummy then ok (w₁, dss) else store_buffers z dss w₁
  ok (record w₂ { event = u32 (w₂.event + 1) }, dss')

abbrev pub size_limit : ℕ
size_limit = 1900 * 1024 * 1024

-- A file that has grown too large is closed, and another one opened.
unfoldable pub rotate : Writer → Writer
unfolding start
rotate w = if ltb size_limit w.total_size then start w.run (record w { total_size = 0 }) else w

unfoldable pub process_event : Zlib → List Buffer → Writer → Result (Writer × List Buffer)
process_event z dss w = if not w.started then ok (w, dss) else do
  (w₁, dss') ← if is_open w then record_event z dss w else ok (w, dss)
  ok (rotate w₁, dss')

-- The words of a header, as they stand in memory.
abbrev pub words : List ℕ → Bytes
words [] = []
words (v ∷ vs) = encode 4 v ++ words vs

abbrev pub header_buffer : ℕ → Buffer
header_buffer n = Buffer.set_bx_id 0 (
    Buffer.set_event_id 0
      (Buffer.set_data_source_id 1 (Buffer.set_detector_id 255 (Buffer.new (128 + n)))))

unfoldable pub process_run_header : Zlib → List ℕ → Writer → Result Writer
process_run_header z header w =
    if is_open w && ltb (length header) 256
    then (do
      let w₁ = record w { files = append_to (encode 4 w.run ++ encode 4 1) w.files }
      b ← Buffer.set_payload (words header) (header_buffer (length header))
      (w₂, c) ← store_buffer z b w₁
      ok w₂)
    else ok w

module _ {J : Type 0} (json : Json J) where
  abbrev load_directory : J → Writer → Result Writer
  load_directory params w = do
    v ← get json (codes "directory") params
    s ← or_fault (json.as_string v) thrown
    ok (record w { directory = s })

  abbrev load_dummy : J → Writer → Result Writer
  load_dummy params w = do
    v ← get json (codes "dummy") params
    n ← or_fault (json.as_uint v) thrown
    ok (record w { dummy = not (n == 0) })

  unfoldable pub load_parameters : J → Writer → Result Writer
  load_parameters params w = do
    given ← has json (codes "directory") params
    w₁ ← if given then load_directory params w else ok w
    switched ← has json (codes "dummy") params
    if switched then load_dummy params w₁ else ok w₁
