-- ===== src/Writer/Dummy.antt =====
-- src/pluggins/dummywriter.cc: the plugin that writes nothing.
use zdaq.Base.{ℕ, Bool, true, false, not, ◌==◌, ok, if◌then◌else◌, Result, ◌>>=◌, or_fault, thrown}
use zdaq.Base.Memory.{Bytes}
use zdaq.Base.Text.{codes}
use zdaq.Json.{Json, get, has}
use zdaq.Processor.{Processor}

pub record DummyWriter : Type 0 where
  pub directory : Bytes
  pub run : ℕ
  pub event : ℕ
  pub started : Bool
  pub dummy : Bool

unfoldable pub make : Bytes → DummyWriter
make dire = record { directory = dire; run = 0; event = 0; started = false; dummy = false }

abbrev pub start : ℕ → DummyWriter → DummyWriter
start nr w = record w { run = nr; event = 0; started = true }

abbrev pub stop : DummyWriter → DummyWriter
stop w = record w { started = false }

module _ {J : Type 0} (json : Json J) where
  abbrev pub load_parameters : J → DummyWriter → Result DummyWriter
  load_parameters params w = do
    given ← has json (codes "directory") params
    w₁ ←
        if given
        then (do
          v ← get json (codes "directory") params
          s ← or_fault (json.as_string v) thrown
          ok (record w { directory = s }))
        else ok w
    switched ← has json (codes "dummy") params
    if switched
        then (do
          v ← get json (codes "dummy") params
          n ← or_fault (json.as_uint v) thrown
          ok (record w₁ { dummy = not (n == 0) }))
        else ok w₁

  -- Neither an event nor a header changes anything.
  unfoldable pub dummy_writer : Processor J DummyWriter
  dummy_writer = record {
    start = start;
    stop = stop;
    process_event = λ key dss w. ok (w, dss);
    process_run_header = λ header w. ok w;
    load_parameters = load_parameters;
    same_length = λ key dss w h. cc;
  }
