-- ===== src/Collector.antt =====
-- builder/src/localCollector.cc: the application that runs an event builder. Its machine and its
-- commands drive a merger. The object that the library of a plugin makes is given by its name.
pub mod Machine
pub mod Sound
pub mod Reach
use zdaq.Base.{
  ℕ, Bool, true, false, not, ◌==◌, if◌then◌else◌, none, some, List, [], ◌∷◌, ◌++◌, Result, ok,
  ◌>>=◌, or_fault, thrown,
}
use zdaq.Base.Memory.{Bytes}
use zdaq.Base.Text.{codes, bytes_eq, decimal}
use zdaq.Json.{Json, get, has, assign}
use zdaq.Configs.{number_of}
use zdaq.Fsm.{Message}
use zdaq.Fsm.Messages.{content, set_answer}
use zdaq.Web.{Request, param}
use zdaq.Application.{Environment, App, make_app, with_status}
use zdaq.Processor.{Processor}
use zdaq.Merger
use zdaq.Merger.{Merger, minus_one}
use zdaq.Merger.Status
use zdaq.Job.Processes.{texts}

pub record Collector (J P : Type 0) : Type 0 where
  pub app : App J
  pub merger : Merger P
  pub running : Bool

unfoldable pub register_all : {P : Type 0} → (Bytes → P) → List Bytes → Merger P → Merger P
register_all plugin [] m = m
register_all plugin (name ∷ names) m =
    register_all plugin names (Merger.register_processor name (plugin name) m)

module _ {J : Type 0} (json : Json J) where
  -- A parameter that the message gives replaces the one of the application.
  abbrev pub taken_over : Bytes → J → J → Result J
  taken_over key jc parameters = do
    given ← has json key jc
    if given then assign json key (json.member key jc) parameters else ok parameters

  abbrev pub text_list : List Bytes → J → J
  text_list [] array = array
  text_list (name ∷ names) array = text_list names (json.append (json.text name) array)

  unfoldable pub ints : List J → Result (List ℕ)
  ints [] = ok []
  ints (v ∷ vs) = do n ← or_fault (json.as_int v) thrown; rest ← ints vs; ok (n ∷ rest)

module _ {J : Type 0} (json : Json J) {P : Type 0} where
  unfoldable pub make : Environment → Collector J P
  make env = record { app = make_app json env; merger = Merger.make; running = false }

  abbrev pub purge_from : J → Merger P → Result (Merger P)
  purge_from jc merger = do
    given ← has json (codes "purge") jc
    if given
        then (do
          v ← or_fault (json.as_int (json.member (codes "purge") jc)) thrown
          ok (Merger.set_purge (not (v == 0)) merger))
        else ok merger

  module _ (ops : Processor J P) (plugin : Bytes → P) where
    -- The source and the processors are registered, and the parameters loaded.
    unfoldable pub set_up : J → Message J → Collector J P → Result (Message J × Collector J P)
    set_up jc m c = do
      merger₁ ← purge_from jc c.merger
      port ← or_fault (json.as_uint (json.member (codes "collectingPort") jc)) thrown
      let st = codes "tcp://*:" ++ decimal port
      names ← texts json (json.elements (json.member (codes "processor") jc))
      let merger₂ = register_all plugin names (Merger.register_data_source st merger₁)
      merger₃ ← Merger.load_parameters ops jc merger₂
      let a = json.put (codes "sourceRegistered") (json.append (json.text st) json.null) json.null
      m' ←
          set_answer json
            (json.put (codes "processorRegistered") (text_list json names json.null) a) m
      ok (m', record c { merger = merger₃ })

    unfoldable pub configure : Message J → Collector J P → Result (Message J × Collector J P)
    configure m c = do
      jc ← content json m
      p₁ ← taken_over json (codes "collectingPort") jc c.app.param
      p₂ ← taken_over json (codes "processor") jc p₁
      let c' : Collector J P = record c { app = record c.app { param = p₂ } }
      with_port ← has json (codes "collectingPort") p₂
      if not with_port then ok (m, c') else (do
        with_processor ← has json (codes "processor") p₂
        if not with_processor then ok (m, c') else set_up p₂ m c')

    -- The thread that the merger starts is among its own steps.
    unfoldable pub start : Message J → Collector J P → Result (Message J × Collector J P)
    start m c = do
      jc ← content json m
      v ← get json (codes "run") jc
      run ← or_fault (json.as_int v) thrown
      ok (m, record c { merger = Merger.start ops run c.merger; running = true })

    abbrev pub stopped : Collector J P → Collector J P
    stopped c = record c { merger = Merger.stop ops c.merger; running = false }

    unfoldable pub stop : Message J → Collector J P → Result (Message J × Collector J P)
    stop m c = ok (m, stopped c)

    unfoldable pub halt : Message J → Collector J P → Result (Message J × Collector J P)
    halt m c =
        let c' = if c.running then stopped c else c in
        ok (m, record c' { merger = Merger.clear c'.merger })

  unfoldable pub status : Collector J P → J
  status c = json.put (codes "answer") (Status.status json c.merger) json.null

  unfoldable pub c_purge : Request → Collector J P → J × Collector J P
  c_purge request c =
      let active = number_of (param request (codes "active") (codes "0")) in
      (
        json.put (codes "answer") (json.signed active) json.null,
        record c { merger = Merger.set_purge (not (active == 0)) c.merger },
      )

  -- The header of the run and the event that it is written before; -1 leaves that as it is.
  abbrev with_header : ℕ → List ℕ → Merger P → Merger P
  with_header next_event header merger =
      let m₁ : Merger P = record merger { run_header = header } in
      let m₂ = if next_event == minus_one then m₁ else Merger.set_run_header_event next_event m₁ in
      Merger.process_run_header m₂

  unfoldable pub c_setheader : Request → Collector J P → Result (J × Collector J P)
  c_setheader request c =
      let next_event = number_of (param request (codes "nextevent") (codes "-1")) in
      let shead = param request (codes "header") (codes "None") in
      if bytes_eq shead (codes "None")
      then ok (with_status json (codes "NO header provided "), c)
      else elim (json.parse shead) [
        | none ↦ ok (with_status json (codes "Cannot parse header tag "), c)
        | some jsta ↦ do
          header ← ints json (json.elements jsta)
          ok (
            json.put (codes "VALUE") jsta (with_status json (codes "DONE")),
            record c { merger = with_header next_event header c.merger },
          )
      ]
