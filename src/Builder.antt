-- ===== src/Builder.antt =====
-- example/src/exBuilder.cxx: the event builder of the example. It has the fields of a collector, and its
-- handlers and requests are those of builder/src/localCollector.cc where the two say the same.
pub mod Machine
pub mod Sound
pub mod Runs
use zdaq.Base.{
  ℕ, Bool, true, false, not, ◌==◌, if◌then◌else◌, List, [], ◌∷◌, Result, ok, ◌>>=◌, or_fault,
  thrown,
}
use zdaq.Base.Memory.{Bytes}
use zdaq.Base.Text.{codes}
use zdaq.Json.{Json, has}
use zdaq.Configs.{number_of}
use zdaq.Fsm.{Message}
use zdaq.Fsm.Messages.{content, set_answer}
use zdaq.Web.{Request, param}
use zdaq.Processor.{Processor}
use zdaq.Merger
use zdaq.Merger.{Merger}
use zdaq.Collector
use zdaq.Collector.{Collector, taken_over, purge_from, register_all, text_list}
use zdaq.Job.Processes.{texts}

unfoldable pub register_streams : {P : Type 0} → List Bytes → Merger P → Merger P
register_streams [] m = m
register_streams (stream ∷ streams) m =
    register_streams streams (Merger.register_data_source stream m)

module _ {J : Type 0} (json : Json J) {P : Type 0} where
  -- The number of the sources, where the parameters give one.
  abbrev pub number_from : J → Merger P → Result (Merger P)
  number_from jc merger = do
    given ← has json (codes "dsnumber") jc
    if given
        then (do
          n ← or_fault (json.as_int (json.member (codes "dsnumber") jc)) thrown
          ok (Merger.set_number_of_data_source n merger))
        else ok merger

  module _ (ops : Processor J P) (plugin : Bytes → P) where
    unfoldable pub set_up : J → Message J → Collector J P → Result (Message J × Collector J P)
    set_up jc m b = do
      merger₁ ← number_from jc b.merger
      merger₂ ← purge_from json jc merger₁
      streams ← texts json (json.elements (json.member (codes "stream") jc))
      names ← texts json (json.elements (json.member (codes "processor") jc))
      let merger₃ = register_all plugin names (register_streams streams merger₂)
      merger₄ ← Merger.load_parameters ops jc merger₃
      let a = json.put (codes "sourceRegistered") (text_list json streams json.null) json.null
      m' ←
          set_answer json
            (json.put (codes "processorRegistered") (text_list json names json.null) a) m
      ok (m', record b { merger = merger₄ })

    unfoldable pub configure : Message J → Collector J P → Result (Message J × Collector J P)
    configure m b = do
      jc ← content json m
      p₁ ← taken_over json (codes "dsnumber") jc b.app.param
      p₂ ← taken_over json (codes "stream") jc p₁
      p₃ ← taken_over json (codes "processor") jc p₂
      let b' : Collector J P = record b { app = record b.app { param = p₃ } }
      with_stream ← has json (codes "stream") p₃
      if not with_stream then ok (m, b') else (do
        with_processor ← has json (codes "processor") p₃
        if not with_processor then ok (m, b') else set_up p₃ m b')

    abbrev pub start : Message J → Collector J P → Result (Message J × Collector J P)
    start = Collector.start json ops plugin

    abbrev pub stop : Message J → Collector J P → Result (Message J × Collector J P)
    stop = Collector.stop json ops plugin

    abbrev pub halt : Message J → Collector J P → Result (Message J × Collector J P)
    halt = Collector.halt json ops plugin

  -- The constructor makes the merger, so the requests find one.
  abbrev pub status : Collector J P → J
  status = Collector.status json

  abbrev pub c_purge : Request → Collector J P → J × Collector J P
  c_purge = Collector.c_purge json

  abbrev pub c_setheader : Request → Collector J P → Result (J × Collector J P)
  c_setheader = Collector.c_setheader json

  unfoldable pub registerds : Request → Collector J P → J × Collector J P
  registerds request b =
      let n = number_of (param request (codes "dsnumber") (codes "0")) in
      (
        json.put (codes "answer") (json.signed n) json.null,
        record b { merger = Merger.set_number_of_data_source n b.merger },
      )
