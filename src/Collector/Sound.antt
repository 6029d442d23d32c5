-- ===== src/Collector/Sound.antt =====
-- localCollector.cc: what the transitions of the collector keep.
use zdaq.Base.{
  ◌++◌, ◌≡◌, refl, ◌∙◌, sym, subst, true, false, Bool-cases, inl, inr, List, [], ◌∷◌, ok, >>=-eq-ok,
  thrown, or_fault, arith,
}
use zdaq.Base.Memory.{Bytes}
use zdaq.Base.Text.{codes, bytes_eq, decimal}
use zdaq.Json.{Json, has, get}
use zdaq.Fsm.{Message}
use zdaq.Fsm.Messages.{content, set_answer}
use zdaq.Processor.{Processor}
use zdaq.Merger
use zdaq.Merger.{Merger}
use zdaq.Collector.{
  Collector, taken_over, register_all, purge_from, set_up, configure, start, stop, halt,
}
use zdaq.Job.Processes.{texts}

-- The collector and its merger run exactly in the state RUNNING.
pub record IsInStep {J P : Type 0} (s : Bytes) (c : Collector J P) : Type 0 where
  pub collector_runs : c.running ≡ bytes_eq s (codes "RUNNING")
  pub merger_runs : c.merger.running ≡ c.running

module _ {J : Type 0} (json : Json J) {P : Type 0} (ops : Processor J P) (plugin : Bytes → P) where
  pub register_all-running :
      (names : List Bytes) (m : Merger P) → (register_all plugin names m).running ≡ m.running
  unfolding register_all Merger.register_processor
  register_all-running [] m = refl
  register_all-running (name ∷ names) m =
      register_all-running names (Merger.register_processor name (plugin name) m)

  pub load_parameters-running :
      (jc : J) (m : Merger P) {m' : Merger P}
      → Merger.load_parameters ops jc m ≡ ok m'
      → m'.running ≡ m.running
  unfolding Merger.load_parameters
  load_parameters-running jc m h =
      let (ps, loaded, h₁) = >>=-eq-ok (Merger.load_each ops jc m.processors) _ h in cc h₁

  pub purge_from-running :
      (jc : J) (m : Merger P) {m' : Merger P}
      → purge_from json jc m ≡ ok m'
      → m'.running ≡ m.running
  unfolding Merger.set_purge
  purge_from-running jc m h = ground arith

  -- What a step of the configuration leaves alone.
  abbrev pub SameRun : Collector J P → Collector J P → Type 0
  SameRun c c' = (c'.running ≡ c.running) × (c'.merger.running ≡ c.merger.running)

  set_up-SameRun :
      (jc : J) (m : Message J) (c : Collector J P) {m' : Message J} {c' : Collector J P}
      → set_up json ops plugin jc m c ≡ ok (m', c')
      → SameRun c c'
  unfolding set_up Merger.register_data_source
  set_up-SameRun jc m c h =
      let (merger₁, set, h₁) = >>=-eq-ok (purge_from json jc c.merger) _ h in
      let (port, read, h₂) =
        >>=-eq-ok (or_fault (json.as_uint (json.member (codes "collectingPort") jc)) thrown) _ h₁ in
      let (names, listed, h₃) =
        >>=-eq-ok (texts json (json.elements (json.member (codes "processor") jc))) _ h₂ in
      let merger₂ =
        register_all plugin names
          (Merger.register_data_source (codes "tcp://*:" ++ decimal port) merger₁) in
      let (merger₃, loaded, h₄) = >>=-eq-ok (Merger.load_parameters ops jc merger₂) _ h₃ in
      let (m₁, answered, h₅) = >>=-eq-ok (set_answer json _ m) _ h₄ in
      let same = load_parameters-running jc merger₂ loaded in
      let registered =
        register_all-running names
          (Merger.register_data_source (codes "tcp://*:" ++ decimal port) merger₁) in
      let purge = purge_from-running jc c.merger set in (cc h₅, cc (h₅, same, registered, purge))

  configure-SameRun :
      (m : Message J) (c : Collector J P) {m' : Message J} {c' : Collector J P}
      → configure json ops plugin m c ≡ ok (m', c')
      → SameRun c c'
  unfolding configure
  configure-SameRun m c h =
      let (jc, held, h₁) = >>=-eq-ok (content json m) _ h in
      let (p₁, first, h₂) =
        >>=-eq-ok (taken_over json (codes "collectingPort") jc c.app.param) _ h₁ in
      let (p₂, second, h₃) = >>=-eq-ok (taken_over json (codes "processor") jc p₁) _ h₂ in
      let c₁ : Collector J P = record c { app = record c.app { param = p₂ } } in
      let (with_port, port, h₄) = >>=-eq-ok (has json (codes "collectingPort") p₂) _ h₃ in
      elim (Bool-cases with_port) [
        | inr no_port ↦ let e = rw no_port at h₄ in (cc e, cc e)
        | inl one_port ↦
            let (with_processor, processor, h₅) =
              >>=-eq-ok (has json (codes "processor") p₂) _ (rw one_port at h₄) in
            elim (Bool-cases with_processor) [
              | inr no_processor ↦ let e = rw no_processor at h₅ in (cc e, cc e)
              | inl one_processor ↦ set_up-SameRun p₂ m c₁ (rw one_processor at h₅)
            ]
      ]

  -- A transition whose callback leaves the run alone, between two states that are not RUNNING.
  pub same_run :
      {s s' : Bytes} {c c' : Collector J P}
      → bytes_eq s (codes "RUNNING") ≡ bytes_eq s' (codes "RUNNING")
      → SameRun c c'
      → IsInStep s c
      → IsInStep s' c'
  same_run states same i = record {
    collector_runs = same.0 ∙ i.collector_runs ∙ states;
    merger_runs = same.1 ∙ i.merger_runs ∙ sym same.0;
  }

  pub configure-IsInStep :
      (s : Bytes) (m : Message J) (c : Collector J P) {m' : Message J} {c' : Collector J P}
      → bytes_eq s (codes "RUNNING") ≡ false
      → IsInStep s c
      → configure json ops plugin m c ≡ ok (m', c')
      → IsInStep (codes "CONFIGURED") c'
  unfolding bytes_eq
  configure-IsInStep s m c states i h = same_run states (configure-SameRun m c h) i

  pub start-IsInStep :
      (m : Message J) (c : Collector J P) {m' : Message J} {c' : Collector J P}
      → start json ops plugin m c ≡ ok (m', c')
      → IsInStep (codes "RUNNING") c'
  unfolding start Merger.start bytes_eq
  start-IsInStep m c {m'} {c'} h =
      let (jc, held, h₁) = >>=-eq-ok (content json m) _ h in
      let (v, found, h₂) = >>=-eq-ok (get json (codes "run") jc) _ h₁ in
      let (run, read, h₃) = >>=-eq-ok (or_fault (json.as_int v) thrown) _ h₂ in
      let same : record c { merger = Merger.start ops run c.merger; running = true } ≡ c' = cc h₃ in
      subst (IsInStep (codes "RUNNING")) same (record { collector_runs = refl; merger_runs = refl })

  pub stop-IsInStep :
      (m : Message J) (c : Collector J P) {m' : Message J} {c' : Collector J P}
      → stop json ops plugin m c ≡ ok (m', c')
      → IsInStep (codes "CONFIGURED") c'
  unfolding stop Merger.stop bytes_eq
  stop-IsInStep m c h = record { collector_runs = cc h; merger_runs = cc h }

  pub halt-IsInStep :
      (s : Bytes) (m : Message J) (c : Collector J P) {m' : Message J} {c' : Collector J P}
      → IsInStep s c
      → halt json ops plugin m c ≡ ok (m', c')
      → IsInStep (codes "CREATED") c'
  unfolding halt Merger.stop Merger.clear bytes_eq
  halt-IsInStep s m c i h = elim (Bool-cases c.running) [
    | inl on ↦ let e = rw on at h in record { collector_runs = cc e; merger_runs = cc e }
    | inr off ↦
        let e = rw off at h in
        record { collector_runs = cc e; merger_runs = cc (e, off, i.merger_runs) }
  ]
