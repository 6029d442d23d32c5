-- ===== src/Collector/Reach.antt =====
-- A collector over time: commands of its machine, requests, and what its merger receives.
use zdaq.Base.{Option-cases, inl, inr, arith, ◌≡◌, refl, ◌∙◌, sym, subst, List, ok, >>=-eq-ok}
use zdaq.Base.Memory.{Bytes}
use zdaq.Base.Text.{codes, bytes_eq}
use zdaq.Zlib.{Zlib}
use zdaq.Puller.{Zmq, Arrival}
use zdaq.Json.{Json}
use zdaq.Fsm
use zdaq.Fsm.{Message, Transition, Fsm, add_transition, add_state, set_state}
use zdaq.Fsm.Commands.{process_command}
use zdaq.Fsm.Invariants.{AllSound, add_transition-AllSound, process_command-IsGood}
use zdaq.Web
use zdaq.Web.{Web, Request, add_command}
use zdaq.Application.{Environment, create, make_web, created_in, c_setparameter}
use zdaq.Processor.{Processor}
use zdaq.Merger
use zdaq.Merger.{Merger}
use zdaq.Merger.Data.{poll_step}
use zdaq.Merger.Running.{poll_step-running}
use zdaq.Collector
use zdaq.Collector.{Collector}
use zdaq.Collector.Machine.{with_app, transitions_of, make_server}
use zdaq.Collector.Sound.{
  IsInStep, configure-IsInStep, start-IsInStep, stop-IsInStep, halt-IsInStep,
}

module _ {J : Type 0} (json : Json J) {P : Type 0} (ops : Processor J P) (plugin : Bytes → P) where
  abbrev Sound : Fsm J (Collector J P) → Type 0
  Sound = AllSound json IsInStep

  transitions_of-AllSound :
      (f : Fsm J (Collector J P)) → Sound f → Sound (transitions_of json ops plugin f)
  unfolding transitions_of add_state bytes_eq
  transitions_of-AllSound f a =
      add_transition-AllSound json IsInStep _ _ _
        (record { keeps = λ m w i h. halt-IsInStep json ops plugin _ m w i h })
        (add_transition-AllSound json IsInStep _ _ _
          (record { keeps = λ m w i h. halt-IsInStep json ops plugin _ m w i h })
          (add_transition-AllSound json IsInStep _ _ _
            (record { keeps = λ m w i h. stop-IsInStep json ops plugin m w h })
            (add_transition-AllSound json IsInStep _ _ _
              (record { keeps = λ m w i h. start-IsInStep json ops plugin m w h })
              (add_transition-AllSound json IsInStep _ _ _
                (record { keeps = λ m w i h. configure-IsInStep json ops plugin _ m w refl i h })
                (add_transition-AllSound json IsInStep _ _ _
                  (record { keeps = λ m w i h. configure-IsInStep json ops plugin _ m w refl i h })
                  a)))))

  pub create-IsInStep :
      (env : Environment) (m : Message J) (c : Collector J P) {m' : Message J} {c' : Collector J P}
      → IsInStep (codes "VOID") c
      → created_in json env (λ c. c.app) (with_app json ops plugin) m c ≡ ok (m', c')
      → IsInStep (codes "CREATED") c'
  unfolding bytes_eq
  create-IsInStep env m c {m'} {c'} i h =
      let (done, created, h₁) = >>=-eq-ok (create json env m c.app) _ h in
      let same : record c { app = done.1 } ≡ c' = cc h₁ in
      subst (IsInStep (codes "CREATED")) same
        (record { collector_runs = i.collector_runs; merger_runs = i.merger_runs })

  pub add_transition-state :
      (cmd : Bytes) (t : Transition J (Collector J P)) (f : Fsm J (Collector J P))
      → (add_transition cmd t f).state ≡ f.state
  unfolding add_transition
  add_transition-state cmd t f = ground arith

  transitions_of-state :
      (f : Fsm J (Collector J P)) → (transitions_of json ops plugin f).state ≡ f.state
  unfolding transitions_of add_state
  transitions_of-state f = simp add_transition-state

  pub base_fsm-Sound :
      (env : Environment) (name : Bytes)
      → Sound (make_web json env (λ c. c.app) (with_app json ops plugin) name).fsm
  unfolding make_web Web.make Fsm.make add_state set_state add_command
  base_fsm-Sound env name =
      add_transition-AllSound json IsInStep _ _ _
        (record { keeps = λ m c i h. create-IsInStep env m c i h }) tt

  pub base_fsm-state :
      (env : Environment) (name : Bytes)
      → (make_web json env (λ c. c.app) (with_app json ops plugin) name).fsm.state ≡ codes "VOID"
  unfolding make_web Web.make Fsm.make add_state set_state add_command
  base_fsm-state env name = refl

  -- The server of a collector: sound transitions, in the state VOID.
  make_server-Sound :
      (env : Environment) (name : Bytes)
      → Sound (make_server json ops plugin env name).fsm
        × ((make_server json ops plugin env name).fsm.state ≡ codes "VOID")
  unfolding make_server add_command Web.start
  make_server-Sound env name =
      let base = make_web json env (λ c. c.app) (with_app json ops plugin) name in
      let sound = transitions_of-AllSound base.fsm (base_fsm-Sound env name) in
      let state = transitions_of-state base.fsm ∙ base_fsm-state env name in
      elim (Option-cases (env.variable (codes "WEBPORT"))) [
        | inl missing ↦ rw (missing, make_server) (sound, state)
        | inr (wp, given) ↦ rw (given, make_server) (sound, state)
      ]

  module _ (z : Zlib) (q : Zmq) where
    -- The machine of the server and the collector, after one more thing has happened.
    pub data Step (f : Fsm J (Collector J P)) (c : Collector J P)
        : Fsm J (Collector J P) → Collector J P → Type 0 where
      commands :
          {f' : Fsm J (Collector J P)} {c' : Collector J P} (m m' : Message J) (r : Bytes)
          → process_command json m f c ≡ ok (r, m', f', c')
          → Step f c f' c'
      sets_parameter :
          {c' : Collector J P} (request : Request)
          → c' ≡ record c { app = (c_setparameter json request c.app).1 }
          → Step f c f c'
      sets_header :
          {c' : Collector J P} (request : Request) (rep : J)
          → Collector.c_setheader json request c ≡ ok (rep, c')
          → Step f c f c'
      purges :
          {c' : Collector J P} (request : Request)
          → c' ≡ (Collector.c_purge json request c).1
          → Step f c f c'
      arrives :
          {m' : Merger P} {c' : Collector J P} (a : Arrival) (out : List (Bytes × Bytes))
          → poll_step ops z q a c.merger ≡ ok (m', out)
          → c' ≡ record c { merger = m' }
          → Step f c f c'
      polls :
          {c' : Collector J P}
          → c' ≡ record c { merger = Merger.scan_memory ops c.merger }
          → Step f c f c'

    pub data Reach (f : Fsm J (Collector J P)) (c : Collector J P)
        : Fsm J (Collector J P) → Collector J P → Type 0 where
      here : Reach f c f c
      next :
          {f' f'' : Fsm J (Collector J P)} {c' c'' : Collector J P}
          → Reach f c f' c'
          → Step f' c' f'' c''
          → Reach f c f'' c''

    pub setheader_running :
        (request : Request) (c : Collector J P) {rep : J} {c' : Collector J P}
        → Collector.c_setheader json request c ≡ ok (rep, c')
        → (c'.running ≡ c.running) × (c'.merger.running ≡ c.merger.running)
    unfolding Collector.c_setheader Merger.process_run_header Merger.set_run_header_event
    setheader_running request c h = ground arith

    pub same_state :
        {s : Bytes} {c c' : Collector J P}
        → (c'.running ≡ c.running)
        → (c'.merger.running ≡ c.merger.running)
        → IsInStep s c
        → IsInStep s c'
    same_state h k i = record {
      collector_runs = h ∙ i.collector_runs;
      merger_runs = k ∙ i.merger_runs ∙ sym h;
    }

    Step-IsInStep :
        {f f' : Fsm J (Collector J P)} {c c' : Collector J P}
        → Step f c f' c'
        → Sound f × IsInStep f.state c
        → Sound f' × IsInStep f'.state c'
    unfolding Collector.c_purge Merger.set_purge Merger.scan_memory
    Step-IsInStep {f} {c = c} (commands m m' r h) (a, i) =
        process_command-IsGood json IsInStep m f c a i h
    Step-IsInStep (sets_parameter request e) (a, i) = (a, same_state (cc e) (cc e) i)
    Step-IsInStep {c = c} (sets_header request rep h) (a, i) =
        let (x, y) = setheader_running request c h in (a, same_state x y i)
    Step-IsInStep (purges request e) (a, i) = (a, same_state (cc e) (cc e) i)
    Step-IsInStep {c = c} (arrives arrival out h e) (a, i) =
        let k = poll_step-running ops z q arrival c.merger h in (a, same_state (cc e) (cc (e, k)) i)
    Step-IsInStep (polls e) (a, i) = (a, same_state (cc e) (cc e) i)

    Reach-Both :
        (env : Environment) (name : Bytes) {f : Fsm J (Collector J P)} {c : Collector J P}
        → Reach (make_server json ops plugin env name).fsm (Collector.make json env) f c
        → Sound f × IsInStep f.state c
    unfolding Collector.make Merger.make bytes_eq
    Reach-Both env name here =
        let (sound, state) = make_server-Sound env name in
        (sound, rw state (record { collector_runs = refl; merger_runs = refl }))
    Reach-Both env name (next r s) = Step-IsInStep s (Reach-Both env name r)

    -- Whatever commands, requests and messages a collector is given, in any order: it counts itself as
    -- running, and its merger as running, exactly when its machine is in the state RUNNING.
    pub Reach-IsInStep :
        (env : Environment) (name : Bytes) {f : Fsm J (Collector J P)} {c : Collector J P}
        → Reach (make_server json ops plugin env name).fsm (Collector.make json env) f c
        → IsInStep f.state c
    Reach-IsInStep env name r = (Reach-Both env name r).1
