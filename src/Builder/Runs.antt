-- ===== src/Builder/Runs.antt =====
-- A builder over time: commands of its machine, requests, and what its merger receives.
use zdaq.Base.{Option-cases, inl, inr, ◌≡◌, refl, ◌∙◌, List, ok}
use zdaq.Base.Memory.{Bytes}
use zdaq.Base.Text.{codes, bytes_eq}
use zdaq.Zlib.{Zlib}
use zdaq.Puller.{Zmq, Arrival}
use zdaq.Json.{Json}
use zdaq.Fsm.{Fsm, add_state}
use zdaq.Fsm.Invariants.{AllSound, add_transition-AllSound}
use zdaq.Fsm.Runs.{Run, Run-Inv}
use zdaq.Web
use zdaq.Web.{Web, Request, add_command}
use zdaq.Application.{Environment, make_web, c_setparameter}
use zdaq.Processor.{Processor}
use zdaq.Merger
use zdaq.Merger.{Merger}
use zdaq.Merger.Data.{poll_step}
use zdaq.Merger.Running.{poll_step-running}
use zdaq.Collector
use zdaq.Collector.{Collector, taken_over, purge_from, register_all}
use zdaq.Collector.Machine.{with_app}
use zdaq.Collector.Sound.{IsInStep, start-IsInStep, stop-IsInStep, halt-IsInStep}
use zdaq.Collector.Reach.{
  add_transition-state, base_fsm-Sound, base_fsm-state, setheader_running, same_state,
}
use zdaq.Builder
use zdaq.Builder.{register_streams, number_from, set_up, configure}
use zdaq.Builder.Sound.{configure-IsInStep}
use zdaq.Builder.Machine.{transitions_of, make_server}

module _ {J : Type 0} (json : Json J) {P : Type 0} (ops : Processor J P) (plugin : Bytes → P) where
  abbrev Sound : Fsm J (Collector J P) → Type 0
  Sound = AllSound json IsInStep

  transitions_of-AllSound :
      (f : Fsm J (Collector J P)) → Sound f → Sound (transitions_of json ops plugin f)
  unfolding transitions_of add_state bytes_eq
  transitions_of-AllSound f a =
      add_transition-AllSound json IsInStep _ _ _
        (record { keeps = λ m w i h. halt-IsInStep json ops plugin _ m w i h })
        (add_transition-AllSound json IsInStep _ _ _
          (record { keeps = λ m w i h. halt-IsInStep json ops plugin _ m w i h })
          (add_transition-AllSound json IsInStep _ _ _
            (record { keeps = λ m w i h. stop-IsInStep json ops plugin m w h })
            (add_transition-AllSound json IsInStep _ _ _
              (record { keeps = λ m w i h. start-IsInStep json ops plugin m w h })
              (add_transition-AllSound json IsInStep _ _ _
                (record { keeps = λ m w i h. configure-IsInStep json ops plugin _ m w refl i h })
                (add_transition-AllSound json IsInStep _ _ _
                  (record { keeps = λ m w i h. configure-IsInStep json ops plugin _ m w refl i h })
                  a)))))

  transitions_of-state :
      (f : Fsm J (Collector J P)) → (transitions_of json ops plugin f).state ≡ f.state
  unfolding transitions_of add_state
  transitions_of-state f = simp (add_transition-state json ops plugin)

  -- The server of a builder: sound transitions, in the state VOID.
  make_server-Sound :
      (env : Environment) (name : Bytes)
      → Sound (make_server json ops plugin env name).fsm
        × ((make_server json ops plugin env name).fsm.state ≡ codes "VOID")
  unfolding make_server add_command Web.start
  make_server-Sound env name =
      let base = make_web json env (λ c. c.app) (with_app json ops plugin) name in
      let sound = transitions_of-AllSound base.fsm (base_fsm-Sound json ops plugin env name) in
      let state = transitions_of-state base.fsm ∙ base_fsm-state json ops plugin env name in
      elim (Option-cases (env.variable (codes "WEBPORT"))) [
        | inl missing ↦ rw (missing, make_server) (sound, state)
        | inr (wp, given) ↦ rw (given, make_server) (sound, state)
      ]

  module _ (z : Zlib) (q : Zmq) where
    -- What happens to a builder beside the commands of its machine.
    pub data Step (b b' : Collector J P) : Type 0 where
      sets_parameter :
          (request : Request)
          → b' ≡ record b { app = (c_setparameter json request b.app).1 }
          → Step b b'
      registers : (request : Request) → b' ≡ (Builder.registerds json request b).1 → Step b b'
      sets_header :
          (request : Request) (rep : J)
          → Collector.c_setheader json request b ≡ ok (rep, b')
          → Step b b'
      purges : (request : Request) → b' ≡ (Collector.c_purge json request b).1 → Step b b'
      arrives :
          {m' : Merger P} (a : Arrival) (out : List (Bytes × Bytes))
          → poll_step ops z q a b.merger ≡ ok (m', out)
          → b' ≡ record b { merger = m' }
          → Step b b'
      polls : b' ≡ record b { merger = Merger.scan_memory ops b.merger } → Step b b'

    Step-IsInStep : (s : Bytes) (b b' : Collector J P) → IsInStep s b → Step b b' → IsInStep s b'
    unfolding Collector.c_purge Builder.registerds Merger.set_purge Merger.set_number_of_data_source
        Merger.scan_memory
    Step-IsInStep s b b' i (sets_parameter request e) =
        same_state json ops plugin z q (cc e) (cc e) i
    Step-IsInStep s b b' i (registers request e) = same_state json ops plugin z q (cc e) (cc e) i
    Step-IsInStep s b b' i (sets_header request rep h) =
        let (x, y) = setheader_running json ops plugin z q request b h in
        same_state json ops plugin z q x y i
    Step-IsInStep s b b' i (purges request e) = same_state json ops plugin z q (cc e) (cc e) i
    Step-IsInStep s b b' i (arrives arrival out h e) =
        let k = poll_step-running ops z q arrival b.merger h in
        same_state json ops plugin z q (cc e) (cc (e, k)) i
    Step-IsInStep s b b' i (polls e) = same_state json ops plugin z q (cc e) (cc e) i

    -- Whatever commands, requests and messages a builder of the example is given, in any order: it counts
    -- itself as running, and its merger as running, exactly when its machine is in the state RUNNING.
    pub Run-IsInStep :
        (env : Environment) (name : Bytes) {f : Fsm J (Collector J P)} {b : Collector J P}
        → Run json Step (make_server json ops plugin env name).fsm (Collector.make json env) f b
        → IsInStep f.state b
    unfolding Collector.make Merger.make bytes_eq
    Run-IsInStep env name run =
        let (sound, state) = make_server-Sound env name in
        let (still, i) =
          Run-Inv json Step IsInStep Step-IsInStep sound
            (rw state (record { collector_runs = refl; merger_runs = refl })) run in
        i
