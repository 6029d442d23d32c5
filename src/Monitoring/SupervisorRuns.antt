-- ===== src/Monitoring/SupervisorRuns.antt =====
-- zmonSupervisor.cxx over time: the application monitors exactly in the state RUNNING.
use zdaq.Base.{◌≡◌, refl, ◌∙◌, Option, Option-cases, inl, inr, List, ok, arith}
use zdaq.Base.Memory.{Bytes}
use zdaq.Base.Text.{codes, bytes_eq}
use zdaq.Json.{Json}
use zdaq.Fsm
use zdaq.Fsm.{Message, Transition, Fsm, add_transition, add_state, set_state}
use zdaq.Fsm.Invariants.{AllSound, add_transition-AllSound}
use zdaq.Fsm.Runs.{Run, Run-Inv}
use zdaq.Web
use zdaq.Web.{Web, Request, add_command}
use zdaq.Application.{Environment, make_web, c_setparameter}
use zdaq.Monitoring.{Hardware, Storage, Turns}
use zdaq.Monitoring.Supervisor
use zdaq.Monitoring.Supervisor.{Supervisor}
use zdaq.Monitoring.Kept.{create-running, halt-running, configure-running, monitor-running}
use zdaq.Monitoring.Machines.{supervisor_transitions, make_supervisor, with_app}

module _ {J P S : Type 0} (json : Json J) (h : Hardware J P) (t : Storage J S)
    (plugin : Bytes → Option P) (store : Bytes → Option S) where
  pub record IsInStep (s : Bytes) (w : Supervisor J P S) : Type 0 where
    pub runs : w.running ≡ bytes_eq s (codes "RUNNING")

  -- A round of its thread, or a request.
  pub data Step (w w' : Supervisor J P S) : Type 0 where
    monitors :
        (turns : Turns) (out : List (Bytes × Bytes))
        → Supervisor.monitor json h t plugin store turns w ≡ ok (w', out)
        → Step w w'
    reports : w' ≡ (Supervisor.status json h w).1 → Step w w'
    sets_parameter :
        (request : Request)
        → w' ≡ with_app json h t plugin store (c_setparameter json request w.app).1 w
        → Step w w'

  Step-IsInStep : (s : Bytes) (w w' : Supervisor J P S) → IsInStep s w → Step w w' → IsInStep s w'
  unfolding Supervisor.status
  Step-IsInStep s w w' i (monitors turns out e) = record {
    runs = monitor-running json h t plugin store turns w e ∙ i.runs;
  }
  Step-IsInStep s w w' i (reports e) = record { runs = cc (e, i.runs) }
  Step-IsInStep s w w' i (sets_parameter request e) = record { runs = cc (e, i.runs) }

  abbrev Sound : Fsm J (Supervisor J P S) → Type 0
  Sound = AllSound json IsInStep

  transitions-Sound :
      (f : Fsm J (Supervisor J P S))
      → Sound f
      → Sound (supervisor_transitions json h t plugin store f)
  unfolding supervisor_transitions add_state bytes_eq Supervisor.start Supervisor.stop
  transitions-Sound f a =
      add_transition-AllSound json IsInStep _ _ _
        (record { keeps = λ m w i e. record { runs = halt-running json h t plugin store m w e } })
        (add_transition-AllSound json IsInStep _ _ _
          (record { keeps = λ m w i e. record { runs = halt-running json h t plugin store m w e } })
          (add_transition-AllSound json IsInStep _ _ _
            (record { keeps = λ m w i e. record { runs = cc e } })
            (add_transition-AllSound json IsInStep _ _ _
              (record { keeps = λ m w i e. record { runs = cc e } })
              (add_transition-AllSound json IsInStep _ _ _
                (record {
                  keeps = λ m w i e. record {
                    runs = configure-running json h t plugin store m w e ∙ i.runs;
                  };
                })
                a))))

  base_fsm-Sound :
      (env : Environment) (name : Bytes)
      → Sound (make_web json env (λ w. w.app) (with_app json h t plugin store) name).fsm
  unfolding make_web Web.make Fsm.make add_state set_state add_command bytes_eq
  base_fsm-Sound env name =
      add_transition-AllSound json IsInStep _ _ _
        (record {
          keeps =
              λ m w i e. record { runs = create-running json h t plugin store env m w e ∙ i.runs };
        })
        tt

  add_transition-state :
      (cmd : Bytes) (u : Transition J (Supervisor J P S)) (f : Fsm J (Supervisor J P S))
      → (add_transition cmd u f).state ≡ f.state
  unfolding add_transition
  add_transition-state cmd u f = ground arith

  transitions-state :
      (f : Fsm J (Supervisor J P S))
      → (supervisor_transitions json h t plugin store f).state ≡ f.state
  unfolding supervisor_transitions add_state
  transitions-state f = simp add_transition-state

  base_fsm-state :
      (env : Environment) (name : Bytes)
      → (make_web json env (λ w. w.app) (with_app json h t plugin store) name).fsm.state
        ≡ codes "VOID"
  unfolding make_web Web.make Fsm.make add_state set_state add_command
  base_fsm-state env name = refl

  make_supervisor-Sound :
      (env : Environment) (name : Bytes)
      → Sound (make_supervisor json h t plugin store env name).fsm
        × ((make_supervisor json h t plugin store env name).fsm.state ≡ codes "VOID")
  unfolding make_supervisor add_command Web.start
  make_supervisor-Sound env name =
      let base = make_web json env (λ w. w.app) (with_app json h t plugin store) name in
      let sound = transitions-Sound base.fsm (base_fsm-Sound env name) in
      let state = transitions-state base.fsm ∙ base_fsm-state env name in
      elim (Option-cases (env.variable (codes "WEBPORT"))) [
        | inl missing ↦ rw (missing, make_supervisor) (sound, state)
        | inr (wp, given) ↦ rw (given, make_supervisor) (sound, state)
      ]

  -- Whatever commands and requests the application is given, and whatever rounds it makes in between: it
  -- counts itself as running exactly when its machine is in the state RUNNING.
  pub Run-running :
      (env : Environment) (name : Bytes) {f : Fsm J (Supervisor J P S)} {w : Supervisor J P S}
      → Run json Step
          (make_supervisor json h t plugin store env name).fsm
          (Supervisor.make json env)
          f
          w
      → w.running ≡ bytes_eq f.state (codes "RUNNING")
  unfolding Supervisor.make bytes_eq
  Run-running env name run =
      let (sound, state) = make_supervisor-Sound env name in
      let (still, i) =
        Run-Inv json Step IsInStep Step-IsInStep sound (rw state (record { runs = refl })) run in
      i.runs
