-- ===== src/Monitoring/Machines.antt =====
-- lsc.cxx and zmonSupervisor.cxx, the constructors: the machines and the commands of the two processes.
use zdaq.Base.{ℕ, Option, ok, none, some}
use zdaq.Base.Memory.{Bytes}
use zdaq.Base.Text.{codes}
use zdaq.Json.{Json}
use zdaq.Configs.{number_of}
use zdaq.Fsm.{Transition, Fsm, add_state, add_transition, set_state}
use zdaq.Web
use zdaq.Web.{Web, add_command}
use zdaq.Application.{Environment, App, make_web}
use zdaq.Monitoring.{Hardware, Storage}
use zdaq.Monitoring.Lsc
use zdaq.Monitoring.Lsc.{Lsc}
use zdaq.Monitoring.Supervisor
use zdaq.Monitoring.Supervisor.{Supervisor}

module _ {J P S : Type 0} (json : Json J) (h : Hardware J P) (t : Storage J S)
    (plugin : Bytes → Option P) (store : Bytes → Option S) where
  unfoldable pub lsc_transitions : Bytes → Fsm J (Lsc J P S) → Fsm J (Lsc J P S)
  lsc_transitions conf f =
      let stated =
        add_state (codes "RUNNING") (add_state (codes "CONFIGURED") (add_state (codes "VOID") f)) in
      let t₁ : Transition J (Lsc J P S) = record {
        initial = codes "VOID";
        final = codes "CONFIGURED";
        callback = Lsc.configure json h t plugin store conf;
      } in
      let t₂ : Transition J (Lsc J P S) = record {
        initial = codes "CONFIGURED";
        final = codes "RUNNING";
        callback = Lsc.start json h t plugin store;
      } in
      let t₃ : Transition J (Lsc J P S) = record {
        initial = codes "RUNNING";
        final = codes "CONFIGURED";
        callback = Lsc.stop json h t plugin store;
      } in
      add_transition (codes "STOP") t₃
        (add_transition (codes "START") t₂ (add_transition (codes "CONFIGURE") t₁ stated))

  unfoldable pub make_lsc : Bytes → Environment → Bytes → ℕ → Web J (Lsc J P S)
  make_lsc conf env name port =
      let base : Web J (Lsc J P S) = Web.make name in
      let told =
        add_command (codes "STATUS") (λ request state l. ok (Lsc.status json h l))
          (record base { fsm = lsc_transitions conf base.fsm }) in
      let fresh = record told { fsm = set_state (codes "VOID") told.fsm } in
      Web.start (env.variable (codes "NICKNAME")) env.hostname port fresh

  unfoldable pub supervisor_transitions : Fsm J (Supervisor J P S) → Fsm J (Supervisor J P S)
  supervisor_transitions f =
      let stated =
        add_state (codes "RUNNING")
          (add_state (codes "CONFIGURED") (add_state (codes "CREATED") f)) in
      let t₁ : Transition J (Supervisor J P S) = record {
        initial = codes "CREATED";
        final = codes "CONFIGURED";
        callback = Supervisor.configure json h t plugin store;
      } in
      let t₂ : Transition J (Supervisor J P S) = record {
        initial = codes "CONFIGURED";
        final = codes "RUNNING";
        callback = Supervisor.start json h t plugin store;
      } in
      let t₃ : Transition J (Supervisor J P S) = record {
        initial = codes "RUNNING";
        final = codes "CONFIGURED";
        callback = Supervisor.stop json h t plugin store;
      } in
      let t₄ : Transition J (Supervisor J P S) = record {
        initial = codes "RUNNING";
        final = codes "CREATED";
        callback = Supervisor.halt json h t plugin store;
      } in
      let t₅ : Transition J (Supervisor J P S) = record t₄ { initial = codes "CONFIGURED" } in
      let f₁ = add_transition (codes "CONFIGURE") t₁ stated in
      let f₂ = add_transition (codes "START") t₂ f₁ in
      let f₃ = add_transition (codes "STOP") t₃ f₂ in
      add_transition (codes "HALT") t₅ (add_transition (codes "HALT") t₄ f₃)

  abbrev pub with_app : App J → Supervisor J P S → Supervisor J P S
  with_app app w = record w { app = app }

  -- The server starts where the variable WEBPORT gives a port.
  unfoldable pub make_supervisor : Environment → Bytes → Web J (Supervisor J P S)
  make_supervisor env name =
      let base = make_web json env (λ w. w.app) with_app name in
      let told =
        add_command (codes "STATUS") (λ request state w. ok (Supervisor.status json h w))
          (record base { fsm = supervisor_transitions base.fsm }) in
      elim (env.variable (codes "WEBPORT")) [
        | none ↦ told
        | some wp ↦ Web.start (env.variable (codes "NICKNAME")) env.hostname (number_of wp) told
      ]
