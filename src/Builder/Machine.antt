-- ===== src/Builder/Machine.antt =====
-- exBuilder.cxx, the constructor: the machine and the commands of the builder.
use zdaq.Base.{ok, none, some}
use zdaq.Base.Memory.{Bytes}
use zdaq.Base.Text.{codes}
use zdaq.Json.{Json}
use zdaq.Fsm.{Transition, Fsm, add_state, add_transition}
use zdaq.Web
use zdaq.Web.{Web, add_command}
use zdaq.Configs.{number_of}
use zdaq.Application.{Environment, make_web}
use zdaq.Processor.{Processor}
use zdaq.Collector.Machine.{with_app}
use zdaq.Builder
use zdaq.Collector.{Collector}

module _ {J : Type 0} (json : Json J) {P : Type 0} (ops : Processor J P) (plugin : Bytes → P) where
  unfoldable pub transitions_of : Fsm J (Collector J P) → Fsm J (Collector J P)
  transitions_of f =
      let stated =
        add_state (codes "RUNNING")
          (add_state (codes "CONFIGURED") (add_state (codes "CREATED") f)) in
      let t₁ : Transition J (Collector J P) = record {
        initial = codes "CREATED";
        final = codes "CONFIGURED";
        callback = Builder.configure json ops plugin;
      } in
      let t₂ : Transition J (Collector J P) = record t₁ { initial = codes "CONFIGURED" } in
      let t₃ : Transition J (Collector J P) = record {
        initial = codes "CONFIGURED";
        final = codes "RUNNING";
        callback = Builder.start json ops plugin;
      } in
      let t₄ : Transition J (Collector J P) = record {
        initial = codes "RUNNING";
        final = codes "CONFIGURED";
        callback = Builder.stop json ops plugin;
      } in
      let t₅ : Transition J (Collector J P) = record {
        initial = codes "RUNNING";
        final = codes "CREATED";
        callback = Builder.halt json ops plugin;
      } in
      let t₆ : Transition J (Collector J P) = record t₅ { initial = codes "CONFIGURED" } in
      let f₁ = add_transition (codes "CONFIGURE") t₁ stated in
      let f₂ = add_transition (codes "CONFIGURE") t₂ f₁ in
      let f₃ = add_transition (codes "START") t₃ f₂ in
      let f₄ = add_transition (codes "STOP") t₄ f₃ in
      let f₅ = add_transition (codes "HALT") t₅ f₄ in add_transition (codes "HALT") t₆ f₅

  -- The server starts where the variable WEBPORT gives a port.
  unfoldable pub make_server : Environment → Bytes → Web J (Collector J P)
  make_server env name =
      let base = make_web json env (λ c. c.app) (with_app json ops plugin) name in
      let a =
        add_command (codes "STATUS") (λ request state c. ok (Builder.status json c, c))
          (record base { fsm = transitions_of base.fsm }) in
      let b =
        add_command (codes "REGISTERDS") (λ request state c. ok (Builder.registerds json request c))
          a in
      let c =
        add_command (codes "SETHEADER") (λ request state c. Builder.c_setheader json request c) b in
      let d =
        add_command (codes "PURGE") (λ request state c. ok (Builder.c_purge json request c)) c in
      elim (env.variable (codes "WEBPORT")) [
        | none ↦ d
        | some wp ↦ Web.start (env.variable (codes "NICKNAME")) env.hostname (number_of wp) d
      ]
