-- ===== src/Job/Machine.antt =====
-- fsmjob.cc, the constructor: the states and the transitions of the job control.
use zdaq.Base.{[]}
use zdaq.Base.Memory.{Bytes}
use zdaq.Base.Text.{codes}
use zdaq.Json.{Json}
use zdaq.Fsm.{Transition, Fsm, make, add_state, add_transition}
use zdaq.Job.{World, Job}
use zdaq.Job.Handlers.{
  Handler, registration, endregistration, registerjob, initialise, start, kill, destroy,
}

module _ {J : Type 0} (json : Json J) where
  -- The login is that of the environment variable WEBLOGIN.
  unfoldable pub make_job : Bytes → Bytes → Job J
  make_job hostname login = record {
    file = json.null;
    conf = json.null;
    config = json.null;
    hostname = hostname;
    login = login;
    processes = [];
    forks = 0;
    signals = [];
  }

  module _ (world : World) where
    abbrev pub handled : Bytes → Bytes → Handler json world → Transition J (Job J)
    handled istate fstate f = record { initial = istate; final = fstate; callback = f }

    abbrev pub stated : Fsm J (Job J)
    stated = add_state (codes "RUNNING") (
        add_state (codes "INITIALISED")
          (add_state (codes "REGISTERING") (add_state (codes "CREATED") make)))

    unfoldable pub machine : Fsm J (Job J)
    machine =
        let t₁ = handled (codes "CREATED") (codes "INITIALISED") (initialise json world) in
        let t₂ = handled (codes "CREATED") (codes "REGISTERING") (registration json world) in
        let t₃ = handled (codes "REGISTERING") (codes "REGISTERING") (registerjob json world) in
        let t₄ = handled (codes "REGISTERING") (codes "INITIALISED") (endregistration json world) in
        let t₅ = handled (codes "INITIALISED") (codes "RUNNING") (start json world) in
        let t₆ = handled (codes "RUNNING") (codes "INITIALISED") (kill json world) in
        let t₇ = handled (codes "INITIALISED") (codes "CREATED") (destroy json world) in
        let f₁ = add_transition (codes "INITIALISE") t₁ stated in
        let f₂ = add_transition (codes "REGISTRATION") t₂ f₁ in
        let f₃ = add_transition (codes "REGISTERJOB") t₃ f₂ in
        let f₄ = add_transition (codes "ENDREGISTRATION") t₄ f₃ in
        let f₅ = add_transition (codes "START") t₅ f₄ in
        let f₆ = add_transition (codes "KILL") t₆ f₅ in add_transition (codes "DESTROY") t₇ f₆
