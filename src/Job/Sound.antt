-- ===== src/Job/Sound.antt =====
-- The transitions of the job control keep the processes that are known in order.
use zdaq.Base.{◌≡◌, refl, Bool, false, Result, ok, arith}
use zdaq.Base.Memory.{Bytes}
use zdaq.Base.Text.{codes, bytes_eq, bytes_eq→ne}
use zdaq.Json.{Json}
use zdaq.Fsm.{Message, Transition, Fsm}
use zdaq.Fsm.Invariants.{IsSound, AllSound, add_transition-AllSound}
use zdaq.Job.{World, Job}
use zdaq.Job.Handlers.{registration, endregistration, registerjob, destroy}
use zdaq.Job.Machine.{machine, handled}
use zdaq.Job.Keeping.{registerjob_keeps, initialise_empties, kill_empties, start-IsTidy}
use zdaq.Job.Idle.{IsTidy, emptied-IsTidy, entered-IsTidy, processes-IsTidy}

module _ {J : Type 0} (json : Json J) (world : World) (failed : Bool) where
  abbrev Step : Type 0
  Step = Message J → Job J → Result (Message J × Job J)

  Sound : Bytes → Bytes → Step → Type 0
  Sound istate fstate f = IsSound json (IsTidy failed) (handled json world istate fstate f)

  -- A handler that leaves the processes as they are, out of a state other than RUNNING.
  abbrev Keeps : Step → Type 0
  Keeps f =
      (m : Message J) (job : Job J) (m' : Message J) (job' : Job J)
      → f m job ≡ ok (m', job')
      → job'.processes ≡ job.processes

  quiet-Sound :
      (istate fstate : Bytes) (f : Step)
      → bytes_eq istate (codes "RUNNING") ≡ false
      → Keeps f
      → Sound istate fstate f
  unfolding Sound
  quiet-Sound istate fstate f quiet keeps = record {
    keeps = λ m job {m'} {w' = job'} t h.
        processes-IsTidy istate fstate job job' (keeps m job m' job' h)
          (λ ne. bytes_eq→ne _ _ quiet) t;
  }

  registration-Keeps : Keeps (registration json world)
  unfolding registration
  registration-Keeps m job m' job' h = ground arith

  destroy-Keeps : Keeps (destroy json world)
  unfolding destroy
  destroy-Keeps m job m' job' h = ground arith

  endregistration-Keeps : Keeps (endregistration json world)
  unfolding endregistration
  endregistration-Keeps m job m' job' h = ground arith

  pub machine-AllSound : AllSound json (IsTidy failed) (machine json world)
  unfolding machine Sound bytes_eq zdaq.Fsm.make zdaq.Fsm.add_state
  machine-AllSound =
      let created = codes "CREATED" in
      let registering = codes "REGISTERING" in
      let initialised = codes "INITIALISED" in
      let add = add_transition-AllSound json (IsTidy failed) in
      let s₁ =
        add (codes "INITIALISE") _ _
          (record {
            keeps = λ m job {m'} {w' = job'} t h.
                emptied-IsTidy initialised job' (initialise_empties json world m job h);
          })
          tt in
      let s₂ =
        add (codes "REGISTRATION") _ _
          (quiet-Sound created registering (registration json world) refl registration-Keeps) s₁ in
      let s₃ =
        add (codes "REGISTERJOB") _ _
          (quiet-Sound registering registering (registerjob json world) refl
            (λ m job m' job' h. registerjob_keeps json world m job h))
          s₂ in
      let s₄ =
        add (codes "ENDREGISTRATION") _ _
          (quiet-Sound registering initialised (endregistration json world) refl
            endregistration-Keeps)
          s₃ in
      let s₅ =
        add (codes "START") _ _
          (record {
            keeps =
                λ m job {m'} {w' = job'} t h. start-IsTidy json world m job (entered-IsTidy t) h;
          })
          s₄ in
      let s₆ =
        add (codes "KILL") _ _
          (record {
            keeps = λ m job {m'} {w' = job'} t h.
                emptied-IsTidy initialised job' (kill_empties json world m job t h);
          })
          s₅ in
      add (codes "DESTROY") _ _
        (quiet-Sound initialised created (destroy json world) refl destroy-Keeps) s₆
