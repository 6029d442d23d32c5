-- ===== src/Job/Reach.antt =====
-- The job control over time: commands to its machine and requests to its web server, in any order, and
-- with those that end by an exception.
use zdaq.Web.{Request}
use zdaq.Base.{◌≡◌, refl, subst, sym, Bool, true, false, [], some, ok, err, Fault}
use zdaq.Base.Memory.{Bytes}
use zdaq.Base.Text.{codes}
use zdaq.Json.{Json}
use zdaq.Fsm.{Message, Transition, Fsm}
use zdaq.Fsm.Messages.{command}
use zdaq.Fsm.Commands.{transition, process_command}
use zdaq.Fsm.Invariants.{AllSound, transition-IsSound, process_command-IsGood}
use zdaq.Job.{World, Job}
use zdaq.Job.Handlers.{initialise, start, kill}
use zdaq.Job.Requests.{killjob, restartjob, registerfile}
use zdaq.Job.Thrown.{launched, kill_left, killjob_left, restartjob_left, registerfile_left}
use zdaq.Job.Machine.{machine, make_job}
use zdaq.Job.Idle.{IsTidy, emptied-IsTidy, entered-IsTidy, failed-IsTidy, processes-IsTidy}
use zdaq.Job.Sound.{machine-AllSound}
use zdaq.Job.Requested.{killjob-IsTidy, restartjob-IsTidy, registerfile-IsTidy}
use zdaq.Job.Interrupted.{
  launched-IsTidy, kill_left-IsTidy, killjob_left-IsTidy, restartjob_left-IsTidy,
  registerfile_left-IsTidy,
}

module _ {J : Type 0} (json : Json J) (world : World) where
  -- A command whose callback throws leaves the machine in its state; one whose reply throws has
  -- changed it already.
  pub data Step (f : Fsm J (Job J)) (job : Job J) : Fsm J (Job J) → Job J → Type 0 where
    commanded :
        (m : Message J) {r : Bytes} {m' : Message J} {f' : Fsm J (Job J)} {job' : Job J}
        → process_command json m f job ≡ ok (r, m', f', job')
        → Step f job f' job'
    unanswered :
        (m m₁ : Message J) {cmd : Bytes} {t : Transition J (Job J)} {job' : Job J}
        → command json m ≡ ok cmd
        → transition cmd f.state f ≡ some t
        → t.callback m job ≡ ok (m₁, job')
        → Step f job (record f { state = t.final }) job'
    start_throws :
        (m : Message J) {e : Fault}
        → f.state ≡ codes "INITIALISED"
        → start json world m job ≡ err e
        → Step f job f (launched json world (json.elements job.conf) job)
    kill_throws :
        (m : Message J) {e : Fault}
        → f.state ≡ codes "RUNNING"
        → kill json world m job ≡ err e
        → Step f job f (kill_left json world job)
    initialise_throws :
        (m : Message J) {e : Fault} {job' : Job J}
        → f.state ≡ codes "CREATED"
        → initialise json world m job ≡ err e
        → job'.processes ≡ []
        → Step f job f job'
    kills :
        (request : Request) {r : J} {job' : Job J}
        → killjob json world request job ≡ ok (r, job')
        → Step f job f job'
    killjob_throws :
        (request : Request) {e : Fault}
        → killjob json world request job ≡ err e
        → Step f job f (killjob_left json world request job)
    restarts :
        (request : Request) {r : J} {job' : Job J}
        → restartjob json world request job ≡ ok (r, job')
        → Step f job f job'
    restartjob_throws :
        (request : Request) {e : Fault}
        → restartjob json world request job ≡ err e
        → Step f job f (restartjob_left json world request job)
    registers_file :
        (request : Request) {r : J} {job' : Job J}
        → registerfile json world f.state request job ≡ ok (r, job')
        → Step f job f job'
    registerfile_throws :
        (request : Request) {e : Fault}
        → registerfile json world f.state request job ≡ err e
        → Step f job f (registerfile_left json world request job)
    -- No other call touches the processes, whatever else one that throws leaves behind.
    another_throws : {job' : Job J} → job'.processes ≡ job.processes → Step f job f job'

  -- Whether a START has thrown.
  unfoldable pub fails :
      {f f' : Fsm J (Job J)} {job job' : Job J} → Step f job f' job' → Bool → Bool
  fails (commanded m h) failed = failed
  fails (unanswered m m₁ c h k) failed = failed
  fails (start_throws m s h) failed = true
  fails (kill_throws m s h) failed = failed
  fails (initialise_throws m s h k) failed = failed
  fails (kills request h) failed = failed
  fails (killjob_throws request h) failed = failed
  fails (restarts request h) failed = failed
  fails (restartjob_throws request h) failed = failed
  fails (registers_file request h) failed = failed
  fails (registerfile_throws request h) failed = failed
  fails (another_throws h) failed = failed

  -- From the constructor on.
  pub data Reach (hostname login : Bytes) : Bool → Fsm J (Job J) → Job J → Type 0 where
    here : Reach hostname login false (machine json world) (make_job json hostname login)
    next :
        {failed : Bool} {f f' : Fsm J (Job J)} {job job' : Job J}
        → Reach hostname login failed f job
        → (s : Step f job f' job') → Reach hostname login (fails s failed) f' job'

  -- The transitions keep the invariant as it is, and what is left of it once a START has thrown.
  abbrev IsGoing : Bool → Fsm J (Job J) → Job J → Type 0
  IsGoing failed f job =
      AllSound json (IsTidy true) f × AllSound json (IsTidy failed) f × IsTidy failed f.state job

  Step-IsGoing :
      {failed : Bool} {f f' : Fsm J (Job J)} {job job' : Job J} (s : Step f job f' job')
      → IsGoing failed f job
      → IsGoing (fails s failed) f' job'
  unfolding fails
  Step-IsGoing {failed} {f} {job = job} (commanded m h) (a, b, t) =
      let (b', t') = process_command-IsGood json (IsTidy failed) m f job b t h in
      ((process_command-IsGood json (IsTidy true) m f job a (failed-IsTidy t) h).0, b', t')
  Step-IsGoing {failed} {f} {job = job} (unanswered m m₁ {cmd} c h called) (a, b, t) =
      let (sound, from) = transition-IsSound json (IsTidy failed) cmd f b h in
      (a, b, sound.keeps m job (subst (λ s. IsTidy failed s job) (sym from) t) called)
  Step-IsGoing {f} {job = job} (start_throws m s h) (a, b, t) = (
    a,
    a,
    failed-IsTidy (launched-IsTidy json world (json.elements job.conf) job (entered-IsTidy t)),
  )
  Step-IsGoing {f} {job = job} (kill_throws m s h) (a, b, t) =
      (a, b, kill_left-IsTidy json world f.state job t)
  Step-IsGoing {f} {job' = job'} (initialise_throws m s h none_left) (a, b, t) =
      (a, b, emptied-IsTidy f.state job' none_left)
  Step-IsGoing {f} {job = job} (kills request h) (a, b, t) =
      (a, b, killjob-IsTidy json world f.state request job t h)
  Step-IsGoing {f} {job = job} (killjob_throws request h) (a, b, t) =
      (a, b, killjob_left-IsTidy json world f.state request job t)
  Step-IsGoing {f} {job = job} (restarts request h) (a, b, t) =
      (a, b, restartjob-IsTidy json world f.state request job t h)
  Step-IsGoing {f} {job = job} (restartjob_throws request h) (a, b, t) =
      (a, b, restartjob_left-IsTidy json world f.state request job t)
  Step-IsGoing {f} {job = job} (registers_file request h) (a, b, t) =
      (a, b, registerfile-IsTidy json world f.state request job t h)
  Step-IsGoing {f} {job = job} (registerfile_throws request h) (a, b, t) =
      (a, b, registerfile_left-IsTidy json world f.state request job)
  Step-IsGoing {f} {job = job} {job'} (another_throws same) (a, b, t) =
      (a, b, processes-IsTidy f.state f.state job job' same (λ ne. ne) t)

  reached :
      {hostname login : Bytes} {failed : Bool} {f : Fsm J (Job J)} {job : Job J}
      → Reach hostname login failed f job
      → IsGoing failed f job
  unfolding make_job
  reached {hostname} {login} here = (
    machine-AllSound json world true,
    machine-AllSound json world false,
    emptied-IsTidy _ (make_job json hostname login) refl,
  )
  reached (next r s) = Step-IsGoing s (reached r)

  -- Whatever commands and requests the job control is given, and whichever of them throw on their way:
  -- the processes that it knows of are marked as running, each under a number of its own. As long as
  -- no START has thrown, it knows of none but in the state RUNNING.
  pub Reach-IsTidy :
      {hostname login : Bytes} {failed : Bool} {f : Fsm J (Job J)} {job : Job J}
      → Reach hostname login failed f job
      → IsTidy failed f.state job
  Reach-IsTidy r = (reached r).2
