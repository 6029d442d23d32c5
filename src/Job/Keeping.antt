-- ===== src/Job/Keeping.antt =====
-- What each handler does to the processes that are known.
use zdaq.Base.{◌≡◌, refl, subst, Bool, Result-cases, inl, inr, [], ok, arith}
use zdaq.Base.Text.{codes}
use zdaq.Base.Map.{keys}
use zdaq.Json.{Json}
use zdaq.Fsm.{Message}
use zdaq.Job.{World, Job}
use zdaq.Job.Handlers.{
  registerjob, initialise, start, kill, build_job_config, read_config, launch_all, kill_all,
}
use zdaq.Job.Idle.{IsTidy, kill_all_empties, launch_all-IsTidy}

module _ {J : Type 0} (json : Json J) (world : World) where
  pub build_job_config_keeps :
      (job : Job J) {job' : Job J}
      → build_job_config json world job ≡ ok job'
      → job'.processes ≡ job.processes
  unfolding build_job_config
  build_job_config_keeps job {job'} h = ground arith

  pub read_config_keeps :
      (jc : J) (job : Job J) {job' : Job J}
      → read_config json world jc job ≡ ok job'
      → job'.processes ≡ job.processes
  unfolding read_config build_job_config
  read_config_keeps jc job h = ground arith

  pub registerjob_keeps :
      (m : Message J) (job : Job J) {m' : Message J} {job' : Job J}
      → registerjob json world m job ≡ ok (m', job')
      → job'.processes ≡ job.processes
  unfolding registerjob
  registerjob_keeps m job h = ground arith

  pub initialise_empties :
      (m : Message J) (job : Job J) {m' : Message J} {job' : Job J}
      → initialise json world m job ≡ ok (m', job')
      → job'.processes ≡ []
  unfolding initialise read_config build_job_config
  initialise_empties m job h = ground arith

  pub kill_empties :
      {failed : Bool} (m : Message J) (job : Job J) {m' : Message J} {job' : Job J}
      → IsTidy failed (codes "RUNNING") job
      → kill json world m job ≡ ok (m', job')
      → job'.processes ≡ []
  unfolding kill
  kill_empties m job {job'} t h =
      elim (Result-cases (kill_all json world (keys job.processes) job)) [
        | inr (e, bad) ↦ absurd (ground arith)
        | inl (job₁, killed) ↦
            let same : job₁ ≡ job' = ground arith in
            subst (λ (j : Job J). j.processes ≡ []) same
              (kill_all_empties json world job.processes job refl t.alive t.sorted killed)
      ]

  pub start-IsTidy :
      {failed : Bool} (m : Message J) (job : Job J) {m' : Message J} {job' : Job J}
      → IsTidy failed (codes "RUNNING") job
      → start json world m job ≡ ok (m', job')
      → IsTidy failed (codes "RUNNING") job'
  unfolding start
  start-IsTidy {failed} m job {job'} t h =
      elim (Result-cases (launch_all json world (json.elements job.conf) job)) [
        | inr (e, bad) ↦ absurd (ground arith)
        | inl (job₁, launched) ↦
            let same : job₁ ≡ job' = ground arith in
            subst (IsTidy failed (codes "RUNNING")) same
              (launch_all-IsTidy json world (json.elements job.conf) job t launched)
      ]
