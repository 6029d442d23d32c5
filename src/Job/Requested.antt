-- ===== src/Job/Requested.antt =====
-- The requests of the web server and the processes that are known.
use zdaq.Web.{Request, param}
use zdaq.Configs.{number_of}
use zdaq.Base.{
  ℕ, ◌≡◌, ap, subst, Bool, [], Bool-cases, Result-cases, inl, inr, Option, none, some, ok, arith,
  not, ◌&&◌, ◌==◌,
}
use zdaq.Base.Memory.{Bytes}
use zdaq.Base.Text.{codes, bytes_eq}
use zdaq.Json.{Json}
use zdaq.Job.{World, Job}
use zdaq.Job.Processes.{launch, kill_process}
use zdaq.Job.Requests.{
  killjob, restartjob, registerfile, is_none, pid_named, chosen, restart_chosen,
}
use zdaq.Job.Idle.{IsTidy, emptied-IsTidy, entered-IsTidy, kill_process-IsTidy, launch-IsTidy}

module _ {J : Type 0} (json : Json J) (world : World) where
  pub killjob-IsTidy :
      {failed : Bool} (state : Bytes) (request : Request) (job : Job J) {r : J} {job' : Job J}
      → IsTidy failed state job
      → killjob json world request job ≡ ok (r, job')
      → IsTidy failed state job'
  unfolding killjob
  killjob-IsTidy {failed} state request job {job'} t h =
      let name = param request (codes "processname") (codes "NONE") in
      let pid = number_of (param request (codes "pid") (codes "0")) in
      let sig = number_of (param request (codes "signal") (codes "9")) in
      elim (Bool-cases (pid == 0 && is_none name)) [
        | inl nothing ↦ let same : job ≡ job' = ground arith in subst (IsTidy failed state) same t
        | inr given ↦ elim (Bool-cases (pid == 0)) [
          | inr numbered ↦
              let same : kill_process pid sig job ≡ job' = ground arith in
              subst (IsTidy failed state) same (kill_process-IsTidy state pid sig job t)
          | inl by_name ↦ elim (Result-cases (pid_named json world name job.processes)) [
            | inr (e, bad) ↦ absurd (ground arith)
            | inl (found, named) ↦ elim (Bool-cases (found == 0)) [
              | inl missing ↦
                  let same : job ≡ job' = ground arith in subst (IsTidy failed state) same t
              | inr there ↦
                  let same : kill_process found sig job ≡ job' = ground arith in
                  subst (IsTidy failed state) same (kill_process-IsTidy state found sig job t)
            ]
          ]
        ]
      ]

  restart_chosen-IsTidy :
      {failed : Bool} (sig : ℕ) (found : Option (ℕ × Bytes)) (job : Job J) {r : J} {job' : Job J}
      → IsTidy failed (codes "RUNNING") job
      → restart_chosen json world sig found job ≡ ok (r, job')
      → IsTidy failed (codes "RUNNING") job'
  restart_chosen-IsTidy {failed} sig none job {job'} t h =
      let same : job ≡ job' = ground arith in subst (IsTidy failed (codes "RUNNING")) same t
  restart_chosen-IsTidy {failed} sig (some (pid, jss)) job {job'} t h =
      elim (Bool-cases (not (pid == 0) && not (is_none jss))) [
        | inr nothing ↦
            let same : job ≡ job' = ground arith in subst (IsTidy failed (codes "RUNNING")) same t
        | inl there ↦ elim (Result-cases (launch json world jss (kill_process pid sig job))) [
          | inr (e, bad) ↦ absurd (ground arith)
          | inl (job₁, launched) ↦
              let same : job₁ ≡ job' = ground arith in
              subst (IsTidy failed (codes "RUNNING")) same (
                launch-IsTidy json world jss (kill_process pid sig job)
                  (kill_process-IsTidy (codes "RUNNING") pid sig job t) launched)
        ]
      ]

  -- Without a process there is none to restart.
  restartjob_none :
      (request : Request) (job : Job J) {r : J} {job' : Job J}
      → job.processes ≡ []
      → restartjob json world request job ≡ ok (r, job')
      → job ≡ job'
  unfolding restartjob chosen
  restartjob_none request job none_left h =
      let name = param request (codes "processname") (codes "NONE") in
      let pid = number_of (param request (codes "pid") (codes "0")) in
      let nothing : chosen json world name pid job.processes ≡ ok none =
        ap (chosen json world name pid) none_left in
      elim (Bool-cases (pid == 0 && is_none name)) [
        | inl nobody ↦ ground arith
        | inr given ↦ ground arith
      ]

  restartjob_running :
      {failed : Bool} (request : Request) (job : Job J) {r : J} {job' : Job J}
      → IsTidy failed (codes "RUNNING") job
      → restartjob json world request job ≡ ok (r, job')
      → IsTidy failed (codes "RUNNING") job'
  unfolding restartjob
  restartjob_running {failed} request job {r} {job'} t h =
      let name = param request (codes "processname") (codes "NONE") in
      let pid = number_of (param request (codes "pid") (codes "0")) in
      let sig = number_of (param request (codes "signal") (codes "9")) in
      elim (Bool-cases (pid == 0 && is_none name)) [
        | inl nothing ↦
            let same : job ≡ job' = ground arith in subst (IsTidy failed (codes "RUNNING")) same t
        | inr given ↦ elim (Result-cases (chosen json world name pid job.processes)) [
          | inr (e, bad) ↦ absurd (ground arith)
          | inl (found, chose) ↦
              let restarted : restart_chosen json world sig found job ≡ ok (r, job') =
                ground arith in
              restart_chosen-IsTidy sig found job t restarted
        ]
      ]

  pub restartjob-IsTidy :
      {failed : Bool} (state : Bytes) (request : Request) (job : Job J) {r : J} {job' : Job J}
      → IsTidy failed state job
      → restartjob json world request job ≡ ok (r, job')
      → IsTidy failed state job'
  restartjob-IsTidy state request job {job' = job'} t h =
      let i = restartjob_running request job (entered-IsTidy t) h in
      record {
        idle = λ sound ne.
            let none_left = t.idle sound ne in
            subst (λ (j : Job J). j.processes ≡ []) (restartjob_none request job none_left h)
              none_left;
        alive = i.alive;
        sorted = i.sorted;
      }

  pub registerfile-IsTidy :
      {failed : Bool} (state : Bytes) (request : Request) (job : Job J) {r : J} {job' : Job J}
      → IsTidy failed state job
      → registerfile json world state request job ≡ ok (r, job')
      → IsTidy failed state job'
  unfolding registerfile
  registerfile-IsTidy {failed} state request job {job'} t h =
      elim (Bool-cases (bytes_eq state (codes "INITIALISED"))) [
        | inr elsewhere ↦ let same : job ≡ job' = ground arith in subst (IsTidy failed state) same t
        | inl here ↦ emptied-IsTidy state job' (ground arith)
      ]
