-- ===== src/Job/Interrupted.antt =====
-- fsmjob.cc: the processes that are known after a call that has thrown.
use zdaq.Base.{
  ℕ, ◌≡◌, refl, subst, sym, Bool, not, ◌&&◌, ◌==◌, ltb, ◌^◌, Bool-cases, Option-cases, Result-cases,
  inl, inr, List, [], ◌∷◌,
}
use zdaq.Base.Memory.{Bytes}
use zdaq.Base.Text.{codes}
use zdaq.Base.Map.{keys}
use zdaq.Json.{Json}
use zdaq.Configs.{number_of}
use zdaq.Web.{Request, param}
use zdaq.Job.{World, Job}
use zdaq.Job.Processes.{launch, kill_process}
use zdaq.Job.Status.{json_status}
use zdaq.Job.Requests.{is_none, pid_named, chosen}
use zdaq.Job.Thrown.{
  launched, killed_first, kill_left, killjob_left, restarted, restartjob_left, registerfile_left,
}
use zdaq.Job.Idle.{IsTidy, emptied-IsTidy, entered-IsTidy, kill_process-IsTidy, launch-IsTidy}

module _ {J : Type 0} (json : Json J) (world : World) where
  restartjob_left_none :
      (request : Request) (job : Job J)
      → job.processes ≡ []
      → restartjob_left json world request job ≡ job
  unfolding restartjob_left chosen
  restartjob_left_none request job none_left = rw none_left refl

module _ {J : Type 0} (json : Json J) (world : World) {failed : Bool} where
  pub launched-IsTidy :
      (books : List J) (job : Job J)
      → IsTidy failed (codes "RUNNING") job
      → IsTidy failed (codes "RUNNING") (launched json world books job)
  unfolding launched
  launched-IsTidy [] job t = t
  launched-IsTidy (book ∷ books) job t =
      elim (Result-cases (launch json world (json.write book) job)) [
        | inr (e, bad) ↦ rw (bad, launched) t
        | inl (job₁, done) ↦
            rw (done, launched)
              (launched-IsTidy books job₁ (launch-IsTidy json world (json.write book) job t done))
      ]

  killed_first-IsTidy :
      (state : Bytes) (pids : List ℕ) (job : Job J)
      → IsTidy failed state job
      → IsTidy failed state (killed_first json world pids job)
  unfolding killed_first
  killed_first-IsTidy state [] job t = t
  killed_first-IsTidy state (pid ∷ pids) job t = elim (Bool-cases (ltb pid (2 ^ 31))) [
    | inl fine ↦
        rw (fine, killed_first)
          (killed_first-IsTidy state pids (kill_process pid 9 job)
            (kill_process-IsTidy state pid 9 job t))
    | inr negative ↦ rw (negative, killed_first) t
  ]

  pub kill_left-IsTidy :
      (state : Bytes) (job : Job J)
      → IsTidy failed state job
      → IsTidy failed state (kill_left json world job)
  unfolding kill_left
  kill_left-IsTidy state job t = elim (Result-cases (json_status json world job)) [
    | inr (e, bad) ↦ rw (bad, kill_left) t
    | inl (books, listed) ↦
        rw (listed, kill_left) (killed_first-IsTidy state (keys job.processes) job t)
  ]

  pub killjob_left-IsTidy :
      (state : Bytes) (request : Request) (job : Job J)
      → IsTidy failed state job
      → IsTidy failed state (killjob_left json world request job)
  unfolding killjob_left
  killjob_left-IsTidy state request job t =
      let name = param request (codes "processname") (codes "NONE") in
      let pid = number_of (param request (codes "pid") (codes "0")) in
      let sig = number_of (param request (codes "signal") (codes "9")) in
      elim (Bool-cases (pid == 0)) [
        | inr numbered ↦ rw (numbered, killjob_left) (kill_process-IsTidy state pid sig job t)
        | inl by_name ↦ elim (Result-cases (pid_named json world name job.processes)) [
          | inr (e, bad) ↦ rw (by_name, bad, killjob_left) t
          | inl (found, named) ↦ elim (Bool-cases (found == 0)) [
            | inl missing ↦ rw (by_name, named, missing, killjob_left) t
            | inr there ↦
                rw (by_name, named, there, killjob_left) (kill_process-IsTidy state found sig job t)
          ]
        ]
      ]

  restarted-IsTidy :
      (sig : ℕ) (there : ℕ × Bytes) (job : Job J)
      → IsTidy failed (codes "RUNNING") job
      → IsTidy failed (codes "RUNNING") (restarted json world sig there job)
  restarted-IsTidy sig (pid, jss) job t = elim (Bool-cases (not (pid == 0) && not (is_none jss))) [
    | inr nothing ↦ rw (nothing, restarted) t
    | inl found ↦
        let i = kill_process-IsTidy (codes "RUNNING") pid sig job t in
        elim (Result-cases (launch json world jss (kill_process pid sig job))) [
          | inr (e, bad) ↦ rw (found, bad, restarted) i
          | inl (job₁, done) ↦
              rw (found, done, restarted)
                (launch-IsTidy json world jss (kill_process pid sig job) i done)
        ]
  ]

  restartjob_left_running :
      (request : Request) (job : Job J)
      → IsTidy failed (codes "RUNNING") job
      → IsTidy failed (codes "RUNNING") (restartjob_left json world request job)
  unfolding restartjob_left
  restartjob_left_running request job t =
      let name = param request (codes "processname") (codes "NONE") in
      let pid = number_of (param request (codes "pid") (codes "0")) in
      let sig = number_of (param request (codes "signal") (codes "9")) in
      elim (Result-cases (chosen json world name pid job.processes)) [
        | inr (e, bad) ↦ rw (bad, restartjob_left) t
        | inl (found, chose) ↦ elim (Option-cases found) [
          | inl nobody ↦ rw (chose, nobody, restartjob_left) t
          | inr (there, given) ↦
              rw (chose, given, restartjob_left) (restarted-IsTidy sig there job t)
        ]
      ]

  pub restartjob_left-IsTidy :
      (state : Bytes) (request : Request) (job : Job J)
      → IsTidy failed state job
      → IsTidy failed state (restartjob_left json world request job)
  restartjob_left-IsTidy state request job t =
      let i = restartjob_left_running request job (entered-IsTidy t) in
      record {
        idle = λ sound ne.
            let none_left = t.idle sound ne in
            subst (λ (j : Job J). j.processes ≡ [])
              (sym (restartjob_left_none json world request job none_left)) none_left;
        alive = i.alive;
        sorted = i.sorted;
      }

  pub registerfile_left-IsTidy :
      (state : Bytes) (request : Request) (job : Job J)
      → IsTidy failed state (registerfile_left json world request job)
  unfolding registerfile_left
  registerfile_left-IsTidy state request job = emptied-IsTidy state _ refl
