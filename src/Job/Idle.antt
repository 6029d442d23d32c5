-- ===== src/Job/Idle.antt =====
-- What the job control knows of its processes: all are running, and as long as no START has failed it
-- has none but in the state RUNNING.
use zdaq.Base.{
  ℕ, suc, ◌≡◌, ◌≢◌, refl, ap, ◌∙◌, sym, subst, Bool, true, false, Bool-cases, Option-cases,
  Result-cases, inl, inr, List, [], ◌∷◌, some, All, ok, ltb, ◌^◌, arith,
}
use zdaq.Base.Memory.{Bytes}
use zdaq.Base.Order.{nat_ord}
use zdaq.Base.Text.{codes}
use zdaq.Base.Map.{Map, keys, find, insert, erase, IsSorted, insert-IsSorted, Above-IsSorted}
use zdaq.Base.Entries.{insert-All, erase-IsSorted, find-All}
use zdaq.Json.{Json}
use zdaq.Job.{World, Process, Job, running}
use zdaq.Job.Processes.{make_process, start_process, described, launch, kill_process}
use zdaq.Job.Handlers.{launch_all, kill_all}

module _ {J : Type 0} where
  abbrev pub AllRunning : Map ℕ (Process J) → Type 0
  AllRunning = All (λ e. e.1.status ≡ running)

  -- `failed` is whether a START has thrown.
  pub record IsTidy (failed : Bool) (state : Bytes) (job : Job J) : Type 0 where
    pub idle : failed ≡ false → state ≢ codes "RUNNING" → job.processes ≡ []
    pub alive : AllRunning job.processes
    pub sorted : IsSorted job.processes

  pub emptied-IsTidy :
      {failed : Bool} (state : Bytes) (job : Job J) → job.processes ≡ [] → IsTidy failed state job
  emptied-IsTidy state job none_left = record {
    idle = λ _ ne. none_left;
    alive = subst AllRunning (sym none_left) tt;
    sorted = subst IsSorted (sym none_left) tt;
  }

  -- In the state RUNNING there may be any.
  pub entered-IsTidy :
      {failed : Bool} {state : Bytes} {job : Job J}
      → IsTidy failed state job
      → IsTidy failed (codes "RUNNING") job
  entered-IsTidy t = record { idle = λ _ ne. absurd (ne refl); alive = t.alive; sorted = t.sorted }

  -- After a START that failed there may be any in every state.
  pub failed-IsTidy :
      {failed : Bool} {state : Bytes} {state' : Bytes} {job : Job J}
      → IsTidy failed state job
      → IsTidy true state' job
  failed-IsTidy t = record { idle = λ e ne. absurd (cc e); alive = t.alive; sorted = t.sorted }

  -- The processes stay, and so does the state or it is another one that is not RUNNING.
  pub processes-IsTidy :
      {failed : Bool} (state state' : Bytes) (job job' : Job J)
      → job'.processes ≡ job.processes
      → (state' ≢ codes "RUNNING" → state ≢ codes "RUNNING")
      → IsTidy failed state job
      → IsTidy failed state' job'
  processes-IsTidy state state' job job' same rests t = record {
    idle = λ sound ne. same ∙ t.idle sound (rests ne);
    alive = subst AllRunning (sym same) t.alive;
    sorted = subst IsSorted (sym same) t.sorted;
  }

  erase-AllRunning : (k : ℕ) (ps : Map ℕ (Process J)) → AllRunning ps → AllRunning (erase k ps)
  unfolding erase
  erase-AllRunning k [] a = tt
  erase-AllRunning k ((j, p) ∷ ps) a = elim (Bool-cases (ltb j k)) [
    | inl below ↦ rw below (a.0, erase-AllRunning k ps a.1)
    | inr fine ↦ elim (Bool-cases (ltb k j)) [
      | inl above ↦ rw (fine, above) a
      | inr same ↦ rw (fine, same) a.1
    ]
  ]

  kill_process_running :
      (pid sig : ℕ) (job : Job J) {p : Process J}
      → AllRunning job.processes
      → find pid job.processes ≡ some p
      → kill_process pid sig job
        ≡ record job { processes = erase pid job.processes; signals = (pid, sig) ∷ job.signals }
  unfolding kill_process
  kill_process_running pid sig job {p} a found =
      let runs : p.status ≡ running =
        find-All (λ q. q.status ≡ running) pid job.processes a found in
      rw (kill_process, found, runs) refl

  pub kill_process-IsTidy :
      {failed : Bool} (state : Bytes) (pid sig : ℕ) (job : Job J)
      → IsTidy failed state job
      → IsTidy failed state (kill_process pid sig job)
  unfolding kill_process erase
  kill_process-IsTidy state pid sig job t = elim (Option-cases (find pid job.processes)) [
    | inl missing ↦ rw (kill_process, missing) t
    | inr (p, found) ↦ rw (kill_process_running pid sig job t.alive found) (record {
      idle = λ sound ne. ap (erase pid) (t.idle sound ne);
      alive = erase-AllRunning pid job.processes t.alive;
      sorted = erase-IsSorted pid job.processes t.sorted;
    })
  ]

  find_first : (k : ℕ) (p : Process J) (ps : Map ℕ (Process J)) → find k ((k, p) ∷ ps) ≡ some p
  unfolding find
  find_first k p ps = ground arith

  erase_first : (k : ℕ) (p : Process J) (ps : Map ℕ (Process J)) → erase k ((k, p) ∷ ps) ≡ ps
  unfolding erase
  erase_first k p ps = ground arith

module _ {J : Type 0} (json : Json J) (world : World) where
  -- Killing every process that is known leaves none.
  pub kill_all_empties :
      (ps : Map ℕ (Process J)) (job : Job J) {job' : Job J}
      → job.processes ≡ ps
      → AllRunning ps
      → IsSorted ps
      → kill_all json world (keys ps) job ≡ ok job'
      → job'.processes ≡ []
  unfolding kill_all
  kill_all_empties [] job {job'} same a s h =
      let unchanged : job ≡ job' = cc h in subst (λ (j : Job J). j.processes ≡ []) unchanged same
  kill_all_empties ((k, p) ∷ ps) job {job'} same a s h = elim (Bool-cases (ltb k (2 ^ 31))) [
    | inr negative ↦ absurd (cc (rw (negative, kill_all) at h))
    | inl fine ↦
        let found : find k job.processes ≡ some p = ap (find k) same ∙ find_first k p ps in
        let step = kill_process_running k 9 job (subst AllRunning (sym same) a) found in
        let left : (kill_process k 9 job).processes ≡ ps =
          ap (λ (j : Job J). j.processes) step ∙ ap (erase k) same ∙ erase_first k p ps in
        kill_all_empties ps (kill_process k 9 job) left a.1 (Above-IsSorted k ps s)
          (rw (fine, kill_all) at h)
  ]

  -- Once it runs, a job that starts a process has it running.
  pub launch-IsTidy :
      {failed : Bool} (s : Bytes) (job : Job J) {job' : Job J}
      → IsTidy failed (codes "RUNNING") job
      → launch json world s job ≡ ok job'
      → IsTidy failed (codes "RUNNING") job'
  unfolding launch start_process make_process
  launch-IsTidy {failed} s job {job'} t h =
      elim (Result-cases (described json (make_process json s).info)) [
        | inr (e, bad) ↦ absurd (cc (rw (bad, launch) at h))
        | inl (texts, read) ↦
            let pid = world.forked job.forks in
            let p : Process J = record (make_process json s) { pid = pid; status = running } in
            let same : record job { forks = suc job.forks; processes = insert pid p job.processes }
                ≡ job' =
              cc (rw (read, launch) at h) in
            subst (IsTidy failed (codes "RUNNING")) same (record {
              idle = λ _ ne. absurd (ne refl);
              alive = insert-All (λ e. e.1.status ≡ running) pid p job.processes refl t.alive;
              sorted = insert-IsSorted pid p job.processes t.sorted;
            })
      ]

  pub launch_all-IsTidy :
      {failed : Bool} (books : List J) (job : Job J) {job' : Job J}
      → IsTidy failed (codes "RUNNING") job
      → launch_all json world books job ≡ ok job'
      → IsTidy failed (codes "RUNNING") job'
  unfolding launch_all
  launch_all-IsTidy {failed} [] job t h = subst (IsTidy failed (codes "RUNNING")) (cc h) t
  launch_all-IsTidy (book ∷ books) job t h =
      elim (Result-cases (launch json world (json.write book) job)) [
        | inr (e, bad) ↦ absurd (cc (rw (bad, launch_all) at h))
        | inl (job₁, done) ↦
            launch_all-IsTidy books job₁ (launch-IsTidy (json.write book) job t done)
              (rw (done, launch_all) at h)
      ]
