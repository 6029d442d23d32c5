-- ===== src/Job/Requests.antt =====
-- fsmjob.cc: the commands that come by the web server, with the parameters of their requests.
use zdaq.Configs.{member_text}
use zdaq.Base.{
  ℕ, Bool, ◌&&◌, ◌||◌, not, [], ◌∷◌, ◌++◌, Option, none, some, Result, ok, ◌>>=◌, if◌then◌else◌,
  ◌==◌, ◌*◌, or_fault, indeterminate,
}
use zdaq.Base.Memory.{Bytes}
use zdaq.Base.Text.{codes, bytes_eq, decimal}
use zdaq.Base.Map.{Map}
use zdaq.Configs.{number_of}
use zdaq.Web.{Request, param}
use zdaq.Json.{Json, get, has, parsed}
use zdaq.Tail.{tail}
use zdaq.Job.{World, Process, Job}
use zdaq.Job.Processes.{launch, kill_process}
use zdaq.Job.Status.{json_status}
use zdaq.Job.Handlers.{cleared}

abbrev pub is_none : Bytes → Bool
is_none s = bytes_eq s (codes "NONE")

module _ {J : Type 0} (json : Json J) (world : World) where
  abbrev pub replying : Bytes → J → J
  replying status response = json.put (codes "STATUS") (json.text status) response

  abbrev pub with_jobs : Bytes → Job J → Result (J × Job J)
  with_jobs status job = do
    jobs ← json_status json world job
    ok (replying status (json.put (codes "JOBS") jobs json.null), job)

  -- The number of the first process of a name, 0 if there is none.
  unfoldable pub pid_named : Bytes → Map ℕ (Process J) → Result ℕ
  pid_named name [] = ok 0
  pid_named name ((pid, p) ∷ rest) = do
    found ← member_text json (codes "NAME") p.info
    if bytes_eq found name then ok pid else pid_named name rest

  unfoldable pub killjob : Request → Job J → Result (J × Job J)
  killjob request job =
      let name = param request (codes "processname") (codes "NONE") in
      let pid = number_of (param request (codes "pid") (codes "0")) in
      let sig = number_of (param request (codes "signal") (codes "9")) in
      if pid == 0 && is_none name
      then ok (replying (codes "No pid or name given") json.null, job)
      else if not (pid == 0)
      then with_jobs (codes "DONE") (kill_process pid sig job)
      else (do
        found ← pid_named name job.processes
        if not (found == 0)
            then with_jobs (codes "DONE") (kill_process found sig job)
            else with_jobs (codes "name not found in pid list") job)

  -- The first process that has the name or the number, with the text that it was made from.
  unfoldable pub chosen : Bytes → ℕ → Map ℕ (Process J) → Result (Option (ℕ × Bytes))
  chosen name pid [] = ok none
  chosen name pid ((k, p) ∷ rest) = do
    found ← member_text json (codes "NAME") p.info
    if bytes_eq found name || pid == k then ok (some (k, p.string)) else chosen name pid rest

  abbrev pub restart_chosen : ℕ → Option (ℕ × Bytes) → Job J → Result (J × Job J)
  restart_chosen sig none job = with_jobs (codes "pid or name not found in pid list") job
  restart_chosen sig (some (pid, jss)) job =
      if not (pid == 0) && not (is_none jss)
      then (do
        job₁ ← launch json world jss (kill_process pid sig job)
        with_jobs (codes "DONE") job₁)
      else with_jobs (codes "pid or name not found in pid list") job

  unfoldable pub restartjob : Request → Job J → Result (J × Job J)
  restartjob request job =
      let name = param request (codes "processname") (codes "NONE") in
      let pid = number_of (param request (codes "pid") (codes "0")) in
      let sig = number_of (param request (codes "signal") (codes "9")) in
      if pid == 0 && is_none name
      then ok (replying (codes "No pid or name given") json.null, job)
      else (do found ← chosen name pid job.processes; restart_chosen sig found job)

  abbrev pub log_path : ℕ → Bytes
  log_path pid = codes "/tmp/fsmjobPID" ++ (decimal pid ++ codes ".log")

  abbrev pub tail_size : ℕ
  tail_size = 1024 * 512

  -- The array that `tail` writes into is not initialised.
  abbrev pub log_lines : Bytes → ℕ → Result Bytes
  log_lines path lines = do
    printed ← tail tail_size lines (world.log path) tail_size (world.stack tail_size)
    or_fault printed indeterminate

  unfoldable pub joblog : Request → Job J → Result (J × Job J)
  joblog request job =
      let name = param request (codes "processname") (codes "NONE") in
      let pid = number_of (param request (codes "pid") (codes "0")) in
      let lines = number_of (param request (codes "lines") (codes "100")) in
      if pid == 0 && is_none name
      then ok (replying (codes "No pid or name given") json.null, job)
      else (do
        found ← if pid == 0 then pid_named name job.processes else ok pid
        if found == 0 then with_jobs (codes "name not found in pid list") job else (do
          let path = log_path found
          text ← log_lines path lines
          let a = json.put (codes "FILE") (json.text path) (replying (codes "DONE") json.null)
          ok (json.put (codes "LINES") (json.text text) a, job)))

  unfoldable pub status : Job J → Result (J × Job J)
  status job = do
    jobs ← json_status json world job
    named ← has json (codes "NAME") job.file
    let name = if named then json.member (codes "NAME") job.file else json.text (codes "UNKNOWN")
    ok (
      replying (codes "DONE")
          (json.put (codes "NAME") name (json.put (codes "JOBS") jobs json.null)),
      job,
    )

  -- The configuration is that of the host's own name.
  abbrev pub register_text : Bytes → Job J → Result (J × Job J)
  register_text s job = do
    let job₁ = record job { file = parsed json s }
    job₂ ← elim (json.parse s) [
      | none ↦ ok job₁
      | some v ↦ do
        hosts ← get json (codes "HOSTS") v
        conf ← get json job.hostname hosts
        ok (record job₁ { conf = conf })
    ]
    ok (replying (codes "DONE") (json.put (codes "JOBS") job₂.conf json.null), job₂)

  -- `state` is the state of the job's machine.
  unfoldable pub registerfile : Bytes → Request → Job J → Result (J × Job J)
  registerfile state request job =
      if not (bytes_eq state (codes "INITIALISED"))
      then ok (replying (codes "cannot register jobs if not initialised") json.null, job)
      else (let name = param request (codes "file") (codes "NONE") in
          let job₁ = record (cleared json world job) { processes = [] } in
          if is_none name
          then ok (replying (codes "No file  given") json.null, job₁)
          else register_text (world.file_text name) job₁)
