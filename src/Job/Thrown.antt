-- ===== src/Job/Thrown.antt =====
-- fsmjob.cc: what a call leaves behind that throws on its way. An exception ends the call, and what it
-- did to the processes before stays.
use zdaq.Base.{
  ℕ, true, false, not, ◌&&◌, ◌==◌, List, [], ◌∷◌, none, some, ok, err, ltb, ◌^◌, if◌then◌else◌,
}
use zdaq.Base.Memory.{Bytes}
use zdaq.Base.Text.{codes}
use zdaq.Base.Map.{keys}
use zdaq.Json.{Json, parsed}
use zdaq.Configs.{number_of}
use zdaq.Web.{Request, param}
use zdaq.Job.{World, Job}
use zdaq.Job.Processes.{launch, kill_process}
use zdaq.Job.Status.{json_status}
use zdaq.Job.Handlers.{cleared}
use zdaq.Job.Requests.{is_none, pid_named, chosen}

module _ {J : Type 0} (json : Json J) (world : World) where
  -- The loop of `start` as far as it comes: the processes before the first that throws are running.
  unfoldable pub launched : List J → Job J → Job J
  launched [] job = job
  launched (book ∷ books) job = elim (launch json world (json.write book) job) [
    | err e ↦ job
    | ok job₁ ↦ launched books job₁
  ]

  -- The loop of `kill` as far as it comes.
  unfoldable pub killed_first : List ℕ → Job J → Job J
  killed_first [] job = job
  killed_first (pid ∷ pids) job = elim (ltb pid (2 ^ 31)) [
    | true ↦ killed_first pids (kill_process pid 9 job)
    | false ↦ job
  ]

  -- `kill` lists the processes before it ends any.
  unfoldable pub kill_left : Job J → Job J
  kill_left job = elim (json_status json world job) [
    | err e ↦ job
    | ok books ↦ killed_first (keys job.processes) job
  ]

  -- The reply comes after the process is killed.
  unfoldable pub killjob_left : Request → Job J → Job J
  killjob_left request job =
      let name = param request (codes "processname") (codes "NONE") in
      let pid = number_of (param request (codes "pid") (codes "0")) in
      let sig = number_of (param request (codes "signal") (codes "9")) in
      if not (pid == 0)
      then kill_process pid sig job
      else elim (pid_named json world name job.processes) [
        | err e ↦ job
        | ok found ↦ if found == 0 then job else kill_process found sig job
      ]

  abbrev pub restarted : ℕ → ℕ × Bytes → Job J → Job J
  restarted sig (pid, jss) job =
      if not (pid == 0) && not (is_none jss)
      then (let killed = kill_process pid sig job in
          elim (launch json world jss killed) [ err e ↦ killed | ok job₁ ↦ job₁ ])
      else job

  -- The process is killed before the new one is described.
  unfoldable pub restartjob_left : Request → Job J → Job J
  restartjob_left request job =
      let name = param request (codes "processname") (codes "NONE") in
      let pid = number_of (param request (codes "pid") (codes "0")) in
      let sig = number_of (param request (codes "signal") (codes "9")) in
      elim (chosen json world name pid job.processes) [
        | err e ↦ job
        | ok none ↦ job
        | ok (some there) ↦ restarted sig there job
      ]

  -- The file is read, and the processes are forgotten, before its hosts are looked at.
  unfoldable pub registerfile_left : Request → Job J → Job J
  registerfile_left request job = record (cleared json world job) {
    processes = [];
    file = parsed json (world.file_text (param request (codes "file") (codes "NONE")));
  }
