-- ===== src/Job/Handlers.antt =====
-- fsmjob.cc: the handlers of the transitions.
use zdaq.Configs.{member_text}
use zdaq.Base.{
  ℕ, ◌^◌, Bool, true, false, List, [], ◌∷◌, none, some, ltb, Result, ok, ◌>>=◌, ◌>>◌, guard, thrown,
  if◌then◌else◌,
}
use zdaq.Base.Memory.{Bytes}
use zdaq.Base.Text.{codes, bytes_eq}
use zdaq.Base.Map.{keys}
use zdaq.Json.{Json, get, has, parsed}
use zdaq.Configs.{before, behind, unwrapped}
use zdaq.Fsm.{Message}
use zdaq.Fsm.Messages.{content, set_answer}
use zdaq.Job.{World, Job}
use zdaq.Job.Processes.{launch, kill_process}
use zdaq.Job.Status.{json_status}

module _ {J : Type 0} (json : Json J) (world : World) where
  abbrev pub Handler : Type 0
  Handler = Message J → Job J → Result (Message J × Job J)

  abbrev pub cleared : Job J → Job J
  cleared job = record job { file = json.null; conf = json.null }

  unfoldable pub registration : Handler
  registration m job = ok (m, cleared job)

  unfoldable pub endregistration : Handler
  endregistration m job = do m' ← set_answer json job.conf m; ok (m', job)

  unfoldable pub destroy : Handler
  destroy m job = ok (m, cleared job)

  -- The part of the first host that is this one.
  unfoldable pub part_of : List Bytes → J → J → J
  part_of [] hosts conf = conf
  part_of (x ∷ xs) hosts conf =
      if world.is_local x then json.member x hosts else part_of xs hosts conf

  unfoldable pub build_job_config : Job J → Result (Job J)
  build_job_config job = do
    hosts ← get json (codes "HOSTS") job.file
    guard (json.is_object hosts) thrown
    ok (record job { conf = part_of (json.names hosts) hosts job.conf })

  abbrev use_parsed : Bytes → Job J → Result (Job J)
  use_parsed s job = elim (json.parse s) [ none ↦ ok job | some v ↦ build_job_config job ]

  abbrev config_of_file : J → Job J → Result (Job J)
  config_of_file jc job = do
    name ← member_text json (codes "file") jc
    let s = world.file_text name
    use_parsed s (record job { file = parsed json s })

  abbrev config_of_page : J → Job J → Result (Job J)
  config_of_page jc job = do
    url ← member_text json (codes "url") jc
    let s = world.page_text url job.login
    v ← unwrapped json s
    use_parsed s (record job { file = v })

  abbrev config_of_download : J → Job J → Result (Job J)
  config_of_download jc job = do
    identity ← member_text json (codes "mongo") jc
    let s = world.download (before b':' identity) (behind b':' identity)
    v ← unwrapped json s
    use_parsed s (record job { file = v })

  unfoldable pub read_config : J → Job J → Result (Job J)
  read_config jc job = do
    from_file ← has json (codes "file") jc
    from_url ← has json (codes "url") jc
    from_mongo ← has json (codes "mongo") jc
    if from_file
        then config_of_file jc job
        else if from_url
        then config_of_page jc job
        else if from_mongo
        then config_of_download jc job
        else ok job

  -- The processes that were started before are forgotten.
  unfoldable pub initialise : Handler
  initialise m job = do
    jc ← content json m
    let job₁ = record (cleared job) { processes = []; config = jc }
    with_login ← has json (codes "login") jc
    login ← if with_login then member_text json (codes "login") jc else ok job.login
    job₂ ← read_config jc (record job₁ { login = login })
    m' ← set_answer json job₂.conf m
    ok (m', job₂)

  unfoldable pub launch_all : List J → Job J → Result (Job J)
  launch_all [] job = ok job
  launch_all (book ∷ books) job = do
    job₁ ← launch json world (json.write book) job
    launch_all books job₁

  -- What a START that throws leaves behind is `launched` of Job/Thrown.
  unfoldable pub start : Handler
  start m job = do
    job₁ ← launch_all (json.elements job.conf) job
    status ← json_status json world job₁
    m' ← set_answer json status m
    ok (m', job₁)

  -- The numbers are read back from the status: a negative one throws.
  unfoldable pub kill_all : List ℕ → Job J → Result (Job J)
  kill_all [] job = ok job
  kill_all (pid ∷ pids) job = do
    guard (ltb pid (2 ^ 31)) thrown
    kill_all pids (kill_process pid 9 job)

  unfoldable pub kill : Handler
  kill m job = do
    books ← json_status json world job
    job₁ ← kill_all (keys job.processes) job
    status ← json_status json world job₁
    m' ← set_answer json status m
    ok (m', job₁)

  -- Whether a configuration holds a process of a name.
  unfoldable pub is_named_in : Bytes → List J → Result Bool
  is_named_in pname [] = ok false
  is_named_in pname (book ∷ books) = do
    name ← member_text json (codes "NAME") book
    if bytes_eq name pname then ok true else is_named_in pname books

  unfoldable pub registerjob : Handler
  registerjob m job = do
    jcr ← content json m
    pname ← member_text json (codes "processname") jcr
    pargs ← member_text json (codes "processargs") jcr
    penv ← member_text json (codes "processenv") jcr
    pbin ← member_text json (codes "processbin") jcr
    let a = json.put (codes "NAME") (json.text pname) json.null
    let b = json.put (codes "ARGS") (parsed json pargs) a
    let c = json.put (codes "ENV") (parsed json penv) b
    let jc = json.put (codes "PROGRAM") (parsed json pbin) c
    known ← is_named_in pname (json.elements job.conf)
    if known then ok (m, job) else (do
      let job₁ = record job { conf = json.append jc job.conf }
      m' ← set_answer json job₁.conf m
      ok (m', job₁))
