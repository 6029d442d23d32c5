-- ===== src/Examples/Jobs.antt =====
-- The job control: a job is registered, started, and killed by its number.
use zdaq.Web.{Request}
use zdaq.Base.{◌+◌, ◌≡◌, refl, true, false, none, some, [], ◌∷◌, ok, if◌then◌else◌}
use zdaq.Base.Memory.{Bytes, cut}
use zdaq.Base.Text.{codes, bytes_eq, scan_digits}
use zdaq.Base.Order.{bytes_ord, bytes_lt, nat_ord}
use zdaq.Base.Map
use zdaq.Wire.{scan_long, skip_space}
use zdaq.Json.Packed.{packed, lookup, unpack}
use zdaq.Fsm
use zdaq.Fsm.{Message, Transition, Fsm, starting_in, add_transition}
use zdaq.Fsm.Messages.{command, content, set_answer, set_value, read}
use zdaq.Fsm.Commands.{transition}
use zdaq.Fsm.Replies.{process_command_taken}
use zdaq.Job.{World, Job, running}
use zdaq.Job.Machine.{machine, make_job}
use zdaq.Job.Handlers.{registration, registerjob, is_named_in, endregistration, start, launch_all}
use zdaq.Job.Processes.{launch, start_process, make_process, texts, kill_process}
use zdaq.Job.Status.{json_status, status_from, process_status, port_from}
use zdaq.Job.Requests.{killjob}
use zdaq.Job.Reach.{Step, Reach, Reach-IsTidy}
use zdaq.Job.Idle.{IsTidy}

abbrev pub world : World
world = record {
  forked = λ n. 100 + n;
  is_local = λ host. true;
  file_text = λ name. [];
  page_text = λ url login. [];
  download = λ name version. [];
  proc_status = λ pid. codes "R";
  log = λ path. none;
  stack = λ n. [];
}

abbrev pub asking : Bytes → Bytes → Message Bytes
asking cmd c =
    let v =
      packed.put (codes "content") c (packed.put (codes "command") (packed.text cmd) packed.null) in
    record { root = v; value = v }

abbrev first : Job Bytes
first = make_job packed (codes "host") []

abbrev registering : Fsm Bytes (Job Bytes)
registering = record (machine packed world) { state = codes "REGISTERING" }

asks_registration : command packed (asking (codes "REGISTRATION") []) ≡ ok (codes "REGISTRATION")
unfolding command lookup bytes_eq
asks_registration = refl

no_content : content packed (asking (codes "REGISTRATION") []) ≡ ok []
unfolding content lookup bytes_eq
no_content = refl

abbrev registration_step : Transition Bytes (Job Bytes)
registration_step = record {
  initial = codes "CREATED";
  final = codes "REGISTERING";
  callback = registration packed world;
}

registration_chosen :
    transition (codes "REGISTRATION") (machine packed world).state (machine packed world)
    ≡ some registration_step
unfolding machine add_transition starting_in Map.find Map.insert Map.update bytes_lt bytes_eq
    zdaq.Fsm.make zdaq.Fsm.add_state
registration_chosen = refl

registration_called :
    registration packed world (asking (codes "REGISTRATION") []) first
    ≡ ok (asking (codes "REGISTRATION") [], first)
unfolding registration make_job
registration_called = refl

abbrev program : Bytes
program = packed.text (codes "/bin/ls")

abbrev job_content : Bytes
job_content = packed.put (codes "processname") (packed.text (codes "ls")) (
    packed.put (codes "processargs") (packed.text []) (
      packed.put (codes "processenv") (packed.text [])
        (packed.put (codes "processbin") (packed.text program) packed.null)))

abbrev description : Bytes
description = packed.put (codes "PROGRAM") program (
    packed.put (codes "ENV") [] (
      packed.put (codes "ARGS") []
        (packed.put (codes "NAME") (packed.text (codes "ls")) packed.null)))

abbrev pub configuration : Bytes
configuration = packed.append description packed.null

abbrev pub configured : Job Bytes
configured = record first { conf = configuration }

abbrev answered : Bytes → Bytes → Bytes → Message Bytes
answered cmd rep c = asking cmd (packed.put (codes "answer") rep c)

abbrev registerjob_step : Transition Bytes (Job Bytes)
registerjob_step = record {
  initial = codes "REGISTERING";
  final = codes "REGISTERING";
  callback = registerjob packed world;
}

asks_registerjob :
    command packed (asking (codes "REGISTERJOB") job_content) ≡ ok (codes "REGISTERJOB")
unfolding command lookup bytes_eq cut
asks_registerjob = refl

registerjob_chosen :
    transition (codes "REGISTERJOB") (codes "REGISTERING") registering ≡ some registerjob_step
unfolding machine add_transition starting_in Map.find Map.insert Map.update bytes_lt bytes_eq
    zdaq.Fsm.make zdaq.Fsm.add_state
registerjob_chosen = refl

registerjob_called :
    registerjob packed world (asking (codes "REGISTERJOB") job_content) first
    ≡ ok (answered (codes "REGISTERJOB") configuration job_content, configured)
unfolding registerjob make_job content command set_answer lookup bytes_eq cut unpack is_named_in
    set_value read
registerjob_called = refl

abbrev initialised : Fsm Bytes (Job Bytes)
initialised = record (machine packed world) { state = codes "INITIALISED" }

abbrev endregistration_step : Transition Bytes (Job Bytes)
endregistration_step = record {
  initial = codes "REGISTERING";
  final = codes "INITIALISED";
  callback = endregistration packed world;
}

asks_endregistration :
    command packed (asking (codes "ENDREGISTRATION") []) ≡ ok (codes "ENDREGISTRATION")
unfolding command lookup bytes_eq cut
asks_endregistration = refl

endregistration_chosen :
    transition (codes "ENDREGISTRATION") (codes "REGISTERING") registering
    ≡ some endregistration_step
unfolding machine add_transition starting_in Map.find Map.insert Map.update bytes_lt bytes_eq
    zdaq.Fsm.make zdaq.Fsm.add_state
endregistration_chosen = refl

endregistration_called :
    endregistration packed world (asking (codes "ENDREGISTRATION") []) configured
    ≡ ok (answered (codes "ENDREGISTRATION") configuration [], configured)
unfolding endregistration make_job content command set_answer lookup bytes_eq cut set_value read
endregistration_called = refl

abbrev start_step : Transition Bytes (Job Bytes)
start_step = record {
  initial = codes "INITIALISED";
  final = codes "RUNNING";
  callback = start packed world;
}

asks_start : command packed (asking (codes "START") []) ≡ ok (codes "START")
unfolding command lookup bytes_eq cut
asks_start = refl

start_chosen : transition (codes "START") (codes "INITIALISED") initialised ≡ some start_step
unfolding machine add_transition starting_in Map.find Map.insert Map.update bytes_lt bytes_eq
    zdaq.Fsm.make zdaq.Fsm.add_state
start_chosen = refl

abbrev pub started : Job Bytes
started = record configured {
  processes =
      (100, record { info = description; pid = 100; status = running; string = description }) ∷ [];
  forks = 1;
}

abbrev listing : Bytes
listing =
    packed.append
      (packed.put (codes "STATUS") (packed.text (codes "R")) (
        packed.put (codes "NAME") (packed.text (codes "ls")) (
          packed.put (codes "PID") (packed.number 100)
            (packed.put (codes "HOST") (packed.text (codes "host")) packed.null))))
      packed.null

start_called :
    start packed world (asking (codes "START") []) configured
    ≡ ok (answered (codes "START") listing [], started)
unfolding start launch_all launch start_process make_process make_job texts json_status status_from
    process_status port_from content command set_answer lookup bytes_eq cut unpack set_value read
    Map.insert
start_called = refl

-- A request with the number of the process.
abbrev kills_100 : Request
kills_100 k = if bytes_eq k (codes "pid") then some (codes "100") else none

abbrev killed_job : Job Bytes
killed_job = record started { processes = []; signals = (100, 9) ∷ [] }

abbrev killed_reply : Bytes
killed_reply =
    packed.put (codes "STATUS") (packed.text (codes "DONE"))
      (packed.put (codes "JOBS") packed.null packed.null)

kill_answered : killjob packed world kills_100 started ≡ ok (killed_reply, killed_job)
unfolding killjob kill_process make_job json_status status_from bytes_eq scan_long skip_space
    scan_digits Map.find Map.erase
kill_answered = refl

content_registerjob : content packed (asking (codes "REGISTERJOB") job_content) ≡ ok job_content
unfolding content lookup bytes_eq cut
content_registerjob = refl

registerjob_answer :
    (command packed (answered (codes "REGISTERJOB") configuration job_content)
      ≡ ok (codes "REGISTERJOB"))
    × (content packed (answered (codes "REGISTERJOB") configuration job_content)
        ≡ ok (packed.put (codes "answer") configuration job_content))
unfolding command content lookup bytes_eq cut
registerjob_answer = (refl, refl)

endregistration_answer :
    (command packed (answered (codes "ENDREGISTRATION") configuration [])
      ≡ ok (codes "ENDREGISTRATION"))
    × (content packed (answered (codes "ENDREGISTRATION") configuration [])
        ≡ ok (packed.put (codes "answer") configuration []))
unfolding command content lookup bytes_eq cut
endregistration_answer = (refl, refl)

start_answer :
    (command packed (answered (codes "START") listing []) ≡ ok (codes "START"))
    × (content packed (answered (codes "START") listing [])
        ≡ ok (packed.put (codes "answer") listing []))
unfolding command content lookup bytes_eq cut
start_answer = (refl, refl)

reached :
    Reach packed world
      (codes "host")
      []
      false
      (record (machine packed world) { state = codes "RUNNING" })
      killed_job
unfolding zdaq.Job.Reach.fails
reached =
    let registration_done =
      process_command_taken packed (asking (codes "REGISTRATION") []) (machine packed world) first
        registration_step asks_registration registration_chosen (asking (codes "REGISTRATION") [])
        first registration_called asks_registration no_content in
    let registerjob_done =
      process_command_taken packed (asking (codes "REGISTERJOB") job_content) registering first
        registerjob_step asks_registerjob registerjob_chosen
        (answered (codes "REGISTERJOB") configuration job_content) configured registerjob_called
        registerjob_answer.0 registerjob_answer.1 in
    let endregistration_done =
      process_command_taken packed (asking (codes "ENDREGISTRATION") []) registering configured
        endregistration_step asks_endregistration endregistration_chosen
        (answered (codes "ENDREGISTRATION") configuration []) configured endregistration_called
        endregistration_answer.0 endregistration_answer.1 in
    let start_done =
      process_command_taken packed (asking (codes "START") []) initialised configured start_step
        asks_start start_chosen (answered (codes "START") listing []) started start_called
        start_answer.0 start_answer.1 in
    let r₁ = Reach.next Reach.here (Step.commanded _ registration_done.1) in
    let r₂ = Reach.next r₁ (Step.commanded _ registerjob_done.1) in
    let r₃ = Reach.next r₂ (Step.commanded _ endregistration_done.1) in
    let r₄ = Reach.next r₃ (Step.commanded _ start_done.1) in
    Reach.next r₄ (Step.kills kills_100 kill_answered)

Reach-IsTidy_example : IsTidy false (codes "RUNNING") killed_job
Reach-IsTidy_example = Reach-IsTidy packed world reached
