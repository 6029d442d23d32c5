-- ===== src/Examples/Monitorings.antt =====
-- A daemon with one plugin, a meter that counts how often it is read, and one store.
use zdaq.Base.{
  Result, ◌≡◌, ℕ, suc, refl, Option, some, [], ◌∷◌, ok, err, arith, true, indeterminate,
}
use zdaq.Base.Memory.{Bytes, cut}
use zdaq.Base.Order.{bytes_ord, bytes_lt}
use zdaq.Base.Text.{codes, bytes_eq, decimal, digits}
use zdaq.Base.Map
use zdaq.Base.Map.{Map}
use zdaq.Json.Packed.{packed, lookup, unpack}
use zdaq.Fsm
use zdaq.Fsm.{Fsm, Message, starting_in, add_transition, add_state, set_state}
use zdaq.Fsm.Messages.{command, set_answer}
use zdaq.Fsm.Commands.{process_command, done}
use zdaq.Fsm.Runs.{Run, here, commands, moves}
use zdaq.Web
use zdaq.Job.Processes.{texts}
use zdaq.Examples.Apps.{environment}
use zdaq.Examples.Machines.{asking}
use zdaq.Monitoring.{Hardware, Storage, Turns, bound, round, publish, save_all}
use zdaq.Monitoring.Lsc
use zdaq.Monitoring.Lsc.{Lsc}
use zdaq.Monitoring.Supervisor
use zdaq.Monitoring.Supervisor.{Supervisor}
use zdaq.Monitoring.Machines.{lsc_transitions, make_lsc, make_supervisor}
use zdaq.Monitoring.LscRuns.{LscStep, publishing-running}
use zdaq.Monitoring.SupervisorRuns.{monitors, Run-running}
use zdaq.Monitoring.Defaults.{Loaded, find-parse_defaults, monitor-parse_defaults}
use zdaq.Monitoring.Rounds.{AllTold, round-AllTold}
use zdaq.Monitor.{post}

abbrev meter : Hardware Bytes ℕ
meter = record {
  opened = λ m n. n;
  status = λ n. (packed.number n, suc n);
  hardware = λ n. codes "hv";
  load_parameters = λ params n. n;
}

-- The store counts what it was given.
abbrev shelf : Storage Bytes ℕ
shelf = record {
  connect = λ n. n;
  store = λ location hardware time status n. suc n;
  load_parameters = λ params n. n;
}

abbrev library : Bytes → Option ℕ
library name = some 5

abbrev without_port : Bytes
without_port =
    packed.put (codes "location") (packed.text (codes "b1")) (
      packed.put (codes "plugins") (packed.append (packed.text (codes "p")) packed.null)
        packed.null)

abbrev conf : Bytes
conf = packed.put (codes "TCPPort") (packed.number 55) without_port

-- The memory of the texts is still theirs when they are sent.
abbrev turns : Turns
turns = record { clock = λ i j. 17; lent = λ i message. message }

made :
    round packed meter shelf (bound []) conf turns ((codes "p", 5) ∷ []) ((codes "s", 0) ∷ [])
    ≡ ok ((codes "p", 7) ∷ [], (codes "s", 1) ∷ [], (codes "hv@b1@17", packed.number 5) ∷ [])
unfolding round publish save_all lookup cut bytes_eq post decimal digits
made = refl

round-AllTold_example :
    AllTold packed meter shelf
      (codes "b1")
      turns
      ((codes "p", 5) ∷ [])
      ((codes "hv@b1@17", packed.number 5) ∷ [])
unfolding lookup cut bytes_eq
round-AllTold_example =
    round-AllTold packed meter shelf [] conf turns ((codes "p", 5) ∷ []) ((codes "s", 0) ∷ [])
      (codes "b1") refl (omega arith, (omega arith, tt)) ((omega arith, (omega arith, tt)), tt)
      (λ i j. omega arith) (λ i message. refl) made

abbrev configured : Lsc Bytes ℕ ℕ
configured = record (Lsc.make packed) {
  params = without_port;
  plugins = (codes "p", 5) ∷ [];
  commanded = codes "p" ∷ [];
}

parsed :
    Lsc.parse_defaults packed meter shelf library library without_port (asking []) (Lsc.make packed)
    ≡ ok configured
unfolding Lsc.parse_defaults Lsc.make Lsc.load_plugins Lsc.load_stores Lsc.register_names
    Lsc.register Map.insert lookup unpack cut bytes_eq bytes_lt texts
parsed = refl

find-parse_defaults_example :
    Loaded packed meter shelf library library
      (asking [])
      without_port
      (codes "p" ∷ [])
      (codes "p")
      configured.plugins
unfolding Lsc.make lookup unpack cut bytes_eq texts
find-parse_defaults_example =
    find-parse_defaults packed meter shelf library library without_port (asking []) without_port
      (codes "p" ∷ []) (codes "p") refl parsed refl

monitor-parse_defaults_example :
    Lsc.monitor packed meter shelf library library turns (record configured { running = true })
    ≡ err indeterminate
unfolding lookup cut bytes_eq Lsc.make
monitor-parse_defaults_example =
    monitor-parse_defaults packed meter shelf library library without_port (asking []) without_port
      turns refl refl parsed refl

abbrev waiting : Supervisor Bytes ℕ ℕ
waiting = Supervisor.make packed environment

rests : Supervisor.monitor packed meter shelf library library turns waiting ≡ ok (waiting, [])
unfolding Supervisor.monitor Supervisor.make
rests = refl

Run-running_example :
    waiting.running
    ≡ bytes_eq
        (make_supervisor packed meter shelf library library environment (codes "mon")).fsm.state
        (codes "RUNNING")
Run-running_example =
    Run-running packed meter shelf library library environment (codes "mon")
      (moves here (monitors turns [] rests))

abbrev Daemon : Type 0
Daemon = Lsc Bytes ℕ ℕ

abbrev first : Fsm Bytes Daemon
first = (make_lsc packed meter shelf library library conf environment (codes "lsc") 888).fsm

abbrev Answer : Type 0
Answer = Bytes × Message Bytes × Fsm Bytes Daemon × Daemon

abbrev result : Result Answer → Answer
result (ok o) = o
result (err e) = (codes "", asking [], first, Lsc.make packed)

abbrev after_configure : Answer
after_configure =
    result (process_command packed (asking (codes "CONFIGURE")) first (Lsc.make packed))

abbrev after_start : Answer
after_start =
    result (process_command packed (asking (codes "START")) after_configure.2 after_configure.3)

configures :
    process_command packed (asking (codes "CONFIGURE")) first (Lsc.make packed) ≡ ok after_configure
unfolding process_command command set_answer done make_lsc lsc_transitions Web.make Web.start
    Web.add_command Fsm.make add_state set_state add_transition starting_in Map.find Map.insert
    Map.update lookup unpack cut bytes_eq bytes_lt texts Lsc.parse_defaults Lsc.configure Lsc.start
    Lsc.make Lsc.load_plugins Lsc.load_stores Lsc.register_names Lsc.register decimal digits
configures = refl

starts :
    process_command packed (asking (codes "START")) after_configure.2 after_configure.3
    ≡ ok after_start
unfolding process_command command set_answer done make_lsc lsc_transitions Web.make Web.start
    Web.add_command Fsm.make add_state set_state add_transition starting_in Map.find Map.insert
    Map.update lookup unpack cut bytes_eq bytes_lt texts Lsc.parse_defaults Lsc.configure Lsc.start
    Lsc.make Lsc.load_plugins Lsc.load_stores Lsc.register_names Lsc.register decimal digits
starts = refl

abbrev run_so_far :
    Run packed
      (LscStep packed meter shelf library library)
      first
      (Lsc.make packed)
      after_start.2
      after_start.3
run_so_far =
    commands (asking (codes "START")) after_start.1 after_start.0
      (commands (asking (codes "CONFIGURE")) after_configure.1 after_configure.0 here configures)
      starts

publishes :
    Lsc.monitor packed meter shelf library library turns after_start.3
    ≡ ok (
      record after_start.3 { plugins = (codes "p", 6) ∷ [] },
      (codes "hv@b1@17", packed.number 5) ∷ [],
    )
unfolding process_command command set_answer done make_lsc lsc_transitions Web.make Web.start
    Web.add_command Fsm.make add_state set_state add_transition starting_in Map.find Map.insert
    Map.update lookup unpack cut bytes_eq bytes_lt texts Lsc.parse_defaults Lsc.configure Lsc.start
    Lsc.make Lsc.load_plugins Lsc.load_stores Lsc.register_names Lsc.register decimal digits
    Lsc.monitor round publish save_all post
publishes = refl

publishing-running_example : after_start.2.state ≡ codes "RUNNING"
publishing-running_example =
    publishing-running packed meter shelf library library conf environment (codes "lsc") 888 turns
      (codes "hv@b1@17", packed.number 5) [] run_so_far publishes
