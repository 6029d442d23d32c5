-- ===== src/Examples/Machines.antt =====
-- A machine with one command, and messages for it.
use zdaq.Base.{ℕ, suc, ◌≡◌, ◌&&◌, refl, none, some, [], ◌∷◌, ok, map, if◌then◌else◌}
use zdaq.Base.Memory.{Bytes}
use zdaq.Base.Text.{codes, bytes_eq}
use zdaq.Base.Order.{bytes_ord, bytes_lt}
use zdaq.Base.Map
use zdaq.Json.Packed.{packed, lookup}
use zdaq.Fsm.{Message, Transition, Fsm, starting_in, add_transition}
use zdaq.Fsm.Messages.{command, content}
use zdaq.Fsm.Commands.{transition, allowed, is_some, name_of, allow_list, process_command}
use zdaq.Fsm.Table.{or_else, transition-add_transition}
use zdaq.Fsm.Allowed.{stands_in, elements-allow_list}
use zdaq.Fsm.Replies.{IsReply, refusal, process_command_refused, process_command_taken}

-- The callback counts its calls.
abbrev starting : Transition Bytes ℕ
starting = record {
  initial = codes "CREATED";
  final = codes "RUNNING";
  callback = λ m w. ok (m, suc w);
}

abbrev machine : Fsm Bytes ℕ
machine = record {
  states = [];
  state = codes "CREATED";
  transitions = (codes "START", starting ∷ []) ∷ [];
}

abbrev pub asking : Bytes → Message Bytes
asking cmd =
    let v =
      packed.put (codes "content") packed.null
        (packed.put (codes "command") (packed.text cmd) packed.null) in
    record { root = v; value = v }

asks_start : command packed (asking (codes "START")) ≡ ok (codes "START")
unfolding command lookup bytes_eq
asks_start = refl

asks_stop : command packed (asking (codes "STOP")) ≡ ok (codes "STOP")
unfolding command lookup bytes_eq
asks_stop = refl

start_content : content packed (asking (codes "START")) ≡ ok []
unfolding content lookup bytes_eq
start_content = refl

stop_content : content packed (asking (codes "STOP")) ≡ ok []
unfolding content lookup bytes_eq
stop_content = refl

no_stop : transition (codes "STOP") (codes "CREATED") machine ≡ none
unfolding Map.find bytes_lt
no_stop = refl

start_chosen : transition (codes "START") (codes "CREATED") machine ≡ some starting
unfolding Map.find starting_in bytes_eq bytes_lt
start_chosen = refl

process_command_refused_example :
    (m' : Message Bytes) × (process_command packed (asking (codes "STOP")) machine 0
      ≡ ok (codes "ERROR", m', machine, 0))
    × IsReply packed m'
        (codes "STOP")
        (packed.text (codes "FAILED"))
        (packed.put (codes "answer") (packed.text (refusal packed (codes "STOP") machine)) [])
process_command_refused_example =
    process_command_refused packed (asking (codes "STOP")) machine 0 asks_stop stop_content refl
      no_stop

process_command_taken_example :
    (m' : Message Bytes) × (process_command packed (asking (codes "START")) machine 0
      ≡ ok (codes "RUNNING", m', record machine { state = codes "RUNNING" }, 1))
    × IsReply packed m' (codes "START") (packed.text (codes "DONE")) []
process_command_taken_example =
    process_command_taken packed (asking (codes "START")) machine 0 starting asks_start start_chosen
      (asking (codes "START")) 1 refl asks_start start_content

transition-add_transition_example :
    transition (codes "START") (codes "CREATED") (add_transition (codes "START") starting machine)
    ≡ or_else (transition (codes "START") (codes "CREATED") machine) (
        if bytes_eq (codes "START") (codes "START") && bytes_eq (codes "CREATED") (codes "CREATED")
        then some starting
        else none)
transition-add_transition_example =
    transition-add_transition (codes "START") (codes "CREATED") (codes "START") starting machine

elements-allow_list_example :
    (packed.elements (allow_list packed machine) ≡ map (name_of packed) (allowed machine))
    × (stands_in (codes "START") (allowed machine)
        ≡ is_some (transition (codes "START") (codes "CREATED") machine))
elements-allow_list_example = elements-allow_list packed machine (codes "START") tt
