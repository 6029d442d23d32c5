-- ===== src/Examples/Webs.antt =====
-- A server whose machine has one transition, which counts.
use zdaq.Base.{ℕ, suc, Bool, none, some, ◌≡◌, refl, ok, if◌then◌else◌}
use zdaq.Base.Memory.{Bytes, cut}
use zdaq.Base.Text.{codes, bytes_eq}
use zdaq.Base.Order.{bytes_lt}
use zdaq.Base.Map
use zdaq.Json.{get}
use zdaq.Json.Packed.{packed, lookup}
use zdaq.Fsm
use zdaq.Fsm.{Transition, Fsm, add_transition, add_state, starting_in}
use zdaq.Fsm.Messages.{command, content}
use zdaq.Fsm.Commands.{transition}
use zdaq.Web
use zdaq.Web.{Request, Web, fsm_process}
use zdaq.Web.Replies.{requested, fsm_process_done}

abbrev counting : Transition Bytes ℕ
counting = record {
  initial = codes "VOID";
  final = codes "CREATED";
  callback = λ m n. ok (m, suc n);
}

abbrev counter : Web Bytes ℕ
counter =
    let base : Web Bytes ℕ = Web.make (codes "counter") in
    record base {
      fsm = record (add_transition (codes "COUNT") counting base.fsm) { state = codes "VOID" };
    }

abbrev count_request : Request
count_request k =
    if bytes_eq k (codes "command")
    then some (codes "COUNT")
    else if bytes_eq k (codes "content")
    then some (codes "{}")
    else none

chosen : transition (codes "COUNT") counter.fsm.state counter.fsm ≡ some counting
unfolding Web.make add_transition starting_in Map.find Map.insert bytes_lt bytes_eq Fsm.make
chosen = refl

named :
    command packed (requested packed counter 0 count_request (codes "COUNT") (codes "{}"))
    ≡ ok (codes "COUNT")
unfolding command lookup bytes_eq cut
named = refl

held :
    content packed (requested packed counter 0 count_request (codes "COUNT") (codes "{}"))
    ≡ ok (codes "{}")
unfolding content lookup bytes_eq cut
held = refl

asks :
    (Web.param count_request (codes "command") (codes "NOTSET") ≡ codes "COUNT")
    × (Web.param count_request (codes "content") (codes "NOTSET") ≡ codes "{}")
    × (Web.is_unset (codes "COUNT") ≡ Bool.false)
    × (Web.is_unset (codes "{}") ≡ Bool.false)
unfolding bytes_eq
asks = (refl, refl, refl, refl)

fsm_process_done_example :
    (response : Bytes) × (fsm_process packed count_request counter 0
      ≡ ok (response, record counter { fsm = record counter.fsm { state = codes "CREATED" } }, 1))
    × (get packed (codes "status") response ≡ ok (packed.text (codes "DONE")))
    × (get packed (codes "content") response ≡ ok (codes "{}"))
fsm_process_done_example =
    fsm_process_done packed counter 0 count_request (codes "COUNT") (codes "{}") counting
      (requested packed counter 0 count_request (codes "COUNT") (codes "{}")) 1 asks chosen refl
      named held
