-- ===== src/Web/Replies.antt =====
-- src/fsmweb.cc: what the requests of transitions answer.
use zdaq.Base.{arith, ◌≡◌, refl, ◌∙◌, true, false, some, ok}
use zdaq.Base.Memory.{Bytes}
use zdaq.Base.Order.{bytes_ord}
use zdaq.Base.Text.{codes, bytes_eq, bytes_eq→ne}
use zdaq.Json.{Json, get, parsed}
use zdaq.Fsm.{Message, Transition, Fsm}
use zdaq.Fsm.Messages.{command, content, status, set_value, set_value_ok, read}
use zdaq.Fsm.Commands.{transition, failed, done, process_command}
use zdaq.Fsm.Replies.{process_command_taken}
use zdaq.Web.{Request, Web, param, is_unset, request_value, fsm_process}

module _ {J : Type 0} (json : Json J) where
  -- The value of a message is what its text was parsed to.
  abbrev IsRead : Message J → Type 0
  IsRead m = m.value ≡ parsed json m.root

  set_value-IsRead : (v : J) {m : Message J} → set_value json v ≡ ok m → IsRead m
  unfolding set_value read
  set_value-IsRead v h = cc

  done-IsRead : (m : Message J) {m' : Message J} → done json m ≡ ok m' → IsRead m'
  unfolding done set_value read
  done-IsRead m h = ground arith

  failed-IsRead :
      (reason : Bytes) (m : Message J) {m' : Message J} → failed json reason m ≡ ok m' → IsRead m'
  unfolding failed set_value read
  failed-IsRead reason m h = ground arith

  pub process_command-IsRead :
      {W : Type 0} (m : Message J) (f : Fsm J W) (w : W) {r : Bytes} {m' : Message J} {f' : Fsm J W}
      {w' : W}
      → process_command json m f w ≡ ok (r, m', f', w')
      → IsRead m'
  unfolding process_command
  process_command-IsRead m f w h = grind (arith, done-IsRead, failed-IsRead)

  module _ {W : Type 0} (web : Web J W) (w : W) (request : Request) (cmd text : Bytes) where
    -- The message that the request becomes.
    abbrev pub requested : Message J
    requested = let v = request_value json cmd text in record { root = json.write v; value = v }

    abbrev Asks : Type 0
    Asks =
        (param request (codes "command") (codes "NOTSET") ≡ cmd)
        × (param request (codes "content") (codes "NOTSET") ≡ text)
        × (is_unset cmd ≡ false)
        × (is_unset text ≡ false)

    requested-command : command json requested ≡ ok cmd
    unfolding command bytes_eq
    requested-command =
        let o = json.put (codes "command") (json.text cmd) json.null in
        let obj : json.is_object o ≡ true =
          json.is_object-put (codes "command") (json.text cmd) json.null json.is_object-null in
        let whole : json.is_object (request_value json cmd text) ≡ true =
          json.is_object-put (codes "content") (parsed json text) o obj in
        let held : json.member (codes "command") (request_value json cmd text) ≡ json.text cmd =
          json.member-put_ne (codes "content") (parsed json text) (codes "command") o obj
            (bytes_eq→ne _ _ refl)
          ∙ json.member-put_self (codes "command") (json.text cmd) json.null json.is_object-null in
        rw (whole, held, json.as_string-text cmd) refl

    fsm_process_lem :
        {r : Bytes} {m' : Message J} {f' : Fsm J W} {w' : W}
        → Asks
        → process_command json requested web.fsm w ≡ ok (r, m', f', w')
        → fsm_process json request web w ≡ ok (m'.value, record web { fsm = f' }, w')
    unfolding fsm_process
    fsm_process_lem {r} {m'} {f'} {w'} asks h =
        let seen : m'.value ≡ parsed json m'.root = process_command-IsRead requested web.fsm w h in
        rw
          (
            asks.0,
            asks.1,
            asks.2,
            asks.3,
            set_value_ok json (request_value json cmd text),
            h,
            ← seen,
          )
          refl

    -- A request for a transition that the machine can take, with a command and a content that are both
    -- given: the machine is in the final state, the object is as the callback left it, and the response
    -- has the status DONE and the content that the callback left.
    pub fsm_process_done :
        (t : Transition J W) (m₁ : Message J) (w₁ : W) {cmd₁ : Bytes} {c : J}
        → Asks
        → transition cmd web.fsm.state web.fsm ≡ some t
        → t.callback requested w ≡ ok (m₁, w₁)
        → command json m₁ ≡ ok cmd₁
        → content json m₁ ≡ ok c
        → (response : J) × (fsm_process json request web w
            ≡ ok (response, record web { fsm = record web.fsm { state = t.final } }, w₁))
          × (get json (codes "status") response ≡ ok (json.text (codes "DONE")))
          × (get json (codes "content") response ≡ ok c)
    unfolding status content
    fsm_process_done t m₁ w₁ {cmd₁} {c} asks chosen called named held =
        let (m', done, reply) =
          process_command_taken json requested web.fsm w t requested-command chosen m₁ w₁ called
            named held in
        (m'.value, fsm_process_lem asks done, reply.stated, reply.contained)
