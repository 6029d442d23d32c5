-- ===== src/Fsm/Replies.antt =====
-- What `processCommand` replies, and what it does to the machine: a transition that is taken, and a
-- command that is refused.
use zdaq.Base.{◌≡◌, refl, ◌∙◌, ◌++◌, true, none, some, ok, Option-cases, inl, inr}
use zdaq.Base.Memory.{Bytes}
use zdaq.Base.Order.{bytes_ord}
use zdaq.Base.Text.{codes, bytes_eq, bytes_eq→ne}
use zdaq.Base.Map.{find}
use zdaq.Json.{Json}
use zdaq.Fsm.{Message, Transition, Fsm, starting_in}
use zdaq.Fsm.Messages.{command, content, status, set_value, set_value_ok, set_answer}
use zdaq.Fsm.Commands.{transition, failed, done, dispatch, process_command}

module _ {J : Type 0} (json : Json J) where
  -- The object of a reply.
  abbrev pub replied : Bytes → J → J → J
  replied cmd st c =
      json.put (codes "content") c
        (json.put (codes "status") st (json.put (codes "command") (json.text cmd) json.null))

  pub record IsReply (m : Message J) (cmd : Bytes) (st c : J) : Type 0 where
    pub commanded : command json m ≡ ok cmd
    pub stated : status json m ≡ ok st
    pub contained : content json m ≡ ok c

  replied_message :
      (cmd : Bytes) (st c : J)
      → (m : Message J) × (set_value json (replied cmd st c) ≡ ok m) × IsReply m cmd st c
  unfolding command content status bytes_eq
  replied_message cmd st c =
      let o₁ = json.put (codes "command") (json.text cmd) json.null in
      let obj₁ =
        json.is_object-put (codes "command") (json.text cmd) json.null json.is_object-null in
      let o₂ = json.put (codes "status") st o₁ in
      let obj₂ = json.is_object-put (codes "status") st o₁ obj₁ in
      let v = replied cmd st c in
      let obj₃ = json.is_object-put (codes "content") c o₂ obj₂ in
      let read_command : json.member (codes "command") v ≡ json.text cmd =
        json.member-put_ne (codes "content") c (codes "command") o₂ obj₂ (bytes_eq→ne _ _ refl)
        ∙ json.member-put_ne (codes "status") st (codes "command") o₁ obj₁ (bytes_eq→ne _ _ refl)
        ∙ json.member-put_self (codes "command") (json.text cmd) json.null json.is_object-null in
      let read_status : json.member (codes "status") v ≡ st =
        json.member-put_ne (codes "content") c (codes "status") o₂ obj₂ (bytes_eq→ne _ _ refl)
        ∙ json.member-put_self (codes "status") st o₁ obj₁ in
      (
        record { root = json.write v; value = v },
        set_value_ok json v,
        record {
          commanded = rw (obj₃, read_command, json.as_string-text cmd) refl;
          stated = rw (obj₃, read_status) refl;
          contained = rw (obj₃, json.member-put_self (codes "content") c o₂ obj₂) refl;
        },
      )

  object₁ :
      (cmd : Bytes) → json.is_object (json.put (codes "command") (json.text cmd) json.null) ≡ true
  object₁ cmd = json.is_object-put (codes "command") (json.text cmd) json.null json.is_object-null

  object₂ :
      (cmd : Bytes) (st : J)
      → json.is_object
          (json.put (codes "status") st (json.put (codes "command") (json.text cmd) json.null))
        ≡ true
  object₂ cmd st = json.is_object-put (codes "status") st _ (object₁ cmd)

  failed-IsReply :
      (reason : Bytes) (m : Message J) {cmd : Bytes} {c : J}
      → command json m ≡ ok cmd
      → content json m ≡ ok c
      → json.is_object c ≡ true
      → (m' : Message J) × (failed json reason m ≡ ok m')
        × IsReply m' cmd
            (json.text (codes "FAILED"))
            (json.put (codes "answer") (json.text reason) c)
  unfolding failed
  failed-IsReply reason m {cmd} {c} named held object =
      let st = json.text (codes "FAILED") in
      let (m', made, reply) =
        replied_message cmd st (json.put (codes "answer") (json.text reason) c) in
      (m', rw (named, json.is_object-null, object₁ cmd, held, object, object₂ cmd st) made, reply)

  done-IsReply :
      (m : Message J) {cmd : Bytes} {c : J}
      → command json m ≡ ok cmd
      → content json m ≡ ok c
      → (m' : Message J) × (done json m ≡ ok m') × IsReply m' cmd (json.text (codes "DONE")) c
  unfolding done
  done-IsReply m {cmd} {c} named held =
      let st = json.text (codes "DONE") in
      let (m', made, reply) = replied_message cmd st c in
      (m', rw (named, json.is_object-null, object₁ cmd, held, object₂ cmd st) made, reply)

  module _ {W : Type 0} where
    -- Why a command is refused: it is not in the table, or it is but not from the current state.
    unfoldable pub refusal : Bytes → Fsm J W → Bytes
    refusal cmd f = elim (find cmd f.transitions) [
      | none ↦ cmd ++ codes " not found in transitions list "
      | some ts ↦
          codes "Current State="
          ++ (f.state ++ (codes " is not an initial state of the command " ++ cmd))
    ]

    -- A command with no transition out of the current state changes nothing. The message is left as a
    -- reply with the status FAILED and, as "answer" in its content, the text of the reason: that the
    -- command is not in the list of transitions, or that the current state, which it names, is not an
    -- initial state of it. The text returned is ERROR.
    pub process_command_refused :
        (m : Message J) (f : Fsm J W) (w : W) {cmd : Bytes} {c : J}
        → command json m ≡ ok cmd
        → content json m ≡ ok c
        → json.is_object c ≡ true
        → transition cmd f.state f ≡ none
        → (m' : Message J) × (process_command json m f w ≡ ok (codes "ERROR", m', f, w))
          × IsReply m' cmd
              (json.text (codes "FAILED"))
              (json.put (codes "answer") (json.text (refusal cmd f)) c)
    unfolding process_command refusal
    process_command_refused m f w {cmd} {c} named held object no_transition =
        elim (Option-cases (find cmd f.transitions)) [
          | inl missing ↦
              let reason = cmd ++ codes " not found in transitions list " in
              let (m', made, reply) = failed-IsReply reason m named held object in
              (m', rw (named, dispatch, missing, made) refl, rw (missing, refusal) reply)
          | inr (ts, found) ↦
              let reason =
                codes "Current State="
                ++ (f.state ++ (codes " is not an initial state of the command " ++ cmd)) in
              let (m', made, reply) = failed-IsReply reason m named held object in
              let none_starts : starting_in f.state ts ≡ none =
                rw (found, transition) at no_transition in
              (m', rw (named, dispatch, found, none_starts, made) refl, rw (found, refusal) reply)
        ]

    -- A transition is taken: the machine is in its final state, the object is as the callback left it,
    -- and the message is a reply with the status DONE and the content that the callback left.
    pub process_command_taken :
        (m : Message J) (f : Fsm J W) (w : W) (t : Transition J W) {cmd : Bytes}
        → command json m ≡ ok cmd
        → transition cmd f.state f ≡ some t
        → (m₁ : Message J) (w₁ : W) {cmd₁ : Bytes} {c : J} → t.callback m w ≡ ok (m₁, w₁)
        → command json m₁ ≡ ok cmd₁
        → content json m₁ ≡ ok c
        → (m' : Message J) × (process_command json m f w
            ≡ ok (t.final, m', record f { state = t.final }, w₁))
          × IsReply m' cmd₁ (json.text (codes "DONE")) c
    unfolding process_command
    process_command_taken m f w t {cmd} named chosen m₁ w₁ {cmd₁} {c} called named₁ held =
        let (m', made, reply) = done-IsReply m₁ named₁ held in
        elim (Option-cases (find cmd f.transitions)) [
          | inl missing ↦ absurd (cc (rw (missing, transition) at chosen))
          | inr (ts, found) ↦
              let starts : starting_in f.state ts ≡ some t = rw (found, transition) at chosen in
              (m', rw (named, dispatch, found, starts, called, made) refl, reply)
        ]

  -- The answer of a handler goes into the content of its message, which keeps its command.
  pub set_answer_lem :
      (rep : J) (m : Message J) {cmd : Bytes} {c : J}
      → command json m ≡ ok cmd
      → content json m ≡ ok c
      → json.is_object c ≡ true
      → (m' : Message J) × (set_answer json rep m ≡ ok m')
        × (command json m' ≡ ok cmd)
        × (content json m' ≡ ok (json.put (codes "answer") rep c))
  unfolding set_answer command content bytes_eq
  set_answer_lem rep m {cmd} {c} named held object =
      let o = json.put (codes "command") (json.text cmd) json.null in
      let v = json.put (codes "content") (json.put (codes "answer") rep c) o in
      let is_obj =
        json.is_object-put (codes "content") (json.put (codes "answer") rep c) o (object₁ cmd) in
      let read_command : json.member (codes "command") v ≡ json.text cmd =
        json.member-put_ne (codes "content") _ (codes "command") o (object₁ cmd)
          (bytes_eq→ne _ _ refl)
        ∙ json.member-put_self (codes "command") (json.text cmd) json.null json.is_object-null in
      (
        record { root = json.write v; value = v },
        rw (named, json.is_object-null, held, object, object₁ cmd) (set_value_ok json v),
        rw (is_obj, read_command, json.as_string-text cmd) refl,
        rw
            (
              is_obj,
              json.member-put_self (codes "content") (json.put (codes "answer") rep c) o
                  (object₁ cmd),
            )
            refl,
      )
