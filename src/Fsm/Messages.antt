-- ===== src/Fsm/Messages.antt =====
-- src/fsmmessage.cc.
use zdaq.Base.{◌≡◌, ap, Result, ok, ◌>>=◌, or_fault, thrown}
use zdaq.Base.Memory.{Bytes}
use zdaq.Base.Text.{codes}
use zdaq.Json.{Json, get, assign, parsed, parsed-write}
use zdaq.Fsm.{Message}

module _ {J : Type 0} (json : Json J) where
  unfoldable pub read : Bytes → Message J
  read s = record { root = s; value = parsed json s }

  unfoldable pub command : Message J → Result Bytes
  command m = do v ← get json (codes "command") m.value; or_fault (json.as_string v) thrown

  unfoldable pub content : Message J → Result J
  content m = get json (codes "content") m.value

  unfoldable pub status : Message J → Result J
  status m = get json (codes "status") m.value

  -- `setValue` of what a writer wrote.
  unfoldable pub set_value : J → Result (Message J)
  unfolding read
  set_value v = ok (read (json.write v))

  pub set_value_ok : (v : J) → set_value v ≡ ok (record { root = json.write v; value = v })
  unfolding set_value read
  set_value_ok v = ap (λ u. ok (record { root = json.write v; value = u })) (parsed-write json v)

  -- The answer goes into the content.
  unfoldable pub set_answer : J → Message J → Result (Message J)
  unfolding command content set_value
  set_answer rep m = do
    cmd ← command m
    v₁ ← assign json (codes "command") (json.text cmd) json.null
    c ← content m
    c' ← assign json (codes "answer") rep c
    v₂ ← assign json (codes "content") c' v₁
    set_value v₂
