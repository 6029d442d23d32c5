-- ===== src/Fsm/Commands.antt =====
-- src/fsm.cc, `processCommand` and the lists.
use zdaq.Base.{Bool, true, false, Option, none, some, List, [], ◌∷◌, ◌++◌, keep, Result, ok, ◌>>=◌}
use zdaq.Base.Memory.{Bytes}
use zdaq.Base.Order.{bytes_ord}
use zdaq.Base.Text.{codes}
use zdaq.Base.Map
use zdaq.Base.Map.{keys}
use zdaq.Json.{Json, assign}
use zdaq.Fsm.{Message, Transition, Fsm, starting_in}
use zdaq.Fsm.Messages.{command, content, set_value}

abbrev pub is_some {ℓ} : {A : Type ℓ} → Option A → Bool
is_some none = false
is_some (some a) = true

module _ {J W : Type 0} where
  -- The transition of a command out of a state.
  abbrev pub transition : Bytes → Bytes → Fsm J W → Option (Transition J W)
  transition cmd s f = elim (Map.find cmd f.transitions) [
    | none ↦ none
    | some ts ↦ starting_in s ts
  ]

  -- The names of the commands that have one out of the current state.
  unfoldable pub allowed : Fsm J W → List Bytes
  allowed f = keys (keep (λ e. is_some (starting_in f.state e.1)) f.transitions)

abbrev pub unknown : Bytes → Bytes
unknown cmd = cmd ++ codes " not found in transitions list "

abbrev pub misplaced : Bytes → Bytes → Bytes
misplaced s cmd =
    codes "Current State=" ++ (s ++ (codes " is not an initial state of the command " ++ cmd))

-- The text returned, the message as it is left, and what has become of the machine and the object.
abbrev pub Outcome : Type 0 → Type 0 → Type 0
Outcome J W = Bytes × Message J × Fsm J W × W

module _ {J : Type 0} (json : Json J) where
  -- The reply that a command has failed, with the reason as the answer.
  unfoldable pub failed : Bytes → Message J → Result (Message J)
  failed reason m = do
    cmd ← command json m
    v₁ ← assign json (codes "command") (json.text cmd) json.null
    v₂ ← assign json (codes "status") (json.text (codes "FAILED")) v₁
    c ← content json m
    c' ← assign json (codes "answer") (json.text reason) c
    v₃ ← assign json (codes "content") c' v₂
    set_value json v₃

  -- The reply that a command is done; the callback has changed the content.
  unfoldable pub done : Message J → Result (Message J)
  done m = do
    cmd ← command json m
    v₁ ← assign json (codes "command") (json.text cmd) json.null
    v₂ ← assign json (codes "status") (json.text (codes "DONE")) v₁
    c ← content json m
    v₃ ← assign json (codes "content") c v₂
    set_value json v₃

  module _ {W : Type 0} where
    abbrev pub run_transition : Transition J W → Message J → Fsm J W → W → Result (Outcome J W)
    run_transition t m f w = do
      (m₁, w₁) ← t.callback m w
      m₂ ← done m₁
      ok (t.final, m₂, record f { state = t.final }, w₁)

    abbrev pub refuse : Bytes → Message J → Fsm J W → W → Result (Outcome J W)
    refuse reason m f w = do m₁ ← failed reason m; ok (codes "ERROR", m₁, f, w)

    abbrev pub dispatch : Bytes → Message J → Fsm J W → W → Result (Outcome J W)
    dispatch cmd m f w = elim (Map.find cmd f.transitions) [
      | none ↦ refuse (unknown cmd) m f w
      | some ts ↦ elim (starting_in f.state ts) [
        | some t ↦ run_transition t m f w
        | none ↦ refuse (misplaced f.state cmd) m f w
      ]
    ]

    unfoldable pub process_command : Message J → Fsm J W → W → Result (Outcome J W)
    process_command m f w = do cmd ← command json m; dispatch cmd m f w

  unfoldable pub name_of : Bytes → J
  name_of name = json.put (codes "name") (json.text name) json.null

  abbrev pub listed : J → List Bytes → J
  listed array [] = array
  listed array (name ∷ names) = listed (json.append (name_of name) array) names

  unfoldable pub transitions_list : {W : Type 0} → Fsm J W → J
  transitions_list f = listed json.null (keys f.transitions)

  unfoldable pub allow_list : {W : Type 0} → Fsm J W → J
  unfolding allowed
  allow_list f = listed json.null (allowed f)
