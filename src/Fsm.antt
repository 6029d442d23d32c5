-- ===== src/Fsm.antt =====
-- src/fsm.cc and src/fsmmessage.cc: the state machines that every process runs. `W` is the state of
-- the object whose methods the callbacks are; a callback may change it, and the message.
pub mod Messages
pub mod Commands
pub mod Table
pub mod Allowed
pub mod Replies
pub mod Invariants
pub mod Runs
use zdaq.Base.{Bool, true, false, Option, none, some, List, [], ◌∷◌, ◌++◌, if◌then◌else◌, Result}
use zdaq.Base.Memory.{Bytes}
use zdaq.Base.Order.{bytes_ord}
use zdaq.Base.Text.{codes, bytes_eq}
use zdaq.Base.Map
use zdaq.Base.Map.{Map}

-- `_sroot`, the text, and `_jsroot`, what was read from it.
pub record Message (J : Type 0) : Type 0 where
  pub root : Bytes
  pub value : J

pub record Transition (J W : Type 0) : Type 0 where
  pub initial : Bytes
  pub final : Bytes
  pub callback : Message J → W → Result (Message J × W)

pub record Fsm (J W : Type 0) : Type 0 where
  pub states : List Bytes
  pub state : Bytes
  pub transitions : Map Bytes (List (Transition J W))

module _ {J W : Type 0} where
  unfoldable pub make : Fsm J W
  make = record { states = []; state = codes "CREATED"; transitions = [] }

  unfoldable pub add_state : Bytes → Fsm J W → Fsm J W
  add_state name f = record f { states = f.states ++ name ∷ [] }

  unfoldable pub set_state : Bytes → Fsm J W → Fsm J W
  set_state s f = record f { state = s }

  -- The first transition that starts in the state.
  unfoldable pub starting_in : Bytes → List (Transition J W) → Option (Transition J W)
  starting_in s [] = none
  starting_in s (t ∷ ts) = if bytes_eq t.initial s then some t else starting_in s ts

  -- A second transition of a command out of the same state is ignored.
  unfoldable pub add_transition : Bytes → Transition J W → Fsm J W → Fsm J W
  add_transition cmd t f = elim (Map.find cmd f.transitions) [
    | none ↦ record f { transitions = Map.insert cmd (t ∷ []) f.transitions }
    | some ts ↦ elim (starting_in t.initial ts) [
      | some there ↦ f
      | none ↦ record f { transitions = Map.update cmd (λ v. v ++ t ∷ []) f.transitions }
    ]
  ]
