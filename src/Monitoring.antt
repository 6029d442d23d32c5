-- ===== src/Monitoring.antt =====
-- monitoring/daemon/src/lsc.cxx and monitoring/src/zmonSupervisor.cxx: two processes that read hardware
-- in rounds, publish what they read and save it. What they share stands here: the plugins, which read
-- the hardware (include/zmonPlugin.hh), the stores, which save it (include/zmonStore.hh), and a round.
pub mod Lsc
pub mod Supervisor
pub mod Machines
pub mod LscRuns
pub mod Kept
pub mod SupervisorRuns
pub mod Rounds
pub mod Defaults
use zdaq.Base.{
  ℕ, suc, ◌%◌, ◌^◌, Bool, true, false, if◌then◌else◌, List, [], ◌∷◌, ◌++◌, Result, ok, err, ◌>>=◌,
  indeterminate,
}
use zdaq.Base.Memory.{Bytes}
use zdaq.Base.Text.{codes, decimal}
use zdaq.Json.{Json, has, assign}
use zdaq.Configs.{member_text}
use zdaq.Fsm.{Message}
use zdaq.Monitor
use zdaq.Monitor.{Publisher}

-- A plugin; `registerCommands` is kept as a list of those that it was called for.
pub record Hardware (J P : Type 0) : Type 0 where
  pub opened : Message J → P → P
  pub status : P → J × P
  pub hardware : P → Bytes
  pub load_parameters : J → P → P

pub record Storage (J S : Type 0) : Type 0 where
  pub connect : S → S
  pub store : Bytes → Bytes → ℕ → J → S → S
  pub load_parameters : J → S → S

-- What is outside of the program while a round is made. `clock i j` is the clock while plugin `i` is
-- read, first for its message and then for the stores. The two texts of a message are local variables
-- that ZeroMQ is lent, not given: `lent i` is what stands in their memory once its thread sends the
-- message of plugin `i`, which may be after they are destroyed.
pub record Turns : Type 0 where
  pub clock : ℕ → ℕ → ℕ
  pub lent : ℕ → Bytes × Bytes → Bytes × Bytes

-- The turns from the second plugin on.
abbrev pub later : Turns → Turns
later turns = record { clock = λ i. turns.clock (suc i); lent = λ i. turns.lent (suc i) }

-- `_publisher`: not initialised, NULL, or a socket that is bound to an address.
pub data Socket : Type 0 where
  unset null_socket : Socket
  bound : Bytes → Socket

abbrev pub each : {V : Type 0} → (V → V) → List (Bytes × V) → List (Bytes × V)
each f [] = []
each f ((k, v) ∷ m) = (k, f v) ∷ each f m

abbrev pub names_of : {V : Type 0} → List (Bytes × V) → List Bytes
names_of [] = []
names_of ((k, v) ∷ m) = k ∷ names_of m

abbrev pub has_any : {V : Type 0} → List V → Bool
has_any [] = false
has_any (v ∷ vs) = true

module _ {J : Type 0} (json : Json J) where
  -- `bind` is taken to succeed.
  abbrev pub address_of : ℕ → Socket
  address_of port = bound (codes "tcp://*:" ++ decimal port)

  -- A location is there, "/HOME" where none was given.
  abbrev pub with_location : J → Result J
  with_location params = do
    given ← has json (codes "location") params
    if given then ok params else assign json (codes "location") (json.text (codes "/HOME")) params

  -- `response[x->hardware()] = x->status()`, plugin after plugin.
  unfoldable pub statuses :
      {P : Type 0} → Hardware J P → List (Bytes × P) → J → J × List (Bytes × P)
  statuses h [] response = (response, [])
  statuses h ((k, p) ∷ ps) response =
      let (status, p') = h.status p in
      let (response', ps') = statuses h ps (json.put (h.hardware p) status response) in
      (response', (k, p') ∷ ps')

  unfoldable pub status_answer :
      {P : Type 0} → Hardware J P → List (Bytes × P) → J × List (Bytes × P)
  status_answer h [] =
      (json.put (codes "error") (json.text (codes "No plugins load yet")) json.null, [])
  status_answer h (p ∷ ps) = statuses h (p ∷ ps) json.null

  module _ {P S : Type 0} (h : Hardware J P) (t : Storage J S) where
    -- One plugin saved in all stores: its status is read again for each. `clock i` is what `time(0)`
    -- gives at store `i`.
    unfoldable pub save_all : J → (ℕ → ℕ) → P → List (Bytes × S) → Result (P × List (Bytes × S))
    save_all params clock p [] = ok (p, [])
    save_all params clock p ((k, s) ∷ ss) = do
      location ← member_text json (codes "location") params
      let (status, p') = h.status p
      let s' = t.store location (h.hardware p) (clock 0 % 2 ^ 32) status s
      (p'', ss') ← save_all params (λ i. clock (suc i)) p' ss
      ok (p'', (k, s') ∷ ss')

    -- The texts are made as those of `zPublisher::post`; what is sent is what is found in their place.
    unfoldable pub publish : Socket → J → Turns → P → Result (P × List (Bytes × Bytes))
    publish unset params turns p = err indeterminate
    publish null_socket params turns p = ok (p, [])
    publish (bound address) params turns p = do
      location ← member_text json (codes "location") params
      let (status, p') = h.status p
      let publisher : Publisher = record { hardware = h.hardware p; location = location }
      ok (p', turns.lent 0 (Monitor.post json (turns.clock 0 0) status publisher) ∷ [])

    -- One round of `monitor`: what was published, in its order.
    unfoldable pub round :
        Socket
        → J
        → Turns
        → List (Bytes × P)
        → List (Bytes × S)
        → Result (List (Bytes × P) × List (Bytes × S) × List (Bytes × Bytes))
    round socket params turns [] ss = ok ([], ss, [])
    round socket params turns ((k, p) ∷ ps) ss = do
      (p', out) ← publish socket params turns p
      (p'', ss') ← save_all params (λ j. turns.clock 0 (suc j)) p' ss
      (ps', ss'', rest) ← round socket params (later turns) ps ss'
      ok ((k, p'') ∷ ps', ss'', out ++ rest)
