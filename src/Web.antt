-- ===== src/Web.antt =====
-- src/fsmweb.cc: the web server of a state machine. Mongoose takes a request apart and calls the
-- handler of its route; what it gives a handler is the parameters, and what it sends back is the JSON
-- that the handler leaves. `W` is the object whose methods the callbacks and the commands are.
pub mod Replies
use zdaq.Base.{
  ℕ, Bool, true, false, ◌||◌, Option, none, some, List, [], ◌∷◌, ◌++◌, if◌then◌else◌, Result, ok,
  ◌>>=◌,
}
use zdaq.Base.Memory.{Bytes}
use zdaq.Base.Order.{bytes_ord}
use zdaq.Base.Text.{codes, bytes_eq, decimal}
use zdaq.Base.Map
use zdaq.Base.Map.{Map, keys}
use zdaq.Json.{Json, parsed}
use zdaq.Fsm
use zdaq.Fsm.{Message, Fsm}
use zdaq.Fsm.Messages.{set_value}
use zdaq.Fsm.Commands.{process_command, listed, transitions_list, allow_list}

-- The parameters of a request, by their names.
abbrev pub Request : Type 0
Request = Bytes → Option Bytes

-- `request.get(k, fallback)`.
abbrev pub param : Request → Bytes → Bytes → Bytes
param request k fallback = elim (request k) [ none ↦ fallback | some v ↦ v ]

-- A command sees the state of the machine, and leaves its response and the object.
abbrev pub Command : Type 0 → Type 0 → Type 0
Command J W = Request → Bytes → W → Result (J × W)

pub record Web (J W : Type 0) : Type 0 where
  pub fsm : Fsm J W
  pub name : Bytes
  pub web_name : Bytes
  pub running : Bool
  pub commands : Map Bytes (Command J W)

module _ {J W : Type 0} where
  unfoldable pub make : Bytes → Web J W
  make name = record { fsm = Fsm.make; name = name; web_name = []; running = false; commands = [] }

  unfoldable pub add_command : Bytes → Command J W → Web J W → Web J W
  add_command s f web = record web { commands = Map.insert s f web.commands }

  -- The host is the variable NICKNAME, or else the name of the computer.
  unfoldable pub start : Option Bytes → Bytes → ℕ → Web J W → Web J W
  start nickname hostname port web =
      let shost : Bytes = elim nickname [ none ↦ hostname | some s ↦ s ] in
      record web {
        running = true;
        web_name =
            codes "http://" ++ (shost ++ (codes ":" ++ (decimal port ++ (codes "/" ++ web.name))));
      }

  unfoldable pub stop : Web J W → Web J W
  stop web = record web { running = false }

abbrev pub is_unset : Bytes → Bool
is_unset s = bytes_eq s (codes "NOTSET")

module _ {J : Type 0} (json : Json J) where
  -- `response["status"] = …`, in a response that is still empty.
  abbrev pub only_status : Bytes → J
  only_status s = json.put (codes "status") (json.text s) json.null

  -- The message that a request stands for.
  abbrev pub request_value : Bytes → Bytes → J
  request_value scommand scontent =
      json.put (codes "content") (parsed json scontent)
        (json.put (codes "command") (json.text scommand) json.null)

  module _ {W : Type 0} where
    abbrev answered : Request → Bytes → W → Command J W → Result (J × W)
    answered request state w f = do
      (rep, w') ← f request state w
      ok (
        json.put (codes "status") (json.text (codes "OK"))
            (json.put (codes "answer") rep json.null),
        w',
      )

    unfoldable pub handle_request : Request → Web J W → W → Result (J × W)
    handle_request request web w =
        let scommand = param request (codes "name") (codes "NOTSET") in
        if is_unset scommand
        then ok (only_status (codes "No command or content given"), w)
        else elim (Map.find scommand web.commands) [
          | none ↦ ok (only_status (codes "Unknown Command"), w)
          | some f ↦ answered request web.fsm.state w f
        ]

    unfoldable pub commands_list : Web J W → J
    commands_list web = listed json json.null (keys web.commands)

    abbrev pub processed : Bytes → Bytes → Web J W → W → Result (J × Web J W × W)
    processed scommand scontent web w = do
      m ← set_value json (request_value scommand scontent)
      (res, m', f', w') ← process_command json m web.fsm w
      ok (parsed json m'.root, record web { fsm = f' }, w')

    unfoldable pub fsm_process : Request → Web J W → W → Result (J × Web J W × W)
    fsm_process request web w =
        let scommand = param request (codes "command") (codes "NOTSET") in
        let scontent = param request (codes "content") (codes "NOTSET") in
        if is_unset scommand || is_unset scontent
        then ok (only_status (codes "No command or content given"), web, w)
        else processed scommand scontent web w

    unfoldable pub cmd_process : Request → Web J W → W → Result (J × W)
    unfolding handle_request
    cmd_process request web w = handle_request request web w

    -- `pid` is the number of the process.
    unfoldable pub list : ℕ → Web J W → J
    list pid web =
        let a = json.put (codes "PREFIX") (json.text web.name) json.null in
        let b = json.put (codes "FSM") (transitions_list json web.fsm) a in
        let c = json.put (codes "ALLOWED") (allow_list json web.fsm) b in
        let d = json.put (codes "CMD") (commands_list web) c in
        let e = json.put (codes "STATE") (json.text web.fsm.state) d in
        json.put (codes "PID") (json.number pid) e

pub data Route : Type 0 where
  lists processes_fsm processes_cmd : Route

-- `setup`: the paths of the GET requests. The first is declared before the prefix is set.
unfoldable pub routes : Bytes → List (Bytes × Route)
routes name =
    (codes "/", lists)
    ∷ (codes "/" ++ (name ++ codes "/"), lists)
    ∷ (codes "/" ++ (name ++ codes "/FSM"), processes_fsm)
    ∷ (codes "/" ++ (name ++ codes "/CMD"), processes_cmd)
    ∷ []

unfoldable pub route_of : Bytes → List (Bytes × Route) → Option Route
route_of path [] = none
route_of path ((p, r) ∷ rest) = if bytes_eq p path then some r else route_of path rest

module _ {J : Type 0} (json : Json J) {W : Type 0} where
  -- A GET request of a path: the response, the server and the object afterwards.
  unfoldable pub serve : ℕ → Bytes → Request → Web J W → W → Result (Option J × Web J W × W)
  serve pid path request web w = elim (route_of path (routes web.name)) [
    | none ↦ ok (none, web, w)
    | some lists ↦ ok (some (list json pid web), web, w)
    | some processes_fsm ↦ (do
      (response, web', w') ← fsm_process json request web w
      ok (some response, web', w'))
    | some processes_cmd ↦ (do
      (response, w') ← cmd_process json request web w
      ok (some response, web, w'))
  ]
