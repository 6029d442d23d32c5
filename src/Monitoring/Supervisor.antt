-- ===== src/Monitoring/Supervisor.antt =====
-- monitoring/src/zmonSupervisor.cxx: the application. A plugin and a store are kept with the name of
-- the library that they come from, in the order in which they were registered.
use zdaq.Base.{
  ℕ, Bool, true, false, not, if◌then◌else◌, Option, none, some, List, [], ◌∷◌, ◌++◌, Result, ok,
  ◌>>=◌, or_fault, thrown, crash,
}
use zdaq.Base.Memory.{Bytes}
use zdaq.Base.Text.{codes}
use zdaq.Json.{Json, has, assign}
use zdaq.Fsm.{Message}
use zdaq.Fsm.Messages.{content, set_answer}
use zdaq.Application.{Environment, App, make_app}
use zdaq.Collector.{taken_over, text_list}
use zdaq.Job.Processes.{texts}
use zdaq.Monitoring.{
  Hardware, Storage, Turns, Socket, null_socket, each, names_of, address_of, with_location,
  status_answer, round,
}

pub record Supervisor (J P S : Type 0) : Type 0 where
  pub app : App J
  pub running : Bool
  pub period : ℕ
  pub plugins : List (Bytes × P)
  pub stores : List (Bytes × S)
  pub publisher : Socket
  pub commanded : List Bytes

unfoldable pub make : {J P S : Type 0} → Json J → Environment → Supervisor J P S
make json env = record {
  app = make_app json env;
  running = false;
  period = 30;
  plugins = [];
  stores = [];
  publisher = null_socket;
  commanded = [];
}

-- The names are read one after the other. Without a library there is no `create` to call.
unfoldable pub register_plugins :
    {J P : Type 0}
    → Json J
    → (Bytes → Option P)
    → List J
    → List (Bytes × P)
    → Result (List (Bytes × P))
register_plugins json plugin [] ps = ok ps
register_plugins json plugin (v ∷ vs) ps = do
  name ← or_fault (json.as_string v) thrown
  p ← or_fault (plugin name) crash
  register_plugins json plugin vs (ps ++ (name, p) ∷ [])

-- A store without a library is passed over.
unfoldable pub register_stores :
    {S : Type 0} → (Bytes → Option S) → List Bytes → List (Bytes × S) → List (Bytes × S)
register_stores store [] ss = ss
register_stores store (name ∷ names) ss =
    register_stores store names (elim (store name) [ none ↦ ss | some s ↦ ss ++ (name, s) ∷ [] ])

module _ {J : Type 0} (json : Json J) where
  -- The location of the message, or the one that was there, or "/HOME".
  abbrev pub located_by : J → J → Result J
  located_by jc params = do
    given ← has json (codes "location") jc
    if given
        then assign json (codes "location") (json.member (codes "location") jc) params
        else with_location json params

module _ {J : Type 0} (json : Json J) {P S : Type 0} where
  abbrev pub with_param : J → Supervisor J P S → Supervisor J P S
  with_param params w = record w { app = record w.app { param = params } }

  module _ (h : Hardware J P) (t : Storage J S) (plugin : Bytes → Option P)
      (store : Bytes → Option S) where
    abbrev pub bind_publisher : J → Supervisor J P S → Result (Supervisor J P S)
    bind_publisher params w = do
      given ← has json (codes "TCPPort") params
      if given
          then (do
            port ← or_fault (json.as_uint (json.member (codes "TCPPort") params)) thrown
            ok (record w { publisher = address_of json port }))
          else ok w

    -- The stores are named by the parameters `jc`, and given those of the application.
    unfoldable pub load_stores : J → Supervisor J P S → J → Result (J × Supervisor J P S)
    load_stores jc w prep = do
      given ← has json (codes "stores") jc
      if given
          then (do
            names ← texts json (json.elements (json.member (codes "stores") jc))
            let ss = register_stores store names w.stores
            ok (
              json.put (codes "stores") (text_list json names json.null) prep,
              record w { stores = each t.connect (each (t.load_parameters w.app.param) ss) },
            ))
          else ok (prep, w)

    unfoldable pub load_plugins : J → Message J → Supervisor J P S → Result (J × Supervisor J P S)
    load_plugins jc m w = do
      let listed = json.elements (json.member (codes "plugins") jc)
      ps ← register_plugins json plugin listed w.plugins
      names ← texts json listed
      let ps' = each (h.opened m) (each (h.load_parameters w.app.param) ps)
      ok (
        json.put (codes "plugins") (text_list json names json.null) json.null,
        record w { plugins = ps'; commanded = w.commanded ++ names_of ps' },
      )

    -- What follows once the plugins and the period are among the parameters `p`.
    unfoldable pub set_up :
        J → J → Message J → Supervisor J P S → Result (Message J × Supervisor J P S)
    set_up jc p m w = do
      period ← or_fault (json.as_uint (json.member (codes "period") p)) thrown
      w₁ ← bind_publisher p (record w { period = period })
      located ← located_by json jc p
      (prep, w₂) ← load_plugins p m (with_param located w₁)
      (prep', w₃) ← load_stores p w₂ prep
      m' ← set_answer json prep' m
      ok (m', w₃)

    unfoldable pub configure : Message J → Supervisor J P S → Result (Message J × Supervisor J P S)
    configure m w = do
      jc ← content json m
      p₁ ← taken_over json (codes "TCPPort") jc w.app.param
      p₂ ← taken_over json (codes "period") jc p₁
      p₃ ← taken_over json (codes "plugins") jc p₂
      let w' = with_param p₃ w
      with_plugins ← has json (codes "plugins") p₃
      if not with_plugins then ok (m, w') else (do
        with_period ← has json (codes "period") p₃
        if not with_period then ok (m, w') else set_up jc p₃ m w')

    unfoldable pub start : Message J → Supervisor J P S → Result (Message J × Supervisor J P S)
    start m w = ok (m, record w { running = true })

    abbrev pub stopped : Supervisor J P S → Supervisor J P S
    stopped w = record w { running = false }

    unfoldable pub stop : Message J → Supervisor J P S → Result (Message J × Supervisor J P S)
    stop m w = ok (m, stopped w)

    unfoldable pub halt : Message J → Supervisor J P S → Result (Message J × Supervisor J P S)
    halt m w =
        let w' = if w.running then stopped w else w in
        ok (m, record w' { plugins = []; stores = [] })

    unfoldable pub monitor :
        Turns → Supervisor J P S → Result (Supervisor J P S × List (Bytes × Bytes))
    monitor turns w =
        if w.running
        then (do
          (plugins, stores, out) ← round json h t w.publisher w.app.param turns w.plugins w.stores
          ok (record w { plugins = plugins; stores = stores }, out))
        else ok (w, [])

  unfoldable pub status : Hardware J P → Supervisor J P S → J × Supervisor J P S
  status h w =
      let (response, plugins) = status_answer json h w.plugins in
      (response, record w { plugins = plugins })
