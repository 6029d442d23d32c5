-- ===== src/Monitoring/Lsc.antt =====
-- monitoring/daemon/src/lsc.cxx: the daemon. `library` is what dlopen finds under the name of a plugin
-- or of a store; what include/pluginUtil.hh leaves without one is an object that is not initialised.
use zdaq.Base.{
  ℕ, Bool, true, false, if◌then◌else◌, Option, none, some, List, [], ◌∷◌, Result, ok, ◌>>=◌,
  or_fault, thrown, indeterminate,
}
use zdaq.Base.Memory.{Bytes}
use zdaq.Base.Order.{bytes_ord}
use zdaq.Base.Text.{codes}
use zdaq.Base.Map
use zdaq.Base.Map.{Map, keys}
use zdaq.Json.{Json, has, assign}
use zdaq.Fsm.{Message}
use zdaq.Job.Processes.{texts}
use zdaq.Monitoring.{
  Hardware, Storage, Turns, Socket, unset, each, names_of, address_of, with_location, status_answer,
  round,
}

pub record Lsc (J P S : Type 0) : Type 0 where
  pub running : Bool
  pub period : ℕ
  pub params : J
  pub plugins : Map Bytes P
  pub stores : Map Bytes S
  pub publisher : Socket
  pub commanded : List Bytes

-- `_publisher` is not among what the constructor initialises.
unfoldable pub make : {J P S : Type 0} → Json J → Lsc J P S
make json = record {
  running = false;
  period = 30;
  params = json.null;
  plugins = [];
  stores = [];
  publisher = unset;
  commanded = [];
}

-- `registerPlugin` and `registerStore`: a name that is there already stays as it is.
unfoldable pub register :
    {V : Type 0} → (Bytes → Option V) → Bytes → Map Bytes V → Result (Map Bytes V)
register library name m = do v ← or_fault (library name) indeterminate; ok (Map.insert name v m)

unfoldable pub register_names :
    {V : Type 0} → (Bytes → Option V) → List Bytes → Map Bytes V → Result (Map Bytes V)
register_names library [] m = ok m
register_names library (name ∷ names) m = do
  m' ← register library name m
  register_names library names m'

module _ {J : Type 0} (json : Json J) where
  abbrev pub bind_publisher : J → Socket → Result Socket
  bind_publisher params publisher = do
    given ← has json (codes "TCPPort") params
    if given
        then (do
          port ← or_fault (json.as_uint (json.member (codes "TCPPort") params)) thrown
          ok (address_of json port))
        else ok publisher

  -- `_params["plugins"]` makes a null member where there is none.
  abbrev pub with_plugins : J → Result J
  with_plugins params = do
    given ← has json (codes "plugins") params
    if given then ok params else assign json (codes "plugins") json.null params

module _ {J : Type 0} (json : Json J) {P S : Type 0} where
  module _ (h : Hardware J P) (t : Storage J S) (plugin : Bytes → Option P)
      (store : Bytes → Option S) where
    unfoldable pub load_stores : J → Map Bytes S → Result (Map Bytes S)
    load_stores params m = do
      given ← has json (codes "stores") params
      if given
          then (do
            names ← texts json (json.elements (json.member (codes "stores") params))
            m' ← register_names store names m
            ok (each t.connect (each (t.load_parameters params) m')))
          else ok m

    unfoldable pub load_plugins : Message J → J → Map Bytes P → Result (Map Bytes P)
    load_plugins m params ps = do
      names ← texts json (json.elements (json.member (codes "plugins") params))
      ps' ← register_names plugin names ps
      ok (each (h.opened m) (each (h.load_parameters params) ps'))

    -- `conf` is the text of /etc/lsc.conf.
    unfoldable pub parse_defaults : Bytes → Message J → Lsc J P S → Result (Lsc J P S)
    parse_defaults conf m l = elim (json.parse conf) [
      | none ↦ ok (record l { params = json.partial conf })
      | some params ↦ do
        stores ← load_stores params l.stores
        publisher ← bind_publisher json params l.publisher
        located ← with_location json params
        params' ← with_plugins json located
        plugins ← load_plugins m params' l.plugins
        ok (record l {
          params = params';
          plugins = plugins;
          stores = stores;
          publisher = publisher;
          commanded = names_of plugins;
        })
    ]

    unfoldable pub configure : Bytes → Message J → Lsc J P S → Result (Message J × Lsc J P S)
    configure conf m l = do l' ← parse_defaults conf m l; ok (m, l')

    -- The thread that `start` creates makes the rounds.
    unfoldable pub start : Message J → Lsc J P S → Result (Message J × Lsc J P S)
    start m l = ok (m, record l { running = true })

    unfoldable pub stop : Message J → Lsc J P S → Result (Message J × Lsc J P S)
    stop m l = ok (m, record l { running = false })

    unfoldable pub monitor : Turns → Lsc J P S → Result (Lsc J P S × List (Bytes × Bytes))
    monitor turns l =
        if l.running
        then (do
          (plugins, stores, out) ← round json h t l.publisher l.params turns l.plugins l.stores
          ok (record l { plugins = plugins; stores = stores }, out))
        else ok (l, [])

  unfoldable pub status : Hardware J P → Lsc J P S → J × Lsc J P S
  status h l =
      let (response, plugins) = status_answer json h l.plugins in
      (response, record l { plugins = plugins })
