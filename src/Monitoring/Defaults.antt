-- ===== src/Monitoring/Defaults.antt =====
-- lsc.cxx, `parseDefaults`: the plugins that the configuration names.
use zdaq.Base.{
  err, indeterminate, ◌≡◌, refl, sym, ◌∙◌, ap, Bool, false, Bool-cases, Option-cases, inl, inr,
  if◌then◌else◌, ◌||◌, Option, none, some, List, [], ◌∷◌, ok, true, >>=-eq-ok, ok_injective, subst,
  arith,
}
use zdaq.Base.Memory.{Bytes}
use zdaq.Base.Order.{bytes_ord}
use zdaq.Base.Text.{codes, bytes_eq, bytes_eq→eq, bytes_eq_refl, bytes_eq→ne}
use zdaq.Base.Map
use zdaq.Base.Map.{Map, find-insert_self, find-insert_ne, insert_present}
use zdaq.Json.{Json, has}
use zdaq.Fsm.{Message}
use zdaq.Job.Processes.{texts}
use zdaq.Monitoring.{Hardware, Storage, Turns, each, unset, with_location, has_any}
use zdaq.Monitoring.Rounds.{round_unset}
use zdaq.Monitoring.Lsc.{
  Lsc, register, register_names, load_stores, load_plugins, parse_defaults, make, bind_publisher,
  with_plugins, monitor,
}

abbrev pub map_some : {A B : Type 0} → (A → B) → Option A → Option B
map_some f none = none
map_some f (some a) = some (f a)

abbrev pub either : {A : Type 0} → Option A → Option A → Option A
either none b = b
either (some a) b = some a

abbrev pub is_listed : Bytes → List Bytes → Bool
is_listed k [] = false
is_listed k (name ∷ names) = bytes_eq k name || is_listed k names

module _ {V : Type 0} where
  find-each :
      (f : V → V) (k : Bytes) (m : Map Bytes V) → Map.find k (each f m) ≡ map_some f (Map.find k m)
  unfolding Map.find
  find-each f k [] = refl
  find-each f k ((j, v) ∷ m) = ground (arith, find-each f k m)

  map_some_if :
      (f g : V → V) (b : Bool) (a : Option V)
      → map_some g (map_some f (if b then a else none))
        ≡ (if b then map_some (λ v. g (f v)) a else none)
  map_some_if f g true none = refl
  map_some_if f g true (some v) = refl
  map_some_if f g false a = refl

  either-none : (a : Option V) → either a none ≡ a
  either-none none = refl
  either-none (some v) = refl

  find-register :
      (library : Bytes → Option V) (k name : Bytes) (m : Map Bytes V) {m' : Map Bytes V}
      → register library name m ≡ ok m'
      → Map.find k m' ≡ either (Map.find k m) (if bytes_eq k name then library k else none)
  unfolding register
  find-register library k name m {m'} e = elim (Option-cases (library name)) [
    | inl missing ↦ absurd (cc (rw (missing, register) at e))
    | inr (v, there) ↦
        let same : Map.insert name v m ≡ m' = cc (rw (there, register) at e) in
        elim (Bool-cases (bytes_eq k name)) [
          | inr other ↦
              rw (other, sym same, either-none (Map.find k m))
                (find-insert_ne name v k m (bytes_eq→ne k name other))
          | inl one ↦
              let named = bytes_eq→eq k name one in
              elim (Option-cases (Map.find name m)) [
                | inl fresh ↦
                    rw (sym same, named, fresh, bytes_eq_refl name, there)
                      (find-insert_self name v m fresh)
                | inr (w, old) ↦ rw (sym same, named, insert_present name v m old, old) refl
              ]
        ]
  ]

  find-register_names :
      (library : Bytes → Option V) (k : Bytes) (names : List Bytes) (m : Map Bytes V)
      {m' : Map Bytes V}
      → register_names library names m ≡ ok m'
      → Map.find k m' ≡ either (Map.find k m) (if is_listed k names then library k else none)
  unfolding register_names
  find-register_names library k [] m e =
      ap (λ x. Map.find k x) (cc e) ∙ sym (either-none (Map.find k m))
  find-register_names library k (name ∷ names) m e =
      let (m₁, added, e₁) = >>=-eq-ok (register library name m) _ e in
      let first = find-register library k name m added in
      let rest = find-register_names library k names m₁ e₁ in ground (arith, first, rest)

module _ {J P S : Type 0} (json : Json J) (h : Hardware J P) (t : Storage J S)
    (plugin : Bytes → Option P) (store : Bytes → Option S) where
  monitor_unset :
      (turns : Turns) (l : Lsc J P S)
      → l.publisher ≡ unset
      → has_any l.plugins ≡ true
      → monitor json h t plugin store turns (record l { running = true }) ≡ err indeterminate
  unfolding monitor
  monitor_unset turns l unwritten some_plugin =
      rw (unwritten, round_unset json h t l.params turns l.plugins l.stores some_plugin) refl

  -- The names of the plugins that the parameters list.
  abbrev pub Lists : J → List Bytes → Type 0
  Lists params names = texts json (json.elements (json.member (codes "plugins") params)) ≡ ok names

  -- What the map of the plugins holds under `k`.
  abbrev pub Loaded : Message J → J → List Bytes → Bytes → Map Bytes P → Type 0
  Loaded m params names k plugins = Map.find k plugins ≡ (
      if is_listed k names
      then map_some (λ p. h.opened m (h.load_parameters params p)) (plugin k)
      else none)

  find-load_plugins :
      (m : Message J) (params : J) (names : List Bytes) (k : Bytes) {plugins : Map Bytes P}
      → load_plugins json h t plugin store m params [] ≡ ok plugins
      → Lists params names
      → Loaded m params names k plugins
  unfolding load_plugins Map.find
  find-load_plugins m params names k {plugins} loaded lists =
      let (named, read, e) =
        >>=-eq-ok (texts json (json.elements (json.member (codes "plugins") params))) _ loaded in
      let (ps, registered, e₁) = >>=-eq-ok (register_names plugin named []) _ e in
      let same : named ≡ names = cc (read, lists) in
      let opened : each (h.opened m) (each (h.load_parameters params) ps) ≡ plugins = cc e₁ in
      let found = find-register_names plugin k named [] registered in
      rw
        (
          sym opened,
          find-each (h.opened m) k (each (h.load_parameters params) ps),
          find-each (h.load_parameters params) k ps,
          found,
          same,
        )
        (map_some_if (h.load_parameters params) (h.opened m) (is_listed k names) (plugin k))

  -- A daemon that is configured for the first time, by a text that jsoncpp reads and a configuration
  -- that goes through: exactly the plugins that its parameters then list are there, each of them made
  -- by its library, given these parameters and after that opened.
  pub find-parse_defaults :
      (conf : Bytes) (m : Message J) (params : J) (names : List Bytes) (k : Bytes) {l' : Lsc J P S}
      → json.parse conf ≡ some params
      → parse_defaults json h t plugin store conf m (make json) ≡ ok l'
      → Lists l'.params names
      → Loaded m l'.params names k l'.plugins
  unfolding parse_defaults load_plugins make Map.find
  find-parse_defaults conf m params names k {l'} parses e lists =
      let (stores, s, e₁) =
        >>=-eq-ok (load_stores json h t plugin store params []) _
          (rw (parses, parse_defaults) at e) in
      let (publisher, b, e₂) = >>=-eq-ok (bind_publisher json params unset) _ e₁ in
      let (located, w, e₃) = >>=-eq-ok (with_location json params) _ e₂ in
      let (params', q, e₄) = >>=-eq-ok (with_plugins json located) _ e₃ in
      let (plugins, loaded, e₅) =
        >>=-eq-ok (load_plugins json h t plugin store m params' []) _ e₄ in
      let same = ok_injective e₅ in
      subst (λ l. Loaded m l.params names k l.plugins) same
        (find-load_plugins m params' names k loaded
          (subst (λ l. Lists l.params names) (sym same) lists))

  -- A daemon that is configured for the first time by a configuration with no "TCPPort", and that has
  -- at least one plugin: once it runs, its first round reads `_publisher`, which was never written.
  pub monitor-parse_defaults :
      (conf : Bytes) (m : Message J) (params : J) (turns : Turns) {l' : Lsc J P S}
      → json.parse conf ≡ some params
      → has json (codes "TCPPort") params ≡ ok false
      → parse_defaults json h t plugin store conf m (make json) ≡ ok l'
      → has_any l'.plugins ≡ true
      → monitor json h t plugin store turns (record l' { running = true }) ≡ err indeterminate
  unfolding parse_defaults make
  monitor-parse_defaults conf m params turns {l'} parses no_port e some_plugin =
      let (stores, s, e₁) =
        >>=-eq-ok (load_stores json h t plugin store params []) _
          (rw (parses, parse_defaults) at e) in
      let (publisher, b, e₂) = >>=-eq-ok (bind_publisher json params unset) _ e₁ in
      let (located, w, e₃) = >>=-eq-ok (with_location json params) _ e₂ in
      let (params', q, e₄) = >>=-eq-ok (with_plugins json located) _ e₃ in
      let (plugins, loaded, e₅) =
        >>=-eq-ok (load_plugins json h t plugin store m params' []) _ e₄ in
      let unwritten : unset ≡ publisher = ok_injective (rw (no_port, bind_publisher) at b) in
      let same = ok_injective e₅ in
      monitor_unset turns l' (sym (ap (λ l. l.publisher) same) ∙ sym unwritten) some_plugin
