-- ===== src/Source/Discovery.antt =====
-- zmSender.cc, `autoDiscover`: the collectors that a configuration names, in the order of their
-- instances.
use zdaq.Base.{
  ℕ, zero, suc, ◌≤◌, ◌<◌, ◌≡◌, refl, ◌∙◌, sym, subst, true, Bool-cases, inl, inr, List, [], ◌∷◌,
  ◌++◌, map, none, some, length, ltb, u32, if◌then◌else◌, arith, Result, ok, err, ◌>>=◌, or_fault,
  thrown,
}
use mathlib.Core.List.{append-nil, append_assoc}
use zdaq.Base.Memory.{Bytes}
use zdaq.Base.Order.{nat_ord}
use zdaq.Base.Text.{codes, bytes_eq, decimal, first_chars, chars_from}
use zdaq.Base.Map
use zdaq.Base.Map.{Map, find, IsSorted, Above}
use zdaq.Wire.{scan_long}
use zdaq.Json.{Json, get, has}
use zdaq.Source.Sender.{Sender, connect}

abbrev instance_number : Bytes → ℕ
instance_number s = elim (scan_long s) [ none ↦ 0 | some found ↦ u32 found.0 ]

module _ {J : Type 0} (json : Json J) where
  -- The variable INSTANCE, 0 without one.
  unfoldable pub instance_in : List J → Result ℕ
  instance_in [] = ok 0
  instance_in (v ∷ vs) = do
    envp ← or_fault (json.as_string v) thrown
    if bytes_eq (first_chars 8 envp) (codes "INSTANCE")
        then (do digits ← chars_from 9 envp; ok (instance_number digits))
        else instance_in vs

  -- The parameter `portname` has to be there; the port is that of `collectingPort`.
  abbrev collector_of : Bytes → Bytes → J → Map ℕ Bytes → Result (Map ℕ Bytes)
  collector_of host portname process streams = do
    env ← get json (codes "ENV") process
    number ← instance_in (json.elements env)
    with_parameter ← has json (codes "PARAMETER") process
    let p_param = if with_parameter then json.member (codes "PARAMETER") process else json.null
    named ← has json portname p_param
    if named
        then (do
          port ← or_fault (json.as_uint (json.member (codes "collectingPort") p_param)) thrown
          ok (Map.insert number (codes "tcp://" ++ (host ++ (codes ":" ++ decimal port))) streams))
        else ok streams

  unfoldable pub collectors_on : Bytes → Bytes → Bytes → List J → Map ℕ Bytes → Result (Map ℕ Bytes)
  collectors_on host appname portname [] streams = ok streams
  collectors_on host appname portname (process ∷ rest) streams = do
    v ← get json (codes "NAME") process
    p_name ← or_fault (json.as_string v) thrown
    streams' ←
        if bytes_eq p_name appname then collector_of host portname process streams else ok streams
    collectors_on host appname portname rest streams'

  unfoldable pub collectors_from :
      Bytes → Bytes → J → List Bytes → Map ℕ Bytes → Result (Map ℕ Bytes)
  collectors_from appname portname cjs [] streams = ok streams
  collectors_from appname portname cjs (host ∷ hosts) streams = do
    sources ← get json host cjs
    streams' ← collectors_on host appname portname (json.elements sources) streams
    collectors_from appname portname cjs hosts streams'

-- `connect(mStream[i])` for `k` instances from `i` on. An instance that is missing is made by `[]`
-- with an empty address, which ZeroMQ refuses by an exception.
unfoldable pub connect_from : ℕ → ℕ → Map ℕ Bytes → Sender → Result Sender
connect_from zero i streams s = ok s
connect_from (suc k) i streams s = elim (Map.find i streams) [
  | none ↦ err thrown
  | some dest ↦ connect_from k (suc i) streams (connect dest s)
]

module _ {J : Type 0} (json : Json J) where
  unfoldable pub auto_discover : J → Bytes → Bytes → Sender → Result Sender
  auto_discover config appname portname s = do
    cjs ← get json (codes "HOSTS") config
    streams ← collectors_from json appname portname cjs (json.names cjs) []
    connect_from (length streams) 0 streams s

-- The entries from `i` on, of a map in order.
abbrev FromOn : ℕ → Map ℕ Bytes → Type 0
FromOn i [] = Unit
FromOn i ((j, v) ∷ m) = (i ≤ j) × Above j m

find_first_below :
    (i j : ℕ) (v : Bytes) (m : Map ℕ Bytes) → ltb i j ≡ true → find i ((j, v) ∷ m) ≡ none
unfolding find
find_first_below i j v m h = ground arith

find_at : (i j : ℕ) (v : Bytes) (m : Map ℕ Bytes) → i ≡ j → find i ((j, v) ∷ m) ≡ some v
unfolding find
find_at i j v m h = ground arith

find_above : (l j : ℕ) (v : Bytes) (m : Map ℕ Bytes) → j < l → find l ((j, v) ∷ m) ≡ find l m
unfolding find
find_above l j v m h = ground arith

rest_from : (i j : ℕ) (v : Bytes) (m : Map ℕ Bytes) → i ≡ j → Above j m → FromOn (suc i) m
rest_from i j v [] h a = tt
rest_from i j v ((l, w) ∷ m) h a = (ground (arith, a.0), a.1)

connected :
    (v : Bytes) (s : Sender) (rest : List Bytes)
    → (connect v s).sockets ++ rest ≡ s.sockets ++ v ∷ rest
unfolding connect
connected v s rest = append_assoc s.sockets (v ∷ []) rest

connect_suffix :
    (m whole : Map ℕ Bytes) (i : ℕ) (s : Sender) {s' : Sender}
    → FromOn i m
    → ((j : ℕ) → i ≤ j → find j whole ≡ find j m)
    → connect_from (length m) i whole s ≡ ok s'
    → s'.sockets ≡ s.sockets ++ map (λ e. e.1) m
unfolding connect_from
connect_suffix [] whole i s {s'} from same h =
    let eq : s ≡ s' = cc h in
    subst (λ (x : Sender). x.sockets ≡ s.sockets ++ []) eq (sym (append-nil s.sockets))
connect_suffix ((j, v) ∷ m) whole i s {s'} from same h = elim (Bool-cases (ltb i j)) [
  | inl missing ↦
      let absent : find i whole ≡ none = same i (omega arith) ∙ find_first_below i j v m missing in
      absurd (cc (rw (absent, connect_from) at h))
  | inr reached ↦
      let here : i ≡ j = ground (arith, from.0) in
      let found : find i whole ≡ some v = same i (omega arith) ∙ find_at i j v m here in
      connect_suffix m whole (suc i) (connect v s) (rest_from i j v m here from.1)
        (λ l h'. same l (omega arith) ∙ find_above l j v m (omega (arith, here)))
        (rw (found, connect_from) at h)
      ∙ connected v s (map (λ e. e.1) m)
]

-- When the loop over the collectors of a map in order ends without an exception, it has added one
-- socket for each collector, with its address, in the order of the instances.
pub connect_from-sockets :
    (streams : Map ℕ Bytes) (s : Sender) {s' : Sender}
    → IsSorted streams
    → connect_from (length streams) 0 streams s ≡ ok s'
    → s'.sockets ≡ s.sockets ++ map (λ e. e.1) streams
connect_from-sockets [] s sorted h = connect_suffix [] [] 0 s tt (λ j k. refl) h
connect_from-sockets ((j, v) ∷ m) s sorted h =
    connect_suffix ((j, v) ∷ m) ((j, v) ∷ m) 0 s (omega arith, sorted) (λ l k. refl) h
