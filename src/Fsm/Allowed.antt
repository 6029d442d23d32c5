-- ===== src/Fsm/Allowed.antt =====
-- The list of the commands that are allowed, and whether a command has a transition.
use zdaq.Base.{
  ◌≡◌, refl, ap, ◌∙◌, sym, Bool, false, ◌||◌, Option, none, some, List, [], ◌∷◌, ◌++◌, keep, map,
  if◌then◌else◌, Bool-cases, Option-cases, inl, inr,
}
use mathlib.Core.List.{append-nil, append_assoc}
use zdaq.Base.Memory.{Bytes}
use zdaq.Base.Order.{bytes_ord, bytes_lt, bytes_lt-IsOrder}
use zdaq.Base.Text.{bytes_eq, bytes_eq_ne, bytes_eq_refl}
use zdaq.Base.Map.{
  Map, keys, find, IsSorted, Above-IsSorted, Above-lower, find_below, keep-IsSorted, find-keep,
}
use zdaq.Json.{Json}
use zdaq.Fsm.{Transition, Fsm, starting_in}
use zdaq.Fsm.Commands.{transition, allowed, is_some, name_of, listed, allow_list}

abbrev pub stands_in : Bytes → List Bytes → Bool
stands_in c [] = false
stands_in c (name ∷ names) = bytes_eq c name || stands_in c names

stands_in-keys {ℓ} :
    {V : Type ℓ} (c : Bytes) (m : Map Bytes V)
    → IsSorted m
    → stands_in c (keys m) ≡ is_some (find c m)
unfolding find
stands_in-keys c [] s = refl
stands_in-keys c ((j, v) ∷ m) s = elim (Bool-cases (bytes_lt j c)) [
  | inl below ↦
      rw (bytes_eq_ne c j (λ e. cc (below, bytes_lt-IsOrder.irrefl c, e)), below)
        (stands_in-keys c m (Above-IsSorted j m s))
  | inr least ↦ elim (Bool-cases (bytes_lt c j)) [
    | inl above ↦
        rw (bytes_eq_ne c j (λ e. cc (above, bytes_lt-IsOrder.irrefl c, e)), least, above)
          (stands_in-keys c m (Above-IsSorted j m s)
            ∙ ap is_some (find_below c m (Above-lower c j m above s)))
    | inr most ↦
        rw (bytes_lt-IsOrder.connex c j most least, bytes_eq_refl j, bytes_lt-IsOrder.irrefl j) refl
  ]
]

module _ {J W : Type 0} where
  allowed_names :
      (c : Bytes) (f : Fsm J W)
      → IsSorted f.transitions
      → stands_in c (allowed f) ≡ is_some (transition c f.state f)
  unfolding allowed
  allowed_names c f sorted =
      let test = λ (e : Bytes × List (Transition J W)). is_some (starting_in f.state e.1) in
      stands_in-keys c (keep test f.transitions) (keep-IsSorted test f.transitions sorted)
      ∙ ap is_some (find-keep c test f.transitions sorted)
      ∙ at (find c f.transitions)
    where
      at :
          (o : Option (List (Transition J W)))
          → is_some (elim o [
            | none ↦ none
            | some ts ↦ if is_some (starting_in f.state ts) then some ts else none
          ])
            ≡ is_some (elim o [ none ↦ none | some ts ↦ starting_in f.state ts ])
      at none = refl
      at (some ts) = elim (Option-cases (starting_in f.state ts)) [
        | inl missing ↦ rw missing refl
        | inr (t, there) ↦ rw there refl
      ]

module _ {J : Type 0} (json : Json J) where
  elements-listed :
      (array : J) (names : List Bytes) {vs : List J}
      → json.elements array ≡ vs
      → json.elements (listed json array names) ≡ vs ++ map (name_of json) names
  elements-listed array [] {vs} h = h ∙ sym (append-nil vs)
  elements-listed array (n ∷ names) {vs} h =
      elements-listed (json.append (name_of json n) array) names
        (json.elements-append (name_of json n) array h)
      ∙ append_assoc vs (name_of json n ∷ []) (map (name_of json) names)

  -- The list of the allowed commands holds, in the order of the names, exactly those that have a
  -- transition out of the current state.
  pub elements-allow_list :
      {W : Type 0} (f : Fsm J W) (c : Bytes)
      → IsSorted f.transitions
      → (json.elements (allow_list json f) ≡ map (name_of json) (allowed f))
        × (stands_in c (allowed f) ≡ is_some (transition c f.state f))
  unfolding allow_list
  elements-allow_list f c sorted =
      (elements-listed json.null (allowed f) json.elements-null, allowed_names c f sorted)
