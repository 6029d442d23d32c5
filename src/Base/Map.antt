-- ===== src/Base/Map.antt =====
-- `std::map`, as the list of its entries in the order of their keys. Keys are compared by `<` only.
use mathlib.Core.Path.{◌≡◌, refl}
use mathlib.Core.Bool.{Bool, true, false}
use mathlib.Core.Logic.{◌≢◌, inl, inr}
use mathlib.Core.Option.{Option, none, some}
use mathlib.Core.List.{List, [], ◌∷◌, map}
use native.Mathlib.Omega.{arith}
use zdaq.Base.Tests.{if◌then◌else◌, Bool-cases}
use zdaq.Base.Lists.{keep}
use zdaq.Base.Order.{Ord}

abbrev pub Map {ℓ κ} : Type ℓ → Type κ → Type (ℓ ⊔ κ)
Map K V = List (K × V)

abbrev pub keys {ℓ κ} : {K : Type ℓ} {V : Type κ} → Map K V → List K
keys = map (λ e. e.0)

module _ {ℓ} {K : Type ℓ} ⦃o : Ord K⦄ where
  pub lt_asym : (a b : K) → o.lt a b ≡ true → o.lt b a ≡ false
  lt_asym a b h = elim (Bool-cases (o.lt b a)) [
    | inl back ↦ ground (arith, o.lt_trans a b a, o.irrefl a)
    | inr fine ↦ fine
  ]

module _ {ℓ κ} {K : Type ℓ} {V : Type κ} ⦃o : Ord K⦄ where
  unfoldable pub find : K → Map K V → Option V
  find k [] = none
  find k ((j, v) ∷ m) = if o.lt j k then find k m else if o.lt k j then none else some v

  -- `std::map::insert`: an entry that is there already stays.
  unfoldable pub insert : K → V → Map K V → Map K V
  insert k v [] = (k, v) ∷ []
  insert k v ((j, w) ∷ m) =
      if o.lt j k
      then (j, w) ∷ insert k v m
      else if o.lt k j
      then (k, v) ∷ (j, w) ∷ m
      else (j, w) ∷ m

  -- `it->second = f(it->second)` at the entry found under the key, if there is one.
  unfoldable pub update : K → (V → V) → Map K V → Map K V
  update k f [] = []
  update k f ((j, w) ∷ m) =
      if o.lt j k then (j, w) ∷ update k f m else if o.lt k j then (j, w) ∷ m else (j, f w) ∷ m

  unfoldable pub erase : K → Map K V → Map K V
  erase k [] = []
  erase k ((j, w) ∷ m) = if o.lt j k then (j, w) ∷ erase k m else if o.lt k j then (j, w) ∷ m else m

  -- Every key of the map is above `k`, and the keys grow.
  abbrev pub Above : K → Map K V → Type 0
  Above k [] = Unit
  Above k ((j, v) ∷ m) = (o.lt k j ≡ true) × Above j m

  abbrev pub IsSorted : Map K V → Type 0
  IsSorted [] = Unit
  IsSorted ((j, v) ∷ m) = Above j m

  pub find-insert_self :
      (k : K) (v : V) (m : Map K V) → find k m ≡ none → find k (insert k v m) ≡ some v
  unfolding find insert
  find-insert_self k v [] h = ground (arith, o.irrefl k)
  find-insert_self k v ((j, w) ∷ m) h = ground (arith, o.irrefl k, find-insert_self k v m)

  -- `insert` does not overwrite.
  pub insert_present : (k : K) (v : V) (m : Map K V) {w : V} → find k m ≡ some w → insert k v m ≡ m
  unfolding find insert
  insert_present k v [] h = cc
  insert_present k v ((j, x) ∷ m) {w} h = ground (arith, insert_present k v m {w = w})

  pub find-insert_ne :
      (k : K) (v : V) (i : K) (m : Map K V) → i ≢ k → find i (insert k v m) ≡ find i m
  unfolding find insert
  find-insert_ne k v i [] h = ground (arith, o.connex i k)
  find-insert_ne k v i ((j, w) ∷ m) h =
      ground
        (arith, o.connex i k, o.lt_trans i k j, lt_asym i j, lt_asym k i, find-insert_ne k v i m)

  pub find-update_self :
      (k : K) (f : V → V) (m : Map K V) {w : V}
      → find k m ≡ some w
      → find k (update k f m) ≡ some (f w)
  unfolding find update
  find-update_self k f [] h = cc
  find-update_self k f ((j, x) ∷ m) {w} h = ground (arith, find-update_self k f m {w = w})

  pub find-update_ne :
      (k : K) (f : V → V) (i : K) (m : Map K V) → i ≢ k → find i (update k f m) ≡ find i m
  unfolding find update
  find-update_ne k f i [] h = refl
  find-update_ne k f i ((j, w) ∷ m) h =
      ground (arith, o.connex i k, o.connex j k, o.connex i j, find-update_ne k f i m)

  pub insert-Above :
      (i k : K) (v : V) (m : Map K V) → o.lt i k ≡ true → Above i m → Above i (insert k v m)
  unfolding insert
  insert-Above i k v [] h a = (h, tt)
  insert-Above i k v ((j, w) ∷ m) h a = ground (arith, insert-Above j k v m)

  pub insert-IsSorted : (k : K) (v : V) (m : Map K V) → IsSorted m → IsSorted (insert k v m)
  unfolding insert
  insert-IsSorted k v [] a = tt
  insert-IsSorted k v ((j, w) ∷ m) a = ground (arith, insert-Above j k v m)

  pub update-Above : (i k : K) (f : V → V) (m : Map K V) → Above i m → Above i (update k f m)
  unfolding update
  update-Above i k f [] a = tt
  update-Above i k f ((j, w) ∷ m) a = ground (arith, update-Above j k f m)

  pub update-IsSorted : (k : K) (f : V → V) (m : Map K V) → IsSorted m → IsSorted (update k f m)
  unfolding update
  update-IsSorted k f [] a = tt
  update-IsSorted k f ((j, w) ∷ m) a = ground (arith, update-Above j k f m)

  pub Above-lower : (i j : K) (m : Map K V) → o.lt i j ≡ true → Above j m → Above i m
  Above-lower i j [] h a = tt
  Above-lower i j ((k, w) ∷ m) h a = (o.lt_trans i j k h a.0, a.1)

  pub keep-Above : (i : K) (p : K × V → Bool) (m : Map K V) → Above i m → Above i (keep p m)
  keep-Above i p [] a = tt
  keep-Above i p ((j, w) ∷ m) a = ground (arith, keep-Above j p m a.1, Above-lower i j (keep p m))

  pub Above-IsSorted : (i : K) (m : Map K V) → Above i m → IsSorted m
  Above-IsSorted i [] a = tt
  Above-IsSorted i ((l, x) ∷ m) a = a.1

  pub keep-IsSorted : (p : K × V → Bool) (m : Map K V) → IsSorted m → IsSorted (keep p m)
  keep-IsSorted p [] a = tt
  keep-IsSorted p ((j, w) ∷ m) a = elim (Bool-cases (p (j, w))) [
    | inl here ↦ rw here (keep-Above j p m a)
    | inr gone ↦ rw gone (keep-IsSorted p m (Above-IsSorted j m a))
  ]

  -- A key below all others is not found.
  pub find_below : (k : K) (m : Map K V) → Above k m → find k m ≡ none
  unfolding find
  find_below k [] a = refl
  find_below k ((j, w) ∷ m) a = ground (arith, lt_asym k j)

  abbrev pub keep_at : (K × V → Bool) → K → Option V → Option V
  keep_at p k none = none
  keep_at p k (some v) = if p (k, v) then some v else none

  -- Filtering a sorted map filters each lookup.
  pub find-keep :
      (k : K) (p : K × V → Bool) (m : Map K V)
      → IsSorted m
      → find k (keep p m) ≡ keep_at p k (find k m)
  unfolding find
  find-keep k p [] a = refl
  find-keep k p ((j, w) ∷ m) a = ground (
    arith,
    find-keep k p m (Above-IsSorted j m a),
    keep-Above j p m a,
    Above-lower k j (keep p m),
    find_below k (keep p m),
    find_below j (keep p m),
    o.connex j k,
    lt_asym k j,
  )
