-- ===== src/Base/Entries.antt =====
-- Predicates on the entries of a map, and lists of its keys.
use mathlib.Core.Path.{◌≡◌, refl, subst}
use mathlib.Core.Bool.{Bool, true}
use mathlib.Core.Logic.{◌≢◌, inl, inr}
use mathlib.Core.Option.{none, some}
use mathlib.Core.List.{List, [], ◌∷◌}
use native.Mathlib.Omega.{arith}
use zdaq.Base.Tests.{Bool-cases}
use zdaq.Base.Lists.{All, keep}
use zdaq.Base.Order.{Ord}
use zdaq.Base.Map.{
  Map, keys, find, insert, update, erase, Above, IsSorted, Above-IsSorted, find_below, Above-lower,
}

module _ {ℓ κ} {A : Type ℓ} (Q : A → Type κ) where
  pub keep-All : (p : A → Bool) (xs : List A) → All Q xs → All Q (keep p xs)
  keep-All p [] h = tt
  keep-All p (x ∷ xs) h = elim (Bool-cases (p x)) [
    | inl stays ↦ rw stays (h.0, keep-All p xs h.1)
    | inr goes ↦ rw goes (keep-All p xs h.1)
  ]

pub keep-All_test {ℓ} :
    {A : Type ℓ} (p : A → Bool) (xs : List A) → All (λ x. p x ≡ true) (keep p xs)
keep-All_test p [] = tt
keep-All_test p (x ∷ xs) = elim (Bool-cases (p x)) [
  | inl stays ↦ rw stays (stays, keep-All_test p xs)
  | inr goes ↦ rw goes (keep-All_test p xs)
]

pub keep_self {ℓ} :
    {A : Type ℓ} (p : A → Bool) (xs : List A) → All (λ x. p x ≡ true) xs → keep p xs ≡ xs
keep_self p [] h = refl
keep_self p (x ∷ xs) h = ground (arith, keep_self p xs h.1)

-- `k` stands in the list once.
abbrev pub Absent {ℓ} : {K : Type ℓ} → K → List K → Type ℓ
Absent k = All (λ j. j ≢ k)

pub data Once {ℓ} {K : Type ℓ} (k : K) : List K → Type ℓ where
  here : {ks : List K} → Absent k ks → Once k (k ∷ ks)
  later : {j : K} {ks : List K} → j ≢ k → Once k ks → Once k (j ∷ ks)

module _ {ℓ κ} {K : Type ℓ} {V : Type κ} ⦃o : Ord K⦄ where
  module _ {μ} (Q : K × V → Type μ) where
    pub insert-All : (k : K) (v : V) (m : Map K V) → Q (k, v) → All Q m → All Q (insert k v m)
    unfolding insert
    insert-All k v [] q h = (q, tt)
    insert-All k v ((j, w) ∷ m) q h = elim (Bool-cases (o.lt j k)) [
      | inl below ↦ rw below (h.0, insert-All k v m q h.1)
      | inr fine ↦ elim (Bool-cases (o.lt k j)) [
        | inl above ↦ rw (fine, above) (q, h)
        | inr same ↦ rw (fine, same) h
      ]
    ]

    pub update-All :
        (k : K) (f : V → V) (m : Map K V)
        → ((j : K) (w : V) → Q (j, w) → Q (j, f w))
        → All Q m
        → All Q (update k f m)
    unfolding update
    update-All k f [] q h = tt
    update-All k f ((j, w) ∷ m) q h = elim (Bool-cases (o.lt j k)) [
      | inl below ↦ rw below (h.0, update-All k f m q h.1)
      | inr fine ↦ elim (Bool-cases (o.lt k j)) [
        | inl above ↦ rw (fine, above) h
        | inr same ↦ rw (fine, same) (q j w h.0, h.1)
      ]
    ]

  -- What holds of every value holds of a value that is found.
  pub find-All {μ} :
      (Q : V → Type μ) (k : K) (m : Map K V) {v : V} → All (λ e. Q e.1) m → find k m ≡ some v → Q v
  unfolding find
  find-All Q k [] h e = absurd (cc)
  find-All Q k ((j, w) ∷ m) {v} h e = elim (Bool-cases (o.lt j k)) [
    | inl below ↦ find-All Q k m h.1 (ground arith)
    | inr fine ↦ elim (Bool-cases (o.lt k j)) [
      | inl above ↦ absurd (ground arith)
      | inr same ↦ let e' : w ≡ v = ground arith in rw (← e') h.0
    ]
  ]

  Above-ne : (k : K) (m : Map K V) → Above k m → Absent k (keys m)
  Above-ne k [] a = tt
  Above-ne k ((j, w) ∷ m) a =
      (λ e. ground (arith, o.irrefl k, o.irrefl j), Above-ne k m (Above-lower k j m a.0 a.1))

  -- A key that is found in a sorted map stands among its keys once.
  pub find-Once : (k : K) (m : Map K V) {v : V} → IsSorted m → find k m ≡ some v → Once k (keys m)
  unfolding find
  find-Once k [] s e = absurd (cc)
  find-Once k ((j, w) ∷ m) {v} s e = elim (Bool-cases (o.lt j k)) [
    | inl below ↦
        later (λ same. ground (arith, o.irrefl j, o.irrefl k))
          (find-Once k m {v = v} (Above-IsSorted j m s) (ground arith))
    | inr fine ↦ elim (Bool-cases (o.lt k j)) [
      | inl above ↦ absurd (ground arith)
      | inr same ↦ subst (λ i. Once i (j ∷ keys m)) (o.connex j k fine same) (here (Above-ne j m s))
    ]
  ]

  -- `erase` takes away the entry that is found, and nothing else.
  pub erase_absent : (k : K) (m : Map K V) → find k m ≡ none → erase k m ≡ m
  unfolding find erase
  erase_absent k [] e = refl
  erase_absent k ((j, w) ∷ m) e = ground (arith, erase_absent k m)

  pub find-erase :
      (k i : K) (m : Map K V)
      → IsSorted m
      → (find k (erase k m) ≡ none) × (i ≢ k → find i (erase k m) ≡ find i m)
  unfolding find erase
  find-erase k i [] s = (refl, λ ne. refl)
  find-erase k i ((j, w) ∷ m) s =
      let (self, others) = find-erase k i m (Above-IsSorted j m s) in
      (
        ground (arith, self, find_below j m s, o.connex j k),
        λ ne. ground (
          arith,
          others ne,
          o.connex j k,
          o.connex i k,
          find_below j m s,
          find_below i m,
          Above-lower i j m,
        ),
      )

  pub erase-Above : (i k : K) (m : Map K V) → Above i m → Above i (erase k m)
  unfolding erase
  erase-Above i k [] a = tt
  erase-Above i k ((j, w) ∷ m) a = ground (arith, erase-Above j k m a.1, Above-lower i j m)

  pub erase-IsSorted : (k : K) (m : Map K V) → IsSorted m → IsSorted (erase k m)
  unfolding erase
  erase-IsSorted k [] s = tt
  erase-IsSorted k ((j, w) ∷ m) s = ground (arith, erase-Above j k m s, Above-IsSorted j m s)

  -- Writing the value that is there changes nothing.
  pub update_same : (k : K) (v : V) (m : Map K V) → find k m ≡ some v → update k (λ _. v) m ≡ m
  unfolding find update
  update_same k v [] e = refl
  update_same k v ((j, w) ∷ m) e = ground (arith, update_same k v m)
