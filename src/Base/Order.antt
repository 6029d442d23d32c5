-- ===== src/Base/Order.antt =====
-- The strict order `<` that the keys of a `std::map` have, and the two that the program uses: that
-- of unsigned integers and the lexicographic one of `std::string`.
use Prim.Native.Nat.{ℕ}
use mathlib.Core.Path.{◌≡◌, refl}
use mathlib.Core.Bool.{Bool, true, false}
use mathlib.Core.List.{[], ◌∷◌}
use native.Mathlib.Omega.{arith}
use zdaq.Base.Tests.{ltb, if◌then◌else◌}
use zdaq.Base.Memory.{Bytes}

pub record IsOrder {ℓ} {K : Type ℓ} (lt : K → K → Bool) : Type ℓ where
  pub irrefl : (a : K) → lt a a ≡ false
  pub connex : (a b : K) → lt a b ≡ false → lt b a ≡ false → a ≡ b
  pub lt_trans : (a b c : K) → lt a b ≡ true → lt b c ≡ true → lt a c ≡ true

pub record Ord {ℓ} (K : Type ℓ) : Type ℓ where
  pub lt : K → K → Bool
  pub laws : IsOrder lt
  pub open laws use *

pub ltb-IsOrder : IsOrder ltb
ltb-IsOrder = record {
  irrefl = λ a. ground arith;
  connex = λ a b h k. ground arith;
  lt_trans = λ a b c h k. ground arith;
}

instance abbrev pub nat_ord : Ord ℕ
nat_ord = record { lt = ltb; laws = ltb-IsOrder }

unfoldable pub bytes_lt : Bytes → Bytes → Bool
bytes_lt [] [] = false
bytes_lt [] (d ∷ t) = true
bytes_lt (c ∷ s) [] = false
bytes_lt (c ∷ s) (d ∷ t) = if ltb c d then true else if ltb d c then false else bytes_lt s t

bytes_lt_irrefl : (s : Bytes) → bytes_lt s s ≡ false
unfolding bytes_lt
bytes_lt_irrefl [] = refl
bytes_lt_irrefl (c ∷ s) = ground (arith, bytes_lt_irrefl s)

bytes_lt_connex : (s t : Bytes) → bytes_lt s t ≡ false → bytes_lt t s ≡ false → s ≡ t
unfolding bytes_lt
bytes_lt_connex [] [] h k = refl
bytes_lt_connex [] (d ∷ t) h k = cc
bytes_lt_connex (c ∷ s) [] h k = cc
bytes_lt_connex (c ∷ s) (d ∷ t) h k = ground (arith, bytes_lt_connex s t)

bytes_lt_trans : (s t u : Bytes) → bytes_lt s t ≡ true → bytes_lt t u ≡ true → bytes_lt s u ≡ true
unfolding bytes_lt
bytes_lt_trans [] [] u h k = cc
bytes_lt_trans [] (d ∷ t) [] h k = cc
bytes_lt_trans [] (d ∷ t) (e ∷ u) h k = refl
bytes_lt_trans (c ∷ s) [] u h k = cc
bytes_lt_trans (c ∷ s) (d ∷ t) [] h k = cc
bytes_lt_trans (c ∷ s) (d ∷ t) (e ∷ u) h k = ground (arith, bytes_lt_trans s t u)

pub bytes_lt-IsOrder : IsOrder bytes_lt
bytes_lt-IsOrder = record {
  irrefl = bytes_lt_irrefl;
  connex = bytes_lt_connex;
  lt_trans = bytes_lt_trans;
}

instance abbrev pub bytes_ord : Ord Bytes
bytes_ord = record { lt = bytes_lt; laws = bytes_lt-IsOrder }
