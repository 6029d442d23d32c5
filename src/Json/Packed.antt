-- ===== src/Json/Packed.antt =====
-- A stand-in for jsoncpp, so that its assumptions can be met: values are their own texts. The first
-- number says what a value is; members and elements are packed behind it with their lengths, the
-- latest first.
use zdaq.Base.{
  ℕ, zero, suc, ◌≡◌, refl, ap, ◌∙◌, ◌≢◌, Bool, true, false, Option, none, some, List, [], ◌∷◌, ◌++◌,
  if◌then◌else◌, ◌==◌, length,
}
use zdaq.Base.Memory.{Bytes, cut, cut-append}
use zdaq.Base.Text.{bytes_eq, bytes_eq_ne, bytes_eq_refl}
use zdaq.Json.{Json}

abbrev packed_object : Bytes → Bool
packed_object [] = true
packed_object (t ∷ s) = t == 2

abbrev packed_null : Bytes → Bool
packed_null [] = true
packed_null (t ∷ s) = false

-- The entries of an object, `n` of them.
unfoldable pub lookup : ℕ → Bytes → Bytes → Bytes
unfolding cut
lookup zero k s = []
lookup (suc n) k [] = []
lookup (suc n) k (a ∷ []) = []
lookup (suc n) k (a ∷ b ∷ s) =
    let (name, more) = cut a s in
    let (value, rest) = cut b more in if bytes_eq k name then value else lookup n k rest

abbrev packed_member : Bytes → Bytes → Bytes
packed_member k [] = []
packed_member k (t ∷ []) = []
packed_member k (t ∷ n ∷ s) = lookup n k s

-- A member is there if there is something behind its name.
abbrev packed_has : Bytes → Bytes → Bool
packed_has k o = elim (packed_member k o) [ [] ↦ false | c ∷ s ↦ true ]

abbrev entry : Bytes → Bytes → Bytes → Bytes
entry k v rest = length k ∷ length v ∷ (k ++ (v ++ rest))

abbrev packed_put : Bytes → Bytes → Bytes → Bytes
packed_put k v [] = 2 ∷ 1 ∷ entry k v []
packed_put k v (t ∷ []) = 2 ∷ 1 ∷ entry k v []
packed_put k v (t ∷ n ∷ s) = 2 ∷ suc n ∷ entry k v s

lookup-entry :
    (n : ℕ) (i k v rest : Bytes)
    → lookup (suc n) i (entry k v rest) ≡ (if bytes_eq i k then v else lookup n i rest)
unfolding lookup
lookup-entry n i k v rest = rw (cut-append k (v ++ rest), cut-append v rest) refl

unfoldable pub names_in : ℕ → Bytes → List Bytes
unfolding cut
names_in zero s = []
names_in (suc n) [] = []
names_in (suc n) (a ∷ []) = []
names_in (suc n) (a ∷ b ∷ s) =
    let (name, more) = cut a s in let (value, rest) = cut b more in name ∷ names_in n rest

abbrev packed_names : Bytes → List Bytes
packed_names [] = []
packed_names (t ∷ []) = []
packed_names (t ∷ n ∷ s) = names_in n s

-- An array: its elements, the last one first.
unfoldable pub unpack : ℕ → Bytes → List Bytes
unfolding cut
unpack zero s = []
unpack (suc n) [] = []
unpack (suc n) (a ∷ s) = let (value, rest) = cut a s in unpack n rest ++ value ∷ []

abbrev packed_elements : Bytes → List Bytes
packed_elements [] = []
packed_elements (t ∷ []) = []
packed_elements (t ∷ n ∷ s) = unpack n s

abbrev packed_append : Bytes → Bytes → Bytes
packed_append v [] = 3 ∷ 1 ∷ length v ∷ (v ++ [])
packed_append v (t ∷ []) = 3 ∷ 1 ∷ length v ∷ (v ++ [])
packed_append v (t ∷ n ∷ s) = 3 ∷ suc n ∷ length v ∷ (v ++ s)

unpack-cons :
    (n : ℕ) (v rest : Bytes) → unpack (suc n) (length v ∷ (v ++ rest)) ≡ unpack n rest ++ v ∷ []
unfolding unpack
unpack-cons n v rest = rw (cut-append v rest) refl

abbrev string_of : Bytes → Option Bytes
string_of [] = some []
string_of (t ∷ s) = if t == 1 then some s else none

abbrev uint_of : Bytes → Option ℕ
uint_of [] = some 0
uint_of (t ∷ []) = none
uint_of (t ∷ n ∷ s) = if t == 4 then some n else none

pub packed_member-packed_put : (k v o : Bytes) → packed_member k (packed_put k v o) ≡ v
packed_member-packed_put k v [] = lookup-entry 0 k k v [] ∙ rw (bytes_eq_refl k) refl
packed_member-packed_put k v (t ∷ []) = lookup-entry 0 k k v [] ∙ rw (bytes_eq_refl k) refl
packed_member-packed_put k v (t ∷ n ∷ s) = lookup-entry n k k v s ∙ rw (bytes_eq_refl k) refl

pub packed_member-packed_put_ne :
    (k v i o : Bytes) → i ≢ k → packed_member i (packed_put k v o) ≡ packed_member i o
unfolding lookup
packed_member-packed_put_ne k v i [] ne = lookup-entry 0 i k v [] ∙ rw (bytes_eq_ne i k ne) refl
packed_member-packed_put_ne k v i (t ∷ []) ne =
    lookup-entry 0 i k v [] ∙ rw (bytes_eq_ne i k ne) refl
packed_member-packed_put_ne k v i (t ∷ n ∷ s) ne =
    lookup-entry n i k v s ∙ rw (bytes_eq_ne i k ne) refl

pub packed_object-packed_put : (k v o : Bytes) → packed_object (packed_put k v o) ≡ true
packed_object-packed_put k v [] = refl
packed_object-packed_put k v (t ∷ []) = refl
packed_object-packed_put k v (t ∷ n ∷ s) = refl

pub packed_elements-packed_append :
    (v a : Bytes) {vs : List Bytes}
    → packed_elements a ≡ vs
    → packed_elements (packed_append v a) ≡ vs ++ v ∷ []
unfolding unpack
packed_elements-packed_append v [] h = unpack-cons 0 v [] ∙ ap (λ x. x ++ v ∷ []) h
packed_elements-packed_append v (t ∷ []) h = unpack-cons 0 v [] ∙ ap (λ x. x ++ v ∷ []) h
packed_elements-packed_append v (t ∷ n ∷ s) h = unpack-cons n v s ∙ ap (λ x. x ++ v ∷ []) h

abbrev pub packed : Json Bytes
packed = record {
  null = [];
  text = λ s. 1 ∷ s;
  number = λ n. 4 ∷ n ∷ [];
  signed = λ n. 4 ∷ n ∷ [];
  bool = λ b. 5 ∷ [];
  as_string = string_of;
  as_uint = uint_of;
  as_int = uint_of;
  is_null = packed_null;
  is_object = packed_object;
  has = packed_has;
  names = packed_names;
  member = packed_member;
  put = packed_put;
  append = packed_append;
  elements = packed_elements;
  parse = λ s. some s;
  partial = λ s. [];
  write = λ v. v;
  parse-write = λ v. refl;
  as_string-text = λ s. refl;
  as_uint-number = λ n. refl;
  as_int-number = λ n h. refl;
  is_null-null = refl;
  is_object-null = refl;
  is_object-put = λ k v o h. packed_object-packed_put k v o;
  member-put_self = λ k v o h. packed_member-packed_put k v o;
  member-put_ne = λ k v i o h ne. packed_member-packed_put_ne k v i o ne;
  elements-null = refl;
  elements-append = packed_elements-packed_append;
}
