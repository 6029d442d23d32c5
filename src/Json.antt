-- ===== src/Json.antt =====
-- jsoncpp, which the state machines and the job control call and the repository does not hold: the
-- values of type `J` that `Json::Value` stands for. What is assumed of it is what its documentation
-- says: a written value is read back, a member that was set is found again, an element that was
-- appended comes last. `member` is `operator[]`, null where there is no such member; it throws where
-- the value is no object (and not null), which the code that calls it writes out. `partial` is what
-- the reader leaves of a text that is no document, `as_int` gives the bit pattern of an
-- `int`, and `signed` is the value of one.
pub mod Packed
use zdaq.Base.{
  ℕ, ◌^◌, ◌<◌, ◌≡◌, refl, ◌≢◌, Bool, true, Option, none, some, List, [], ◌∷◌, ◌++◌, if◌then◌else◌,
  Result, ok, err, thrown,
}
use zdaq.Base.Memory.{Bytes}

pub record Json (J : Type 0) : Type 0 where
  pub null : J
  pub text : Bytes → J
  pub number : ℕ → J
  pub signed : ℕ → J
  pub bool : Bool → J
  pub as_string : J → Option Bytes
  pub as_uint : J → Option ℕ
  pub as_int : J → Option ℕ
  pub is_null : J → Bool
  pub is_object : J → Bool
  pub has : Bytes → J → Bool
  pub names : J → List Bytes
  pub member : Bytes → J → J
  pub put : Bytes → J → J → J
  pub append : J → J → J
  pub elements : J → List J
  pub parse : Bytes → Option J
  pub partial : Bytes → J
  pub write : J → Bytes
  pub parse-write : (v : J) → parse (write v) ≡ some v
  pub as_string-text : (s : Bytes) → as_string (text s) ≡ some s
  pub as_uint-number : (n : ℕ) → as_uint (number n) ≡ some n
  pub as_int-number : (n : ℕ) → n < 2 ^ 31 → as_int (number n) ≡ some n
  pub is_null-null : is_null null ≡ true
  pub is_object-null : is_object null ≡ true
  pub is_object-put : (k : Bytes) (v o : J) → is_object o ≡ true → is_object (put k v o) ≡ true
  pub member-put_self : (k : Bytes) (v o : J) → is_object o ≡ true → member k (put k v o) ≡ v
  pub member-put_ne :
      (k : Bytes) (v : J) (i : Bytes) (o : J)
      → is_object o ≡ true
      → i ≢ k
      → member i (put k v o) ≡ member i o
  pub elements-null : elements null ≡ []
  pub elements-append :
      (v : J) (a : J) {vs : List J} → elements a ≡ vs → elements (append v a) ≡ vs ++ v ∷ []

module _ {J : Type 0} (json : Json J) where
  -- `reader.parse(s, v)`, with the value that it leaves.
  abbrev pub parsed : Bytes → J
  parsed s = elim (json.parse s) [ none ↦ json.partial s | some v ↦ v ]

  -- What was written is read back.
  pub parsed-write : (v : J) → parsed (json.write v) ≡ v
  parsed-write v = rw (parsed, json.parse-write v) refl

-- `o[k]`, `o[k] = v` and `o.isMember(k)`.
module _ {J : Type 0} (json : Json J) where
  abbrev pub get : Bytes → J → Result J
  get k o = if json.is_object o then ok (json.member k o) else err thrown

  abbrev pub assign : Bytes → J → J → Result J
  assign k v o = if json.is_object o then ok (json.put k v o) else err thrown

  abbrev pub has : Bytes → J → Result Bool
  has k o = if json.is_object o then ok (json.has k o) else err thrown
