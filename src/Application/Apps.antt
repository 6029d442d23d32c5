-- ===== src/Application/Apps.antt =====
-- src/baseApplication.cc, `findApps`: the web clients of the applications of a name.
use zdaq.Base.{
  ℕ, ◌≡◌, ◌≢◌, refl, Bool, false, ◌&&◌, not, ◌==◌, if◌then◌else◌, Bool-cases, Result-cases, inl,
  inr, arith, List, [], ◌∷◌, ◌++◌, All, All-append, Result, ok, err, ◌>>=◌, ◌>>◌, guard, >>=-eq-ok,
  or_fault, thrown, subst,
}
use zdaq.Base.Memory.{Bytes}
use zdaq.Base.Text.{codes, bytes_eq, first_chars, chars_from}
use zdaq.Json.{Json, get}
use zdaq.Configs.{number_of, member_text}
use zdaq.Caller.{Caller}
use zdaq.Caller.Queries
use zdaq.Application.{App}

module _ {J : Type 0} (json : Json J) (page : Bytes → Bytes) where
  -- The first WEBPORT, 0 without one.
  unfoldable pub web_port : List J → Result ℕ
  web_port [] = ok 0
  web_port (v ∷ vs) = do
    envp ← or_fault (json.as_string v) thrown
    if bytes_eq (first_chars 7 envp) (codes "WEBPORT")
        then (do digits ← chars_from 8 envp; ok (number_of digits))
        else web_port vs

  abbrev pub is_self : Bytes → ℕ → App J → Bool
  is_self host port app = port == app.port && bytes_eq host app.hostname

  abbrev pub caller_at : Bytes → ℕ → App J → Result (List (Caller J))
  caller_at host port app =
      if port == 0
      then ok []
      else if is_self host port app
      then ok []
      else (do c ← Queries.make json page host port; ok (c ∷ []))

  -- The caller of one process, if it has the name, a port, and is not the application itself.
  unfoldable pub caller_of : Bytes → Bytes → App J → J → Result (List (Caller J))
  caller_of aname host app process = do
    p_name ← member_text json (codes "NAME") process
    if not (bytes_eq p_name aname) then ok [] else (do
      env ← get json (codes "ENV") process
      port ← web_port (json.elements env)
      caller_at host port app)

  unfoldable pub callers_on : Bytes → Bytes → App J → List J → Result (List (Caller J))
  callers_on aname host app [] = ok []
  callers_on aname host app (process ∷ rest) = do
    cs ← caller_of aname host app process
    more ← callers_on aname host app rest
    ok (cs ++ more)

  unfoldable pub callers_from : Bytes → J → App J → List Bytes → Result (List (Caller J))
  callers_from aname hosts app [] = ok []
  callers_from aname hosts app (host ∷ rest) = do
    cs ← callers_on aname host app (json.elements (json.member host hosts))
    more ← callers_from aname hosts app rest
    ok (cs ++ more)

  unfoldable pub find_apps : Bytes → App J → Result (App J)
  find_apps aname app = do
    hosts ← get json (codes "HOSTS") app.config
    guard (json.is_object hosts) thrown
    found ← callers_from aname hosts app (json.names hosts)
    ok (record app { apps = found })

  -- A caller of another application that has a port.
  abbrev pub IsOther : App J → Caller J → Type 0
  IsOther app c = (c.port ≢ 0) × (is_self c.host c.port app ≡ false)

  make_kept :
      (host : Bytes) (port : ℕ) {c : Caller J}
      → Queries.make json page host port ≡ ok c
      → (c.host ≡ host) × (c.port ≡ port)
  unfolding Queries.make
  make_kept host port h = ground arith

  caller_at-All :
      (host : Bytes) (port : ℕ) (app : App J) {cs : List (Caller J)}
      → caller_at host port app ≡ ok cs
      → All (IsOther app) cs
  caller_at-All host port app {cs} h = elim (Bool-cases (port == 0)) [
    | inl no_port ↦
        let same : [] ≡ cs = cc (rw (no_port, caller_at) at h) in subst (All (IsOther app)) same tt
    | inr with_port ↦ elim (Bool-cases (is_self host port app)) [
      | inl itself ↦
          let same : [] ≡ cs = cc (rw (with_port, itself, caller_at) at h) in
          subst (All (IsOther app)) same tt
      | inr other ↦ elim (Result-cases (Queries.make json page host port)) [
        | inr (e, bad) ↦ absurd (cc (rw (with_port, other, bad, caller_at) at h))
        | inl (c, made) ↦
            let same : c ∷ [] ≡ cs = cc (rw (with_port, other, made, caller_at) at h) in
            let (named, at_port) = make_kept host port made in
            let is_other : IsOther app c =
              (ground (arith, with_port, at_port), rw (named, at_port) other) in
            subst (All (IsOther app)) same (is_other, tt)
      ]
    ]
  ]

  caller_of-All :
      (aname host : Bytes) (app : App J) (process : J) {cs : List (Caller J)}
      → caller_of aname host app process ≡ ok cs
      → All (IsOther app) cs
  unfolding caller_of
  caller_of-All aname host app process {cs} h =
      let (p_name, named, h₁) = >>=-eq-ok (member_text json (codes "NAME") process) _ h in
      elim (Bool-cases (bytes_eq p_name aname)) [
        | inr other ↦ let same : [] ≡ cs = cc (rw other at h₁) in subst (All (IsOther app)) same tt
        | inl wanted ↦
            let h₂ = rw wanted at h₁ in
            let (env, found, h₃) = >>=-eq-ok (get json (codes "ENV") process) _ h₂ in
            let (port, scanned, h₄) = >>=-eq-ok (web_port (json.elements env)) _ h₃ in
            caller_at-All host port app h₄
      ]

  -- Two parts of a result that both hold only elements of a kind.
  both-All :
      {A : Type 0} (P : A → Type 0) (m n : Result (List A)) {out : List A}
      → ((xs : List A) → m ≡ ok xs → All P xs)
      → ((xs : List A) → n ≡ ok xs → All P xs)
      → (do xs ← m; ys ← n; ok (xs ++ ys)) ≡ ok out
      → All P out
  both-All P (err e) n hm hn h = absurd (cc h)
  both-All P (ok xs) (err e) hm hn h = absurd (cc h)
  both-All P (ok xs) (ok ys) {out} hm hn h =
      let same : xs ++ ys ≡ out = cc h in
      subst (All P) same (All-append P xs ys (hm xs refl) (hn ys refl))

  callers_on-All :
      (aname host : Bytes) (app : App J) (processes : List J) {cs : List (Caller J)}
      → callers_on aname host app processes ≡ ok cs
      → All (IsOther app) cs
  unfolding callers_on
  callers_on-All aname host app [] {cs} h =
      let same : [] ≡ cs = cc h in subst (All (IsOther app)) same tt
  callers_on-All aname host app (process ∷ rest) h =
      both-All (IsOther app) (caller_of aname host app process) (callers_on aname host app rest)
        (λ xs e. caller_of-All aname host app process e)
        (λ xs e. callers_on-All aname host app rest e) h

  callers_from-All :
      (aname : Bytes) (hosts : J) (app : App J) (names : List Bytes) {cs : List (Caller J)}
      → callers_from aname hosts app names ≡ ok cs
      → All (IsOther app) cs
  unfolding callers_from
  callers_from-All aname hosts app [] {cs} h =
      let same : [] ≡ cs = cc h in subst (All (IsOther app)) same tt
  callers_from-All aname hosts app (host ∷ rest) h =
      both-All (IsOther app) (callers_on aname host app (json.elements (json.member host hosts)))
        (callers_from aname hosts app rest)
        (λ xs e. callers_on-All aname host app (json.elements (json.member host hosts)) e)
        (λ xs e. callers_from-All aname hosts app rest e) h

  -- No caller that is found has port 0, and none is that of the application itself: the same host and
  -- the same port. Nothing but the list of callers changes.
  pub find_apps-All :
      (aname : Bytes) (app : App J) {app' : App J}
      → find_apps aname app ≡ ok app'
      → All (IsOther app) app'.apps × (app' ≡ record app { apps = app'.apps })
  unfolding find_apps
  find_apps-All aname app {app'} h =
      let (hosts, held, h₁) = >>=-eq-ok (get json (codes "HOSTS") app.config) _ h in
      let (done, object, h₂) = >>=-eq-ok (guard (json.is_object hosts) thrown) _ h₁ in
      let (found, searched, h₃) =
        >>=-eq-ok (callers_from aname hosts app (json.names hosts)) _ h₂ in
      let same : record app { apps = found } ≡ app' = cc h₃ in
      subst (λ (a : App J). All (IsOther app) a.apps × (a ≡ record app { apps = a.apps })) same
        (callers_from-All aname hosts app (json.names hosts) searched, refl)
