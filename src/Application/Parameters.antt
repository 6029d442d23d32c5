-- ===== src/Application/Parameters.antt =====
-- src/baseApplication.cc: which parameters `create` takes from a configuration, and the commands that
-- read and set them.
use zdaq.Base.{
  ℕ, ◌∙◌, Option-cases, ◌≡◌, refl, ap, sym, ◌⊎◌, inl, inr, Bool, true, false, Bool-cases, some,
  arith, List, [], ◌∷◌, ok, >>=-eq-ok,
}
use zdaq.Base.Memory.{Bytes}
use zdaq.Base.Order.{bytes_ord, bytes_lt}
use zdaq.Base.Text.{codes, bytes_eq, bytes_eq→eq}
use zdaq.Base.Map
use zdaq.Json.{Json, has}
use zdaq.Configs.{member_text}
use zdaq.Web
use zdaq.Web.{Request, Web, param, handle_request}
use zdaq.Application.{
  c_setparameter, c_getparameter, add_command, App, Environment, with_numbers, with_its_name,
  parameters_of, numbers_of, find_parameters, with_status, make_web,
}

module _ {J : Type 0} (json : Json J) (app : App J) where
  -- The process of a configuration that is this one, and its parameters.
  pub record IsMine (p b : J) : Type 0 where
    pub named : member_text json (codes "NAME") b ≡ ok app.process_name
    pub numbered : numbers_of json b ≡ ok (app.port, app.instance_id)
    pub has_parameter : has json (codes "PARAMETER") b ≡ ok true
    pub parameter : p ≡ json.member (codes "PARAMETER") b

  abbrev pub Exists : (J → Type 0) → List J → Type 0
  Exists P [] = ◌≡◌ {A = Bool} true false
  Exists P (b ∷ bs) = P b ⊎ Exists P bs

  with_numbers-IsMine :
      (b : J) (numbers : ℕ × ℕ) {p : J}
      → with_numbers json app b numbers ≡ ok (some p)
      → (numbers ≡ (app.port, app.instance_id))
        × (has json (codes "PARAMETER") b ≡ ok true)
        × (p ≡ json.member (codes "PARAMETER") b)
  with_numbers-IsMine b (port, instance_id) h = ground arith

  with_its_name-IsMine :
      (b : J) (name : Bytes) {p : J}
      → member_text json (codes "NAME") b ≡ ok name
      → with_its_name json app b name ≡ ok (some p)
      → IsMine p b
  with_its_name-IsMine b name named h = elim (Bool-cases (bytes_eq name app.process_name)) [
    | inr other ↦ absurd (cc (rw (other, with_its_name) at h))
    | inl mine ↦
        let (numbers, numbered, h₁) =
          >>=-eq-ok (numbers_of json b) _ (rw (mine, with_its_name) at h) in
        let (same, has_parameter, parameter) = with_numbers-IsMine b numbers h₁ in
        record {
          named = named ∙ ap ok (bytes_eq→eq name app.process_name mine);
          numbered = numbered ∙ ap ok same;
          has_parameter = has_parameter;
          parameter = parameter;
        }
  ]

  parameters_of-IsMine : (b : J) {p : J} → parameters_of json app b ≡ ok (some p) → IsMine p b
  unfolding parameters_of
  parameters_of-IsMine b h =
      let (with_name, there, h₁) = >>=-eq-ok (has json (codes "NAME") b) _ h in
      elim (Bool-cases with_name) [
        | inr nameless ↦ absurd (cc (rw nameless at h₁))
        | inl with_one ↦
            let (name, named, h₂) =
              >>=-eq-ok (member_text json (codes "NAME") b) _ (rw with_one at h₁) in
            with_its_name-IsMine b name named h₂
      ]

  -- The parameters that `create` finds are those of a process in the list with the name, the port and
  -- the instance of the application, or they are the ones that it had before.
  pub find_parameters-Exists :
      (bs : List J) {p : J}
      → find_parameters json app bs ≡ ok p
      → Exists (IsMine p) bs ⊎ (p ≡ app.param)
  unfolding find_parameters
  find_parameters-Exists [] h = inr (sym (cc h))
  find_parameters-Exists (b ∷ bs) {p} h =
      let (found, searched, h₁) = >>=-eq-ok (parameters_of json app b) _ h in
      elim (Option-cases found) [
        | inr (q, this) ↦
            let same : q ≡ p = cc (rw this at h₁) in
            inl (inl (parameters_of-IsMine b (searched ∙ (ap ok (this ∙ ap some same)))))
        | inl nothing ↦ elim (find_parameters-Exists bs (rw nothing at h₁)) [
          | inl later ↦ inl (inr later)
          | inr before ↦ inr before
        ]
      ]

-- What the server answers to a command that was carried out.
abbrev pub ok_answer : {J : Type 0} → Json J → J → J
ok_answer json rep =
    json.put (codes "status") (json.text (codes "OK")) (json.put (codes "answer") rep json.null)

module _ {J : Type 0} (json : Json J) {W : Type 0} (env : Environment) (app_of : W → App J)
    (put : App J → W → W) (name : Bytes) where
  abbrev pub server : Web J W
  server = make_web json env app_of put name

  set_command :
      (request : Request) (w : W)
      → param request (codes "name") (codes "NOTSET") ≡ codes "SETPARAM"
      → handle_request json request server w ≡ (
          let (rep, app) = c_setparameter json request (app_of w) in
          ok (ok_answer json rep, put app w))
  unfolding handle_request make_web bytes_eq Map.find Map.insert bytes_lt Web.add_command Web.make
  set_command request w named = rw named refl

  get_command :
      (request : Request) (w : W)
      → param request (codes "name") (codes "NOTSET") ≡ codes "GETPARAM"
      → handle_request json request server w
        ≡ ok (ok_answer json (c_getparameter json (app_of w)), w)
  unfolding handle_request make_web bytes_eq Map.find Map.insert bytes_lt Web.add_command Web.make
  get_command request w named = rw named refl

  -- After a SETPARAM with a text that is JSON and not null, the object has these parameters and is
  -- otherwise as it was, and a GETPARAM answers them.
  pub getparameter-setparameter :
      ((app : App J) (w : W) → app_of (put app w) ≡ app)
      → (setting getting : Request) (text : Bytes) (w : W) {v : J}
      → param setting (codes "name") (codes "NOTSET") ≡ codes "SETPARAM"
      → param setting (codes "PARAMETER") (codes "NONE") ≡ text
      → bytes_eq text (codes "NONE") ≡ false
      → json.parse text ≡ some v
      → json.is_null v ≡ false
      → param getting (codes "name") (codes "NOTSET") ≡ codes "GETPARAM"
      → let w' = put (record (app_of w) { param = v }) w in
        let rep = json.put (codes "PARAMETER") v (with_status json (codes "DONE")) in
        (handle_request json setting server w ≡ ok (ok_answer json rep, w'))
        × (handle_request json getting server w' ≡ ok (ok_answer json rep, w'))
  unfolding c_setparameter c_getparameter
  getparameter-setparameter held setting getting text w {v} s₁ s₂ s₃ parsed not_null g =
      let app' : App J = record (app_of w) { param = v } in
      let w' = put app' w in
      (
        set_command setting w s₁ ∙ rw (s₂, s₃, parsed) refl,
        get_command getting w' g ∙ rw (held app' w, not_null) refl,
      )
