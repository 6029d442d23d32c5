-- ===== src/Fsm/Table.antt =====
-- The transitions as a partial function of a command and a state, and the list of the commands that
-- are allowed.
use zdaq.Base.{
  ◌≡◌, ◌≢◌, refl, ◌∙◌, sym, subst, ◌&&◌, Option, none, some, List, [], ◌∷◌, ◌++◌, if◌then◌else◌,
  Bool-cases, Option-cases, inl, inr,
}
use zdaq.Base.Memory.{Bytes}
use zdaq.Base.Order.{bytes_ord}
use zdaq.Base.Text.{bytes_eq, bytes_eq→eq, bytes_eq→ne}
use zdaq.Base.Map.{
  find, IsSorted, find-insert_self, find-insert_ne, find-update_self, find-update_ne,
  insert-IsSorted, update-IsSorted,
}
use zdaq.Fsm.{Transition, Fsm, starting_in, add_transition}
use zdaq.Fsm.Commands.{transition}

-- The first of two.
abbrev pub or_else {ℓ} : {A : Type ℓ} → Option A → Option A → Option A
or_else none later = later
or_else (some a) later = some a

module _ {J W : Type 0} where
  starting_in-append :
      (s : Bytes) (ts : List (Transition J W)) (t : Transition J W)
      → starting_in s (ts ++ t ∷ [])
        ≡ or_else (starting_in s ts) (if bytes_eq t.initial s then some t else none)
  unfolding starting_in
  starting_in-append s [] t = refl
  starting_in-append s (u ∷ ts) t = elim (Bool-cases (bytes_eq u.initial s)) [
    | inl here ↦ rw here refl
    | inr later ↦ rw later (starting_in-append s ts t)
  ]

  -- Once a list has a transition out of the state, no later one counts.
  or_else-starting_in :
      (s : Bytes) (ts : List (Transition J W)) (t : Transition J W) {u : Transition J W}
      → starting_in t.initial ts ≡ some u
      → or_else (starting_in s ts) (if bytes_eq t.initial s then some t else none)
        ≡ starting_in s ts
  or_else-starting_in s ts t {u} there = elim (Bool-cases (bytes_eq t.initial s)) [
    | inr differ ↦ rw differ (plain (starting_in s ts))
    | inl same ↦
        let here : starting_in s ts ≡ some u =
          subst (λ x. starting_in x ts ≡ some u) (bytes_eq→eq t.initial s same) there in
        rw here refl
  ]
    where
      plain : (o : Option (Transition J W)) → or_else o none ≡ o
      plain none = refl
      plain (some x) = refl

  transition_same :
      (s cmd : Bytes) (t : Transition J W) (f : Fsm J W)
      → transition cmd s (add_transition cmd t f)
        ≡ or_else (transition cmd s f) (if bytes_eq t.initial s then some t else none)
  unfolding add_transition
  transition_same s cmd t f = elim (Option-cases (find cmd f.transitions)) [
    | inl missing ↦
        rw
          (missing, add_transition, transition, find-insert_self cmd (t ∷ []) f.transitions missing)
          (unfold starting_in in refl)
    | inr (ts, found) ↦ elim (Option-cases (starting_in t.initial ts)) [
      | inl new ↦
          rw
            (
              found,
              new,
              add_transition,
              transition,
              find-update_self cmd (λ v. v ++ t ∷ []) f.transitions found,
            )
            (starting_in-append s ts t)
      | inr (u, there) ↦
          rw (found, there, add_transition)
            (rw (found, transition) (sym (or_else-starting_in s ts t there)))
    ]
  ]

  transition_other :
      (c s cmd : Bytes) (t : Transition J W) (f : Fsm J W)
      → c ≢ cmd
      → transition c s (add_transition cmd t f) ≡ transition c s f
  unfolding add_transition
  transition_other c s cmd t f ne = elim (Option-cases (find cmd f.transitions)) [
    | inl missing ↦
        rw (missing, add_transition, transition, find-insert_ne cmd (t ∷ []) c f.transitions ne)
          refl
    | inr (ts, found) ↦ elim (Option-cases (starting_in t.initial ts)) [
      | inl new ↦
          rw
            (
              found,
              new,
              add_transition,
              transition,
              find-update_ne cmd (λ v. v ++ t ∷ []) c f.transitions ne,
            )
            refl
      | inr (u, there) ↦ rw (found, there, add_transition) refl
    ]
  ]

  -- A command that is added has its transition out of its state, unless it had one there before; every
  -- other command, and every other state, keeps what it had.
  pub transition-add_transition :
      (c s cmd : Bytes) (t : Transition J W) (f : Fsm J W)
      → transition c s (add_transition cmd t f)
        ≡ or_else
            (transition c s f)
            (if bytes_eq c cmd && bytes_eq t.initial s then some t else none)
  transition-add_transition c s cmd t f = elim (Bool-cases (bytes_eq c cmd)) [
    | inl same ↦ rw same (
        subst
          (λ x.
            transition x s (add_transition cmd t f)
            ≡ or_else (transition x s f) (if bytes_eq t.initial s then some t else none))
          (sym (bytes_eq→eq c cmd same)) (transition_same s cmd t f))
    | inr differ ↦
        rw differ
          (transition_other c s cmd t f (bytes_eq→ne c cmd differ) ∙ sym (plain (transition c s f)))
  ]
    where
      plain : (o : Option (Transition J W)) → or_else o none ≡ o
      plain none = refl
      plain (some x) = refl

  pub add_transition-IsSorted :
      (cmd : Bytes) (t : Transition J W) (f : Fsm J W)
      → IsSorted f.transitions
      → IsSorted (add_transition cmd t f).transitions
  unfolding add_transition
  add_transition-IsSorted cmd t f sorted = elim (Option-cases (find cmd f.transitions)) [
    | inl missing ↦ rw (missing, add_transition) (insert-IsSorted cmd (t ∷ []) f.transitions sorted)
    | inr (ts, found) ↦ elim (Option-cases (starting_in t.initial ts)) [
      | inl new ↦
          rw (found, new, add_transition)
            (update-IsSorted cmd (λ v. v ++ t ∷ []) f.transitions sorted)
      | inr (u, there) ↦ rw (found, there, add_transition) sorted
    ]
  ]
