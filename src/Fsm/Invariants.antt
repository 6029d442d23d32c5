-- ===== src/Fsm/Invariants.antt =====
-- Invariants of a machine: what every callback takes from the initial to the final state of its
-- transition holds in every state that commands lead to.
use zdaq.Base.{
  ◌≡◌, subst, sym, Bool-cases, Option-cases, Result-cases, inl, inr, some, List, [], ◌∷◌, ◌++◌, All,
  All-append, ok,
}
use zdaq.Base.Memory.{Bytes}
use zdaq.Base.Order.{bytes_ord}
use zdaq.Base.Text.{bytes_eq, bytes_eq→eq, codes}
use zdaq.Base.Map.{find}
use zdaq.Base.Entries.{insert-All, update-All, find-All}
use zdaq.Json.{Json}
use zdaq.Fsm.{Message, Transition, Fsm, starting_in, add_transition}
use zdaq.Fsm.Messages.{command}
use zdaq.Fsm.Commands.{
  transition, unknown, misplaced, Outcome, run_transition, refuse, dispatch, failed, done,
  process_command,
}

module _ {J W : Type 0} (json : Json J) (Inv : Bytes → W → Type 0) where
  pub record IsSound (t : Transition J W) : Type 0 where
    pub keeps :
        (m : Message J) (w : W) {m' : Message J} {w' : W}
        → Inv t.initial w
        → t.callback m w ≡ ok (m', w')
        → Inv t.final w'

  abbrev pub AllSound : Fsm J W → Type 0
  AllSound f = All (λ e. All IsSound e.1) f.transitions

  starting_in-IsSound :
      (s : Bytes) (ts : List (Transition J W)) {t : Transition J W}
      → All IsSound ts
      → starting_in s ts ≡ some t
      → IsSound t × (t.initial ≡ s)
  unfolding starting_in
  starting_in-IsSound s [] a h = absurd (cc h)
  starting_in-IsSound s (u ∷ ts) {t} a h = elim (Bool-cases (bytes_eq u.initial s)) [
    | inl here ↦
        let same : u ≡ t = cc (rw (here, starting_in) at h) in
        subst (λ x. IsSound x × (x.initial ≡ s)) same (a.0, bytes_eq→eq u.initial s here)
    | inr later ↦ starting_in-IsSound s ts a.1 (rw (later, starting_in) at h)
  ]

  pub add_transition-AllSound :
      (cmd : Bytes) (t : Transition J W) (f : Fsm J W)
      → IsSound t
      → AllSound f
      → AllSound (add_transition cmd t f)
  unfolding add_transition
  add_transition-AllSound cmd t f sound a = elim (Option-cases (find cmd f.transitions)) [
    | inl missing ↦
        rw (missing, add_transition) (insert-All _ cmd (t ∷ []) f.transitions (sound, tt) a)
    | inr (ts, found) ↦ elim (Option-cases (starting_in t.initial ts)) [
      | inr (u, there) ↦ rw (found, there, add_transition) a
      | inl new ↦
          rw (found, new, add_transition)
            (update-All _ cmd (λ v. v ++ t ∷ []) f.transitions
              (λ j v h. All-append IsSound v (t ∷ []) h (sound, tt)) a)
    ]
  ]

  -- The callback of the transition that a command takes.
  pub transition-IsSound :
      (cmd : Bytes) (f : Fsm J W) {t : Transition J W}
      → AllSound f
      → transition cmd f.state f ≡ some t
      → IsSound t × (t.initial ≡ f.state)
  transition-IsSound cmd f a h = elim (Option-cases (find cmd f.transitions)) [
    | inl missing ↦ absurd (cc (rw (missing, transition) at h))
    | inr (ts, found) ↦
        starting_in-IsSound f.state ts (find-All (All IsSound) cmd f.transitions a found)
          (rw (found, transition) at h)
  ]

  -- The machine still has its sound transitions, and the invariant holds in its state.
  abbrev pub IsGood : Outcome J W → Type 0
  IsGood (r, m, f, w) = AllSound f × Inv f.state w

  refuse-IsGood :
      (reason : Bytes) (m : Message J) (f : Fsm J W) (w : W) {o : Outcome J W}
      → AllSound f
      → Inv f.state w
      → refuse json reason m f w ≡ ok o
      → IsGood o
  refuse-IsGood reason m f w {o} a i h = elim (Result-cases (failed json reason m)) [
    | inr (e, bad) ↦ absurd (cc (rw (bad, refuse) at h))
    | inl (m₁, replied) ↦
        let same : (codes "ERROR", m₁, f, w) ≡ o = cc (rw (replied, refuse) at h) in
        subst IsGood same (a, i)
  ]

  run_transition-IsGood :
      (t : Transition J W) (m : Message J) (f : Fsm J W) (w : W) {o : Outcome J W}
      → IsSound t
      → AllSound f
      → Inv t.initial w
      → run_transition json t m f w ≡ ok o
      → IsGood o
  run_transition-IsGood t m f w {o} sound a i h = elim (Result-cases (t.callback m w)) [
    | inr (e, bad) ↦ absurd (cc (rw (bad, run_transition) at h))
    | inl ((m₁, w₁), called) ↦ elim (Result-cases (done json m₁)) [
      | inr (e, bad) ↦ absurd (cc (rw (called, bad, run_transition) at h))
      | inl (m₂, replied) ↦
          let same : (t.final, m₂, record f { state = t.final }, w₁) ≡ o =
            cc (rw (called, replied, run_transition) at h) in
          subst IsGood same (a, sound.keeps m w i called)
    ]
  ]

  dispatch-IsGood :
      (cmd : Bytes) (m : Message J) (f : Fsm J W) (w : W) {o : Outcome J W}
      → AllSound f
      → Inv f.state w
      → dispatch json cmd m f w ≡ ok o
      → IsGood o
  dispatch-IsGood cmd m f w {o} a i h = elim (Option-cases (find cmd f.transitions)) [
    | inl missing ↦ refuse-IsGood (unknown cmd) m f w a i (rw (missing, dispatch) at h)
    | inr (ts, found) ↦ elim (Option-cases (starting_in f.state ts)) [
      | inl absent ↦
          refuse-IsGood (misplaced f.state cmd) m f w a i (rw (found, absent, dispatch) at h)
      | inr (t, there) ↦
          let (sound, from) =
            starting_in-IsSound f.state ts (find-All (All IsSound) cmd f.transitions a found)
              there in
          run_transition-IsGood t m f w sound a (subst (λ s. Inv s w) (sym from) i)
            (rw (found, there, dispatch) at h)
    ]
  ]

  -- A machine whose transitions are sound keeps an invariant of its state and its object, whatever
  -- commands it is given.
  pub process_command-IsGood :
      (m : Message J) (f : Fsm J W) (w : W) {o : Outcome J W}
      → AllSound f
      → Inv f.state w
      → process_command json m f w ≡ ok o
      → IsGood o
  unfolding process_command
  process_command-IsGood m f w {o} a i h = elim (Result-cases (command json m)) [
    | inr (e, bad) ↦ absurd (cc (rw (bad, process_command) at h))
    | inl (cmd, named) ↦ dispatch-IsGood cmd m f w a i (rw (named, process_command) at h)
  ]
