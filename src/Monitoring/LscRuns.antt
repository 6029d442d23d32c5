-- ===== src/Monitoring/LscRuns.antt =====
-- lsc.cxx over time: the daemon monitors exactly in the state RUNNING.
use zdaq.Base.{
  ◌≡◌, refl, ◌∙◌, sym, ap, subst, ℕ, Bool-cases, Option, Option-cases, inl, inr, List, ◌∷◌, ok,
  >>=-eq-ok, ok_injective,
}
use zdaq.Base.Memory.{Bytes}
use zdaq.Base.Text.{codes, bytes_eq, bytes_eq→eq}
use zdaq.Json.{Json}
use zdaq.Fsm
use zdaq.Fsm.{Message, Transition, Fsm, add_transition, add_state, set_state}
use zdaq.Fsm.Invariants.{AllSound, add_transition-AllSound}
use zdaq.Fsm.Runs.{Run, Run-Inv}
use zdaq.Web
use zdaq.Web.{Web, Request, add_command}
use zdaq.Application.{Environment}
use zdaq.Monitoring.{Hardware, Storage, Turns, round, with_location}
use zdaq.Monitoring.Lsc
use zdaq.Monitoring.Lsc.{Lsc}
use zdaq.Monitoring.Machines.{lsc_transitions, make_lsc}

module _ {J P S : Type 0} (json : Json J) (h : Hardware J P) (t : Storage J S)
    (plugin : Bytes → Option P) (store : Bytes → Option S) where
  -- The daemon monitors exactly in the state RUNNING.
  pub record IsLscInStep (s : Bytes) (l : Lsc J P S) : Type 0 where
    pub runs : l.running ≡ bytes_eq s (codes "RUNNING")

  -- A round of its thread, or a request for its status.
  pub data LscStep (l l' : Lsc J P S) : Type 0 where
    monitors :
        (turns : Turns) (out : List (Bytes × Bytes))
        → Lsc.monitor json h t plugin store turns l ≡ ok (l', out)
        → LscStep l l'
    reports : l' ≡ (Lsc.status json h l).1 → LscStep l l'

  parse_defaults-running :
      (conf : Bytes) (m : Message J) (l : Lsc J P S) {l' : Lsc J P S}
      → Lsc.parse_defaults json h t plugin store conf m l ≡ ok l'
      → l'.running ≡ l.running
  unfolding Lsc.parse_defaults
  parse_defaults-running conf m l e = elim (Option-cases (json.parse conf)) [
    | inl unread ↦ let e₁ = rw (unread, Lsc.parse_defaults) at e in cc e₁
    | inr (params, read) ↦
        let (stores, loaded, e₁) =
          >>=-eq-ok (Lsc.load_stores json h t plugin store params l.stores) _
            (rw (read, Lsc.parse_defaults) at e) in
        let (publisher, opened, e₂) = >>=-eq-ok (Lsc.bind_publisher json params l.publisher) _ e₁ in
        let (located, kept, e₃) = >>=-eq-ok (with_location json params) _ e₂ in
        let (params', listed, e₄) = >>=-eq-ok (Lsc.with_plugins json located) _ e₃ in
        let (plugins, made, e₅) =
          >>=-eq-ok (Lsc.load_plugins json h t plugin store m params' l.plugins) _ e₄ in
        sym (ap (λ l. l.running) (ok_injective e₅))
  ]

  configure-InStep :
      (conf : Bytes) (m : Message J) (l : Lsc J P S) {m' : Message J} {l' : Lsc J P S}
      → Lsc.configure json h t plugin store conf m l ≡ ok (m', l')
      → l'.running ≡ l.running
  unfolding Lsc.configure
  configure-InStep conf m l {m'} {l'} e =
      let (l₁, parsed, e₁) = >>=-eq-ok (Lsc.parse_defaults json h t plugin store conf m l) _ e in
      let same : l₁ ≡ l' = ap (λ r. r.1) (ok_injective e₁) in
      subst (λ k. k.running ≡ l.running) same (parse_defaults-running conf m l parsed)

  monitor-InStep :
      (turns : Turns) (l : Lsc J P S) {l' : Lsc J P S} {out : List (Bytes × Bytes)}
      → Lsc.monitor json h t plugin store turns l ≡ ok (l', out)
      → l'.running ≡ l.running
  unfolding Lsc.monitor
  monitor-InStep turns l e = elim (Bool-cases l.running) [
    | inl on ↦
        let (result, made, e₁) =
          >>=-eq-ok (round json h t l.publisher l.params turns l.plugins l.stores) _
            (rw (on, Lsc.monitor) at e) in
        cc e₁
    | inr off ↦ let e₁ = rw (off, Lsc.monitor) at e in cc e₁
  ]

  LscStep-InStep :
      (s : Bytes) (l l' : Lsc J P S) → IsLscInStep s l → LscStep l l' → IsLscInStep s l'
  unfolding Lsc.status
  LscStep-InStep s l l' i (monitors turns out e) = record {
    runs = monitor-InStep turns l e ∙ i.runs;
  }
  LscStep-InStep s l l' i (reports e) = record { runs = cc (e, i.runs) }

  make_lsc-Sound :
      (conf : Bytes) (env : Environment) (name : Bytes) (port : ℕ)
      → AllSound json IsLscInStep (make_lsc json h t plugin store conf env name port).fsm
  unfolding make_lsc Web.make Web.start lsc_transitions Fsm.make add_state set_state add_command
      Lsc.start Lsc.stop bytes_eq
  make_lsc-Sound conf env name port =
      add_transition-AllSound json IsLscInStep _ _ _
        (record { keeps = λ m l i e. record { runs = cc e } })
        (add_transition-AllSound json IsLscInStep _ _ _
          (record { keeps = λ m l i e. record { runs = cc e } })
          (add_transition-AllSound json IsLscInStep _ _ _
            (record { keeps = λ m l i e. record { runs = configure-InStep conf m l e ∙ i.runs } })
            tt))

  make_lsc-state :
      (conf : Bytes) (env : Environment) (name : Bytes) (port : ℕ)
      → (make_lsc json h t plugin store conf env name port).fsm.state ≡ codes "VOID"
  unfolding make_lsc Web.make Web.start lsc_transitions Fsm.make add_state set_state add_command
  make_lsc-state conf env name port = refl

  -- Whatever commands and requests a daemon is given, and whatever rounds it makes in between: a round
  -- that publishes anything is made in the state RUNNING.
  pub publishing-running :
      (conf : Bytes) (env : Environment) (name : Bytes) (port : ℕ) {f : Fsm J (Lsc J P S)}
      {l l' : Lsc J P S} (turns : Turns) (message : Bytes × Bytes) (rest : List (Bytes × Bytes))
      → Run json LscStep (make_lsc json h t plugin store conf env name port).fsm (Lsc.make json) f l
      → Lsc.monitor json h t plugin store turns l ≡ ok (l', message ∷ rest)
      → f.state ≡ codes "RUNNING"
  unfolding Lsc.make Lsc.monitor bytes_eq
  publishing-running conf env name port {f} {l} turns message rest run e =
      let (sound, i) =
        Run-Inv json LscStep IsLscInStep LscStep-InStep (make_lsc-Sound conf env name port)
          (rw (make_lsc-state conf env name port) (record { runs = refl })) run in
      elim (Bool-cases l.running) [
        | inl on ↦ bytes_eq→eq f.state (codes "RUNNING") (sym i.runs ∙ on)
        | inr off ↦ let e₁ = rw (off, Lsc.monitor) at e in absurd (cc e₁)
      ]
