-- ===== src/Monitoring/Kept.antt =====
-- zmonSupervisor.cxx: what its handlers do to `_running`.
use zdaq.Base.{
  ◌≡◌, ◌∙◌, sym, ap, false, Bool-cases, Option, inl, inr, List, ok, >>=-eq-ok, ok_injective,
  or_fault, thrown,
}
use zdaq.Base.Memory.{Bytes}
use zdaq.Base.Text.{codes}
use zdaq.Json.{Json, has}
use zdaq.Fsm.{Message}
use zdaq.Fsm.Messages.{content, set_answer}
use zdaq.Application.{Environment, create, created_in}
use zdaq.Collector.{taken_over}
use zdaq.Job.Processes.{texts}
use zdaq.Monitoring.{Hardware, Storage, Turns, round}
use zdaq.Monitoring.Supervisor
use zdaq.Monitoring.Supervisor.{Supervisor}
use zdaq.Monitoring.Machines.{with_app}

module _ {J P S : Type 0} (json : Json J) (h : Hardware J P) (t : Storage J S)
    (plugin : Bytes → Option P) (store : Bytes → Option S) where
  load_plugins-running :
      (jc : J) (m : Message J) (w : Supervisor J P S) {prep : J} {w' : Supervisor J P S}
      → Supervisor.load_plugins json h t plugin store jc m w ≡ ok (prep, w')
      → w'.running ≡ w.running
  unfolding Supervisor.load_plugins
  load_plugins-running jc m w e =
      let listed = json.elements (json.member (codes "plugins") jc) in
      let (ps, made, e₁) =
        >>=-eq-ok (Supervisor.register_plugins json plugin listed w.plugins) _ e in
      let (names, read, e₂) = >>=-eq-ok (texts json listed) _ e₁ in
      sym (ap (λ r. r.1.running) (ok_injective e₂))

  load_stores-running :
      (jc : J) (w : Supervisor J P S) (prep : J) {prep' : J} {w' : Supervisor J P S}
      → Supervisor.load_stores json h t plugin store jc w prep ≡ ok (prep', w')
      → w'.running ≡ w.running
  unfolding Supervisor.load_stores
  load_stores-running jc w prep e =
      let (given, asked, e₁) = >>=-eq-ok (has json (codes "stores") jc) _ e in
      elim (Bool-cases given) [
        | inl there ↦
            let (names, read, e₂) =
              >>=-eq-ok (texts json (json.elements (json.member (codes "stores") jc))) _
                (rw there at e₁) in
            sym (ap (λ r. r.1.running) (ok_injective e₂))
        | inr absent ↦ sym (ap (λ r. r.1.running) (ok_injective (rw absent at e₁)))
      ]

  bind_publisher-running :
      (params : J) (w : Supervisor J P S) {w' : Supervisor J P S}
      → Supervisor.bind_publisher json h t plugin store params w ≡ ok w'
      → w'.running ≡ w.running
  bind_publisher-running params w e =
      let (given, asked, e₁) = >>=-eq-ok (has json (codes "TCPPort") params) _ e in
      elim (Bool-cases given) [
        | inl there ↦
            let (port, read, e₂) =
              >>=-eq-ok (or_fault (json.as_uint (json.member (codes "TCPPort") params)) thrown) _
                (rw there at e₁) in
            sym (ap (λ r. r.running) (ok_injective e₂))
        | inr absent ↦ sym (ap (λ r. r.running) (ok_injective (rw absent at e₁)))
      ]

  set_up-running :
      (jc p : J) (m : Message J) (w : Supervisor J P S) {m' : Message J} {w' : Supervisor J P S}
      → Supervisor.set_up json h t plugin store jc p m w ≡ ok (m', w')
      → w'.running ≡ w.running
  unfolding Supervisor.set_up
  set_up-running jc p m w e =
      let (period, read, e₁) =
        >>=-eq-ok (or_fault (json.as_uint (json.member (codes "period") p)) thrown) _ e in
      let (w₁, opened, e₂) =
        >>=-eq-ok (Supervisor.bind_publisher json h t plugin store p (record w { period = period }))
          _ e₁ in
      let (located, found, e₃) = >>=-eq-ok (Supervisor.located_by json jc p) _ e₂ in
      let ((prep, w₂), plugins, e₄) =
        >>=-eq-ok
          (Supervisor.load_plugins json h t plugin store p m
            (record w₁ { app = record w₁.app { param = located } }))
          _ e₃ in
      let ((prep', w₃), stores, e₅) =
        >>=-eq-ok (Supervisor.load_stores json h t plugin store p w₂ prep) _ e₄ in
      let (m₁, answered, e₆) = >>=-eq-ok (set_answer json prep' m) _ e₅ in
      sym (ap (λ r. r.1.running) (ok_injective e₆))
      ∙ load_stores-running p w₂ prep stores
      ∙ load_plugins-running p m (record w₁ { app = record w₁.app { param = located } }) plugins
      ∙ bind_publisher-running p (record w { period = period }) opened

  pub configure-running :
      (m : Message J) (w : Supervisor J P S) {m' : Message J} {w' : Supervisor J P S}
      → Supervisor.configure json h t plugin store m w ≡ ok (m', w')
      → w'.running ≡ w.running
  unfolding Supervisor.configure
  configure-running m w e =
      let (jc, held, e₁) = >>=-eq-ok (content json m) _ e in
      let (p₁, a, e₂) = >>=-eq-ok (taken_over json (codes "TCPPort") jc w.app.param) _ e₁ in
      let (p₂, b, e₃) = >>=-eq-ok (taken_over json (codes "period") jc p₁) _ e₂ in
      let (p₃, c, e₄) = >>=-eq-ok (taken_over json (codes "plugins") jc p₂) _ e₃ in
      let (with_plugins, asked, e₅) = >>=-eq-ok (has json (codes "plugins") p₃) _ e₄ in
      elim (Bool-cases with_plugins) [
        | inr no_plugins ↦ sym (ap (λ r. r.1.running) (ok_injective (rw no_plugins at e₅)))
        | inl plugins ↦
            let (with_period, asked', e₆) =
              >>=-eq-ok (has json (codes "period") p₃) _ (rw plugins at e₅) in
            elim (Bool-cases with_period) [
              | inr no_period ↦ sym (ap (λ r. r.1.running) (ok_injective (rw no_period at e₆)))
              | inl period ↦
                  set_up-running jc p₃ m (record w { app = record w.app { param = p₃ } })
                    (rw period at e₆)
            ]
      ]

  pub create-running :
      (env : Environment) (m : Message J) (w : Supervisor J P S) {m' : Message J}
      {w' : Supervisor J P S}
      → created_in json env (λ w. w.app) (with_app json h t plugin store) m w ≡ ok (m', w')
      → w'.running ≡ w.running
  create-running env m w e =
      let (done, created, e₁) = >>=-eq-ok (create json env m w.app) _ e in
      sym (ap (λ r. r.1.running) (ok_injective e₁))

  pub halt-running :
      (m : Message J) (w : Supervisor J P S) {m' : Message J} {w' : Supervisor J P S}
      → Supervisor.halt json h t plugin store m w ≡ ok (m', w')
      → w'.running ≡ false
  unfolding Supervisor.halt
  halt-running m w e = elim (Bool-cases w.running) [
    | inl on ↦ sym (ap (λ r. r.1.running) (ok_injective (rw on at e)))
    | inr off ↦ sym (ap (λ r. r.1.running) (ok_injective (rw off at e)))
  ]

  pub monitor-running :
      (turns : Turns) (w : Supervisor J P S) {w' : Supervisor J P S} {out : List (Bytes × Bytes)}
      → Supervisor.monitor json h t plugin store turns w ≡ ok (w', out)
      → w'.running ≡ w.running
  unfolding Supervisor.monitor
  monitor-running turns w e = elim (Bool-cases w.running) [
    | inl on ↦
        let (result, made, e₁) =
          >>=-eq-ok (round json h t w.publisher w.app.param turns w.plugins w.stores) _
            (rw (on, Supervisor.monitor) at e) in
        sym (ap (λ r. r.0.running) (ok_injective e₁)) ∙ sym on
    | inr off ↦
        sym (ap (λ r. r.0.running) (ok_injective (rw (off, Supervisor.monitor) at e))) ∙ sym off
  ]
