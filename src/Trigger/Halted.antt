-- ===== src/Trigger/Halted.antt =====
-- softTrigger.cxx: a trigger that is halted and configured again.
use zdaq.Base.{
  Bool, ℕ, ◌≡◌, refl, ◌∙◌, ap, sym, true, false, Bool-cases, inl, inr, if◌then◌else◌, List, ok, err,
  >>=-eq-ok, ok_injective, indeterminate,
}
use zdaq.Base.Text.{codes}
use zdaq.Json.{Json}
use zdaq.Fsm.{Message}
use zdaq.Fsm.Messages.{content}
use zdaq.Collector.{taken_over}
use zdaq.Monitor.{Publisher}
use zdaq.Trigger.{
  Trigger, live, deleted, number_at, text_or, are_given, set_up, configure, round, start, halt,
  any_lags, held_by, freed, stopped,
}

module _ {J : Type 0} (json : Json J) where
  set_up-deleted :
      (p : J) (t : Trigger J) {t' : Trigger J}
      → set_up json p t ≡ ok t'
      → t.publisher ≡ deleted
      → t'.publisher ≡ deleted
  unfolding set_up
  set_up-deleted p t h gone =
      let (a, ra, h₁) = >>=-eq-ok (number_at json (codes "microsleep") p) _ h in
      let (b, rb, h₂) = >>=-eq-ok (number_at json (codes "tcpPort") p) _ h₁ in
      let (c, rc, h₃) = >>=-eq-ok (number_at json (codes "datasize") p) _ h₂ in
      let (d, rd, h₄) = >>=-eq-ok (number_at json (codes "ntrg") p) _ h₃ in
      let (l, rl, h₅) = >>=-eq-ok (text_or json (codes "location") p t.location) _ h₄ in
      let (w, read, h₆) = >>=-eq-ok (text_or json (codes "hardware") p t.hardware) _ h₅ in
      sym (ap (λ s. s.publisher) (ok_injective h₆)) ∙ ap (λ x. held_by json w l x) gone

  configure-deleted :
      (m : Message J) (t : Trigger J) {m' : Message J} {t' : Trigger J}
      → configure json m t ≡ ok (m', t')
      → t.publisher ≡ deleted
      → t'.publisher ≡ deleted
  unfolding configure
  configure-deleted m t h gone =
      let (jc, held, h₁) = >>=-eq-ok (content json m) _ h in
      let (p₁, a, h₂) = >>=-eq-ok (taken_over json (codes "microsleep") jc t.app.param) _ h₁ in
      let (p₂, b, h₃) = >>=-eq-ok (taken_over json (codes "datasize") jc p₁) _ h₂ in
      let (p₃, c, h₄) = >>=-eq-ok (taken_over json (codes "tcpPort") jc p₂) _ h₃ in
      let (p₄, d, h₅) = >>=-eq-ok (taken_over json (codes "ntrg") jc p₃) _ h₄ in
      let (given, asked, h₆) = >>=-eq-ok (are_given json p₄) _ h₅ in
      let t₁ : Trigger J = record t { app = record t.app { param = p₄ } } in
      elim (Bool-cases given) [
        | inl all ↦
            let (t₂, made, h₇) = >>=-eq-ok (set_up json p₄ t₁) _ (rw all at h₆) in
            sym (ap (λ r. r.1.publisher) (ok_injective h₇)) ∙ set_up-deleted p₄ t₁ made gone
        | inr missing ↦ sym (ap (λ r. r.1.publisher) (ok_injective (rw missing at h₆))) ∙ gone
      ]

  stopped_publisher :
      (b : Bool) (t : Trigger J) → (if b then stopped json t else t).publisher ≡ t.publisher
  stopped_publisher true t = refl
  stopped_publisher false t = refl

  halt-deleted :
      (m : Message J) (t : Trigger J) (p : Publisher) {m' : Message J} {t' : Trigger J}
      → halt json m t ≡ ok (m', t')
      → t.publisher ≡ live p
      → t'.publisher ≡ deleted
  unfolding halt
  halt-deleted m t p h has_one =
      let kept = stopped_publisher t.running t in
      let (x, released, h₁) =
        >>=-eq-ok (freed json (if t.running then stopped json t else t).publisher) _ h in
      let same : deleted ≡ x =
        ok_injective (sym (ap (λ y. freed json y) (kept ∙ has_one)) ∙ released) in
      sym (ap (λ r. r.1.publisher) (ok_injective h₁)) ∙ sym same

  -- A trigger with a publisher that is halted, configured again and started: the first round that does
  -- not wait for a server posts through the publisher that HALT deleted, whatever the messages say.
  pub round_halted :
      (m₁ m₂ m₃ : Message J) (t : Trigger J) (p : Publisher) (ns0 time : ℕ) (reported : List ℕ)
      {m₁' m₂' m₃' : Message J} {t₁ t₂ t₃ : Trigger J}
      → t.publisher ≡ live p
      → halt json m₁ t ≡ ok (m₁', t₁)
      → configure json m₂ t₁ ≡ ok (m₂', t₂)
      → start json m₃ t₂ ≡ ok (m₃', t₃)
      → any_lags json ns0 t₃ reported ≡ false
      → round json ns0 reported time t₃ ≡ err indeterminate
  unfolding start round halt
  round_halted m₁ m₂ m₃ t p ns0 time reported {t₁ = t₁} {t₂ = t₂} {t₃ = t₃} has_one halted again
        started ready =
      let gone : t₁.publisher ≡ deleted = halt-deleted m₁ t p halted has_one in
      let kept = configure-deleted m₂ t₁ again gone in
      let begun = ok_injective started in
      let still : t₃.publisher ≡ deleted = sym (ap (λ r. r.1.publisher) begun) ∙ kept in
      let runs : t₃.running ≡ true = sym (ap (λ r. r.1.running) begun) in
      let unpaused : t₃.paused ≡ false = sym (ap (λ r. r.1.paused) begun) in
      let free : t₃.throttled ≡ false = sym (ap (λ r. r.1.throttled) begun) in
      rw (ready, runs, unpaused, free, still) refl
