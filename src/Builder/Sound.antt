-- ===== src/Builder/Sound.antt =====
-- exBuilder.cxx, `configure`: it leaves the run alone.
use zdaq.Base.{
  Bool-cases, inl, inr, arith, ◌≡◌, refl, ◌∙◌, ap, sym, List, [], ◌∷◌, ok, >>=-eq-ok, ok_injective,
}
use zdaq.Base.Memory.{Bytes}
use zdaq.Base.Text.{codes, bytes_eq}
use zdaq.Json.{Json, has}
use zdaq.Fsm.{Message}
use zdaq.Fsm.Messages.{content, set_answer}
use zdaq.Processor.{Processor}
use zdaq.Merger
use zdaq.Merger.{Merger}
use zdaq.Job.Processes.{texts}
use zdaq.Collector.{Collector, taken_over, purge_from, register_all}
use zdaq.Collector.Sound.{
  IsInStep, SameRun, same_run, register_all-running, load_parameters-running, purge_from-running,
}
use zdaq.Builder.{register_streams, number_from, set_up, configure}

module _ {J : Type 0} (json : Json J) {P : Type 0} (ops : Processor J P) (plugin : Bytes → P) where
  register_streams-running :
      (streams : List Bytes) (m : Merger P) → (register_streams streams m).running ≡ m.running
  unfolding register_streams Merger.register_data_source
  register_streams-running [] m = refl
  register_streams-running (stream ∷ streams) m =
      register_streams-running streams (Merger.register_data_source stream m)

  number_from-running :
      (jc : J) (m : Merger P) {m' : Merger P}
      → number_from json jc m ≡ ok m'
      → m'.running ≡ m.running
  unfolding Merger.set_number_of_data_source
  number_from-running jc m h = ground arith

  set_up-SameRun :
      (jc : J) (m : Message J) (b : Collector J P) {m' : Message J} {b' : Collector J P}
      → set_up json ops plugin jc m b ≡ ok (m', b')
      → SameRun json ops plugin b b'
  unfolding set_up
  set_up-SameRun jc m b {m'} {b'} h =
      let (merger₁, numbered, h₁) = >>=-eq-ok (number_from json jc b.merger) _ h in
      let (merger₂, set, h₂) = >>=-eq-ok (purge_from json jc merger₁) _ h₁ in
      let (streams, listed, h₃) =
        >>=-eq-ok (texts json (json.elements (json.member (codes "stream") jc))) _ h₂ in
      let (names, named, h₄) =
        >>=-eq-ok (texts json (json.elements (json.member (codes "processor") jc))) _ h₃ in
      let (merger₄, loaded, h₅) =
        >>=-eq-ok
          (Merger.load_parameters ops jc
            (register_all plugin names (register_streams streams merger₂)))
          _ h₄ in
      let (m₁, answered, h₆) = >>=-eq-ok (set_answer json _ m) _ h₅ in
      let done = ok_injective h₆ in
      (
        sym (ap (λ r. r.1.running) done),
        sym (ap (λ r. r.1.merger.running) done)
            ∙ load_parameters-running json ops plugin jc
                (register_all plugin names (register_streams streams merger₂)) loaded
            ∙ register_all-running json ops plugin names (register_streams streams merger₂)
            ∙ register_streams-running streams merger₂
            ∙ purge_from-running json ops plugin jc merger₁ set
            ∙ number_from-running jc b.merger numbered,
      )

  configure-SameRun :
      (m : Message J) (b : Collector J P) {m' : Message J} {b' : Collector J P}
      → configure json ops plugin m b ≡ ok (m', b')
      → SameRun json ops plugin b b'
  unfolding configure
  configure-SameRun m b h =
      let (jc, held, h₁) = >>=-eq-ok (content json m) _ h in
      let (p₁, first, h₂) = >>=-eq-ok (taken_over json (codes "dsnumber") jc b.app.param) _ h₁ in
      let (p₂, second, h₃) = >>=-eq-ok (taken_over json (codes "stream") jc p₁) _ h₂ in
      let (p₃, third, h₄) = >>=-eq-ok (taken_over json (codes "processor") jc p₂) _ h₃ in
      let (with_stream, stream, h₅) = >>=-eq-ok (has json (codes "stream") p₃) _ h₄ in
      elim (Bool-cases with_stream) [
        | inr no_stream ↦
            let done = ok_injective (rw no_stream at h₅) in
            (sym (ap (λ r. r.1.running) done), sym (ap (λ r. r.1.merger.running) done))
        | inl one_stream ↦
            let (with_processor, processor, h₆) =
              >>=-eq-ok (has json (codes "processor") p₃) _ (rw one_stream at h₅) in
            elim (Bool-cases with_processor) [
              | inr no_processor ↦
                  let done = ok_injective (rw no_processor at h₆) in
                  (sym (ap (λ r. r.1.running) done), sym (ap (λ r. r.1.merger.running) done))
              | inl one_processor ↦
                  set_up-SameRun p₃ m (record b { app = record b.app { param = p₃ } })
                    (rw one_processor at h₆)
            ]
      ]

  pub configure-IsInStep :
      (s : Bytes) (m : Message J) (b : Collector J P) {m' : Message J} {b' : Collector J P}
      → bytes_eq s (codes "RUNNING") ≡ bytes_eq (codes "CONFIGURED") (codes "RUNNING")
      → IsInStep s b
      → configure json ops plugin m b ≡ ok (m', b')
      → IsInStep (codes "CONFIGURED") b'
  configure-IsInStep s m b states i h = same_run json ops plugin states (configure-SameRun m b h) i
