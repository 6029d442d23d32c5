-- ===== src/Merger/Running.antt =====
-- zmMerger.cc: a message does not start or stop a merger.
use zdaq.Base.{◌≡◌, ap, ◌∙◌, sym, Option-cases, inl, inr, Result, ok, err, List, >>=-eq-ok}
use zdaq.Base.Memory.{Bytes}
use zdaq.Base.Map.{keys}
use zdaq.Zlib.{Zlib}
use zdaq.Buffer.{uncompress}
use zdaq.Wire.{scan_identity}
use zdaq.Puller.{Zmq, Arrival, handle}
use zdaq.Processor.{Processor}
use zdaq.Merger.{Merger}
use zdaq.Merger.Receive.{copy_in}
use zdaq.Merger.Data.{store, finish, build_events, process_data, poll_step}
use zdaq.Merger.Kept.{build_events-Kept}

module _ {J P : Type 0} (ops : Processor J P) where
  process_data-running :
      (z : Zlib) (idd body : Bytes) (m : Merger P) {m' : Merger P}
      → process_data ops z idd body m ≡ ok m'
      → m'.running ≡ m.running
  unfolding process_data store finish
  process_data-running z idd body m h = elim (Option-cases (scan_identity idd)) [
    | inl unread ↦ absurd (cc (rw (unread, process_data) at h))
    | inr (id, scanned) ↦
        let h₁ = rw (scanned, process_data) at h in
        let (packed, copied, h₂) = >>=-eq-ok (copy_in body) _ h₁ in
        let (b, expanded, h₃) = >>=-eq-ok (uncompress z packed) _ h₂ in
        let stored = store id packed.psize b m in
        let (built, done, h₄) = >>=-eq-ok (build_events ops (keys stored.events) 0 stored) _ h₃ in
        ap (λ (r : Result (Merger P)). elim r [ ok n ↦ n.running | err e ↦ m.running ]) (sym h₄)
        ∙ (build_events-Kept ops (keys stored.events) 0 stored done).running_kept
  ]

  pub poll_step-running :
      (z : Zlib) (q : Zmq) (a : Arrival) (m : Merger P) {m' : Merger P} {out : List (Bytes × Bytes)}
      → poll_step ops z q a m ≡ ok (m', out)
      → m'.running ≡ m.running
  unfolding poll_step
  poll_step-running z q a m h = elim (Option-cases (handle q a m.puller).processed) [
    | inl nothing ↦ cc (rw (nothing, poll_step) at h)
    | inr ((identity, body), given) ↦
        let m₁ : Merger P = record m { puller = (handle q a m.puller).puller } in
        let (done, ran, h₁) =
          >>=-eq-ok (process_data ops z identity body m₁) _ (rw (given, poll_step) at h) in
        cc (h₁, process_data-running z identity body m₁ ran)
  ]
