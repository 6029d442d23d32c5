-- ===== src/Source/Routing.antt =====
-- zmSender.cc: which collector an event goes to.
use zdaq.Base.{
  ℕ, ◌%◌, ◌≡◌, ◌≢◌, refl, subst, Bool-cases, Result-cases, inl, inr, true, false, List, [], ◌∷◌,
  length, All, ◌==◌, Result, ok, err, arith,
}
use zdaq.Base.Memory.{Bytes}
use zdaq.Zlib.{Zlib}
use zdaq.Wire.{data_header}
use zdaq.Source.{Source, Part, Delivery, delivered, first_refused, second_refused, exchange, frame}
use zdaq.Source.Sender
use zdaq.Source.Sender.{Sender}

exchange-All :
    (socket : ℕ) (head : Bytes) (d : Delivery) (made : Result (Source × Bytes)) (s : Source)
    {t : Source} {parts : List Part}
    → exchange socket head d made s ≡ ok (t, parts)
    → All (λ p. p.socket ≡ socket) parts
unfolding exchange
exchange-All socket head first_refused made s {t} {parts} h =
    let same : [] ≡ parts = cc h in subst (All (λ p. p.socket ≡ socket)) same tt
exchange-All socket head second_refused (err e) s h = absurd (cc h)
exchange-All socket head second_refused (ok (u, body)) s {t} {parts} h =
    let same : record { socket = socket; more = true; body = head } ∷ [] ≡ parts = cc h in
    subst (All (λ p. p.socket ≡ socket)) same (refl, tt)
exchange-All socket head delivered (err e) s h = absurd (cc h)
exchange-All socket head delivered (ok (u, body)) s {t} {parts} h =
    let same : record { socket = socket; more = true; body = head }
          ∷ record { socket = socket; more = false; body = body }
          ∷ []
        ≡ parts =
      cc h in
    subst (All (λ p. p.socket ≡ socket)) same (refl, (refl, tt))

disconnected : (n : ℕ) → (n == 0) ≡ false → n ≢ 0
disconnected n h e = ground arith

-- Both parts of a message go to the collector that the event number picks out of those connected, so
-- that sources with the same number of collectors send an event to the same one; and a source that has
-- none does not get that far.
pub publish-All :
    (z : Zlib) (bx gtc len : ℕ) (d : Delivery) (s : Sender) {s' : Sender} {parts : List Part}
    → Sender.publish z bx gtc len d s ≡ ok (s', parts)
    → (length s.sockets ≢ 0)
      × (s'.sockets ≡ s.sockets)
      × All (λ p. p.socket ≡ gtc % length s.sockets) parts
unfolding Sender.publish
publish-All z bx gtc len d s {s'} {parts} h = elim (Bool-cases (length s.sockets == 0)) [
  | inl none_connected ↦ absurd (cc (rw (none_connected, Sender.publish) at h))
  | inr connected ↦
      elim (Result-cases (
        exchange (gtc % length s.sockets) (data_header s.base.header gtc bx) d
          (frame z bx gtc len s.base) s.base)) [
            | inr (e, bad) ↦ absurd (cc (rw (bad, connected, Sender.publish) at h))
            | inl ((base, sent), done) ↦
                let after : ok (record s { base = base }, sent) ≡ ok (s', parts) =
                  rw (done, connected, Sender.publish) at h in
                let same : sent ≡ parts = cc after in
                let state : record s { base = base } ≡ s' = cc after in
                (
                  λ (e : length s.sockets ≡ 0). disconnected (length s.sockets) connected e,
                  subst (λ (x : Sender). x.sockets ≡ s.sockets) state refl,
                  subst (All (λ p. p.socket ≡ gtc % length s.sockets)) same (
                      exchange-All (gtc % length s.sockets) (data_header s.base.header gtc bx) d
                        (frame z bx gtc len s.base) s.base done),
                )
          ]
]
