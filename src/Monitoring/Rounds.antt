-- ===== src/Monitoring/Rounds.antt =====
-- `monitor` of lsc.cxx and zmonSupervisor.cxx: what a round publishes, against src/zSubscriber.cc.
use zdaq.Base.{
  ℕ, suc, ◌<◌, ◌^◌, ◌≡◌, refl, true, subst, List, [], ◌∷◌, ok, err, >>=-eq-ok, indeterminate,
}
use zdaq.Base.Memory.{Bytes}
use zdaq.Base.Text.{codes}
use zdaq.Json.{Json}
use zdaq.Configs.{member_text}
use zdaq.Monitor.{Publisher, Item, process_data, post}
use zdaq.Monitor.RoundTrip.{IsPlain, process_data-post}
use zdaq.Monitoring.{
  has_any, Hardware, Storage, Turns, later, unset, bound, save_all, publish, round,
}

module _ {J : Type 0} (json : Json J) {P S : Type 0} (h : Hardware J P) (t : Storage J S) where
  -- A subscriber that gets the message keeps the hardware, the location, the time and the status.
  abbrev pub Tells : Bytes → ℕ → P → Bytes × Bytes → Type 0
  Tells location time p message =
      (item : Item J)
      → process_data json message.0 message.1 item
        ≡ ok (record {
          address = item.address;
          hardware = h.hardware p;
          location = location;
          time = time;
          status = (h.status p).0;
        })

  -- One message for each plugin, in their order.
  abbrev pub AllTold : Bytes → Turns → List (Bytes × P) → List (Bytes × Bytes) → Type 0
  AllTold location turns [] [] = Unit
  AllTold location turns [] (m ∷ ms) = ⊥
  AllTold location turns (p ∷ ps) [] = ⊥
  AllTold location turns (p ∷ ps) (m ∷ ms) =
      Tells location (turns.clock 0 0) p.1 m × AllTold location (later turns) ps ms

  abbrev pub PlainNames : List (Bytes × P) → Type 0
  PlainNames [] = Unit
  PlainNames (p ∷ ps) = IsPlain (h.hardware p.1) × PlainNames ps

  publish-Tells :
      (address : Bytes) (params : J) (turns : Turns) (p : P) (location : Bytes) {p' : P}
      {out : List (Bytes × Bytes)}
      → member_text json (codes "location") params ≡ ok location
      → IsPlain location
      → IsPlain (h.hardware p)
      → turns.clock 0 0 < 2 ^ 63
      → ((message : Bytes × Bytes) → turns.lent 0 message ≡ message)
      → publish json h t (bound address) params turns p ≡ ok (p', out)
      → (message : Bytes × Bytes) × (out ≡ message ∷ [])
        × Tells location (turns.clock 0 0) p message
  unfolding publish
  publish-Tells address params turns p location {p'} {out} found plain_l plain_h fits still e =
      let (l, read, e₁) = >>=-eq-ok (member_text json (codes "location") params) _ e in
      let same : l ≡ location = cc (found, read) in
      let publisher : Publisher = record { hardware = h.hardware p; location = location } in
      (
        post json (turns.clock 0 0) (h.status p).0 publisher,
        cc (e₁, same, still (post json (turns.clock 0 0) (h.status p).0 publisher)),
        λ item.
            process_data-post json (turns.clock 0 0) (h.status p).0 publisher item plain_h plain_l
              fits,
      )

  -- A round with a bound socket publishes one message for each plugin, in the order of the plugins. A
  -- subscriber that gets it keeps the name of the hardware, the location, the time of the clock and the
  -- status that the plugin reported at the start of its turn, as long as no name and not the location
  -- holds a '@', the clock is no negative number of 64 bits, and the memory of the two texts of each
  -- message, which ZeroMQ is lent, is unchanged until its thread has sent them.
  pub round-AllTold :
      (address : Bytes) (params : J) (turns : Turns) (ps : List (Bytes × P)) (ss : List (Bytes × S))
      (location : Bytes) {ps' : List (Bytes × P)} {ss' : List (Bytes × S)}
      {out : List (Bytes × Bytes)}
      → member_text json (codes "location") params ≡ ok location
      → IsPlain location
      → PlainNames ps
      → ((i j : ℕ) → turns.clock i j < 2 ^ 63)
      → ((i : ℕ) (message : Bytes × Bytes) → turns.lent i message ≡ message)
      → round json h t (bound address) params turns ps ss ≡ ok (ps', ss', out)
      → AllTold location turns ps out
  unfolding round
  round-AllTold address params turns [] ss location {out = out} found plain_l names fits still e =
      let same : [] ≡ out = cc e in subst (AllTold location turns []) same tt
  round-AllTold address params turns ((k, p) ∷ ps) ss location {out = out} found plain_l names fits
        still e =
      let ((p₁, sent), published, e₁) =
        >>=-eq-ok (publish json h t (bound address) params turns p) _ e in
      let ((p₂, ss₁), saved, e₂) =
        >>=-eq-ok (save_all json h t params (λ j. turns.clock 0 (suc j)) p₁ ss) _ e₁ in
      let ((ps₁, ss₂, rest), rest_made, e₃) =
        >>=-eq-ok (round json h t (bound address) params (later turns) ps ss₁) _ e₂ in
      let (message, one, told) =
        publish-Tells address params turns p location found plain_l names.0 (fits 0 0) (still 0)
          published in
      let all =
        round-AllTold address params (later turns) ps ss₁ location found plain_l names.1
          (λ i j. fits (suc i) j) (λ i. still (suc i)) rest_made in
      let same : message ∷ rest ≡ out = cc (e₃, one) in
      subst (AllTold location turns ((k, p) ∷ ps)) same (told, all)

  -- Where `_publisher` was never written, a round with at least one plugin reads it all the same.
  pub round_unset :
      (params : J) (turns : Turns) (ps : List (Bytes × P)) (ss : List (Bytes × S))
      → has_any ps ≡ true
      → round json h t unset params turns ps ss ≡ err indeterminate
  unfolding round publish
  round_unset params turns [] ss some_plugin = cc some_plugin
  round_unset params turns (p ∷ ps) ss some_plugin = refl
