-- ===== src/Monitor/Streams.antt =====
-- src/zSubscriber.cc, `poll`: what a round does to the items.
use zdaq.Base.{◌≡◌, ap, sym, List, [], ◌∷◌, map, Option, none, some, ok, Result-cases, inl, inr}
use zdaq.Base.Memory.{Bytes}
use zdaq.Json.{Json}
use zdaq.Monitor.{Item, process_data, receive, split, fields}

module _ {J : Type 0} (json : Json J) where
  process_data-address :
      (a c : Bytes) (item : Item J) {item' : Item J}
      → process_data json a c item ≡ ok item'
      → item'.address ≡ item.address
  unfolding process_data
  process_data-address a c item h = elim (Result-cases (fields (split a))) [
    | inl found ↦ cc (rw found.1 at h)
    | inr failed ↦ absurd (cc (rw failed.1 at h))
  ]

  -- A round over the items that reaches no fault keeps the addresses that they stand for, in their
  -- order, whichever of them a message arrived for.
  pub receive-addresses :
      (ms : List (Option (Bytes × Bytes))) (items : List (Item J)) {items' : List (Item J)}
      → receive json ms items ≡ ok items'
      → map (λ i. i.address) items' ≡ map (λ i. i.address) items
  unfolding receive
  receive-addresses [] items {items'} h =
      let same : items ≡ items' = cc h in ap (map (λ i. i.address)) (sym same)
  receive-addresses (m ∷ ms) [] h = absurd (cc h)
  receive-addresses (none ∷ ms) (item ∷ items) h = elim (Result-cases (receive json ms items)) [
    | inl found ↦ let e = receive-addresses ms items found.1 in cc (rw found.1 at h, e)
    | inr failed ↦ absurd (cc (rw failed.1 at h))
  ]
  receive-addresses (some message ∷ ms) (item ∷ items) h =
      elim (Result-cases (process_data json message.0 message.1 item)) [
        | inl taken ↦ elim (Result-cases (receive json ms items)) [
          | inl found ↦
              let e = receive-addresses ms items found.1 in
              let a = process_data-address message.0 message.1 item taken.1 in
              cc (rw (taken.1, found.1) at h, e, a)
          | inr failed ↦ absurd (cc (rw (taken.1, failed.1) at h))
        ]
        | inr failed ↦ absurd (cc (rw failed.1 at h))
      ]
