-- ===== src/Merger/Status.antt =====
-- zmMerger.cc, `status`: what a merger reports as JSON.
use zdaq.Base.{ℕ, [], ◌∷◌, length, u32}
use zdaq.Base.Memory.{Bytes}
use zdaq.Base.Text.{codes}
use zdaq.Base.Map.{Map}
use zdaq.Json.{Json}
use zdaq.Merger.{Merger}

module _ {J : Type 0} (json : Json J) where
  unfoldable pub received_list : Map Bytes ℕ → J → J
  received_list [] jrep = jrep
  received_list ((id, n) ∷ rest) jrep =
      let a = json.put (codes "id") (json.text id) json.null in
      received_list rest (json.append (json.put (codes "received") (json.number n) a) jrep)

  unfoldable pub status : {P : Type 0} → Merger P → J
  status m =
      let a = json.put (codes "run") (json.number m.run) json.null in
      let b = json.put (codes "event") (json.number m.evt) a in
      let c = json.put (codes "build") (json.number m.build) b in
      let d = json.put (codes "compressed") (json.number m.compressed_size) c in
      let e = json.put (codes "total") (json.number m.total_size) d in
      let f = json.put (codes "running") (json.bool m.running) e in
      let g = json.put (codes "purge") (json.bool m.purge) f in
      let h = json.put (codes "size") (json.number (u32 (length m.events))) g in
      let i = json.put (codes "registered") (json.number m.puller.nregistered) h in
      json.put (codes "difs") (received_list m.received json.null) i
