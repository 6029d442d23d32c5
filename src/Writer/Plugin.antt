-- ===== src/Writer/Plugin.antt =====
-- The binary writer as a plugin of the merger: it answers for as many buffers as it is given.
use zdaq.Base.{◌≡◌, List, [], ◌∷◌, ok, length, Result-cases, Bool-cases, inl, inr, u32, ◌++◌}
use zdaq.Base.Memory.{encode}
use zdaq.Zlib.{Zlib}
use zdaq.Json.{Json}
use zdaq.Buffer.{Buffer}
use zdaq.Processor.{Processor}
use zdaq.Writer.{
  Writer, start, stop, store_buffer, store_buffers, record_event, process_event, process_run_header,
  load_parameters, is_open, append_to,
}

module _ (z : Zlib) where
  length-store_buffers :
      (bs : List Buffer) (w : Writer) {w' : Writer} {cs : List Buffer}
      → store_buffers z bs w ≡ ok (w', cs)
      → length cs ≡ length bs
  unfolding store_buffers
  length-store_buffers [] w h = cc
  length-store_buffers (b ∷ bs) w h = elim (Result-cases (store_buffer z b w)) [
    | inr (e, bad) ↦ absurd (cc (rw (bad, store_buffers) at h))
    | inl ((w₁, c), one) ↦ elim (Result-cases (store_buffers z bs w₁)) [
      | inr (e, bad) ↦ absurd (cc (rw (one, bad, store_buffers) at h))
      | inl ((w₂, cs), more) ↦
          let same = length-store_buffers bs w₁ more in
          cc (same, rw (one, more, store_buffers) at h)
    ]
  ]

  length-record_event :
      (dss : List Buffer) (w : Writer) {w' : Writer} {cs : List Buffer}
      → record_event z dss w ≡ ok (w', cs)
      → length cs ≡ length dss
  unfolding record_event
  length-record_event dss w h =
      let w₁ = record w {
        files = append_to (encode 4 w.event ++ encode 4 (u32 (length dss))) w.files;
      } in
      elim (Bool-cases w.dummy) [
        | inl left_out ↦ cc (rw (left_out, record_event) at h)
        | inr real ↦ elim (Result-cases (store_buffers z dss w₁)) [
          | inr (e, bad) ↦ absurd (cc (rw (bad, real, record_event) at h))
          | inl ((w₂, cs), kept) ↦
              let same = length-store_buffers dss w₁ kept in
              cc (same, rw (kept, real, record_event) at h)
        ]
      ]

  pub length-process_event :
      (dss : List Buffer) (w : Writer) {w' : Writer} {cs : List Buffer}
      → process_event z dss w ≡ ok (w', cs)
      → length cs ≡ length dss
  unfolding process_event
  length-process_event dss w h = elim (Bool-cases w.started) [
    | inr idle ↦ cc (rw (idle, process_event) at h)
    | inl running ↦ elim (Bool-cases (is_open w)) [
      | inr shut ↦ cc (rw (running, shut, process_event) at h)
      | inl ready ↦ elim (Result-cases (record_event z dss w)) [
        | inr (e, bad) ↦ absurd (cc (rw (bad, ready, running, process_event) at h))
        | inl ((w₁, cs), kept) ↦
            let same = length-record_event dss w kept in
            cc (same, rw (kept, ready, running, process_event) at h)
      ]
    ]
  ]

  unfoldable pub binary_writer : {J : Type 0} → Json J → Processor J Writer
  binary_writer json = record {
    start = start;
    stop = stop;
    process_event = λ key dss w. process_event z dss w;
    process_run_header = process_run_header z;
    load_parameters = load_parameters json;
    same_length = λ key dss w h. length-process_event dss w h;
  }
