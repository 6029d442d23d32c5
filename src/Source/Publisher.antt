-- ===== src/Source/Publisher.antt =====
-- src/zmPublisher.cc: the first version of a source, with one socket that is bound to a file. What
-- ZeroMQ throws leaves the call, and is not modelled.
use zdaq.Base.{ℕ, true, false, List, [], ◌∷◌, ◌++◌, leb, Result, ok, ◌>>◌, guard, overrun}
use zdaq.Base.Memory.{Bytes}
use zdaq.Base.Text.{codes}
use zdaq.Buffer
use zdaq.Wire.{source_header, data_header}
use zdaq.Source
use zdaq.Source.{Source, Part}

-- The source has no compression.
unfoldable pub make : ℕ → ℕ → Source
make det dif = record (Source.make det dif) { compress = false }

unfoldable pub bind_address : ℕ → ℕ → Bytes
bind_address det dif = codes "ipc:///dev/shm/" ++ (source_header det dif ++ codes ".ipc")

unfoldable pub publish : ℕ → ℕ → ℕ → Source → Result (Source × List Part)
publish bx gtc len s = do
  let b = Buffer.set_payload_size len (Buffer.set_event_id gtc (Buffer.set_bx_id bx s.buffer))
  guard (leb (Buffer.size b) b.cap) overrun
  ok (
    record s { buffer = b },
    record { socket = 0; more = true; body = data_header s.header gtc bx }
        ∷ record { socket = 0; more = false; body = Buffer.image b }
        ∷ [],
  )
