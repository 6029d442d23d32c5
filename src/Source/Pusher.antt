-- ===== src/Source/Pusher.antt =====
-- src/zmPusher.cc: one PUSH socket, number 0.
use zdaq.Base.{ℕ, List, Result}
use zdaq.Zlib.{Zlib}
use zdaq.Wire.{data_header, id_header}
use zdaq.Source.{Source, Part, Delivery, exchange, frame, registration}

unfoldable pub publish : Zlib → ℕ → ℕ → ℕ → Delivery → Source → Result (Source × List Part)
publish z bx gtc len d s = exchange 0 (data_header s.header gtc bx) d (frame z bx gtc len s) s

unfoldable pub collector_register : Delivery → Source → Result (Source × List Part)
collector_register d s = exchange 0 (id_header s.det s.source) d (registration s) s
