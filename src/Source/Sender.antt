-- ===== src/Source/Sender.antt =====
-- src/zmSender.cc: a PUSH socket for each collector, in the order of the calls of `connect`.
use zdaq.Base.{
  ℕ, suc, ◌%◌, List, [], ◌∷◌, ◌++◌, ◌==◌, if◌then◌else◌, length, Result, ok, err, ◌>>=◌, crash,
}
use zdaq.Base.Memory.{Bytes}
use zdaq.Zlib.{Zlib}
use zdaq.Wire.{data_header, id_header}
use zdaq.Source
use zdaq.Source.{
  Source, Part, Delivery, delivered, first_refused, second_refused, exchange, frame, registration,
}

-- `_vSender` by the addresses that its sockets are connected to.
pub record Sender : Type 0 where
  pub base : Source
  pub sockets : List Bytes

unfoldable pub make : ℕ → ℕ → Sender
make det dif = record { base = Source.make det dif; sockets = [] }

unfoldable pub connect : Bytes → Sender → Sender
connect dest s = record s { sockets = s.sockets ++ dest ∷ [] }

-- Both parts go to the socket `gtc % _vSender.size()`; with no socket this divides by zero.
unfoldable pub publish : Zlib → ℕ → ℕ → ℕ → Delivery → Sender → Result (Sender × List Part)
publish z bx gtc len d s = if length s.sockets == 0 then err crash else do
  (base, parts) ←
      exchange (gtc % length s.sockets) (data_header s.base.header gtc bx) d
        (frame z bx gtc len s.base) s.base
  ok (record s { base = base }, parts)

-- The loop over the sockets goes on unless an exception ended it.
abbrev resume : Delivery → Source → Result (Source × List Part) → Result (Source × List Part)
resume delivered t later = later
resume first_refused t later = ok (t, [])
resume second_refused t later = ok (t, [])

-- What ZeroMQ does at each socket is given, a delivery for each.
unfoldable pub register_from : ℕ → List Bytes → List Delivery → Source → Result (Source × List Part)
register_from i [] ds s = ok (s, [])
register_from i (dest ∷ rest) [] s = ok (s, [])
register_from i (dest ∷ rest) (d ∷ ds) s = do
  (t, parts) ← exchange i (id_header s.det s.source) d (registration s) s
  let later = register_from (suc i) rest ds t
  (u, more) ← resume d t later
  ok (u, parts ++ more)

unfoldable pub collector_register : List Delivery → Sender → Result (Sender × List Part)
collector_register ds s = do
  (base, parts) ← register_from 0 s.sockets ds s.base
  ok (record s { base = base }, parts)
