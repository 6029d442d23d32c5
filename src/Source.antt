-- ===== src/Source.antt =====
-- The data sources: src/zmPusher.cc (one socket) and src/zmSender.cc (a socket for each collector).
-- Both fill the same buffer, the same way; `Source` is what they share, and the two classes are its
-- children. A payload is written by the caller, through the pointer that `payload()` returns.
pub mod Pusher
pub mod Publisher
pub mod Sender
pub mod Frames
pub mod Ready
pub mod Routing
pub mod Discovery
use zdaq.Base.{
  ℕ, ◌+◌, ◌≡◌, Bool, true, false, List, [], ◌∷◌, leb, if◌then◌else◌, length, Result, ok, err, ◌>>=◌,
  ◌>>◌, guard, overrun,
}
use zdaq.Base.Memory.{Bytes, blit}
use zdaq.Zlib.{Zlib}
use zdaq.Buffer
use zdaq.Buffer.{Buffer}
use zdaq.Wire.{source_header}

pub record Source : Type 0 where
  pub det : ℕ
  pub source : ℕ
  pub header : Bytes
  pub buffer : Buffer
  pub compress : Bool

abbrev pub buffer_size : ℕ
buffer_size = 524288

-- The constructor, without its sockets.
unfoldable pub make : ℕ → ℕ → Source
make det dif = record {
  det = det;
  source = dif;
  header = source_header det dif;
  buffer = Buffer.set_data_source_id dif (Buffer.set_detector_id det (Buffer.new buffer_size));
  compress = true;
}

unfoldable pub set_compress : Bool → Source → Source
set_compress t s = record s { compress = t }

-- The caller writes a payload through `payload()`.
unfoldable pub fill : Bytes → Source → Result Source
fill p s = do
  guard (leb (20 + length p) s.buffer.cap) overrun
  let b = s.buffer
  ok (record s { buffer = record b { mem = blit 20 p b.mem } })

-- The message body of `publish`: the header fields, the size, and the compression if it is on.
unfoldable pub frame : Zlib → ℕ → ℕ → ℕ → Source → Result (Source × Bytes)
frame z bx gtc len s = do
  let b = Buffer.set_payload_size len (Buffer.set_event_id gtc (Buffer.set_bx_id bx s.buffer))
  c ← if s.compress then Buffer.compress z b else ok b
  guard (leb (Buffer.size c) c.cap) overrun
  ok (record s { buffer = c }, Buffer.image c)

-- The body of a registration: 64 bytes of payload, whatever they hold.
unfoldable pub registration : Source → Result (Source × Bytes)
registration s = do
  let b = Buffer.set_payload_size 64 (Buffer.set_event_id 0 (Buffer.set_bx_id 0 s.buffer))
  guard (leb (Buffer.size b) b.cap) overrun
  ok (record s { buffer = b }, Buffer.image b)

-- One part of a message on a socket; `more` is ZMQ_SNDMORE.
pub record Part : Type 0 where
  pub socket : ℕ
  pub more : Bool
  pub body : Bytes

-- ZeroMQ may refuse a part by an exception, which the callers catch and log.
pub data Delivery : Type 0 where
  delivered first_refused second_refused : Delivery

-- The two sends of one message: the text in front, and the body made in between.
unfoldable pub exchange :
    ℕ → Bytes → Delivery → Result (Source × Bytes) → Source → Result (Source × List Part)
exchange socket head first_refused made s = ok (s, [])
exchange socket head second_refused made s = do
  (s', body) ← made
  ok (s', record { socket = socket; more = true; body = head } ∷ [])
exchange socket head delivered made s = do
  (s', body) ← made
  ok (
    s',
    record { socket = socket; more = true; body = head }
        ∷ record { socket = socket; more = false; body = body }
        ∷ [],
  )
