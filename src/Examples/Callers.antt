-- ===== src/Examples/Callers.antt =====
-- A text in a query, and a sender with three collectors.
use zdaq.Base.{
  ℕ, ◌++◌, map, ◌%◌, ◌≡◌, ◌≢◌, refl, true, false, List, [], ◌∷◌, ok, arith, length, All,
}
use zdaq.Base.Memory.{Bytes, slice, blit, write, encode}
use zdaq.Base.Text.{codes}
use zdaq.Zlib.{storing}
use zdaq.Caller.Encoding
use zdaq.Caller.Encoding.{url_encode, encoded, decode-url_encode, encoded_ok}
use zdaq.Buffer
use zdaq.Wire.{source_header, data_header}
use zdaq.Examples.{small_buffer, frame_bytes}
use zdaq.Source.{Part, delivered, exchange, frame}
use zdaq.Source.Sender
use zdaq.Source.Sender.{Sender}
use zdaq.Source.Routing.{publish-All}
use zdaq.Base.Map
use zdaq.Base.Map.{Map}
use zdaq.Source.Discovery.{connect_from}

decode-url_encode_example : Encoding.decode (url_encode (codes "a{b")) ≡ codes "a{b"
decode-url_encode_example =
    decode-url_encode (codes "a{b")
      ((omega arith, omega arith), ((omega arith, omega arith), ((omega arith, omega arith), tt)))

abbrev sending : Sender
sending = record {
  base = record {
    det = 5;
    source = 2;
    header = source_header 5 2;
    buffer = small_buffer;
    compress = false;
  };
  sockets = codes "a" ∷ codes "b" ∷ codes "c" ∷ [];
}

abbrev sent : List Part
sent =
    record { socket = 1; more = true; body = data_header (source_header 5 2) 7 77 }
    ∷ record { socket = 1; more = false; body = frame_bytes }
    ∷ []

published : Sender.publish storing 77 7 3 delivered sending ≡ ok (sending, sent)
unfolding Sender.publish exchange frame Buffer.set_payload_size Buffer.set_event_id Buffer.set_bx_id
    Buffer.size Buffer.image slice write blit encode
published = refl

publish-All_example :
    (length sending.sockets ≢ 0)
    × (sending.sockets ≡ sending.sockets)
    × All (λ (p : Part). p.socket ≡ 7 % length sending.sockets) sent
publish-All_example = publish-All storing 77 7 3 delivered sending published

abbrev streams : Map ℕ Bytes
streams = (0, codes "tcp://a:1") ∷ (1, codes "tcp://b:2") ∷ []

connected :
    connect_from 2 0 streams sending
    ≡ ok (record sending { sockets = sending.sockets ++ map (λ e. e.1) streams })
unfolding connect_from Sender.connect Map.find
connected = refl
