-- ===== src/Examples/Sources.antt =====
-- A source and a merger, from the payload written to the event map.
use zdaq.Base.{◌+◌, ◌≡◌, ◌≢◌, true, false, [], ◌∷◌, ◌++◌, some, inr, ok, arith, length}
use zdaq.Base.Memory.{slice}
use zdaq.Base.Map.{find}
use zdaq.Base.Order.{nat_ord}
use zdaq.Zlib.{storing}
use zdaq.Buffer.{Buffer, image, uncompress}
use zdaq.Buffer.Fields.{view}
use zdaq.Wire.{source_header, data_header}
use zdaq.Merger
use zdaq.Merger.{Merger}
use zdaq.Merger.Receive.{copy_in}
use zdaq.Merger.Data.{push, process_data, number_of_sources}
use zdaq.Merger.Events.{NoneFull, collected}
use zdaq.Source.{Source, Part, make, fill, delivered}
use zdaq.Source.Pusher.{publish}
use zdaq.Source.Ready.{IsReady, make-IsReady, publish-received}
use zdaq.EndToEnd.{published_arrives}
use zdaq.Examples.{recorder, waiting}

made-IsReady : IsReady 5 2 (make 5 2)
made-IsReady = make-IsReady 5 2 (omega arith)

publish-received_example :
    (c r e : Buffer) × (publish storing 77 7 3 delivered (make 5 2)
      ≡ ok (
        record (make 5 2) { buffer = c },
        record { socket = 0; more = true; body = data_header (source_header 5 2) 7 77 }
            ∷ record { socket = 0; more = false; body = image c }
            ∷ [],
      ))
    × (copy_in (image c) ≡ ok r)
    × (uncompress storing r ≡ ok e)
    × (view e ≡ record {
      detector = 5;
      flags = 0;
      source = 2;
      event = 7;
      bx = 77;
      body = slice 20 3 (make 5 2).buffer.mem;
    })
    × IsReady 5 2 (record (make 5 2) { buffer = c })
publish-received_example =
    publish-received storing 5 2 77 7 3 (make 5 2) made-IsReady (omega arith) (omega arith)
      (omega arith)

waiting-NoneFull : NoneFull 2 waiting.events
waiting-NoneFull = (λ h. omega arith, (λ h. omega arith, tt))

still_open : length (collected 9 waiting.events) + 1 ≢ number_of_sources waiting
unfolding find Merger.make zdaq.Puller.make
still_open h = grind arith

published_arrives_example :
    (filled sent : Source) × (head body : Part) × (b : Buffer) × (m' : Merger _) × (fill
        (1 ∷ 2 ∷ 3 ∷ [])
        (make 5 2)
      ≡ ok filled)
    × (publish storing 77 9 3 delivered filled ≡ ok (sent, head ∷ body ∷ []))
    × IsReady 5 2 sent
    × (process_data recorder storing head.body body.body waiting ≡ ok m')
    × (m'.events ≡ push 9 b waiting.events)
    × (find 9 m'.events ≡ some (collected 9 waiting.events ++ b ∷ []))
    × (view b
        ≡ record { detector = 5; flags = 0; source = 2; event = 9; bx = 77; body = 1 ∷ 2 ∷ 3 ∷ [] })
unfolding Merger.make zdaq.Puller.make
published_arrives_example =
    published_arrives recorder storing 5 2 77 9 (1 ∷ 2 ∷ 3 ∷ []) (make 5 2) waiting made-IsReady
      (omega arith) (omega arith) (omega arith) (omega arith) (omega arith) (ground arith)
      waiting-NoneFull still_open (inr (omega arith))
