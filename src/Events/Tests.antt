-- ===== src/Events/Tests.antt =====
-- Two streams on two channels, one of them removed and back on one of the two.
use harmony_http.Prelude.{
  ◌≡◌, refl, arith, inl, false, true, List, [], ◌∷◌, ◌++◌, codes, take, drop, replicate,
}
use harmony_http.Buffer.{Buffer, contents, wleft, write_full, copy_to, write_byte}
use harmony_http.Buffer.Refine.{IsValid}
use harmony_http.Events.{Event, publish}
use harmony_http.Events.Registry.{
  Op, listen, listens, remove_stream, run, submitted, submitted-publish,
}
use harmony_http.Events.Stream.{
  EventStream, sent, failed, out_of_range, out_of_fuel, send, ping, stream_length, new_stream,
}
use harmony_http.Events.Text.{event_text}
use harmony_http.Events.Chunks.{after_send, send_lem, send-out_of_range}

abbrev ops : List Op
ops =
    listen (codes "a/1") 7
    ∷ listen (codes "b") 7
    ∷ listen (codes "b") 8
    ∷ remove_stream 7
    ∷ listen (codes "b") 7
    ∷ []

abbrev event : Event
event = record { name = codes "b"; channel = codes "b"; content = codes "hello" }

submitted-publish_example :
    submitted 7 (publish event (run ops [])) ≡ listens (codes "b") 7 ops false
submitted-publish_example = submitted-publish event 7 ops

-- A stream with one event of 22 bytes in its queue.
abbrev sending : EventStream
sending = record { queue = event ∷ []; pos = 0; paused = false }

abbrev wb : Buffer
wb = record { buf = replicate 30 0; pos = 2; last = 4 }

wb-IsValid : IsValid wb
wb-IsValid = omega arith

send_lem_example :
    (wb' : Buffer) × (send sending 22 wb ≡ sent wb' (after_send sending event [] 22))
    × (contents wb' ≡ contents wb ++ take 22 (drop 0 (event_text event)))
    × IsValid wb'
unfolding wleft
send_lem_example =
    send_lem sending event [] 22 wb refl wb-IsValid (omega arith) (omega arith) (omega arith)
      (omega arith)

send-out_of_range_example : send sending 5 wb ≡ out_of_range
unfolding wleft
send-out_of_range_example =
    send-out_of_range sending event [] 5 wb refl wb-IsValid (omega arith) (omega arith)
      (omega arith) (inl (omega arith))

text_of_event : event_text event ≡ codes "event: b\ndata: hello\n\n"
text_of_event = refl

whole_event :
    elim (send sending 22 wb) [
      | sent b es ↦ contents b
      | failed ↦ []
      | out_of_range ↦ []
      | out_of_fuel ↦ []
    ]
    ≡ 0 ∷ 0 ∷ codes "event: b\ndata: hello\n\n"
unfolding send contents write_full copy_to write_byte
whole_event = refl

-- Paused by a look at its empty queue, resumed by a ping.
resumed : (ping (stream_length new_stream).1).1 ≡ true
unfolding ping stream_length
resumed = refl
