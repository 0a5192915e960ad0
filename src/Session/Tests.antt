-- ===== src/Session/Tests.antt =====
-- A session whose streams come and go, and a padded DATA frame.
use harmony_http.Prelude.{
  ℕ, ◌+◌, ◌≡◌, ◌<◌, ◌⊎◌, refl, arith, List, [], ◌∷◌, ◌++◌, true, false, Bytes, codes, take, drop,
  replicate,
}
use harmony_http.Buffer.{Buffer, wleft}
use harmony_http.Buffer.Refine.{IsValid}
use harmony_http.Fields.{empty}
use harmony_http.Request.{new_request}
use harmony_http.Router.{get, Vars}
use harmony_http.Router.Table.{HttpRouter, empty_router}
use harmony_http.Session.{Stream, Act, HttpSession, Frame, headers_frame, nothing}
use harmony_http.Session.Streams
use harmony_http.Session.Streams.{
  Callback, on_begin_headers, on_data_chunk_recv, on_header, on_stream_close, ids, run, run_ids,
  ids-run,
}
use harmony_http.Session.Bounded.{AllWithin}
use harmony_http.Session.Limits.{run-AllWithin}
use harmony_http.Session.Data.{StringStream, send, would_block, send_data_cb}
use harmony_http.Session.Data.Sent.{pad_length, padding, Written, send_data_cb_lem}

abbrev new_stream : ℕ → Stream
new_stream id = record {
  id = id;
  request = new_request;
  headers = empty;
  method = get;
  buffer_size = 0;
  prepared_response = false;
  path = [];
  query = [];
  read_timer = false;
  write_timer = false;
}

abbrev router : HttpRouter ℕ
router = empty_router (record { methods = 0; route_index = [] })

abbrev handler : ℕ → Vars → Act
handler i vars = nothing

abbrev request : ℕ → Frame
request id = record {
  type = headers_frame;
  stream_id = id;
  end_stream = false;
  ack = false;
  cat_request = true;
  promised_stream_id = 0;
}

abbrev callbacks : List Callback
callbacks =
    on_begin_headers (request 1)
    ∷ on_begin_headers (request 3)
    ∷ on_data_chunk_recv 3 (codes "x")
    ∷ on_begin_headers (request 3)
    ∷ on_stream_close 1
    ∷ []

abbrev idle : HttpSession
idle = record { streams = []; effects = [] }

ids-run_example : ids (run new_stream router handler callbacks idle).streams ≡ run_ids callbacks []
ids-run_example = ids-run new_stream router handler callbacks idle

left_over : run_ids callbacks [] ≡ 3 ∷ []
unfolding run_ids Streams.step_ids Streams.without
left_over = refl

abbrev wbuf : Buffer
wbuf = record { buf = replicate 20 0; pos = 0; last = 1 }

wbuf-IsValid : IsValid wbuf
wbuf-IsValid = omega arith

abbrev source : StringStream
source = record { text = codes "hello"; last = 1 }

abbrev framehd : Bytes
framehd = replicate 9 7

send_data_cb_lem_example :
    ((wleft wbuf < 9 + 3 + 2) × (send_data_cb send true wbuf framehd 3 2 source ≡ would_block))
    ⊎ Written wbuf
        (framehd ++ (pad_length 2 ++ (take 3 (drop 1 (codes "hello")) ++ padding 2)))
        (record source { last = 1 + 3 })
        (send_data_cb send true wbuf framehd 3 2 source)
send_data_cb_lem_example = send_data_cb_lem wbuf framehd 3 2 source wbuf-IsValid refl (omega arith)

new_stream-empty : (id : ℕ) → (new_stream id).buffer_size ≡ 0
new_stream-empty id = refl

handler-keeps :
    (i : ℕ) (vars : Vars) (s : Stream) → (handler i vars s).0.buffer_size ≡ s.buffer_size
handler-keeps i vars s = refl

-- A stream that has almost all that it may have, and a field that is too long for the rest.
abbrev busy : HttpSession
busy = record { streams = (1, record (new_stream 1) { buffer_size = 65530 }) ∷ []; effects = [] }

abbrev long_field : List Callback
long_field =
    on_header (request 1) (record { address = 1; base = codes "x-long" })
      (record { address = 2; base = codes "value" })
    ∷ []

busy-AllWithin : AllWithin busy.streams
busy-AllWithin = (omega arith, tt)

run-AllWithin_example : AllWithin (run new_stream router handler long_field busy).streams
run-AllWithin_example =
    run-AllWithin new_stream router handler new_stream-empty handler-keeps long_field busy
      busy-AllWithin
