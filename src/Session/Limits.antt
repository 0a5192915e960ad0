-- ===== src/Session/Limits.antt =====
-- src/httpsession.cc: how many bytes of header fields a stream keeps.
use harmony_http.Prelude.{
  ℕ, ◌≤◌, ◌≡◌, arith, List, [], ◌∷◌, Bool, true, Bool-cases, inl, inr, Option-cases, if◌then◌else◌,
}
use harmony_http.Request.{handle_body}
use harmony_http.Router.{Vars}
use harmony_http.Router.Table.{
  HttpRouter, Dispatch, unhandled, invoke, no_handler, assertion, dispatch_route,
}
use harmony_http.Session.{
  Stream, Act, HttpSession, Frame, FrameType, data_frame, headers_frame, settings_frame,
  push_promise_frame, other_frame, then_do, nothing, reset_read_timeout, reset_write_timeout,
  reset_read_timeout_if_active, stop_read_timeout, stop_write_timeout, parse_path, method_of,
  respond, prepare_response, prepare_once, starts_request, get_stream, on_begin_headers_cb,
  on_header_cb, take_field, on_data_chunk_recv_cb, take_chunk, on_stream_close_cb,
}
use harmony_http.Session.Frames.{
  continue_100, recv_data, recv_headers, recv_frame, on_frame_recv_cb, sent_frame, push_promised,
  send_frame, on_frame_send_cb,
}
use harmony_http.Session.Streams.{
  Callback, on_begin_headers, on_frame_recv, on_header, on_data_chunk_recv, on_frame_send,
  on_stream_close, step, run,
}
use harmony_http.Session.Bounded.{
  Bounded-then_do, Bounded-if, Bounded-nothing, Bounded-reset_read, Bounded-reset_write,
  Bounded-stop_read, Bounded-stop_write, Bounded-if_active, Bounded-take_field, Bounded-take_chunk,
  Bounded-continue_100, Bounded-parse_path, pick, AllWithin-on_stream, AllWithin-remove_stream,
  limit, AllWithin, Bounded,
}

module _ (new_stream : ℕ → Stream) (router : HttpRouter ℕ) (handler : ℕ → Vars → Act)
    (starts_empty : (id : ℕ) → (new_stream id).buffer_size ≡ 0)
    (handler_keeps : (i : ℕ) (vars : Vars) (s : Stream)
      → (handler i vars s).0.buffer_size ≡ s.buffer_size) where
  respond-Bounded :
      (s : Stream) (d : Dispatch ℕ)
      → s.buffer_size ≤ limit
      → (respond router handler s d).0.buffer_size ≤ limit
  respond-Bounded s unhandled h = h
  respond-Bounded s (invoke i x vars) h = rw (handler_keeps x vars s) h
  respond-Bounded s no_handler h = h
  respond-Bounded s assertion h = h

  prepare_response-Bounded : Bounded (prepare_response router handler)
  unfolding prepare_response
  prepare_response-Bounded s h = respond-Bounded s (dispatch_route (method_of s) s.path router) h

  prepare_once-Bounded : Bounded (prepare_once router handler)
  unfolding prepare_once
  prepare_once-Bounded s h =
      let mark : Act = λ t. (record t { prepared_response = true }, []) in
      let rest = then_do (prepare_response router handler) mark in
      pick s.prepared_response (s, []) (then_do parse_path rest s) h
        (Bounded-then_do parse_path rest Bounded-parse_path
          (Bounded-then_do (prepare_response router handler) mark prepare_response-Bounded
            (λ t k. k))
          s h)

  recv_headers-Bounded : (frame : Frame) → Bounded (recv_headers router handler frame)
  unfolding recv_headers
  recv_headers-Bounded frame =
      let once = prepare_once router handler in
      Bounded-then_do (if frame.cat_request then continue_100 else nothing)
        (if frame.end_stream then then_do once stop_read_timeout else reset_read_timeout)
        (Bounded-if frame.cat_request continue_100 nothing Bounded-continue_100 Bounded-nothing)
        (Bounded-if frame.end_stream (then_do once stop_read_timeout) reset_read_timeout
          (Bounded-then_do once stop_read_timeout prepare_once-Bounded Bounded-stop_read)
          Bounded-reset_read)

  recv_data-Bounded : (frame : Frame) → Bounded (recv_data router handler frame)
  unfolding recv_data
  recv_data-Bounded frame =
      let once = prepare_once router handler in
      let handle : Act = λ s. (record s { request = handle_body s.request }, []) in
      let ending =
        if frame.end_stream then then_do stop_read_timeout handle else reset_read_timeout in
      Bounded-then_do once (then_do ending (recv_headers router handler frame)) prepare_once-Bounded
        (Bounded-then_do ending (recv_headers router handler frame)
          (Bounded-if frame.end_stream (then_do stop_read_timeout handle) reset_read_timeout
            (Bounded-then_do stop_read_timeout handle Bounded-stop_read (λ s h. h))
            Bounded-reset_read)
          (recv_headers-Bounded frame))

  recv_frame-AllWithin :
      (type : FrameType) (frame : Frame) (self : HttpSession)
      → AllWithin self.streams
      → AllWithin (recv_frame router handler type frame self).streams
  unfolding recv_frame
  recv_frame-AllWithin data_frame frame self a =
      AllWithin-on_stream frame.stream_id (recv_data router handler frame) self
        (recv_data-Bounded frame) a
  recv_frame-AllWithin headers_frame frame self a =
      AllWithin-on_stream frame.stream_id (recv_headers router handler frame) self
        (recv_headers-Bounded frame) a
  recv_frame-AllWithin settings_frame frame self a = elim (Bool-cases frame.ack) [
    | inl h ↦ rw h a
    | inr h ↦ rw h a
  ]
  recv_frame-AllWithin push_promise_frame frame self a = a
  recv_frame-AllWithin other_frame frame self a = a

  sent_frame-Bounded :
      (frame : Frame) (blocked : Bool) → Bounded (sent_frame router handler frame blocked)
  unfolding sent_frame
  sent_frame-Bounded frame blocked =
      let resume = reset_read_timeout_if_active in
      let wait = then_do resume reset_write_timeout in
      let go = then_do resume stop_write_timeout in
      Bounded-if frame.end_stream stop_write_timeout (if blocked then wait else go)
        Bounded-stop_write
        (Bounded-if blocked wait go
          (Bounded-then_do resume reset_write_timeout Bounded-if_active Bounded-reset_write)
          (Bounded-then_do resume stop_write_timeout Bounded-if_active Bounded-stop_write))

  push_promised-Bounded : Bounded (push_promised router handler)
  unfolding push_promised
  push_promised-Bounded =
      let rest = then_do reset_write_timeout (prepare_response router handler) in
      Bounded-then_do reset_read_timeout_if_active rest Bounded-if_active (
        Bounded-then_do reset_write_timeout (prepare_response router handler) Bounded-reset_write
          prepare_response-Bounded)

  send_frame-AllWithin :
      (type : FrameType) (frame : Frame) (blocked : Bool) (self : HttpSession)
      → AllWithin self.streams
      → AllWithin (send_frame router handler type frame blocked self).streams
  unfolding send_frame
  send_frame-AllWithin data_frame frame blocked self a =
      AllWithin-on_stream frame.stream_id (sent_frame router handler frame blocked) self
        (sent_frame-Bounded frame blocked) a
  send_frame-AllWithin headers_frame frame blocked self a =
      AllWithin-on_stream frame.stream_id (sent_frame router handler frame blocked) self
        (sent_frame-Bounded frame blocked) a
  send_frame-AllWithin settings_frame frame blocked self a = elim (Bool-cases frame.ack) [
    | inl h ↦ rw h a
    | inr h ↦ rw h a
  ]
  send_frame-AllWithin push_promise_frame frame blocked self a =
      elim (Option-cases (get_stream frame.promised_stream_id self.streams)) [
        | inl gone ↦ rw (gone, send_frame) a
        | inr (p, there) ↦
            rw (there, send_frame)
              (AllWithin-on_stream frame.stream_id (push_promised router handler) self
                push_promised-Bounded a)
      ]
  send_frame-AllWithin other_frame frame blocked self a = a

  begin-AllWithin :
      (frame : Frame) (self : HttpSession)
      → AllWithin self.streams
      → AllWithin (on_begin_headers_cb new_stream frame self).0.streams
  unfolding on_begin_headers_cb
  begin-AllWithin frame self a = elim (Bool-cases (starts_request frame)) [
    | inr h ↦ rw h a
    | inl h ↦ elim (Option-cases (get_stream frame.stream_id self.streams)) [
      | inr (s, there) ↦ rw (h, there) a
      | inl absent ↦
          rw (h, absent)
            ((unfold reset_read_timeout in rw (starts_empty frame.stream_id) (omega arith)), a)
    ]
  ]

  step-AllWithin :
      (c : Callback) (self : HttpSession)
      → AllWithin self.streams
      → AllWithin (step new_stream router handler c self).streams
  unfolding step
  step-AllWithin (on_begin_headers frame) self a = begin-AllWithin frame self a
  step-AllWithin (on_header frame name value) self a =
      unfold on_header_cb in
      elim (Bool-cases (starts_request frame)) [
        | inl h ↦ rw h (
            AllWithin-on_stream frame.stream_id (take_field name value) self
              (Bounded-take_field name value) a)
        | inr h ↦ rw h a
      ]
  step-AllWithin (on_data_chunk_recv id chunk) self a =
      unfold on_data_chunk_recv_cb in
      AllWithin-on_stream id (take_chunk chunk) self (Bounded-take_chunk chunk) a
  step-AllWithin (on_frame_recv frame) self a =
      unfold on_frame_recv_cb in recv_frame-AllWithin frame.type frame self a
  step-AllWithin (on_frame_send frame blocked) self a =
      unfold on_frame_send_cb in send_frame-AllWithin frame.type frame blocked self a
  step-AllWithin (on_stream_close id) self a =
      unfold on_stream_close_cb in AllWithin-remove_stream id self.streams a

  -- If new streams count from zero and no handler changes the count, no callback of nghttp2 ever
  -- takes a stream's count of header bytes past 64 KiB.
  pub run-AllWithin :
      (cs : List Callback) (self : HttpSession)
      → AllWithin self.streams
      → AllWithin (run new_stream router handler cs self).streams
  unfolding run
  run-AllWithin [] self a = a
  run-AllWithin (c ∷ cs) self a =
      run-AllWithin cs (step new_stream router handler c self) (step-AllWithin c self a)
