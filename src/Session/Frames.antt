-- ===== src/Session/Frames.antt =====
-- src/httpsession.cc: the callbacks for whole frames.
use harmony_http.Prelude.{ℕ, [], ◌∷◌, ◌++◌, Bool, some, none, if◌then◌else◌, codes}
use harmony_http.Header.{streq_l}
use harmony_http.Fields.{get_string_view}
use harmony_http.Request.{handle_body}
use harmony_http.Router.{Vars}
use harmony_http.Router.Table.{HttpRouter}
use harmony_http.Session.{
  Act, HttpSession, submit_non_final_response, start_settings_timer, remove_settings_timer, then_do,
  nothing, reset_read_timeout, reset_write_timeout, reset_read_timeout_if_active, stop_read_timeout,
  stop_write_timeout, prepare_response, prepare_once, get_stream, on_stream, Frame, FrameType,
  data_frame, headers_frame, settings_frame, push_promise_frame, other_frame,
}

unfoldable pub continue_100 : Act
continue_100 s = elim (get_string_view s.headers.expect_buf) [
  | none ↦ (s, [])
  | some v ↦ (
    s,
    if streq_l (codes "100-continue") v
        then submit_non_final_response s.id (codes "100") ∷ []
        else [],
  )
]

module _ (router : HttpRouter ℕ) (handler : ℕ → Vars → Act) where
  -- The case of HEADERS.
  unfoldable pub recv_headers : Frame → Act
  unfolding continue_100 then_do
  recv_headers frame = then_do (if frame.cat_request then continue_100 else nothing) (
      if frame.end_stream
      then then_do (prepare_once router handler) stop_read_timeout
      else reset_read_timeout)

  -- The case of DATA, which goes on into that of HEADERS.
  unfoldable pub recv_data : Frame → Act
  unfolding recv_headers then_do
  recv_data frame = then_do (prepare_once router handler) (
      then_do
        (if frame.end_stream
          then then_do stop_read_timeout (λ s. (record s { request = handle_body s.request }, []))
          else reset_read_timeout)
        (recv_headers frame))

  unfoldable pub recv_frame : FrameType → Frame → HttpSession → HttpSession
  unfolding recv_data recv_headers on_stream
  recv_frame data_frame frame self = on_stream frame.stream_id (recv_data frame) self
  recv_frame headers_frame frame self = on_stream frame.stream_id (recv_headers frame) self
  recv_frame settings_frame frame self =
      if frame.ack
      then record self { effects = self.effects ++ remove_settings_timer ∷ [] }
      else self
  recv_frame _ frame self = self

  unfoldable pub on_frame_recv_cb : Frame → HttpSession → HttpSession
  unfolding recv_frame
  on_frame_recv_cb frame self = recv_frame frame.type frame self

  -- `blocked` is whether the remote window of the stream or of the session is used up.
  unfoldable pub sent_frame : Frame → Bool → Act
  unfolding then_do
  sent_frame frame blocked =
      if frame.end_stream
      then stop_write_timeout
      else if blocked
      then then_do reset_read_timeout_if_active reset_write_timeout
      else then_do reset_read_timeout_if_active stop_write_timeout

  unfoldable pub push_promised : Act
  unfolding then_do
  push_promised =
      then_do reset_read_timeout_if_active
        (then_do reset_write_timeout (prepare_response router handler))

  unfoldable pub send_frame : FrameType → Frame → Bool → HttpSession → HttpSession
  unfolding sent_frame push_promised on_stream get_stream
  send_frame data_frame frame blocked self =
      on_stream frame.stream_id (sent_frame frame blocked) self
  send_frame headers_frame frame blocked self =
      on_stream frame.stream_id (sent_frame frame blocked) self
  send_frame settings_frame frame blocked self =
      if frame.ack
      then self
      else record self { effects = self.effects ++ start_settings_timer ∷ [] }
  send_frame push_promise_frame frame blocked self =
      elim (get_stream frame.promised_stream_id self.streams) [
        | none ↦ self
        | some promised ↦ on_stream frame.stream_id push_promised self
      ]
  send_frame other_frame frame blocked self = self

  unfoldable pub on_frame_send_cb : Frame → Bool → HttpSession → HttpSession
  unfolding send_frame
  on_frame_send_cb frame blocked self = send_frame frame.type frame blocked self
