-- ===== src/Session.antt =====
-- src/httpsession.cc and src/stream.cc: the callbacks of nghttp2 on a session's streams. What a
-- callback asks of nghttp2 and libev is a list of effects; the handlers of routes are a parameter.
pub mod Streams
pub mod Bounded
pub mod Limits
pub mod Data
pub mod Frames
mod Tests
use harmony_http.Prelude.{
  ℕ, ◌+◌, ◌-◌, ◌*◌, ◌≤◌, min, List, [], ◌∷◌, ◌++◌, Bytes, Bool, true, false, not, ◌&&◌, ◌||◌,
  Option, some, none, ltb, leb, ◌==◌, if◌then◌else◌, length, codes, bytes_eq, get_or,
}
use harmony_http.Buffer.{Buffer, wleft, write_full, write_byte, fill}
use harmony_http.Header.{streq_l}
use harmony_http.Fields.{Headers, Rcbuf, get_string_view, add_header}
use harmony_http.Percent.{percent_decode}
use harmony_http.Request.{HttpRequest, handle_data, handle_body}
use harmony_http.Router.{Method, get, Vars}
use harmony_http.Router.Level.{break_at}
use harmony_http.Router.Table.{
  HttpRouter, Dispatch, unhandled, invoke, no_handler, assertion, dispatch_route,
}

-- What nghttp2 and the event loop are asked for, and the ends that are no return.
pub data Effect : Type 0 where
  submit_rst : ℕ → ℕ → Effect
  submit_non_final_response : ℕ → Bytes → Effect
  submit_file_response bad_request : Bytes → Effect
  start_settings_timer remove_settings_timer : Effect
  undefined : Effect

abbrev pub internal_error : ℕ
internal_error = 2

-- `method` is what the member holds before :method is read.
pub record Stream : Type 0 where
  pub id : ℕ
  pub request : HttpRequest
  pub headers : Headers
  pub method : Method
  pub buffer_size : ℕ
  pub prepared_response : Bool
  pub path : Bytes
  pub query : Bytes
  pub read_timer : Bool
  pub write_timer : Bool

pub record HttpSession : Type 0 where
  pub streams : List (ℕ × Stream)
  pub effects : List Effect

abbrev pub Act : Type 0
Act = Stream → Stream × List Effect

-- One thing after another.
unfoldable pub then_do : Act → Act → Act
then_do f g s = let (s₁, es) = f s in let (s₂, fs) = g s₁ in (s₂, es ++ fs)

abbrev pub nothing : Act
nothing s = (s, [])

unfoldable pub reset_read_timeout : Act
reset_read_timeout s = (record s { read_timer = true }, [])

unfoldable pub reset_write_timeout : Act
reset_write_timeout s = (record s { write_timer = true }, [])

-- A timer that runs is started again.
unfoldable pub reset_read_timeout_if_active : Act
unfolding reset_read_timeout
reset_read_timeout_if_active s = if s.read_timer then reset_read_timeout s else nothing s

unfoldable pub stop_read_timeout : Act
stop_read_timeout s = (record s { read_timer = false }, [])

unfoldable pub stop_write_timeout : Act
stop_write_timeout s = (record s { write_timer = false }, [])

-- Stream::submit_rst
unfoldable pub reset_stream : ℕ → Act
unfolding stop_read_timeout stop_write_timeout then_do
reset_stream error_code =
    then_do stop_read_timeout
      (then_do stop_write_timeout (λ s. (s, submit_rst s.id error_code ∷ [])))

-- `timeout_cb` of both timers, up to the call of `on_write`.
unfoldable pub timeout_cb : Act
unfolding stop_read_timeout stop_write_timeout reset_stream then_do
timeout_cb = then_do stop_read_timeout (then_do stop_write_timeout (reset_stream internal_error))

abbrev pub decode_if_escaped : Bytes → Bytes
decode_if_escaped raw = elim (break_at b'%' raw).1 [ [] ↦ raw | c ∷ s ↦ percent_decode raw ]

abbrev pub request_path : Option Bytes → Bytes
request_path none = codes "/"
request_path (some []) = codes "/"
request_path (some (c ∷ s)) = c ∷ s

-- The query keeps its '?'.
unfoldable pub parse_path : Act
unfolding break_at percent_decode
parse_path s =
    let (raw_path, raw_query) = break_at b'?' (request_path (get_string_view s.headers.path)) in
    (record s { path = decode_if_escaped raw_path; query = decode_if_escaped raw_query }, [])

abbrev pub method_of : Stream → Method
method_of s = elim s.headers.method [ none ↦ s.method | some m ↦ m ]

abbrev pub is_get : Method → Bool
is_get get = true
is_get _ = false

-- The handlers that were registered, the router, and what a program does in a handler.
module _ (router : HttpRouter ℕ) (handler : ℕ → Vars → Act) where
  abbrev pub respond : Stream → Dispatch ℕ → Stream × List Effect
  respond s unhandled =
      let file = if bytes_eq s.path (codes "/") then codes "/index.html" else s.path in
      (s, (if is_get (method_of s) then submit_file_response file else bad_request s.path) ∷ [])
  respond s (invoke index h vars) = handler h vars s
  respond s no_handler = (s, undefined ∷ [])
  respond s assertion = (s, undefined ∷ [])

  unfoldable pub prepare_response : Act
  unfolding dispatch_route
  prepare_response s = respond s (dispatch_route (method_of s) s.path router)

  -- The three lines that two cases of `on_frame_recv_cb` share.
  unfoldable pub prepare_once : Act
  unfolding prepare_response parse_path then_do
  prepare_once s =
      if s.prepared_response
      then nothing s
      else then_do parse_path
          (then_do prepare_response (λ t. (record t { prepared_response = true }, []))) s

-- The streams by their ids.
unfoldable pub get_stream : ℕ → List (ℕ × Stream) → Option Stream
get_stream id [] = none
get_stream id ((k, s) ∷ ss) = let rest = get_stream id ss in if k == id then some s else rest

unfoldable pub update : ℕ → Act → List (ℕ × Stream) → List (ℕ × Stream) × List Effect
update id f [] = ([], [])
update id f ((k, s) ∷ ss) =
    let (s', es) = f s in
    let (rest, fs) = update id f ss in if k == id then ((k, s') ∷ ss, es) else ((k, s) ∷ rest, fs)

-- A callback's work on a stream; without the stream nothing is done.
unfoldable pub on_stream : ℕ → Act → HttpSession → HttpSession
unfolding update
on_stream id f self =
    let (ss, es) = update id f self.streams in record { streams = ss; effects = self.effects ++ es }

unfoldable pub remove_stream : ℕ → List (ℕ × Stream) → List (ℕ × Stream)
remove_stream id [] = []
remove_stream id ((k, s) ∷ ss) =
    let rest = remove_stream id ss in if k == id then rest else (k, s) ∷ rest

-- nghttp2_frame: of the types only those that the callbacks look at. `cat_request` is what the bytes
-- of `headers.cat` say in any frame.
pub data FrameType : Type 0 where
  data_frame headers_frame settings_frame push_promise_frame other_frame : FrameType

pub record Frame : Type 0 where
  pub type : FrameType
  pub stream_id : ℕ
  pub end_stream : Bool
  pub ack : Bool
  pub cat_request : Bool
  pub promised_stream_id : ℕ

abbrev pub is_headers : FrameType → Bool
is_headers headers_frame = true
is_headers _ = false

abbrev pub starts_request : Frame → Bool
starts_request frame = is_headers frame.type && frame.cat_request

-- on_begin_headers_cb; the Bool is whether nghttp2 is told of a failure.
unfoldable pub on_begin_headers_cb : (ℕ → Stream) → Frame → HttpSession → HttpSession × Bool
unfolding get_stream reset_read_timeout
on_begin_headers_cb new_stream frame self =
    let id = frame.stream_id in
    if not (starts_request frame) then (self, false) else elim (get_stream id self.streams) [
      | some s ↦ (self, true)
      | none ↦ (
        record self { streams = (id, (reset_read_timeout (new_stream id)).0) ∷ self.streams },
        false,
      )
    ]

-- The work of on_header_cb on its stream.
unfoldable pub take_field : Rcbuf → Rcbuf → Act
unfolding reset_stream add_header
take_field name value s =
    let size = s.buffer_size + length name.base + length value.base in
    if ltb (64 * 1024) size
    then reset_stream internal_error s
    else (record s { buffer_size = size; headers = add_header name value s.headers }, [])

unfoldable pub on_header_cb : Frame → Rcbuf → Rcbuf → HttpSession → HttpSession
unfolding on_stream take_field
on_header_cb frame name value self =
    if not (starts_request frame)
    then self
    else on_stream frame.stream_id (take_field name value) self

-- The work of on_data_chunk_recv_cb on its stream.
unfoldable pub take_chunk : Bytes → Act
unfolding reset_read_timeout
take_chunk chunk s = reset_read_timeout (record s { request = handle_data chunk false s.request })

unfoldable pub on_data_chunk_recv_cb : ℕ → Bytes → HttpSession → HttpSession
unfolding on_stream take_chunk
on_data_chunk_recv_cb id chunk self = on_stream id (take_chunk chunk) self

unfoldable pub on_stream_close_cb : ℕ → HttpSession → HttpSession
unfolding remove_stream
on_stream_close_cb id self = record self { streams = remove_stream id self.streams }
