-- ===== src/Session/Streams.antt =====
-- src/httpsession.cc: sequences of callbacks, and which streams the session has.
use harmony_http.Prelude.{
  ℕ, ◌≡◌, refl, ap, ◌∙◌, List, [], ◌∷◌, Bytes, Bool, true, false, not, ◌&&◌, ◌||◌, Bool-cases, inl,
  inr, some, none, Option-cases, ◌==◌, if◌then◌else◌,
}
use harmony_http.Fields.{Rcbuf}
use harmony_http.Router.{Vars}
use harmony_http.Router.Table.{HttpRouter}
use harmony_http.Session.{
  Stream, Act, HttpSession, Frame, FrameType, data_frame, headers_frame, settings_frame,
  push_promise_frame, other_frame, starts_request, get_stream, update, on_stream, remove_stream,
  on_begin_headers_cb, on_header_cb, take_field, on_data_chunk_recv_cb, take_chunk,
  on_stream_close_cb,
}
use harmony_http.Session.Frames.{
  recv_data, recv_headers, on_frame_recv_cb, recv_frame, send_frame, sent_frame, push_promised,
  on_frame_send_cb,
}

pub data Callback : Type 0 where
  on_begin_headers on_frame_recv : Frame → Callback
  on_header : Frame → Rcbuf → Rcbuf → Callback
  on_data_chunk_recv : ℕ → Bytes → Callback
  on_frame_send : Frame → Bool → Callback
  on_stream_close : ℕ → Callback

abbrev pub ids : List (ℕ × Stream) → List ℕ
ids [] = []
ids ((k, s) ∷ ss) = k ∷ ids ss

abbrev pub elem : ℕ → List ℕ → Bool
elem id [] = false
elem id (k ∷ ks) = (k == id) || elem id ks

unfoldable pub without : ℕ → List ℕ → List ℕ
without id [] = []
without id (k ∷ ks) = let rest = without id ks in if k == id then rest else k ∷ rest

-- What a callback does to the ids.
unfoldable pub step_ids : Callback → List ℕ → List ℕ
step_ids (on_begin_headers frame) ks =
    if starts_request frame && not (elem frame.stream_id ks) then frame.stream_id ∷ ks else ks
step_ids (on_stream_close id) ks = without id ks
step_ids _ ks = ks

unfoldable pub run_ids : List Callback → List ℕ → List ℕ
run_ids [] ks = ks
run_ids (c ∷ cs) ks = run_ids cs (step_ids c ks)

ids-update : (id : ℕ) (f : Act) (ss : List (ℕ × Stream)) → ids (update id f ss).0 ≡ ids ss
unfolding update
ids-update id f [] = refl
ids-update id f ((k, s) ∷ ss) = elim (Bool-cases (k == id)) [
  | inl h ↦ rw h refl
  | inr h ↦ rw h (ap (λ l. k ∷ l) (ids-update id f ss))
]

ids-on_stream :
    (id : ℕ) (f : Act) (self : HttpSession) → ids (on_stream id f self).streams ≡ ids self.streams
unfolding on_stream
ids-on_stream id f self = ids-update id f self.streams

ids-remove_stream :
    (id : ℕ) (ss : List (ℕ × Stream)) → ids (remove_stream id ss) ≡ without id (ids ss)
unfolding remove_stream without
ids-remove_stream id [] = refl
ids-remove_stream id ((k, s) ∷ ss) = elim (Bool-cases (k == id)) [
  | inl h ↦ rw h (ids-remove_stream id ss)
  | inr h ↦ rw h (ap (λ l. k ∷ l) (ids-remove_stream id ss))
]

true-false : true ≡ false → ⊥
true-false e = cc

get_stream-absent :
    (id : ℕ) (ss : List (ℕ × Stream)) → elem id (ids ss) ≡ false → get_stream id ss ≡ none
unfolding get_stream
get_stream-absent id [] h = refl
get_stream-absent id ((k, s) ∷ ss) h = elim (Bool-cases (k == id)) [
  | inl e ↦ absurd (true-false (rw e at h))
  | inr e ↦ rw e (get_stream-absent id ss (rw e at h))
]

get_stream-present :
    (id : ℕ) (ss : List (ℕ × Stream))
    → elem id (ids ss) ≡ true
    → (s : Stream) × (get_stream id ss ≡ some s)
unfolding get_stream
get_stream-present id [] h = cc
get_stream-present id ((k, s) ∷ ss) h = elim (Bool-cases (k == id)) [
  | inl e ↦ rw e (s, refl)
  | inr e ↦ rw e (get_stream-present id ss (rw e at h))
]

ids-on_begin_headers_cb :
    (new_stream : ℕ → Stream) (frame : Frame) (self : HttpSession)
    → ids (on_begin_headers_cb new_stream frame self).0.streams
      ≡ step_ids (on_begin_headers frame) (ids self.streams)
unfolding on_begin_headers_cb step_ids
ids-on_begin_headers_cb new_stream frame self = elim (Bool-cases (starts_request frame)) [
  | inr h ↦ rw h refl
  | inl h ↦ elim (Bool-cases (elem frame.stream_id (ids self.streams))) [
    | inr absent ↦ rw (h, absent, get_stream-absent frame.stream_id self.streams absent) refl
    | inl present ↦
        let (s, there) = get_stream-present frame.stream_id self.streams present in
        rw (h, present, there) refl
  ]
]

module _ (new_stream : ℕ → Stream) (router : HttpRouter ℕ) (handler : ℕ → Vars → Act) where
  unfoldable pub step : Callback → HttpSession → HttpSession
  step (on_begin_headers frame) self = (on_begin_headers_cb new_stream frame self).0
  step (on_header frame name value) self = on_header_cb frame name value self
  step (on_data_chunk_recv id chunk) self = on_data_chunk_recv_cb id chunk self
  step (on_frame_recv frame) self = on_frame_recv_cb router handler frame self
  step (on_frame_send frame blocked) self = on_frame_send_cb router handler frame blocked self
  step (on_stream_close id) self = on_stream_close_cb id self

  unfoldable pub run : List Callback → HttpSession → HttpSession
  unfolding step
  run [] self = self
  run (c ∷ cs) self = run cs (step c self)

  ids-recv_frame :
      (type : FrameType) (frame : Frame) (self : HttpSession)
      → ids (recv_frame router handler type frame self).streams ≡ ids self.streams
  unfolding recv_frame
  ids-recv_frame data_frame frame self =
      ids-on_stream frame.stream_id (recv_data router handler frame) self
  ids-recv_frame headers_frame frame self =
      ids-on_stream frame.stream_id (recv_headers router handler frame) self
  ids-recv_frame settings_frame frame self = elim (Bool-cases frame.ack) [
    | inl h ↦ rw h refl
    | inr h ↦ rw h refl
  ]
  ids-recv_frame push_promise_frame frame self = refl
  ids-recv_frame other_frame frame self = refl

  ids-send_frame :
      (type : FrameType) (frame : Frame) (blocked : Bool) (self : HttpSession)
      → ids (send_frame router handler type frame blocked self).streams ≡ ids self.streams
  unfolding send_frame
  ids-send_frame data_frame frame blocked self =
      ids-on_stream frame.stream_id (sent_frame router handler frame blocked) self
  ids-send_frame headers_frame frame blocked self =
      ids-on_stream frame.stream_id (sent_frame router handler frame blocked) self
  ids-send_frame settings_frame frame blocked self = elim (Bool-cases frame.ack) [
    | inl h ↦ rw h refl
    | inr h ↦ rw h refl
  ]
  ids-send_frame push_promise_frame frame blocked self =
      elim (Option-cases (get_stream frame.promised_stream_id self.streams)) [
        | inl gone ↦ rw (gone, send_frame) refl
        | inr (p, there) ↦
            rw (there, send_frame)
              (ids-on_stream frame.stream_id (push_promised router handler) self)
      ]
  ids-send_frame other_frame frame blocked self = refl

  ids-step :
      (c : Callback) (self : HttpSession)
      → ids (step c self).streams ≡ step_ids c (ids self.streams)
  unfolding step
  ids-step (on_begin_headers frame) self = ids-on_begin_headers_cb new_stream frame self
  ids-step (on_header frame name value) self =
      unfold on_header_cb in
      elim (Bool-cases (starts_request frame)) [
        | inl h ↦
            unfold step_ids in rw h (ids-on_stream frame.stream_id (take_field name value) self)
        | inr h ↦ unfold step_ids in rw h refl
      ]
  ids-step (on_data_chunk_recv id chunk) self =
      unfold on_data_chunk_recv_cb step_ids in ids-on_stream id (take_chunk chunk) self
  ids-step (on_frame_recv frame) self =
      unfold on_frame_recv_cb step_ids in ids-recv_frame frame.type frame self
  ids-step (on_frame_send frame blocked) self =
      unfold on_frame_send_cb step_ids in ids-send_frame frame.type frame blocked self
  ids-step (on_stream_close id) self =
      unfold on_stream_close_cb step_ids in ids-remove_stream id self.streams

  -- Whatever callbacks nghttp2 makes, and whatever handlers do to their stream, the ids of the
  -- session's streams are those of `run_ids`: the headers of a request add an id that is not
  -- there, a close removes its id, and no other callback changes them.
  pub ids-run :
      (cs : List Callback) (self : HttpSession)
      → ids (run cs self).streams ≡ run_ids cs (ids self.streams)
  unfolding run run_ids
  ids-run [] self = refl
  ids-run (c ∷ cs) self = ids-run cs (step c self) ∙ ap (run_ids cs) (ids-step c self)
