-- ===== src/Session/Bounded.antt =====
-- src/httpsession.cc: work on a stream that keeps its count of header bytes within the limit.
use harmony_http.Prelude.{
  ℕ, ◌+◌, ◌*◌, ◌≤◌, ◌≡◌, arith, List, [], ◌∷◌, Bytes, Bool, true, false, ltb, ◌==◌, Bool-cases, inl,
  inr, Option-cases, if◌then◌else◌, length,
}
use harmony_http.Fields.{Rcbuf, get_string_view}
use harmony_http.Session.{
  Stream, Act, HttpSession, Effect, then_do, nothing, reset_read_timeout, reset_write_timeout,
  reset_read_timeout_if_active, stop_read_timeout, stop_write_timeout, reset_stream, parse_path,
  update, on_stream, remove_stream, take_field, take_chunk,
}
use harmony_http.Session.Frames.{continue_100}

abbrev pub limit : ℕ
limit = 64 * 1024

abbrev pub AllWithin : List (ℕ × Stream) → Type 0
AllWithin [] = Unit {0}
AllWithin ((k, s) ∷ ss) = (s.buffer_size ≤ limit) × AllWithin ss

abbrev pub Bounded : Act → Type 0
Bounded f = (s : Stream) → s.buffer_size ≤ limit → (f s).0.buffer_size ≤ limit

pub Bounded-then_do : (f g : Act) → Bounded f → Bounded g → Bounded (then_do f g)
unfolding then_do
Bounded-then_do f g bf bg s h = bg (f s).0 (bf s h)

pub Bounded-if : (b : Bool) (f g : Act) → Bounded f → Bounded g → Bounded (if b then f else g)
Bounded-if true f g bf bg = bf
Bounded-if false f g bf bg = bg

pub Bounded-nothing : Bounded nothing
Bounded-nothing s h = h

pub Bounded-reset_read : Bounded reset_read_timeout
unfolding reset_read_timeout
Bounded-reset_read s h = h

pub Bounded-reset_write : Bounded reset_write_timeout
unfolding reset_write_timeout
Bounded-reset_write s h = h

pub Bounded-stop_read : Bounded stop_read_timeout
unfolding stop_read_timeout
Bounded-stop_read s h = h

pub Bounded-stop_write : Bounded stop_write_timeout
unfolding stop_write_timeout
Bounded-stop_write s h = h

pub Bounded-if_active : Bounded reset_read_timeout_if_active
unfolding reset_read_timeout_if_active
Bounded-if_active s h = elim (Bool-cases s.read_timer) [ inl e ↦ rw e h | inr e ↦ rw e h ]

pub not_over : (size : ℕ) → ltb (64 * 1024) size ≡ false → size ≤ limit
not_over size h = ground arith

pub Bounded-take_field : (name value : Rcbuf) → Bounded (take_field name value)
unfolding take_field
Bounded-take_field name value s h =
    let size = s.buffer_size + length name.base + length value.base in
    elim (Bool-cases (ltb (64 * 1024) size)) [
      | inl over ↦ rw over (unfold reset_stream in h)
      | inr fits ↦ rw fits (not_over size fits)
    ]

pub Bounded-take_chunk : (chunk : Bytes) → Bounded (take_chunk chunk)
unfolding take_chunk
Bounded-take_chunk chunk s h = h

pub Bounded-continue_100 : Bounded continue_100
unfolding continue_100
Bounded-continue_100 s h = elim (Option-cases (get_string_view s.headers.expect_buf)) [
  | inl e ↦ rw (e, continue_100) h
  | inr (v, e) ↦ rw (e, continue_100) h
]

pub Bounded-parse_path : Bounded parse_path
unfolding parse_path
Bounded-parse_path s h = h

pub pick :
    (b : Bool) (x y : Stream × List Effect)
    → x.0.buffer_size ≤ limit
    → y.0.buffer_size ≤ limit
    → (if b then x else y).0.buffer_size ≤ limit
pick true x y hx hy = hx
pick false x y hx hy = hy

pub AllWithin-update :
    (id : ℕ) (f : Act) (ss : List (ℕ × Stream))
    → Bounded f
    → AllWithin ss
    → AllWithin (update id f ss).0
unfolding update
AllWithin-update id f [] b a = tt
AllWithin-update id f ((k, s) ∷ ss) b (h, a) = elim (Bool-cases (k == id)) [
  | inl e ↦ rw e (b s h, a)
  | inr e ↦ rw e (h, AllWithin-update id f ss b a)
]

pub AllWithin-on_stream :
    (id : ℕ) (f : Act) (self : HttpSession)
    → Bounded f
    → AllWithin self.streams
    → AllWithin (on_stream id f self).streams
unfolding on_stream
AllWithin-on_stream id f self b a = AllWithin-update id f self.streams b a

pub AllWithin-remove_stream :
    (id : ℕ) (ss : List (ℕ × Stream)) → AllWithin ss → AllWithin (remove_stream id ss)
unfolding remove_stream
AllWithin-remove_stream id [] a = tt
AllWithin-remove_stream id ((k, s) ∷ ss) (h, a) = elim (Bool-cases (k == id)) [
  | inl e ↦ rw e (AllWithin-remove_stream id ss a)
  | inr e ↦ rw e (h, AllWithin-remove_stream id ss a)
]
