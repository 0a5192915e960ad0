-- ===== src/Events/Stream.antt =====
-- src/eventstream.cc and src/eventstream.h: `EventStream`, the data stream that sends the events of a
-- queue as text/event-stream. libev's timer, which calls `ping`, is not modelled.
use harmony_http.Prelude.{
  ℕ, zero, suc, ◌+◌, ◌-◌, ◌^◌, List, [], ◌∷◌, ◌++◌, Bytes, Bool, true, false, ◌&&◌, Option, some,
  none, ltb, leb, ◌==◌, if◌then◌else◌, length, take, drop,
}
use harmony_http.Buffer.{Buffer, write_full, write_byte}
use harmony_http.Events.{Event, make_event}

pub record EventStream : Type 0 where
  pub queue : List Event
  pub pos : ℕ
  pub paused : Bool

-- What `send` comes to. `failed` is a failed assertion or a byte past the buffer's array, and
-- `out_of_range` the exception of `substr`.
pub data Send : Type 0 where
  sent : Buffer → EventStream → Send
  failed out_of_range out_of_fuel : Send

abbrev pub new_stream : EventStream
new_stream = record { queue = []; pos = 0; paused = false }

-- "event: " and "data: "
abbrev pub event_label : Bytes
event_label = b'e' ∷ b'v' ∷ b'e' ∷ b'n' ∷ b't' ∷ b':' ∷ b' ' ∷ []

abbrev pub data_label : Bytes
data_label = b'd' ∷ b'a' ∷ b't' ∷ b'a' ∷ b':' ∷ b' ' ∷ []

abbrev pub ext_pre : Event → ℕ
ext_pre ev = 7 + length ev.name + 6 + 1

-- `len` of `send`.
abbrev pub event_length : Event → ℕ
event_length ev = ext_pre ev + length ev.content + 2

-- A difference of two values of size_t.
abbrev pub size_sub : ℕ → ℕ → ℕ
size_sub a b = if ltb a b then 2 ^ 64 - (b - a) else a - b

unfoldable pub after_write : (Buffer → Send) → Option Buffer → Send
after_write next none = failed
after_write next (some wb) = next wb

-- What a round of the prefix loop writes at `pos`, at most `n` bytes.
unfoldable pub piece : Event → ℕ → ℕ → Bytes
piece ev pos n =
    let nl = length ev.name in
    if ltb pos 7
    then take n (drop pos event_label)
    else if ltb pos (7 + nl)
    then take n (drop (pos - 7) ev.name)
    else if pos == 7 + nl
    then b'\n' ∷ []
    else if ltb pos (7 + nl + 1 + 6)
    then take n (drop (pos - (7 + nl + 1)) data_label)
    else []

unfoldable pub write_prefix : ℕ → Event → (ℕ → ℕ → Buffer → Send) → ℕ → ℕ → Buffer → Send
unfolding after_write
write_prefix zero ev next pos n wb = out_of_fuel
write_prefix (suc fuel) ev next pos n wb =
    let s = piece ev pos n in
    let rest =
      after_write (write_prefix fuel ev next (pos + length s) (n - length s)) (write_full wb s) in
    if ltb 0 n && ltb pos (ext_pre ev) then rest else next pos n wb

-- The whole prefix at once.
unfoldable pub write_start : Event → (ℕ → ℕ → Buffer → Send) → ℕ → ℕ → Buffer → Send
unfolding after_write
write_start ev next pos n wb =
    after_write
      (λ wb₁.
        after_write
          (λ wb₂.
            after_write
              (λ wb₃.
                after_write (next (pos + ext_pre ev) (n - ext_pre ev)) (write_full wb₃ data_label))
              (write_full wb₂ (b'\n' ∷ [])))
          (write_full wb₁ ev.name))
      (write_full wb event_label)

-- `while (to_write--)`
unfoldable pub write_newlines : (ℕ → Buffer → Send) → ℕ → ℕ → Buffer → Send
unfolding after_write
write_newlines next pos zero wb = next pos wb
write_newlines next pos (suc n) wb =
    after_write (write_newlines next (pos + 1) n) (write_byte wb b'\n')

unfoldable pub write_data : Event → (ℕ → Buffer → Send) → ℕ → ℕ → Buffer → Send
unfolding write_newlines after_write
write_data ev next pos n wb =
    let start = size_sub pos (ext_pre ev) in
    let s = take n (drop start ev.content) in
    if leb start (length ev.content)
    then after_write (write_newlines next (pos + length s) (n - length s)) (write_full wb s)
    else out_of_range

-- The event that is written fully leaves the queue.
unfoldable pub finish : EventStream → Event → List Event → ℕ → Buffer → Send
finish es ev evs pos wb = sent wb (
    if leb (event_length ev) pos
    then record es { queue = evs; pos = 0 }
    else record es { pos = pos })

unfoldable pub send_event : EventStream → Event → List Event → ℕ → Buffer → Send
unfolding write_data write_prefix write_start finish
send_event es ev evs wlen wb =
    let next = write_data ev (finish es ev evs) in
    let body =
      if (es.pos == 0) && leb (ext_pre ev) wlen
      then write_start ev next es.pos wlen wb
      else write_prefix (suc wlen) ev next es.pos wlen wb in
    if leb (es.pos + wlen) (event_length ev) then body else failed

unfoldable pub send_queue : EventStream → List Event → ℕ → Buffer → Send
unfolding send_event
send_queue es [] wlen wb = sent wb es
send_queue es (ev ∷ evs) wlen wb = send_event es ev evs wlen wb

unfoldable pub send : EventStream → ℕ → Buffer → Send
unfolding send_queue
send es wlen wb = send_queue es es.queue wlen wb

-- `submit`; true where the stream was paused: its DATA is resumed and the session starts to write.
unfoldable pub submit : Event → EventStream → EventStream × Bool
submit event es =
    if es.paused
    then (record es { queue = es.queue ++ event ∷ []; pos = 0; paused = false }, true)
    else (record es { queue = es.queue ++ event ∷ [] }, false)

unfoldable pub ping : EventStream → EventStream × Bool
unfolding submit
ping es =
    submit
      (make_event (b'p' ∷ b'i' ∷ b'n' ∷ b'g' ∷ []) (b'H' ∷ b'e' ∷ b'l' ∷ b'l' ∷ b'o' ∷ b'!' ∷ []))
      es

abbrev pub front_length : List Event → ℕ
front_length [] = 0
front_length (ev ∷ evs) = length ev.name + length ev.content + (7 + 6 + 3)

abbrev pub is_empty : List Event → Bool
is_empty [] = true
is_empty (ev ∷ evs) = false

-- `length` of the class: an empty queue pauses the stream.
unfoldable pub stream_length : EventStream → ℕ × EventStream
stream_length es =
    (front_length es.queue, if is_empty es.queue then record es { paused = true } else es)

-- The difference wraps around below zero; it is not the end of the stream.
unfoldable pub remaining : EventStream → (ℕ × Bool) × EventStream
unfolding stream_length
remaining es = let (n, es') = stream_length es in ((size_sub n es.pos, false), es')
