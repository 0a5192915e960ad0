-- ===== src/Events/Chunks.antt =====
-- src/eventstream.cc: what a call of `send` puts into the write buffer, and where it throws.
use harmony_http.Prelude.{
  ℕ, suc, ◌+◌, ◌-◌, ◌^◌, ◌≤◌, ◌<◌, ◌≡◌, refl, sym, ap, ap₂, ◌∙◌, inl, inr, ◌⊎◌, arith, List, [],
  ◌∷◌, ◌++◌, append_assoc, Bytes, true, false, Bool-cases, ◌&&◌, leb, ◌==◌, if◌then◌else◌, length,
  take, drop, length-drop, take-append_add, drop-append_le, drop-append_add, take_all, drop_all,
}
use harmony_http.Buffer.{Buffer, wleft, contents}
use harmony_http.Buffer.Refine.{IsValid}
use harmony_http.Events.{Event}
use harmony_http.Events.Stream.{
  EventStream, Send, sent, out_of_range, ext_pre, event_length, size_sub, write_prefix, write_start,
  write_data, finish, send_event, send_queue, send,
}
use harmony_http.Events.Text.{
  event_head, event_text, length-event_head, slice_length, Reaches, write_prefix-Reaches,
}
use harmony_http.Events.Sent.{write_start-Reaches, write_data_lem, body_from, newlines}

-- The prefix, whichever way it is written.
start_of-Reaches :
    (ev : Event) (next : ℕ → ℕ → Buffer → Send) (pos n : ℕ) (wb : Buffer)
    → n ≤ wleft wb
    → IsValid wb
    → Reaches next pos n (take n (drop pos (event_head ev))) wb (
        if (pos == 0) && leb (ext_pre ev) n
        then write_start ev next pos n wb
        else write_prefix (suc n) ev next pos n wb)
start_of-Reaches ev next pos n wb room v = elim (Bool-cases ((pos == 0) && leb (ext_pre ev) n)) [
  | inl fast ↦
      let at_start : pos ≡ 0 = ground arith in
      let enough : ext_pre ev ≤ n = ground arith in
      let whole : take n (drop pos (event_head ev)) ≡ event_head ev =
        ap (λ p. take n (drop p (event_head ev))) at_start
        ∙ take_all n (event_head ev) (omega (arith, length-event_head ev)) in
      rw (fast, whole) (write_start-Reaches ev next pos n wb (omega arith) v)
  | inr slow ↦ rw slow (write_prefix-Reaches (suc n) ev next pos n wb (omega arith) room v)
]

-- The stream after a call that sent up to `pos` of its first event.
abbrev pub after_send : EventStream → Event → List Event → ℕ → EventStream
after_send es ev evs pos =
    if leb (event_length ev) pos
    then record es { queue = evs; pos = 0 }
    else record es { pos = pos }

-- A slice of an append that reaches the second list, in two parts.
slice-split :
    (xs ys : Bytes) (p n : ℕ)
    → length xs ≤ p + n
    → let t = take n (drop p xs) in
      take n (drop p (xs ++ ys)) ≡ t ++ take (n - length t) (drop (p + length t - length xs) ys)
slice-split xs ys p n h = elim (Bool-cases (leb p (length xs))) [
  | inl within ↦
      let inside : p ≤ length xs = ground arith in
      let size = length-drop p xs in
      let whole = take_all n (drop p xs) (omega (arith, size)) in
      let at_start : p + length (drop p xs) - length xs ≡ 0 = omega (arith, size) in
      ap (take n) (drop-append_le p xs ys inside)
      ∙ take-append_add n (drop p xs) ys (n - length (drop p xs)) (omega (arith, size))
      ∙ ap (λ i. drop p xs ++ take (n - length (drop p xs)) (drop i ys)) (sym at_start)
      ∙ ap (λ t. t ++ take (n - length t) (drop (p + length t - length xs) ys)) (sym whole)
  | inr past ↦
      let outside : length xs ≤ p = ground arith in
      let none_left : take n (drop p xs) ≡ [] =
        ap (take n) (drop_all p xs outside) ∙ take_all n [] (omega arith) in
      ap (take n) (drop-append_add p xs ys (p - length xs) (omega arith))
      ∙ ap₂ (λ m i. take m (drop i ys)) (omega arith) (omega arith)
      ∙ ap (λ t. t ++ take (n - length t) (drop (p + length t - length xs) ys)) (sym none_left)
]

send_event_lem :
    (es : EventStream) (ev : Event) (evs : List Event) (n : ℕ) (wb : Buffer)
    → IsValid wb
    → n ≤ wleft wb
    → es.pos + n ≤ event_length ev
    → ext_pre ev ≤ es.pos + n
    → es.pos ≤ ext_pre ev + length ev.content
    → (wb' : Buffer) × (send_event es ev evs n wb ≡ sent wb' (after_send es ev evs (es.pos + n)))
      × (contents wb' ≡ contents wb ++ take n (drop es.pos (event_text ev)))
      × IsValid wb'
unfolding send_event finish
send_event_lem es ev evs n wb v room inside low high =
    let t = take n (drop es.pos (event_head ev)) in
    let size = slice_length n es.pos (event_head ev) in
    let whole = length-event_head ev in
    let ok : leb (es.pos + n) (event_length ev) ≡ true = ground arith in
    let (wb₁, made, same, left, v₁) =
      start_of-Reaches ev (write_data ev (finish es ev evs)) es.pos n wb room v in
    let (wb₂, ended, same₂, v₂) =
      write_data_lem ev (finish es ev evs) (es.pos + length t) (n - length t) wb₁
        (omega (arith, size, whole)) (omega (arith, size, whole)) (omega (arith, size, whole))
        (omega (arith, size, whole)) v₁ in
    (
      wb₂,
      rw ok (made ∙ ended ∙ ap (λ p. finish es ev evs p wb₂) (omega (arith, size, whole))),
      same₂
          ∙ ap (λ l. l ++ body_from ev (es.pos + length t - ext_pre ev) (n - length t)) same
          ∙ append_assoc (contents wb) t
              (body_from ev (es.pos + length t - ext_pre ev) (n - length t))
          ∙ ap (λ k. contents wb ++ (t ++ body_from ev (es.pos + length t - k) (n - length t)))
              (sym whole)
          ∙ ap (λ l. contents wb ++ l)
              (sym (
                slice-split (event_head ev) (ev.content ++ newlines) es.pos n
                  (omega (arith, whole)))),
      v₂,
    )

-- On a valid buffer with room for `wlen` bytes, when `wlen` takes the first event from its offset to
-- its payload or further but not past its end, and the offset is not behind its payload: `send` fails
-- in no way, the buffer gets the next `wlen` bytes of the event's text ("event: ", name, newline,
-- "data: ", payload, two newlines) and nothing else, and the event leaves the queue with the offset
-- reset if it is complete, while otherwise the offset moves by `wlen`.
pub send_lem :
    (es : EventStream) (ev : Event) (evs : List Event) (wlen : ℕ) (wb : Buffer)
    → es.queue ≡ ev ∷ evs
    → IsValid wb
    → wlen ≤ wleft wb
    → es.pos + wlen ≤ event_length ev
    → ext_pre ev ≤ es.pos + wlen
    → es.pos ≤ ext_pre ev + length ev.content
    → (wb' : Buffer) × (send es wlen wb ≡ sent wb' (after_send es ev evs (es.pos + wlen)))
      × (contents wb' ≡ contents wb ++ take wlen (drop es.pos (event_text ev)))
      × IsValid wb'
unfolding send send_queue
send_lem es ev evs wlen wb front v room inside low high =
    let (wb', made, same, v') = send_event_lem es ev evs wlen wb v room inside low high in
    (wb', ap (λ queue. send_queue es queue wlen wb) front ∙ made, same, v')

-- Where the offset that `substr` gets is behind the payload, as a difference of size_t.
write_data-out_of_range :
    (ev : Event) (next : ℕ → Buffer → Send) (pos n : ℕ) (wb : Buffer)
    → event_length ev < 2 ^ 64
    → (pos < ext_pre ev) ⊎ (ext_pre ev + length ev.content < pos)
    → write_data ev next pos n wb ≡ out_of_range
unfolding write_data
write_data-out_of_range ev next pos n wb small (inl h) =
    let start : size_sub pos (ext_pre ev) ≡ 2 ^ 64 - (ext_pre ev - pos) = ground arith in
    let bad : leb (2 ^ 64 - (ext_pre ev - pos)) (length ev.content) ≡ false = ground arith in
    rw (start, bad) refl
write_data-out_of_range ev next pos n wb small (inr h) =
    let start : size_sub pos (ext_pre ev) ≡ pos - ext_pre ev = ground arith in
    let bad : leb (pos - ext_pre ev) (length ev.content) ≡ false = ground arith in
    rw (start, bad) refl

send_event-out_of_range :
    (es : EventStream) (ev : Event) (evs : List Event) (n : ℕ) (wb : Buffer)
    → IsValid wb
    → n ≤ wleft wb
    → es.pos + n ≤ event_length ev
    → event_length ev < 2 ^ 64
    → (es.pos + n < ext_pre ev) ⊎ (ext_pre ev + length ev.content < es.pos)
    → send_event es ev evs n wb ≡ out_of_range
unfolding send_event
send_event-out_of_range es ev evs n wb v room inside small bad =
    let t = take n (drop es.pos (event_head ev)) in
    let size = slice_length n es.pos (event_head ev) in
    let whole = length-event_head ev in
    let ok : leb (es.pos + n) (event_length ev) ≡ true = ground arith in
    let (wb₁, made, same, left, v₁) =
      start_of-Reaches ev (write_data ev (finish es ev evs)) es.pos n wb room v in
    rw ok (
      made
      ∙ write_data-out_of_range ev (finish es ev evs) (es.pos + length t) (n - length t) wb₁ small
          (elim bad [
            | inl h ↦ inl (omega (arith, size, whole))
            | inr h ↦ inr (omega (arith, size, whole))
          ]))

-- With an event at the front of the queue, a valid buffer with room for `wlen` bytes, and `wlen`
-- bytes left of the event, which is shorter than 2^64 bytes: if the call ends inside the prefix, or
-- starts behind the first of the two newlines, `send` throws the exception of `substr`.
pub send-out_of_range :
    (es : EventStream) (ev : Event) (evs : List Event) (wlen : ℕ) (wb : Buffer)
    → es.queue ≡ ev ∷ evs
    → IsValid wb
    → wlen ≤ wleft wb
    → es.pos + wlen ≤ event_length ev
    → event_length ev < 2 ^ 64
    → (es.pos + wlen < ext_pre ev) ⊎ (ext_pre ev + length ev.content < es.pos)
    → send es wlen wb ≡ out_of_range
unfolding send send_queue
send-out_of_range es ev evs wlen wb front v room inside small bad =
    ap (λ queue. send_queue es queue wlen wb) front
    ∙ send_event-out_of_range es ev evs wlen wb v room inside small bad
