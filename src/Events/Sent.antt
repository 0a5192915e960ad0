-- ===== src/Events/Sent.antt =====
-- src/eventstream.cc: the fast start of `send`, the payload of an event and the newlines behind it.
use harmony_http.Prelude.{
  ℕ, zero, suc, ◌+◌, ◌-◌, ◌≤◌, ◌≡◌, refl, sym, ap, ap₂, ◌∙◌, inl, inr, arith, [], ◌∷◌, ◌++◌,
  append_assoc, append-nil, Bytes, true, Bool-cases, leb, length, take, drop, replicate,
  length-take, length-drop, take-append_le, take-append_add, drop-append_le, take_all,
}
use harmony_http.Buffer.{Buffer, wleft, contents, write_full}
use harmony_http.Buffer.Refine.{IsValid, write_full_lem, write_byte_lem}
use harmony_http.Events.{Event}
use harmony_http.Events.Stream.{
  Send, event_label, data_label, ext_pre, event_length, size_sub, after_write, write_start,
  write_newlines, write_data,
}
use harmony_http.Events.Text.{event_head, length-event_head, slice_length, Reaches}

pub write_start-Reaches :
    (ev : Event) (next : ℕ → ℕ → Buffer → Send) (pos n : ℕ) (wb : Buffer)
    → ext_pre ev ≤ wleft wb
    → IsValid wb
    → Reaches next pos n (event_head ev) wb (write_start ev next pos n wb)
unfolding write_start after_write
write_start-Reaches ev next pos n wb room v =
    let (wb₁, made₁, same₁, read₁, left₁, v₁) = write_full_lem wb event_label v (omega arith) in
    let (wb₂, made₂, same₂, read₂, left₂, v₂) = write_full_lem wb₁ ev.name v₁ (omega arith) in
    let (wb₃, made₃, same₃, read₃, left₃, v₃) = write_full_lem wb₂ (b'\n' ∷ []) v₂ (omega arith) in
    let (wb₄, made₄, same₄, read₄, left₄, v₄) = write_full_lem wb₃ data_label v₃ (omega arith) in
    let size = length-event_head ev in
    (
      wb₄,
      rw (made₁, made₂, made₃, made₄)
          (ap₂ (λ p m. next p m wb₄) (omega (arith, size)) (omega (arith, size))),
      same₄
          ∙ ap (λ l. l ++ data_label)
              (same₃ ∙ ap (λ l. l ++ b'\n' ∷ []) (same₂ ∙ ap (λ l. l ++ ev.name) same₁))
          ∙ append_assoc (contents wb ++ event_label ++ ev.name) (b'\n' ∷ []) data_label
          ∙ append_assoc (contents wb ++ event_label) ev.name (b'\n' ∷ data_label)
          ∙ append_assoc (contents wb) event_label (ev.name ++ b'\n' ∷ data_label),
      omega (arith, size),
      v₄,
    )

write_newlines_lem :
    (next : ℕ → Buffer → Send) (pos n : ℕ) (wb : Buffer)
    → n ≤ wleft wb
    → IsValid wb
    → (wb' : Buffer) × (write_newlines next pos n wb ≡ next (pos + n) wb')
      × (contents wb' ≡ contents wb ++ replicate n b'\n')
      × IsValid wb'
unfolding write_newlines after_write
write_newlines_lem next pos zero wb room v =
    (wb, ap (λ p. next p wb) (omega arith), sym (append-nil (contents wb)), v)
write_newlines_lem next pos (suc n) wb room v =
    let (wb₁, made, same, left, v₁) = write_byte_lem wb b'\n' v (omega arith) in
    let (wb₂, rest, same₂, v₂) = write_newlines_lem next (pos + 1) n wb₁ (omega arith) v₁ in
    (
      wb₂,
      rw made (rest ∙ ap (λ p. next p wb₂) (omega arith)),
      same₂
          ∙ ap (λ l. l ++ replicate n b'\n') same
          ∙ append_assoc (contents wb) (b'\n' ∷ []) (replicate n b'\n'),
      v₂,
    )

abbrev pub newlines : Bytes
newlines = b'\n' ∷ b'\n' ∷ []

-- Two newlines are enough for what is left of an event.
two_newlines : (n : ℕ) → n ≤ 2 → take n newlines ≡ replicate n b'\n'
two_newlines zero h = refl
two_newlines (suc zero) h = refl
two_newlines (suc (suc zero)) h = refl
two_newlines (suc (suc (suc n))) h = absurd (omega arith)

-- The payload from offset `start`, and the newlines behind it.
abbrev pub body_from : Event → ℕ → ℕ → Bytes
body_from ev start n = take n (drop start (ev.content ++ newlines))

body-split :
    (ev : Event) (start n : ℕ)
    → start ≤ length ev.content
    → start + n ≤ length ev.content + 2
    → let s = take n (drop start ev.content) in
      body_from ev start n ≡ s ++ replicate (n - length s) b'\n'
body-split ev start n h k =
    let rest = drop start ev.content in
    let size = length-drop start ev.content in
    ap (take n) (drop-append_le start ev.content newlines h)
    ∙ elim (Bool-cases (leb n (length rest))) [
      | inl within ↦
          let all : n - length (take n rest) ≡ 0 = ground (arith, length-take n rest) in
          take-append_le n rest newlines (ground arith)
          ∙ sym (append-nil (take n rest))
          ∙ ap (λ m. take n rest ++ replicate m b'\n') (sym all)
      | inr past ↦
          let long : length rest ≤ n = ground arith in
          let whole = take_all n rest long in
          take-append_add n rest newlines (n - length rest) (omega arith)
          ∙ ap (λ l. rest ++ l) (two_newlines (n - length rest) (omega (arith, size)))
          ∙ ap (λ l. l ++ replicate (n - length l) b'\n') (sym whole)
    ]

write_data_inside :
    (ev : Event) (next : ℕ → Buffer → Send) (pos n : ℕ) (wb : Buffer)
    → ext_pre ev ≤ pos
    → pos ≤ ext_pre ev + length ev.content
    → let s = take n (drop (pos - ext_pre ev) ev.content) in
      write_data ev next pos n wb
      ≡ after_write (write_newlines next (pos + length s) (n - length s)) (write_full wb s)
unfolding write_data
write_data_inside ev next pos n wb low high =
    let diff : size_sub pos (ext_pre ev) ≡ pos - ext_pre ev = ground arith in
    let ok : leb (pos - ext_pre ev) (length ev.content) ≡ true = ground arith in rw (diff, ok) refl

pub write_data_lem :
    (ev : Event) (next : ℕ → Buffer → Send) (pos n : ℕ) (wb : Buffer)
    → ext_pre ev ≤ pos
    → pos ≤ ext_pre ev + length ev.content
    → pos + n ≤ event_length ev
    → n ≤ wleft wb
    → IsValid wb
    → (wb' : Buffer) × (write_data ev next pos n wb ≡ next (pos + n) wb')
      × (contents wb' ≡ contents wb ++ body_from ev (pos - ext_pre ev) n)
      × IsValid wb'
unfolding after_write
write_data_lem ev next pos n wb low high inside room v =
    let start = pos - ext_pre ev in
    let s = take n (drop start ev.content) in
    let size = slice_length n start ev.content in
    let (wb₁, made, same, read₁, left, v₁) = write_full_lem wb s v (omega (arith, size)) in
    let (wb₂, rest, same₂, v₂) =
      write_newlines_lem next (pos + length s) (n - length s) wb₁ (omega (arith, size)) v₁ in
    (
      wb₂,
      write_data_inside ev next pos n wb low high
          ∙ ap (after_write (write_newlines next (pos + length s) (n - length s))) made
          ∙ rest
          ∙ ap (λ p. next p wb₂) (omega (arith, size)),
      same₂
          ∙ ap (λ l. l ++ replicate (n - length s) b'\n') same
          ∙ append_assoc (contents wb) s (replicate (n - length s) b'\n')
          ∙ ap (λ l. contents wb ++ l) (sym (body-split ev start n (omega arith) (omega arith))),
      v₂,
    )
