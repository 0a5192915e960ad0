-- ===== src/Session/Data/Sent.antt =====
-- src/httpsession.cc: what `send_data_cb` puts into the write buffer for a DATA frame.
use harmony_http.Prelude.{
  ℕ, zero, suc, ◌+◌, ◌-◌, ◌≤◌, ◌<◌, ◌≡◌, ◌⊎◌, inl, inr, refl, sym, ap, ◌∙◌, arith, [], ◌∷◌, ◌++◌,
  append_assoc, append-nil, Bytes, true, false, Bool-cases, some, ltb, leb, ◌==◌, length,
  length-take, length-drop, take, drop, replicate,
}
use harmony_http.Buffer.{Buffer, wleft, contents, write_byte, fill}
use harmony_http.Buffer.Refine.{IsValid, write_full_lem, write_byte_lem, fill_lem}
use harmony_http.Session.Data.{
  StringStream, send, SendResult, would_block, sent, end_frame, pad_after, payload_after,
  pad_length_after, send_data_cb,
}

-- RFC 9113: the bytes between the frame's header and its payload, and those behind it.
abbrev pub pad_length : ℕ → Bytes
pad_length zero = []
pad_length (suc n) = n ∷ []

abbrev pub padding : ℕ → Bytes
padding zero = []
padding (suc n) = replicate n 0

-- A frame that fits is written whole.
abbrev pub Written : Buffer → Bytes → StringStream → SendResult StringStream → Type 0
Written wb frame ds r =
    (wb' : Buffer) × (r ≡ sent wb' ds) × (contents wb' ≡ contents wb ++ frame) × IsValid wb'

ltb-lt : {a b : ℕ} → ltb a b ≡ true → a < b
ltb-lt h = ground arith

ltb-ge : {a b : ℕ} → ltb a b ≡ false → b ≤ a
ltb-ge h = ground arith

pad_after-Written :
    (padlen : ℕ) (wb : Buffer) (ds : StringStream)
    → IsValid wb
    → padlen - 1 ≤ wleft wb
    → Written wb (padding padlen) ds (pad_after send true padlen (some (wb, ds)))
pad_after-Written zero wb ds v h = (wb, refl, sym (append-nil (contents wb)), v)
pad_after-Written (suc n) wb ds v h =
    let (wb', made, same, room, v') = fill_lem wb 0 n v (omega arith) in
    let e : (suc n == 0) ≡ false = ground arith in
    let k : suc n - 1 ≡ n = omega arith in
    (
      wb',
      rw e (ap (λ x. end_frame send true ds (fill wb 0 x)) k ∙ ap (end_frame send true ds) made),
      same,
      v',
    )

send-some :
    (wb : Buffer) (n : ℕ) (ds : StringStream)
    → IsValid wb
    → ds.last + n ≤ length ds.text
    → n ≤ wleft wb
    → (wb' : Buffer) × (send wb n ds ≡ some (wb', record ds { last = ds.last + n }))
      × (contents wb' ≡ contents wb ++ take n (drop ds.last ds.text))
      × (wleft wb' + n ≡ wleft wb)
      × IsValid wb'
unfolding send
send-some wb n ds v inside h =
    let slice = take n (drop ds.last ds.text) in
    let size : length slice ≡ n =
      omega (arith, length-take n (drop ds.last ds.text), length-drop ds.last ds.text) in
    let (wb', made, same, read_left, room, v') = write_full_lem wb slice v (omega arith) in
    let ok : leb (ds.last + n) (length ds.text) ≡ true = ground arith in
    (wb', rw (ok, made) refl, same, omega arith, v')

payload_after-Written :
    (n padlen : ℕ) (wb : Buffer) (ds : StringStream)
    → IsValid wb
    → ds.last + n ≤ length ds.text
    → n + (padlen - 1) ≤ wleft wb
    → Written wb
        (take n (drop ds.last ds.text) ++ padding padlen)
        (record ds { last = ds.last + n })
        (payload_after send true n padlen ds (some wb))
payload_after-Written n padlen wb ds v inside h =
    let (wb₁, made, same, room, v₁) = send-some wb n ds v inside (omega arith) in
    let ds' = record ds { last = ds.last + n } in
    let (wb₂, ended, same₂, v₂) = pad_after-Written padlen wb₁ ds' v₁ (omega arith) in
    (
      wb₂,
      ap (pad_after send true padlen) made ∙ ended,
      same₂
          ∙ ap (λ l. l ++ padding padlen) same
          ∙ append_assoc (contents wb) (take n (drop ds.last ds.text)) (padding padlen),
      v₂,
    )

pad_length_after-Written :
    (n padlen : ℕ) (wb : Buffer) (ds : StringStream)
    → IsValid wb
    → ds.last + n ≤ length ds.text
    → n + padlen ≤ wleft wb
    → Written wb
        (pad_length padlen ++ (take n (drop ds.last ds.text) ++ padding padlen))
        (record ds { last = ds.last + n })
        (pad_length_after send true n padlen ds (some wb))
pad_length_after-Written n zero wb ds v inside h =
    payload_after-Written n 0 wb ds v inside (omega arith)
pad_length_after-Written n (suc p) wb ds v inside h =
    let (wb₁, made, same, room, v₁) = write_byte_lem wb p v (omega arith) in
    let (wb₂, ended, same₂, v₂) = payload_after-Written n (suc p) wb₁ ds v₁ inside (omega arith) in
    let e : (suc p == 0) ≡ false = ground arith in
    let k : suc p - 1 ≡ p = omega arith in
    let rest = take n (drop ds.last ds.text) ++ padding (suc p) in
    (
      wb₂,
      rw e (
          ap (λ x. payload_after send true n (suc p) ds (write_byte wb x)) k
          ∙ ap (payload_after send true n (suc p) ds) made
          ∙ ended),
      same₂ ∙ ap (λ l. l ++ rest) same ∙ append_assoc (contents wb) (p ∷ []) rest,
      v₂,
    )

-- On a valid buffer, for a stream that the session has, a frame header of nine bytes and a
-- StringStream that still has the `n` bytes: either the room is too small for the frame and `send_data_cb` blocks, or no assertion
-- fails, and the buffer gets the header, the pad length if there is padding, the next `n` bytes
-- of the string, and the padding, in this order and nothing else.
pub send_data_cb_lem :
    (wb : Buffer) (framehd : Bytes) (n padlen : ℕ) (ds : StringStream)
    → IsValid wb
    → length framehd ≡ 9
    → ds.last + n ≤ length ds.text
    → ((wleft wb < 9 + n + padlen) × (send_data_cb send true wb framehd n padlen ds ≡ would_block))
      ⊎ Written wb
          (framehd ++ (pad_length padlen ++ (take n (drop ds.last ds.text) ++ padding padlen)))
          (record ds { last = ds.last + n })
          (send_data_cb send true wb framehd n padlen ds)
unfolding send_data_cb
send_data_cb_lem wb framehd n padlen ds v size inside =
    elim (Bool-cases (ltb (wleft wb) (9 + n + padlen))) [
      | inl short ↦ inl (ltb-lt short, rw short refl)
      | inr room ↦
          let fits = ltb-ge room in
          let (wb₁, made, same, left, room₁, v₁) = write_full_lem wb framehd v (omega arith) in
          let (wb₂, ended, same₂, v₂) =
            pad_length_after-Written n padlen wb₁ ds v₁ inside (omega arith) in
          let rest = pad_length padlen ++ (take n (drop ds.last ds.text) ++ padding padlen) in
          inr (
            wb₂,
            rw room (ap (pad_length_after send true n padlen ds) made ∙ ended),
            same₂ ∙ ap (λ l. l ++ rest) same ∙ append_assoc (contents wb) framehd rest,
            v₂,
          )
    ]
