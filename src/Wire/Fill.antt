-- ===== src/Wire/Fill.antt =====
-- src/httpsession.cc: the loop of `fill_wb`.
use harmony_http.Prelude.{
  ℕ, zero, suc, ◌+◌, ◌-◌, ◌≤◌, ◌<◌, min, ◌≡◌, ◌≢◌, refl, sym, ap, ◌∙◌, arith, [], ◌∷◌, ◌++◌,
  append_assoc, append-nil, length, take, drop, Bytes, true, false, Bool-cases, inl, inr,
  take-append-drop, drop_all, length-drop, length-take, length-append,
}
use harmony_http.Buffer
use harmony_http.Buffer.{Buffer}
use harmony_http.Buffer.Refine.{IsValid, write_lem, length-contents}
use mathlib.Core.Bool.{false≢true}
use harmony_http.Buffer.Copy.{length-copy_to}
use harmony_http.Wire.{
  Calls, Conn, Sent, failed, chunk, out_of_fuel, move_pending, offer, fill_round, fill_wb,
  fill_fuel,
}
use harmony_http.Wire.Laws.{bytes_of, Honest, Account}

splice :
    (a d p x y : Bytes) {o : Bytes}
    → o ≡ a ++ (d ++ p)
    → p ≡ []
    → o ++ (x ++ y) ≡ a ++ ((d ++ x) ++ y)
splice a d p x y t empty = rw (t, empty) (simp (append_assoc, append-nil))

module _ {N S : Type 0} {calls : Calls N S} {out : N → Bytes} {left : N → ℕ} {accepted : S → Bytes}
    (honest : Honest calls out left accepted) where
  -- Moving pending bytes into the buffer.
  pub move_pending-Account :
      (w : ℕ) (c : Conn N S)
      → Account out left accepted w c
      → Account out left accepted w (move_pending calls c).1
  unfolding move_pending
  move_pending-Account w c k =
      let (count, appended, size, valid) = write_lem c.wbuf c.pending k.valid in
      let n = (Buffer.write c.wbuf c.pending).1 in
      let b = (Buffer.write c.wbuf c.pending).0 in
      record {
        valid = valid;
        total =
            k.total
            ∙ ap (λ t. accepted c.tls ++ t)
                (ap (λ t. Buffer.contents c.wbuf ++ t) (sym (take-append-drop n c.pending))
                  ∙ sym
                      (append_assoc (Buffer.contents c.wbuf) (take n c.pending) (drop n c.pending))
                  ∙ ap (λ t. t ++ drop n c.pending) (sym appended));
        bounded =
            let held = ap length appended in
            omega (
              arith,
              k.bounded,
              held,
              length-append (Buffer.contents c.wbuf) (take n c.pending),
              length-take n c.pending,
              length-drop n c.pending,
              length-contents b valid,
              length-contents c.wbuf k.valid,
            );
      }

  pub move_pending_done :
      (c : Conn N S) → (move_pending calls c).0 ≡ false → (move_pending calls c).1.pending ≡ []
  unfolding move_pending
  move_pending_done c h = drop_all _ c.pending (ground arith)

  -- What `mem_send` leaves, whichever way it answered.
  offer-Account :
      (w : ℕ) (c : Conn N S) (sent : Sent) (n : N) (b : Buffer)
      → IsValid b
      → out n ≡ accepted c.tls ++ (Buffer.contents b ++ bytes_of sent)
      → left n + (length (bytes_of sent) + Buffer.rleft b) ≤ w
      → c.pending ≡ []
      → Account out left accepted w (offer calls sent n b c).1
  unfolding offer
  offer-Account w c failed n b v t h empty = record {
    valid = v;
    total = rw empty t;
    bounded = rw empty h;
  }
  offer-Account w c (chunk []) n b v t h empty = record {
    valid = v;
    total = rw empty t;
    bounded = rw empty h;
  }
  offer-Account w c (chunk (x ∷ xs)) n b v t h empty = record { valid = v; total = t; bounded = h }

  -- A round of `fill_wb` keeps the account.
  pub fill_round-Account :
      (w : ℕ) (c : Conn N S)
      → Account out left accepted w c
      → Account out left accepted w (fill_round calls c).1
  unfolding fill_round
  fill_round-Account w c k = elim (Bool-cases (move_pending calls c).0) [
    | inl stuck ↦ rw stuck (move_pending-Account w c k)
    | inr moved ↦
        let c' = (move_pending calls c).1 in
        let k' = move_pending-Account w c k in
        let e = honest.emits c'.lib c'.wbuf k'.valid in
        let (sent, n, b) = calls.mem_send c'.lib c'.wbuf in
        let empty : c'.pending ≡ [] = move_pending_done c moved in
        rw moved (
          offer-Account w c' sent n b e.valid
            (e.made
              ∙ splice (accepted c'.tls) (Buffer.contents c'.wbuf) c'.pending e.direct
                  (bytes_of sent) k'.total empty
              ∙ ap (λ t. accepted c'.tls ++ (t ++ bytes_of sent)) (sym e.placed))
            (let held = ap length e.placed in
              omega (
                arith,
                k'.bounded,
                e.bounded,
                held,
                length-append (Buffer.contents c'.wbuf) e.direct,
                length-contents b e.valid,
                length-contents c'.wbuf k'.valid,
              ))
            empty)
  ]

  -- How many more rounds `fill_wb` can make.
  rounds : Conn N S → ℕ
  rounds c = Buffer.wleft c.wbuf + (1 - length c.pending)

  wleft-mem_send :
      (c : Conn N S)
      → IsValid c.wbuf
      → Buffer.wleft (calls.mem_send c.lib c.wbuf).2 ≤ Buffer.wleft c.wbuf
  unfolding Buffer.wleft Buffer.rleft
  wleft-mem_send c v =
      let e = honest.emits c.lib c.wbuf v in
      let b = (calls.mem_send c.lib c.wbuf).2 in
      let held = ap length e.placed in
      omega (
        arith,
        held,
        e.size,
        e.cursor,
        e.valid,
        v,
        length-append (Buffer.contents c.wbuf) e.direct,
        length-contents b e.valid,
        length-contents c.wbuf v,
      )

  wleft-move_pending :
      (c : Conn N S)
      → IsValid c.wbuf
      → (move_pending calls c).0 ≡ false
      → Buffer.wleft (move_pending calls c).1.wbuf + length c.pending ≡ Buffer.wleft c.wbuf
  unfolding move_pending Buffer.wleft Buffer.write
  wleft-move_pending c v h = ground (
    arith,
    length-copy_to c.wbuf.buf c.wbuf.last
        (take (min (length c.pending) (Buffer.wleft c.wbuf)) c.pending),
  )

  more_pending :
      (c : Conn N S) (sent : Sent) (n : N) (b : Buffer)
      → (offer calls sent n b c).0.1 ≡ true
      → (1 ≤ length (offer calls sent n b c).1.pending) × ((offer calls sent n b c).1.wbuf ≡ b)
  unfolding offer
  more_pending c failed n b h = cc
  more_pending c (chunk []) n b h = cc
  more_pending c (chunk (x ∷ xs)) n b h = (omega arith, refl)

  offer_ends :
      (c : Conn N S) (sent : Sent) (n : N) (b : Buffer)
      → (offer calls sent n b c).0.1 ≡ false
      → (offer calls sent n b c).0.0 ≢ out_of_fuel
  unfolding offer
  offer_ends c failed n b h = λ e. cc
  offer_ends c (chunk []) n b h = λ e. cc
  offer_ends c (chunk (x ∷ xs)) n b h = cc

  fill_round_progress :
      (w : ℕ) (c : Conn N S)
      → Account out left accepted w c
      → (fill_round calls c).0.1 ≡ true
      → rounds (fill_round calls c).1 + 1 ≤ rounds c
  unfolding fill_round rounds
  fill_round_progress w c k h = elim (Bool-cases (move_pending calls c).0) [
    | inl stuck ↦ absurd (false≢true (rw stuck at h))
    | inr moved ↦
        let c' = (move_pending calls c).1 in
        let k' = move_pending-Account w c k in
        let (sent, n, b) = calls.mem_send c'.lib c'.wbuf in
        let (one, same) = more_pending c' sent n b (rw moved at h) in
        let space = ap Buffer.wleft same in
        rw moved (
          omega (arith, space, one, wleft-mem_send c' k'.valid, wleft-move_pending c k.valid moved))
  ]

  fill_round_ends :
      (c : Conn N S) → (fill_round calls c).0.1 ≡ false → (fill_round calls c).0.0 ≢ out_of_fuel
  unfolding fill_round
  fill_round_ends c h = elim (Bool-cases (move_pending calls c).0) [
    | inl stuck ↦ rw stuck (λ e. cc)
    | inr moved ↦
        let c' = (move_pending calls c).1 in
        let (sent, n, b) = calls.mem_send c'.lib c'.wbuf in
        rw moved (offer_ends c' sent n b (rw moved at h))
  ]

  -- Every outcome of `fill_wb`, whatever the fuel, keeps the account.
  pub fill_wb-Account :
      (fuel w : ℕ) (c : Conn N S)
      → Account out left accepted w c
      → Account out left accepted w (fill_wb calls fuel c).1
  unfolding fill_wb
  fill_wb-Account zero w c k = k
  fill_wb-Account (suc fuel) w c k = elim (Bool-cases (fill_round calls c).0.1) [
    | inl more ↦ rw more (fill_wb-Account fuel w (fill_round calls c).1 (fill_round-Account w c k))
    | inr done ↦ rw done (fill_round-Account w c k)
  ]

  fill_wb_returns :
      (fuel w : ℕ) (c : Conn N S)
      → Account out left accepted w c
      → rounds c < fuel
      → (fill_wb calls fuel c).0 ≢ out_of_fuel
  unfolding fill_wb
  fill_wb_returns zero w c k h = absurd (omega arith)
  fill_wb_returns (suc fuel) w c k h = elim (Bool-cases (fill_round calls c).0.1) [
    | inl more ↦ rw more (
        fill_wb_returns fuel w (fill_round calls c).1 (fill_round-Account w c k)
          (omega (arith, fill_round_progress w c k more)))
    | inr done ↦ rw done (fill_round_ends c done)
  ]

  -- Under the laws of Wire/Laws, from a state whose account holds, `fill_wb` returns within
  -- `fill_fuel`, the size of the buffer and two more.
  pub fill_wb_total :
      (w : ℕ) (c : Conn N S)
      → Account out left accepted w c
      → (fill_wb calls (fill_fuel calls c) c).0 ≢ out_of_fuel
  unfolding fill_fuel rounds Buffer.wleft
  fill_wb_total w c k = fill_wb_returns _ w c k (omega arith)
