-- ===== src/Wire/Drained.antt =====
-- src/httpsession.cc: `write` that returns 0 with its watcher stopped.
use mathlib.Core.Bool.{false≢true}
use harmony_http.Prelude.{
  ℕ, zero, suc, ◌<◌, ◌≡◌, ◌≢◌, refl, sym, ap, ◌∙◌, ap₂, arith, [], ◌∷◌, ◌++◌, append-nil, length,
  Bytes, true, false, ltb, Bool-cases, inl, inr,
}
use harmony_http.Buffer
use harmony_http.Buffer.{Buffer}
use harmony_http.Buffer.Refine.{IsValid, length-contents}
use harmony_http.Buffer.Copy.{length-copy_to}
use harmony_http.Wire.{
  Calls, Conn, Run, returned, out_of_fuel, zero_rc, minus_one, Tls, wrote, want_read, want_write,
  other, Sent, failed, chunk, move_pending, offer, fill_round, after_tls, pushed, fill_wb,
  fill_fuel, after_fill, refill, push, write_round, write,
}
use harmony_http.Wire.Laws.{Honest, Account}
use harmony_http.Wire.Fill.{move_pending-Account, move_pending_done, fill_round-Account}
use harmony_http.Wire.Flush.{reset-Account, write-Account, write_round-Account, eq-nil}

module _ {N S : Type 0} {calls : Calls N S} {out : N → Bytes} {left : N → ℕ} {accepted : S → Bytes}
    (honest : Honest calls out left accepted) where
  -- The buffer starts at its beginning and has room for something.
  pub record IsFresh (c : Conn N S) : Type 0 where
    pub front : c.wbuf.pos ≡ 0
    pub room : 0 < length c.wbuf.buf

  move_pending-IsFresh : (c : Conn N S) → IsFresh c → IsFresh (move_pending calls c).1
  unfolding move_pending Buffer.write
  move_pending-IsFresh c f = record {
    front = f.front;
    room = omega (arith, f.room, length-copy_to c.wbuf.buf c.wbuf.last _);
  }

  stuck_full :
      (c : Conn N S)
      → IsValid c.wbuf
      → IsFresh c
      → (move_pending calls c).0 ≡ true
      → 0 < Buffer.rleft (move_pending calls c).1.wbuf
  unfolding move_pending Buffer.write Buffer.rleft
  stuck_full c v f stuck = ground (arith, f.front, f.room)

  offer-IsFresh :
      (c : Conn N S) (sent : Sent) (n : N) (b : Buffer)
      → b.pos ≡ 0
      → 0 < length b.buf
      → IsFresh (offer calls sent n b c).1
  unfolding offer
  offer-IsFresh c failed n b p r = record { front = p; room = r }
  offer-IsFresh c (chunk []) n b p r = record { front = p; room = r }
  offer-IsFresh c (chunk (x ∷ xs)) n b p r = record { front = p; room = r }

  offer_idle :
      (c : Conn N S) (sent : Sent) (n : N) (b : Buffer)
      → c.pending ≡ []
      → (offer calls sent n b c).0 ≡ (returned zero_rc, false)
      → (offer calls sent n b c).1.pending ≡ []
  unfolding offer
  offer_idle c failed n b empty h = cc
  offer_idle c (chunk []) n b empty h = empty
  offer_idle c (chunk (x ∷ xs)) n b empty h = cc

  fill_round-IsFresh :
      (w : ℕ) (c : Conn N S)
      → Account out left accepted w c
      → IsFresh c
      → IsFresh (fill_round calls c).1
  unfolding fill_round
  fill_round-IsFresh w c k f = elim (Bool-cases (move_pending calls c).0) [
    | inl stuck ↦ rw stuck (move_pending-IsFresh c f)
    | inr moved ↦
        let c' = (move_pending calls c).1 in
        let f' = move_pending-IsFresh c f in
        let e = honest.emits c'.lib c'.wbuf (move_pending-Account honest w c k).valid in
        let (sent, n, b) = calls.mem_send c'.lib c'.wbuf in
        rw moved (offer-IsFresh c' sent n b (e.cursor ∙ f'.front) (omega (arith, e.size, f'.room)))
  ]

  fill_round_idle :
      (w : ℕ) (c : Conn N S)
      → Account out left accepted w c
      → IsFresh c
      → (fill_round calls c).0 ≡ (returned zero_rc, false)
      → Buffer.rleft (fill_round calls c).1.wbuf ≡ 0
      → (fill_round calls c).1.pending ≡ []
  unfolding fill_round
  fill_round_idle w c k f h empty = elim (Bool-cases (move_pending calls c).0) [
    | inl stuck ↦
        let none_left : Buffer.rleft (move_pending calls c).1.wbuf ≡ 0 = rw stuck at empty in
        absurd (omega (arith, none_left, stuck_full c k.valid f stuck))
    | inr moved ↦
        let c' = (move_pending calls c).1 in
        let (sent, n, b) = calls.mem_send c'.lib c'.wbuf in
        rw moved (offer_idle c' sent n b (move_pending_done honest c moved) (rw moved at h))
  ]

  fill_wb-IsFresh :
      (fuel w : ℕ) (c : Conn N S)
      → Account out left accepted w c
      → IsFresh c
      → IsFresh (fill_wb calls fuel c).1
  unfolding fill_wb
  fill_wb-IsFresh zero w c k f = f
  fill_wb-IsFresh (suc fuel) w c k f = elim (Bool-cases (fill_round calls c).0.1) [
    | inl more ↦ rw more (
        fill_wb-IsFresh fuel w (fill_round calls c).1 (fill_round-Account honest w c k)
          (fill_round-IsFresh w c k f))
    | inr done ↦ rw done (fill_round-IsFresh w c k f)
  ]

  fill_wb_idle :
      (fuel w : ℕ) (c : Conn N S)
      → Account out left accepted w c
      → IsFresh c
      → (fill_wb calls fuel c).0 ≡ returned zero_rc
      → Buffer.rleft (fill_wb calls fuel c).1.wbuf ≡ 0
      → (fill_wb calls fuel c).1.pending ≡ []
  unfolding fill_wb
  fill_wb_idle zero w c k f h empty = cc
  fill_wb_idle (suc fuel) w c k f h empty = elim (Bool-cases (fill_round calls c).0.1) [
    | inl more ↦ rw more (
        fill_wb_idle fuel w (fill_round calls c).1 (fill_round-Account honest w c k)
          (fill_round-IsFresh w c k f) (rw more at h) (rw more at empty))
    | inr done ↦
        rw done (fill_round_idle w c k f (λ i. ((rw done at h) i, done i)) (rw done at empty))
  ]

  room_pushed :
      (c : Conn N S) (t : Tls) (s : S)
      → 0 < length c.wbuf.buf
      → 0 < length (pushed calls (after_tls calls t s c)).1.wbuf.buf
  unfolding pushed after_tls Buffer.drain
  room_pushed c (wrote n) s h = ground arith
  room_pushed c want_read s h = h
  room_pushed c want_write s h = h
  room_pushed c other s h = h

  room_after_fill :
      (r : Run) (c : Conn N S)
      → 0 < length c.wbuf.buf
      → 0 < length (after_fill calls r c).1.wbuf.buf
  unfolding after_fill
  room_after_fill out_of_fuel c h = h
  room_after_fill (returned minus_one) c h = h
  room_after_fill (returned zero_rc) c h = ground arith

  -- The connection that `refill` hands to `fill_wb` is fresh.
  reset-IsFresh :
      (c : Conn N S) → 0 < length c.wbuf.buf → IsFresh (record c { wbuf = Buffer.reset c.wbuf })
  unfolding Buffer.reset
  reset-IsFresh c h = record { front = refl; room = h }

  write_round_room :
      (w : ℕ) (c : Conn N S)
      → Account out left accepted w c
      → 0 < length c.wbuf.buf
      → 0 < length (write_round calls c).1.wbuf.buf
  unfolding write_round push refill
  write_round_room w c k h = elim (Bool-cases (ltb 0 (Buffer.rleft c.wbuf))) [
    | inl some_left ↦
        let (t, s) = calls.ssl_write c.tls (Buffer.contents c.wbuf) in
        rw some_left (room_pushed c t s h)
    | inr empty ↦
        let c₀ = record c { wbuf = Buffer.reset c.wbuf } in
        let (r, c') = fill_wb calls (fill_fuel calls c) c₀ in
        let fresh =
          fill_wb-IsFresh (fill_fuel calls c) w c₀ (reset-Account honest w c k (ground arith))
            (reset-IsFresh c h) in
        rw empty (room_after_fill r c' fresh.room)
  ]

  pushed_busy :
      (c : Conn N S) (t : Tls) (s : S)
      → t ≢ wrote 0
      → (pushed calls (after_tls calls t s c)).0 ≡ (returned zero_rc, false)
      → (pushed calls (after_tls calls t s c)).1.writing ≡ true
  unfolding pushed after_tls
  pushed_busy c (wrote zero) s h e = absurd (h refl)
  pushed_busy c (wrote (suc n)) s h e = ground arith
  pushed_busy c want_read s h e = cc
  pushed_busy c want_write s h e = refl
  pushed_busy c other s h e = cc

  after_fill_idle :
      (r : Run) (c : Conn N S)
      → (after_fill calls r c).0 ≡ (returned zero_rc, false)
      → (r ≡ returned zero_rc)
        × (Buffer.rleft c.wbuf ≡ 0)
        × ((after_fill calls r c).1.pending ≡ c.pending)
        × ((after_fill calls r c).1.wbuf ≡ c.wbuf)
  unfolding after_fill
  after_fill_idle out_of_fuel c h = cc
  after_fill_idle (returned minus_one) c h = cc
  after_fill_idle (returned zero_rc) c h = ground arith

  write_round_idle :
      (w : ℕ) (c : Conn N S)
      → Account out left accepted w c
      → 0 < length c.wbuf.buf
      → (write_round calls c).0 ≡ (returned zero_rc, false)
      → (write_round calls c).1.writing ≡ false
      → (Buffer.rleft (write_round calls c).1.wbuf ≡ 0) × ((write_round calls c).1.pending ≡ [])
  unfolding write_round push refill
  write_round_idle w c k room h off = elim (Bool-cases (ltb 0 (Buffer.rleft c.wbuf))) [
    | inl some_left ↦
        let a = honest.accepts c.tls (Buffer.contents c.wbuf) in
        let (t, s) = calls.ssl_write c.tls (Buffer.contents c.wbuf) in
        let busy = pushed_busy c t s a.some_taken (rw some_left at h) in
        let idle = rw some_left at off in absurd (false≢true (sym idle ∙ busy))
    | inr empty ↦
        let c₀ = record c { wbuf = Buffer.reset c.wbuf } in
        let (r, c') = fill_wb calls (fill_fuel calls c) c₀ in
        let (ok, gone, same, still) = after_fill_idle r c' (rw empty at h) in
        let drained =
          fill_wb_idle (fill_fuel calls c) w c₀ (reset-Account honest w c k (ground arith))
            (reset-IsFresh c room) ok gone in
        rw empty (ap Buffer.rleft still ∙ gone, same ∙ drained)
  ]

  write_idle :
      (fuel w : ℕ) (c : Conn N S)
      → Account out left accepted w c
      → 0 < length c.wbuf.buf
      → (write calls fuel c).0 ≡ returned zero_rc
      → (write calls fuel c).1.writing ≡ false
      → (Buffer.rleft (write calls fuel c).1.wbuf ≡ 0) × ((write calls fuel c).1.pending ≡ [])
  unfolding write
  write_idle zero w c k room h off = cc
  write_idle (suc fuel) w c k room h off = elim (Bool-cases (write_round calls c).0.1) [
    | inl more ↦ rw more (
        write_idle fuel w (write_round calls c).1 (write_round-Account honest w c k)
          (write_round_room w c k room) (rw more at h) (rw more at off))
    | inr done ↦
        rw done (write_round_idle w c k room (λ i. ((rw done at h) i, done i)) (rw done at off))
  ]

  -- Under the laws of Wire/Laws, from a state whose account holds and whose buffer has a size
  -- above 0: when `write` returns 0 with its watcher stopped, every byte that nghttp2 serialised
  -- has been accepted by TLS, in order.
  pub write_drained :
      (fuel w : ℕ) (c : Conn N S)
      → Account out left accepted w c
      → 0 < length c.wbuf.buf
      → (write calls fuel c).0 ≡ returned zero_rc
      → (write calls fuel c).1.writing ≡ false
      → out (write calls fuel c).1.lib ≡ accepted (write calls fuel c).1.tls
  write_drained fuel w c k room h off =
      let k' = write-Account honest fuel w c k in
      let c' = (write calls fuel c).1 in
      let (gone, none_pending) = write_idle fuel w c k room h off in
      let bare : length (Buffer.contents c'.wbuf) ≡ 0 = length-contents c'.wbuf k'.valid ∙ gone in
      k'.total
      ∙ ap₂ (λ x y. accepted c'.tls ++ (x ++ y)) (eq-nil bare) none_pending
      ∙ append-nil (accepted c'.tls)
