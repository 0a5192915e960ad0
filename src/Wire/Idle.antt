-- ===== src/Wire/Idle.antt =====
-- src/httpsession.cc: the rounds that `write` takes.
use mathlib.Core.Bool.{false≢true}
use harmony_http.Prelude.{
  ℕ, zero, suc, ◌+◌, ◌*◌, ◌≤◌, ◌<◌, ◌≡◌, ◌≢◌, refl, sym, arith, length, Bytes, true, false, ltb,
  ◌==◌, Bool-cases, inl, inr,
}
use harmony_http.Buffer
use harmony_http.Buffer.{Buffer}
use harmony_http.Wire.{
  Calls, Conn, Run, returned, out_of_fuel, zero_rc, minus_one, Tls, wrote, want_read, want_write,
  other, after_tls, pushed, fill_wb, fill_fuel, after_fill, refill, push, write_round, write,
}
use harmony_http.Wire.Laws.{Honest, Account}
use harmony_http.Wire.Fill.{fill_wb-Account, fill_wb_total}
use harmony_http.Wire.Flush.{reset-Account, write_round-Account}

module _ {N S : Type 0} {calls : Calls N S} {out : N → Bytes} {left : N → ℕ} {accepted : S → Bytes}
    (honest : Honest calls out left accepted) where
  -- What is held or still to come, a byte in the buffer counting once and any other twice.
  unfoldable pub load : Conn N S → ℕ
  load c = 2 * (left c.lib + length c.pending) + Buffer.rleft c.wbuf

  -- An account at the weight that the connection has.
  exact :
      (w : ℕ) (c : Conn N S)
      → Account out left accepted w c
      → Account out left accepted (left c.lib + (length c.pending + Buffer.rleft c.wbuf)) c
  exact w c k = record { valid = k.valid; total = k.total; bounded = omega arith }

  pushed_progress :
      (c : Conn N S) (t : Tls) (s : S)
      → 0 < Buffer.rleft c.wbuf
      → (pushed calls (after_tls calls t s c)).0.1 ≡ true
      → load (pushed calls (after_tls calls t s c)).1 + 1 ≤ load c
  unfolding pushed after_tls load Buffer.drain
  pushed_progress c (wrote zero) s h more = cc
  pushed_progress c (wrote (suc n)) s h more =
      let positive : (suc n == 0) ≡ false = ground arith in rw positive (omega arith)
  pushed_progress c want_read s h more = cc
  pushed_progress c want_write s h more = cc
  pushed_progress c other s h more = cc

  pushed_ends :
      (c : Conn N S) (t : Tls) (s : S)
      → (pushed calls (after_tls calls t s c)).0.1 ≡ false
      → (pushed calls (after_tls calls t s c)).0.0 ≢ out_of_fuel
  unfolding pushed after_tls
  pushed_ends c (wrote zero) s done = λ e. cc
  pushed_ends c (wrote (suc n)) s done =
      let positive : (suc n == 0) ≡ false = ground arith in
      absurd (false≢true (sym (rw positive at done)))
  pushed_ends c want_read s done = λ e. cc
  pushed_ends c want_write s done = λ e. cc
  pushed_ends c other s done = λ e. cc

  after_fill_progress :
      (w : ℕ) (r : Run) (c : Conn N S)
      → left c.lib + (length c.pending + Buffer.rleft c.wbuf) ≤ w
      → (after_fill calls r c).0.1 ≡ true
      → load (after_fill calls r c).1 + 1 ≤ 2 * w
  unfolding after_fill load
  after_fill_progress w out_of_fuel c h more = cc
  after_fill_progress w (returned minus_one) c h more = cc
  after_fill_progress w (returned zero_rc) c h more = ground arith

  after_fill_ends :
      (r : Run) (c : Conn N S)
      → r ≢ out_of_fuel
      → (after_fill calls r c).0.1 ≡ false
      → (after_fill calls r c).0.0 ≢ out_of_fuel
  unfolding after_fill
  after_fill_ends out_of_fuel c h done = absurd (h refl)
  after_fill_ends (returned minus_one) c h done = λ e. cc
  after_fill_ends (returned zero_rc) c h done = ground arith

  refill_progress :
      (w : ℕ) (c : Conn N S)
      → Account out left accepted w c
      → Buffer.rleft c.wbuf ≡ 0
      → (refill calls c).0.1 ≡ true
      → load (refill calls c).1 + 1 ≤ load c
  unfolding refill load Buffer.reset Buffer.rleft
  refill_progress w c k empty more =
      let c₀ = record c { wbuf = Buffer.reset c.wbuf } in
      let (r, c') = fill_wb calls (fill_fuel calls c) c₀ in
      let k₀ = reset-Account honest w c k empty in
      let k' =
        fill_wb-Account honest (fill_fuel calls c) (left c.lib + length c.pending) c₀
          (record { valid = k₀.valid; total = k₀.total; bounded = omega arith }) in
      omega (arith, after_fill_progress (left c.lib + length c.pending) r c' k'.bounded more)

  refill_ends :
      (w : ℕ) (c : Conn N S)
      → Account out left accepted w c
      → Buffer.rleft c.wbuf ≡ 0
      → (refill calls c).0.1 ≡ false
      → (refill calls c).0.0 ≢ out_of_fuel
  unfolding refill fill_fuel Buffer.reset
  refill_ends w c k empty done =
      let c₀ = record c { wbuf = Buffer.reset c.wbuf } in
      let (r, c') = fill_wb calls (fill_fuel calls c) c₀ in
      after_fill_ends r c' (fill_wb_total honest w c₀ (reset-Account honest w c k empty)) done

  write_round_progress :
      (w : ℕ) (c : Conn N S)
      → Account out left accepted w c
      → (write_round calls c).0.1 ≡ true
      → load (write_round calls c).1 + 1 ≤ load c
  unfolding write_round
  write_round_progress w c k more = elim (Bool-cases (ltb 0 (Buffer.rleft c.wbuf))) [
    | inl some_left ↦
        let (t, s) = calls.ssl_write c.tls (Buffer.contents c.wbuf) in
        rw some_left (unfold push in pushed_progress c t s (ground arith) (rw some_left at more))
    | inr empty ↦ rw empty (refill_progress w c k (ground arith) (rw empty at more))
  ]

  write_round_ends :
      (w : ℕ) (c : Conn N S)
      → Account out left accepted w c
      → (write_round calls c).0.1 ≡ false
      → (write_round calls c).0.0 ≢ out_of_fuel
  unfolding write_round
  write_round_ends w c k done = elim (Bool-cases (ltb 0 (Buffer.rleft c.wbuf))) [
    | inl some_left ↦
        let (t, s) = calls.ssl_write c.tls (Buffer.contents c.wbuf) in
        rw some_left (unfold push in pushed_ends c t s (rw some_left at done))
    | inr empty ↦ rw empty (refill_ends w c k (ground arith) (rw empty at done))
  ]

  -- Under the laws of Wire/Laws, from a state whose account holds, `write` returns when its fuel
  -- is above `load`: twice the bytes to come and pending, and those in the buffer.
  pub write_total :
      (fuel w : ℕ) (c : Conn N S)
      → Account out left accepted w c
      → load c < fuel
      → (write calls fuel c).0 ≢ out_of_fuel
  unfolding write
  write_total zero w c k h = absurd (omega arith)
  write_total (suc fuel) w c k h = elim (Bool-cases (write_round calls c).0.1) [
    | inl more ↦ rw more (
        write_total fuel w (write_round calls c).1 (write_round-Account honest w c k)
          (omega (arith, write_round_progress w c k more)))
    | inr done ↦ rw done (write_round_ends w c k done)
  ]
