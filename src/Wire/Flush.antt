-- ===== src/Wire/Flush.antt =====
-- src/httpsession.cc: the bytes that `write` moves from nghttp2 to TLS.
use harmony_http.Prelude.{
  ℕ, zero, suc, ◌≤◌, ◌≡◌, refl, sym, ap, ◌∙◌, ap₂, arith, [], ◌∷◌, ◌++◌, append_assoc, append-nil,
  length, take, drop, Bytes, Bool, true, false, ltb, ◌==◌, Bool-cases, inl, inr, take-append-drop,
  length-drop,
}
use harmony_http.Buffer
use harmony_http.Buffer.{Buffer}
use harmony_http.Buffer.Refine.{drain_lem, length-contents}
use harmony_http.Buffer.Fifo.{contents-reset}
use harmony_http.Wire.{
  Calls, Conn, Run, returned, out_of_fuel, zero_rc, minus_one, Tls, wrote, want_read, want_write,
  other, after_tls, pushed, fill_wb, fill_fuel, after_fill, refill, push, write_round, write,
}
use harmony_http.Wire.Laws.{count, Honest, Account}
use harmony_http.Wire.Fill.{fill_wb-Account}

pub eq-nil : {xs : Bytes} → length xs ≡ 0 → xs ≡ []
eq-nil {xs = []} h = refl
eq-nil {xs = x ∷ xs} h = absurd (omega arith)

regroup : (a x y p : Bytes) → a ++ ((x ++ y) ++ p) ≡ (a ++ x) ++ (y ++ p)
regroup a x y p = simp append_assoc

module _ {N S : Type 0} {calls : Calls N S} {out : N → Bytes} {left : N → ℕ} {accepted : S → Bytes}
    (honest : Honest calls out left accepted) where
  -- TLS accepted nothing.
  refused :
      (w : ℕ) (c : Conn N S) (s : S) (active : Bool)
      → Account out left accepted w c
      → accepted s ≡ accepted c.tls ++ []
      → Account out left accepted w (record c { tls = s; writing = active })
  refused w c s active k taken = record {
    valid = k.valid;
    total =
        k.total
        ∙ ap (λ t. t ++ (Buffer.contents c.wbuf ++ c.pending))
            (sym (taken ∙ append-nil (accepted c.tls)));
    bounded = k.bounded;
  }

  -- The buffer after TLS accepted `n` bytes of it.
  sent-Account :
      (w n : ℕ) (c : Conn N S) (s : S)
      → Account out left accepted w c
      → accepted s ≡ accepted c.tls ++ take n (Buffer.contents c.wbuf)
      → n ≤ length (Buffer.contents c.wbuf)
      → Account out left accepted w (record c { tls = s; wbuf = (Buffer.drain c.wbuf n).0 })
  sent-Account w n c s k taken fits =
      let (count, rest, same, valid) = drain_lem c.wbuf n k.valid in
      let b = (Buffer.drain c.wbuf n).0 in
      let m = (Buffer.drain c.wbuf n).1 in
      let full : m ≡ n = omega (arith, count, length-contents c.wbuf k.valid) in
      record {
        valid = valid;
        total =
            k.total
            ∙ ap (λ t. accepted c.tls ++ (t ++ c.pending))
                (sym (take-append-drop n (Buffer.contents c.wbuf)))
            ∙ regroup (accepted c.tls) (take n (Buffer.contents c.wbuf))
                (drop n (Buffer.contents c.wbuf)) c.pending
            ∙ ap₂ (λ a t. a ++ (t ++ c.pending)) (sym taken)
                (sym (rest ∙ ap (λ t. drop t (Buffer.contents c.wbuf)) full));
        bounded =
            let held = ap length rest in
            omega (
              arith,
              k.bounded,
              held,
              length-drop m (Buffer.contents c.wbuf),
              length-contents b valid,
              length-contents c.wbuf k.valid,
            );
      }

  -- Whatever `SSL_write` answers, the account holds after it.
  pushed-Account :
      (w : ℕ) (c : Conn N S) (t : Tls) (s : S)
      → Account out left accepted w c
      → accepted s ≡ accepted c.tls ++ take (count t) (Buffer.contents c.wbuf)
      → count t ≤ length (Buffer.contents c.wbuf)
      → Account out left accepted w (pushed calls (after_tls calls t s c)).1
  unfolding pushed after_tls
  pushed-Account w c (wrote zero) s k taken fits = refused w c s c.writing k taken
  pushed-Account w c (wrote (suc n)) s k taken fits =
      let positive : (suc n == 0) ≡ false = ground arith in
      rw positive (sent-Account w (suc n) c s k taken fits)
  pushed-Account w c want_read s k taken fits = refused w c s c.writing k taken
  pushed-Account w c want_write s k taken fits = refused w c s true k taken
  pushed-Account w c other s k taken fits = refused w c s c.writing k taken

  push-Account :
      (w : ℕ) (c : Conn N S)
      → Account out left accepted w c
      → Account out left accepted w (push calls c).1
  unfolding push
  push-Account w c k =
      let a = honest.accepts c.tls (Buffer.contents c.wbuf) in
      let (t, s) = calls.ssl_write c.tls (Buffer.contents c.wbuf) in
      pushed-Account w c t s k a.taken a.fits

  after_fill-Account :
      (w : ℕ) (r : Run) (c : Conn N S)
      → Account out left accepted w c
      → Account out left accepted w (after_fill calls r c).1
  unfolding after_fill
  after_fill-Account w out_of_fuel c k = k
  after_fill-Account w (returned minus_one) c k = k
  after_fill-Account w (returned zero_rc) c k = elim (Bool-cases (Buffer.rleft c.wbuf == 0)) [
    | inl empty ↦ rw empty (record { valid = k.valid; total = k.total; bounded = k.bounded })
    | inr more ↦ rw more k
  ]

  pub reset-Account :
      (w : ℕ) (c : Conn N S)
      → Account out left accepted w c
      → Buffer.rleft c.wbuf ≡ 0
      → Account out left accepted w (record c { wbuf = Buffer.reset c.wbuf })
  unfolding Buffer.reset Buffer.rleft
  reset-Account w c k empty =
      let none_left : length (Buffer.contents c.wbuf) ≡ 0 =
        omega (arith, length-contents c.wbuf k.valid, empty) in
      record {
        valid = record { ordered = omega arith; within = omega arith };
        total =
            k.total
            ∙ ap (λ t. accepted c.tls ++ (t ++ c.pending))
                (eq-nil none_left ∙ sym (contents-reset c.wbuf));
        bounded = omega (arith, k.bounded);
      }

  refill-Account :
      (w : ℕ) (c : Conn N S)
      → Account out left accepted w c
      → Buffer.rleft c.wbuf ≡ 0
      → Account out left accepted w (refill calls c).1
  unfolding refill
  refill-Account w c k empty =
      let c₀ = record c { wbuf = Buffer.reset c.wbuf } in
      let (r, c') = fill_wb calls (fill_fuel calls c) c₀ in
      after_fill-Account w r c'
        (fill_wb-Account honest (fill_fuel calls c) w c₀ (reset-Account w c k empty))

  pub write_round-Account :
      (w : ℕ) (c : Conn N S)
      → Account out left accepted w c
      → Account out left accepted w (write_round calls c).1
  unfolding write_round
  write_round-Account w c k = elim (Bool-cases (ltb 0 (Buffer.rleft c.wbuf))) [
    | inl some_left ↦ rw some_left (push-Account w c k)
    | inr empty ↦ rw empty (refill-Account w c k (ground arith))
  ]

  -- Under the laws of Wire/Laws, and for any fuel, `write` keeps the account: the buffer is
  -- valid, what nghttp2 serialised is what TLS accepted, then the buffer's contents, then what
  -- is pending, and what is still to be sent is not more than it was.
  pub write-Account :
      (fuel w : ℕ) (c : Conn N S)
      → Account out left accepted w c
      → Account out left accepted w (write calls fuel c).1
  unfolding write
  write-Account zero w c k = k
  write-Account (suc fuel) w c k = elim (Bool-cases (write_round calls c).0.1) [
    | inl more ↦ rw more (write-Account fuel w (write_round calls c).1 (write_round-Account w c k))
    | inr done ↦ rw done (write_round-Account w c k)
  ]
