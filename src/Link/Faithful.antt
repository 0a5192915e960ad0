-- ===== src/Link/Faithful.antt =====
-- src/httpsession.cc: the bytes of a connection in both directions, through `write` and `read`.
use mathlib.Core.Bool.{false≢true}
use harmony_http.Prelude.{
  ℕ, zero, suc, ◌+◌, ◌≤◌, ◌<◌, ◌≡◌, ◌≢◌, sym, ap, ◌∙◌, arith, ◌++◌, append-nil, length, Bytes, Bool,
  true, false, Bool-cases, inl, inr,
}
use harmony_http.Buffer
use harmony_http.Buffer.Refine.{IsValid}
use harmony_http.Wire.{Calls, Conn, Run, returned, out_of_fuel, zero_rc}
use harmony_http.Wire.Laws.{Honest, Account}
use harmony_http.Wire.Flush.{write-Account}
use harmony_http.Wire.Idle.{write_total}
use harmony_http.Wire.Keeps.{write-Keeps}
use harmony_http.Link.{
  Got, got, read_wants_read, read_wants_write, read_failed, Recv, Peer, rbuf_size, run_write, fed,
  after_read, read_round, read,
}
use harmony_http.Link.Laws.{bytes_got, tick, Receives, Ample}

-- The bytes of a session that serves: nghttp2 took in what TLS handed out, and TLS accepted what
-- nghttp2 serialised but for what is held.
pub record IsFaithful {N S : Type 0} (out : N → Bytes) (accepted : S → Bytes) (consumed : N → Bytes)
    (received : S → Bytes) (c : Conn N S) : Type 0 where
  pub valid : IsValid c.wbuf
  pub inward : consumed c.lib ≡ received c.tls
  pub outward : out c.lib ≡ accepted c.tls ++ (Buffer.contents c.wbuf ++ c.pending)

module _ {N S : Type 0} {calls : Calls N S} {peer : Peer N S} {out : N → Bytes} {left : N → ℕ}
    {accepted : S → Bytes} {consumed : N → Bytes} {received : S → Bytes} {incoming : S → ℕ}
    {read_rounds : S → ℕ} {write_rounds : Conn N S → ℕ} (honest : Honest calls out left accepted)
    (receives : Receives calls peer out accepted consumed received incoming)
    (ample : Ample honest incoming read_rounds write_rounds) where
  abbrev Whole : Conn N S → Type 0
  Whole = IsFaithful out accepted consumed received

  -- What a result must be for the callback that gets it.
  abbrev IsFit : Run → Conn N S → Type 0
  IsFit r c = (r ≢ out_of_fuel) × (r ≡ returned zero_rc → Whole c)

  weight : Conn N S → ℕ
  weight c = left c.lib + (length c.pending + Buffer.rleft c.wbuf)

  account : (c : Conn N S) → Whole c → Account out left accepted (weight c) c
  unfolding weight
  account c h = record { valid = h.valid; total = h.outward; bounded = omega arith }

  run_write-Whole :
      (c : Conn N S) → Whole c → Whole (run_write calls peer read_rounds write_rounds c).1
  unfolding run_write
  run_write-Whole c h =
      let k = write-Account honest (write_rounds c) (weight c) c (account c h) in
      let (p, q) =
        write-Keeps calls consumed received receives.serialising receives.sending (write_rounds c)
          c in
      record { valid = k.valid; inward = p ∙ h.inward ∙ sym q; outward = k.total }

  pub run_write-IsFit :
      (c : Conn N S)
      → Whole c
      → IsFit
          (run_write calls peer read_rounds write_rounds c).0
          (run_write calls peer read_rounds write_rounds c).1
  unfolding run_write
  run_write-IsFit c h = (
    write_total honest (write_rounds c) (weight c) c (account c h) (ample.writes c),
    λ e. run_write-Whole c h,
  )

  -- A round of `read` either goes on with less to come, or ends in a result that is fit.
  abbrev IsRound : ℕ → (Run × Bool) × Conn N S → Type 0
  IsRound bound r =
      (r.0.1 ≡ true → Whole r.1 × (incoming r.1.tls + 1 ≤ bound))
      × (r.0.1 ≡ false → IsFit r.0.0 r.1)

  fed-IsRound :
      (bound : ℕ) (r : Recv N) (c : Conn N S)
      → (r.fine ≡ true → consumed r.after ≡ received c.tls)
      → out r.after ≡ accepted c.tls ++ (Buffer.contents c.wbuf ++ c.pending)
      → IsValid c.wbuf
      → incoming c.tls + 1 ≤ bound
      → IsRound bound (fed calls peer read_rounds write_rounds r c)
  unfolding fed
  fed-IsRound bound r c inward outward valid less = elim (Bool-cases r.fine) [
    | inl fine ↦ rw fine (
      λ e. (record { valid = valid; inward = inward fine; outward = outward }, less),
      λ e. absurd (false≢true (sym e)),
    )
    | inr bad ↦ rw bad (λ e. absurd (false≢true e), λ e. (λ h. cc, λ h. cc))
  ]

  after_read-IsRound :
      (bound : ℕ) (g : Got) (c : Conn N S)
      → consumed c.lib ++ bytes_got g ≡ received c.tls
      → out c.lib ≡ accepted c.tls ++ (Buffer.contents c.wbuf ++ c.pending)
      → IsValid c.wbuf
      → incoming c.tls + tick g ≤ bound
      → IsRound bound (after_read calls peer read_rounds write_rounds g c)
  unfolding after_read
  after_read-IsRound bound (got bs) c inward outward valid less =
      fed-IsRound bound (peer.mem_recv c.lib bs) c (λ fine. receives.taken c.lib bs fine ∙ inward)
        (receives.taken_out c.lib bs ∙ outward) valid less
  after_read-IsRound bound read_wants_read c inward outward valid less = (
    λ e. absurd (false≢true e),
    λ e. run_write-IsFit c (record {
      valid = valid;
      inward = sym (append-nil (consumed c.lib)) ∙ inward;
      outward = outward;
    }),
  )
  after_read-IsRound bound read_wants_write c inward outward valid less =
      (λ e. absurd (false≢true e), λ e. (λ h. cc, λ h. cc))
  after_read-IsRound bound read_failed c inward outward valid less =
      (λ e. absurd (false≢true e), λ e. (λ h. cc, λ h. cc))

  read_round-IsRound :
      (c : Conn N S)
      → Whole c
      → IsRound (incoming c.tls) (read_round calls peer read_rounds write_rounds c)
  unfolding read_round
  read_round-IsRound c h =
      let (g, s) = peer.ssl_read c.tls rbuf_size in
      after_read-IsRound (incoming c.tls) g (record c { tls = s })
        (ap (λ t. t ++ bytes_got g) h.inward ∙ sym (receives.handed c.tls))
        (h.outward
          ∙ ap (λ t. t ++ (Buffer.contents c.wbuf ++ c.pending)) (sym (receives.reading c.tls)))
        h.valid (receives.fewer c.tls)

  -- Under the laws of Wire/Laws and Link/Laws: from a connection whose nghttp2 took in all that TLS
  -- handed out, with its bytes to be sent accounted for, and with fuel above the times that SSL_read
  -- can hand out bytes, `read` returns; and if it returns 0, nghttp2 took in, in order, all that TLS
  -- handed out, and the bytes to be sent are accounted for.
  pub read_lem :
      (fuel : ℕ) (c : Conn N S)
      → IsFaithful out accepted consumed received c
      → incoming c.tls < fuel
      → ((read calls peer read_rounds write_rounds fuel c).0 ≢ out_of_fuel)
        × ((read calls peer read_rounds write_rounds fuel c).0 ≡ returned zero_rc
            → IsFaithful out accepted consumed received
                (read calls peer read_rounds write_rounds fuel c).1)
  unfolding read
  read_lem zero c h less = absurd (omega arith)
  read_lem (suc fuel) c h less =
      let (going, ending) = read_round-IsRound c h in
      elim (Bool-cases (read_round calls peer read_rounds write_rounds c).0.1) [
        | inl more ↦
            let (whole, shorter) = going more in
            rw more (
              read_lem fuel (read_round calls peer read_rounds write_rounds c).1 whole
                (omega arith))
        | inr done ↦ rw done (ending done)
      ]
