-- ===== src/Wire/Keeps.antt =====
-- src/httpsession.cc: what `write` leaves alone. A view of nghttp2's state that serialising does not change,
-- and one of TLS that sending does not change, are as they were.
use harmony_http.Prelude.{
  ℕ, zero, suc, ◌≡◌, refl, ◌∙◌, [], ◌∷◌, Bytes, ltb, ◌==◌, Bool-cases, inl, inr,
}
use harmony_http.Buffer
use harmony_http.Buffer.{Buffer}
use harmony_http.Wire.{
  Calls, Conn, Run, returned, out_of_fuel, zero_rc, minus_one, Tls, wrote, want_read, want_write,
  other, Sent, failed, chunk, move_pending, offer, fill_round, after_tls, pushed, fill_wb,
  fill_fuel, after_fill, refill, push, write_round, write,
}

module _ {N S X Y : Type 0} (calls : Calls N S) (f : N → X) (g : S → Y)
    (sending : (n : N) (b : Buffer) → f (calls.mem_send n b).1 ≡ f n)
    (writing : (s : S) (bs : Bytes) → g (calls.ssl_write s bs).1 ≡ g s) where
  abbrev pub Keeps : Conn N S → Conn N S → Type 0
  Keeps c c' = (f c'.lib ≡ f c.lib) × (g c'.tls ≡ g c.tls)

  offer-Keeps :
      (c : Conn N S) (sent : Sent) (n : N) (b : Buffer)
      → f n ≡ f c.lib
      → Keeps c (offer calls sent n b c).1
  unfolding offer
  offer-Keeps c failed n b h = (h, refl)
  offer-Keeps c (chunk []) n b h = (h, refl)
  offer-Keeps c (chunk (x ∷ xs)) n b h = (h, refl)

  fill_round-Keeps : (c : Conn N S) → Keeps c (fill_round calls c).1
  unfolding fill_round move_pending
  fill_round-Keeps c = elim (Bool-cases (move_pending calls c).0) [
    | inl stuck ↦ rw stuck (refl, refl)
    | inr moved ↦
        let c' = (move_pending calls c).1 in
        let (sent, n, b) = calls.mem_send c'.lib c'.wbuf in
        rw moved (offer-Keeps c' sent n b (sending c'.lib c'.wbuf))
  ]

  fill_wb-Keeps : (fuel : ℕ) (c : Conn N S) → Keeps c (fill_wb calls fuel c).1
  unfolding fill_wb
  fill_wb-Keeps zero c = (refl, refl)
  fill_wb-Keeps (suc fuel) c = elim (Bool-cases (fill_round calls c).0.1) [
    | inl more ↦
        let c' = (fill_round calls c).1 in
        let (p, q) = fill_round-Keeps c in
        let (p', q') = fill_wb-Keeps fuel c' in rw more (p' ∙ p, q' ∙ q)
    | inr done ↦ rw done (fill_round-Keeps c)
  ]

  pushed-Keeps :
      (c : Conn N S) (t : Tls) (s : S)
      → g s ≡ g c.tls
      → Keeps c (pushed calls (after_tls calls t s c)).1
  unfolding pushed after_tls
  pushed-Keeps c (wrote n) s h = elim (Bool-cases (n == 0)) [
    | inl none ↦ rw none (refl, h)
    | inr some ↦ rw some (refl, h)
  ]
  pushed-Keeps c want_read s h = (refl, h)
  pushed-Keeps c want_write s h = (refl, h)
  pushed-Keeps c other s h = (refl, h)

  after_fill-Keeps : (r : Run) (c : Conn N S) → Keeps c (after_fill calls r c).1
  unfolding after_fill
  after_fill-Keeps out_of_fuel c = (refl, refl)
  after_fill-Keeps (returned minus_one) c = (refl, refl)
  after_fill-Keeps (returned zero_rc) c = elim (Bool-cases (Buffer.rleft c.wbuf == 0)) [
    | inl empty ↦ rw empty (refl, refl)
    | inr more ↦ rw more (refl, refl)
  ]

  write_round-Keeps : (c : Conn N S) → Keeps c (write_round calls c).1
  unfolding write_round push refill
  write_round-Keeps c = elim (Bool-cases (ltb 0 (Buffer.rleft c.wbuf))) [
    | inl some_left ↦
        let (t, s) = calls.ssl_write c.tls (Buffer.contents c.wbuf) in
        rw some_left (pushed-Keeps c t s (writing c.tls (Buffer.contents c.wbuf)))
    | inr empty ↦
        let c₀ = record c { wbuf = Buffer.reset c.wbuf } in
        let (r, c') = fill_wb calls (fill_fuel calls c) c₀ in
        let (p, q) = fill_wb-Keeps (fill_fuel calls c) c₀ in
        let (p', q') = after_fill-Keeps r c' in rw empty (p' ∙ p, q' ∙ q)
  ]

  pub write-Keeps : (fuel : ℕ) (c : Conn N S) → Keeps c (write calls fuel c).1
  unfolding write
  write-Keeps zero c = (refl, refl)
  write-Keeps (suc fuel) c = elim (Bool-cases (write_round calls c).0.1) [
    | inl more ↦
        let c' = (write_round calls c).1 in
        let (p, q) = write_round-Keeps c in
        let (p', q') = write-Keeps fuel c' in rw more (p' ∙ p, q' ∙ q)
    | inr done ↦ rw done (write_round-Keeps c)
  ]
