-- ===== src/Link/Secure.antt =====
-- src/httpsession.cc: which connections are served.
use harmony_http.Prelude.{
  ◌⊎◌, ℕ, zero, suc, ◌≡◌, refl, ap, ◌∙◌, Option, none, some, List, [], ◌∷◌, Bytes, Bool, true,
  false, Bool-cases, inl, inr,
}
use harmony_http.Wire.{Calls, Conn, Run, returned, out_of_fuel, zero_rc, minus_one}
use harmony_http.Wire.Keeps.{write-Keeps}
use harmony_http.Link.{
  Got, got, read_wants_read, read_wants_write, read_failed, Shake, shaken, shake_wants_read,
  shake_wants_write, shake_failed, Peer, Session, waiting, serving, removed, starved, Event,
  new_session, readable, writable, settings_timer, worked, rbuf_size, settle, in_service, run_write,
  is_h2, or_alpn, verify_npn, fresh_conn, configured, connection_made, after_handshake,
  tls_handshake, fed, after_read, read_round, read, on_read, on_write, terminated, work, step, run,
}
use harmony_http.Link.Ciphers.{check_h2_is_selected, check_http2_requirements}
use harmony_http.Link.Laws.{Settled}

-- What a session may serve: HTTP/2 was chosen, by NPN or, where that chose nothing, by ALPN, and the
-- version of TLS and the cipher passed the test.
pub record IsSecure {N S : Type 0} (peer : Peer N S) (s : S) : Type 0 where
  pub protocol : Bytes
  pub chosen :
      (peer.next_proto s ≡ some protocol)
      ⊎ ((peer.next_proto s ≡ none) × (peer.alpn s ≡ some protocol))
  pub selected : check_h2_is_selected protocol ≡ true
  pub strong :
      check_http2_requirements peer.tls1_2_version (peer.tls_version s) (peer.cipher_id s) ≡ true

-- A session that serves is secure.
pub data IsGuarded {N S : Type 0} (peer : Peer N S) : Session N S → Type 0 where
  guarded : (c : Conn N S) → IsSecure peer c.tls → IsGuarded peer (serving c)
  unserved : (s : S) (w : Bool) (memory : Bytes) → IsGuarded peer (waiting s w memory)
  gone : IsGuarded peer removed
  stuck : IsGuarded peer starved

module _ {N S : Type 0} (peer : Peer N S) where
  -- What the handshake settled.
  abbrev Terms : Type 0
  Terms = Option Bytes × Option Bytes × ℕ × ℕ

  abbrev terms : S → Terms
  terms s = (peer.next_proto s, peer.alpn s, peer.tls_version s, peer.cipher_id s)

  IsSecure-terms : (s t : S) → terms s ≡ terms t → IsSecure peer t → IsSecure peer s
  IsSecure-terms s t e h = record {
    protocol = h.protocol;
    chosen = elim h.chosen [
      | inl npn ↦ inl (ap (λ r. r.0) e ∙ npn)
      | inr p ↦ inr (ap (λ r. r.0) e ∙ p.0, ap (λ r. r.1) e ∙ p.1)
    ];
    selected = h.selected;
    strong = ap (λ r. check_http2_requirements peer.tls1_2_version r.2 r.3) e ∙ h.strong;
  }

module _ {N S : Type 0} {calls : Calls N S} {peer : Peer N S} (read_rounds : S → ℕ)
    (write_rounds : Conn N S → ℕ) (settled : Settled calls peer) where
  abbrev Guarded : Session N S → Type 0
  Guarded = IsGuarded peer

  abbrev Safe : Conn N S → Type 0
  Safe c = IsSecure peer c.tls

  read_terms : (s : S) → terms peer (peer.ssl_read s rbuf_size).1 ≡ terms peer s
  read_terms s = λ i. (
    settled.read_next_proto s rbuf_size i,
    settled.read_alpn s rbuf_size i,
    settled.read_version s rbuf_size i,
    settled.read_cipher s rbuf_size i,
  )

  write_terms : (s : S) (bs : Bytes) → terms peer (calls.ssl_write s bs).1 ≡ terms peer s
  write_terms s bs = λ i. (
    settled.write_next_proto s bs i,
    settled.write_alpn s bs i,
    settled.write_version s bs i,
    settled.write_cipher s bs i,
  )

  run_write-Safe :
      (c : Conn N S) → Safe c → Safe (run_write calls peer read_rounds write_rounds c).1
  unfolding run_write
  run_write-Safe c h =
      let (p, q) =
        write-Keeps calls (λ n. true) (terms peer) (λ n b. refl) write_terms (write_rounds c) c in
      IsSecure-terms peer _ c.tls q h

  after_read-Safe :
      (g : Got) (c : Conn N S)
      → Safe c
      → Safe (after_read calls peer read_rounds write_rounds g c).1
  unfolding after_read fed
  after_read-Safe (got bs) c h = elim (Bool-cases (peer.mem_recv c.lib bs).fine) [
    | inl fine ↦ rw fine h
    | inr bad ↦ rw bad h
  ]
  after_read-Safe read_wants_read c h = run_write-Safe c h
  after_read-Safe read_wants_write c h = h
  after_read-Safe read_failed c h = h

  read_round-Safe :
      (c : Conn N S) → Safe c → Safe (read_round calls peer read_rounds write_rounds c).1
  unfolding read_round
  read_round-Safe c h =
      let (g, s) = peer.ssl_read c.tls rbuf_size in
      after_read-Safe g (record c { tls = s }) (IsSecure-terms peer s c.tls (read_terms c.tls) h)

  read-Safe :
      (fuel : ℕ) (c : Conn N S) → Safe c → Safe (read calls peer read_rounds write_rounds fuel c).1
  unfolding read
  read-Safe zero c h = h
  read-Safe (suc fuel) c h =
      elim (Bool-cases (read_round calls peer read_rounds write_rounds c).0.1) [
        | inl more ↦
            let c' = (read_round calls peer read_rounds write_rounds c).1 in
            rw more (read-Safe fuel c' (read_round-Safe c h))
        | inr done ↦ rw done (read_round-Safe c h)
      ]

  settle-Guarded : (r : Run) (c : Conn N S) → Safe c → Guarded (settle (in_service (r, c)))
  unfolding settle
  settle-Guarded (returned zero_rc) c h = guarded c h
  settle-Guarded (returned minus_one) c h = gone
  settle-Guarded out_of_fuel c h = stuck

  -- `verify_npn` in terms of what was chosen.
  chosen_of :
      (npn alpn : Option Bytes)
      → is_h2 calls peer read_rounds write_rounds
          (or_alpn calls peer read_rounds write_rounds npn alpn)
        ≡ true
      → (protocol : Bytes) × ((npn ≡ some protocol) ⊎ ((npn ≡ none) × (alpn ≡ some protocol)))
        × (check_h2_is_selected protocol ≡ true)
  chosen_of none none h = cc
  chosen_of none (some p) h = (p, inr (refl, refl), h)
  chosen_of (some p) alpn h = (p, inl refl, h)

  configured-Guarded :
      (r : Bool × N) (s : S) (memory : Bytes)
      → verify_npn calls peer read_rounds write_rounds s ≡ true
      → Guarded (settle (configured calls peer read_rounds write_rounds r s memory))
  unfolding configured settle verify_npn
  configured-Guarded (false, n) s memory h2 = gone
  configured-Guarded (true, n) s memory h2 =
      let conn = fresh_conn calls peer read_rounds write_rounds n s memory in
      let (protocol, chosen, selected) = chosen_of (peer.next_proto s) (peer.alpn s) h2 in
      elim (Bool-cases
        (check_http2_requirements peer.tls1_2_version (peer.tls_version s) (peer.cipher_id s))) [
          | inl good ↦ rw good (
              settle-Guarded (run_write calls peer read_rounds write_rounds conn).0
                (run_write calls peer read_rounds write_rounds conn).1
                (run_write-Safe conn (record {
                  protocol = protocol;
                  chosen = chosen;
                  selected = selected;
                  strong = good;
                })))
          | inr bad ↦ rw bad gone
        ]

  connection_made-Guarded :
      (o : Option N) (s : S) (memory : Bytes)
      → verify_npn calls peer read_rounds write_rounds s ≡ true
      → Guarded (settle (connection_made calls peer read_rounds write_rounds o s memory))
  unfolding connection_made settle
  connection_made-Guarded none s memory h2 = gone
  connection_made-Guarded (some n) s memory h2 =
      configured-Guarded (peer.submit_settings n) s memory h2

  after_handshake-Guarded :
      (h : Shake) (s : S) (memory : Bytes)
      → Guarded (settle (after_handshake calls peer read_rounds write_rounds (h, s) memory))
  unfolding after_handshake settle
  after_handshake-Guarded shake_wants_read s memory = unserved s false memory
  after_handshake-Guarded shake_wants_write s memory = unserved s true memory
  after_handshake-Guarded shake_failed s memory = gone
  after_handshake-Guarded shaken s memory =
      elim (Bool-cases (verify_npn calls peer read_rounds write_rounds s)) [
        | inl h2 ↦ rw h2 (connection_made-Guarded peer.server_new s memory h2)
        | inr other ↦ rw other gone
      ]

  tls_handshake-Guarded :
      (s : S) (memory : Bytes)
      → Guarded (settle (tls_handshake calls peer read_rounds write_rounds s memory))
  unfolding tls_handshake
  tls_handshake-Guarded s memory =
      let (h, s') = peer.do_handshake s in after_handshake-Guarded h s' memory

  on_write-Guarded :
      (x : Session N S) → Guarded x → Guarded (on_write calls peer read_rounds write_rounds x)
  unfolding on_write
  on_write-Guarded (waiting s w memory) h = tls_handshake-Guarded s memory
  on_write-Guarded (serving c) (guarded _ h) =
      settle-Guarded (run_write calls peer read_rounds write_rounds c).0
        (run_write calls peer read_rounds write_rounds c).1 (run_write-Safe c h)
  on_write-Guarded removed h = h
  on_write-Guarded starved h = h

  step-Guarded :
      (e : Event) (x : Session N S)
      → Guarded x
      → Guarded (step calls peer read_rounds write_rounds e x)
  unfolding step on_read terminated work
  step-Guarded readable (waiting s w memory) h = tls_handshake-Guarded s memory
  step-Guarded readable (serving c) (guarded _ h) =
      let fuel = read_rounds c.tls in
      settle-Guarded (read calls peer read_rounds write_rounds fuel c).0
        (read calls peer read_rounds write_rounds fuel c).1 (read-Safe fuel c h)
  step-Guarded readable removed h = h
  step-Guarded readable starved h = h
  step-Guarded writable x h = on_write-Guarded x h
  step-Guarded settings_timer (waiting s w memory) h = on_write-Guarded _ h
  step-Guarded settings_timer (serving c) (guarded _ h) = on_write-Guarded _ (guarded _ h)
  step-Guarded settings_timer removed h = on_write-Guarded _ h
  step-Guarded settings_timer starved h = on_write-Guarded _ h
  step-Guarded (worked k) (waiting s w memory) h = h
  step-Guarded (worked k) (serving c) (guarded _ h) = guarded _ h
  step-Guarded (worked k) removed h = h
  step-Guarded (worked k) starved h = h

  run-Guarded :
      (es : List Event) (x : Session N S)
      → Guarded x
      → Guarded (run calls peer read_rounds write_rounds es x)
  unfolding run
  run-Guarded [] x h = h
  run-Guarded (e ∷ es) x h = run-Guarded es _ (step-Guarded e x h)

  -- If reading and writing leave what the handshake settled as it is: whatever events come to a
  -- new session, and whatever OpenSSL and nghttp2 answer, if it serves then NPN or, where that chose
  -- nothing, ALPN chose one of the three names of HTTP/2, and the version of TLS and the cipher passed
  -- `check_http2_requirements`.
  pub run-IsGuarded :
      (es : List Event) (s : S) (memory : Bytes)
      → IsGuarded peer (run calls peer read_rounds write_rounds es (new_session s memory))
  unfolding new_session
  run-IsGuarded es s memory = run-Guarded es _ (unserved s false memory)
