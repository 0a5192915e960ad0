-- ===== src/Link/Sound.antt =====
-- src/httpsession.cc: the bytes of a session in both directions, over any course of events.
use harmony_http.Prelude.{
  ℕ, ◌≡◌, ◌≢◌, refl, sym, ◌∙◌, arith, Option, none, some, List, [], ◌∷◌, Bytes, Bool, true, false,
  Bool-cases, inl, inr,
}
use harmony_http.Buffer
use harmony_http.Wire.{Calls, Conn, Run, returned, out_of_fuel, zero_rc, minus_one}
use harmony_http.Wire.Laws.{Honest}
use harmony_http.Link.{
  Shake, shaken, shake_wants_read, shake_wants_write, shake_failed, settings_timeout, Peer, Session,
  waiting, serving, removed, starved, Event, new_session, readable, writable, settings_timer,
  worked, settle, in_service, run_write, verify_npn, fresh_conn, configured, connection_made,
  after_handshake, tls_handshake, read, on_read, on_write, terminated, work, step, run,
}
use harmony_http.Link.Ciphers.{check_http2_requirements}
use harmony_http.Link.Laws.{Receives, Ample}
use harmony_http.Link.Faithful.{IsFaithful, run_write-IsFit, read_lem}

-- No byte goes either way before a session serves, and it never lacks fuel.
pub data IsSound {N S : Type 0} (out : N → Bytes) (accepted : S → Bytes) (consumed : N → Bytes)
    (received : S → Bytes) : Session N S → Type 0 where
  is_waiting :
      (s : S) (w : Bool) (memory : Bytes)
      → received s ≡ []
      → accepted s ≡ []
      → IsSound out accepted consumed received (waiting s w memory)
  is_serving :
      (c : Conn N S)
      → IsFaithful out accepted consumed received c
      → IsSound out accepted consumed received (serving c)
  is_removed : IsSound out accepted consumed received removed

module _ {N S : Type 0} {calls : Calls N S} {peer : Peer N S} {out : N → Bytes} {left : N → ℕ}
    {accepted : S → Bytes} {consumed : N → Bytes} {received : S → Bytes} {incoming : S → ℕ}
    {read_rounds : S → ℕ} {write_rounds : Conn N S → ℕ} (honest : Honest calls out left accepted)
    (receives : Receives calls peer out accepted consumed received incoming)
    (ample : Ample honest incoming read_rounds write_rounds) where
  abbrev Whole : Conn N S → Type 0
  Whole = IsFaithful out accepted consumed received

  settle-IsSound :
      (r : Run) (c : Conn N S)
      → (r ≢ out_of_fuel) × (r ≡ returned zero_rc → Whole c)
      → IsSound out accepted consumed received (settle (in_service (r, c)))
  unfolding settle
  settle-IsSound (returned zero_rc) c h = is_serving c (h.1 refl)
  settle-IsSound (returned minus_one) c h = is_removed
  settle-IsSound out_of_fuel c h = absurd (h.0 refl)

  abbrev Sound : Session N S → Type 0
  Sound = IsSound out accepted consumed received

  fresh-Whole :
      (n : N) (s : S) (memory : Bytes)
      → consumed n ≡ []
      → out n ≡ []
      → received s ≡ []
      → accepted s ≡ []
      → Whole (fresh_conn calls peer read_rounds write_rounds n s memory)
  unfolding Buffer.init Buffer.contents
  fresh-Whole n s memory a b c d = record {
    valid = record { ordered = omega arith; within = omega arith };
    inward = a ∙ sym c;
    outward = rw (b, d) refl;
  }

  configured-Sound :
      (r : Bool × N) (s : S) (memory : Bytes)
      → consumed r.1 ≡ []
      → out r.1 ≡ []
      → received s ≡ []
      → accepted s ≡ []
      → Sound (settle (configured calls peer read_rounds write_rounds r s memory))
  unfolding configured settle
  configured-Sound (false, n) s memory a b c d = is_removed
  configured-Sound (true, n) s memory a b c d =
      let conn = fresh_conn calls peer read_rounds write_rounds n s memory in
      elim (Bool-cases
        (check_http2_requirements peer.tls1_2_version (peer.tls_version s) (peer.cipher_id s))) [
          | inl good ↦ rw good (
              settle-IsSound (run_write calls peer read_rounds write_rounds conn).0
                (run_write calls peer read_rounds write_rounds conn).1
                (run_write-IsFit honest receives ample conn (fresh-Whole n s memory a b c d)))
          | inr bad ↦ rw bad is_removed
        ]

  connection_made-Sound :
      (o : Option N) (s : S) (memory : Bytes)
      → o ≡ peer.server_new
      → received s ≡ []
      → accepted s ≡ []
      → Sound (settle (connection_made calls peer read_rounds write_rounds o s memory))
  unfolding connection_made settle
  connection_made-Sound none s memory e c d = is_removed
  connection_made-Sound (some n) s memory e c d =
      let (a, b) = receives.started n (sym e) in
      let (a', b') = receives.settings n in
      configured-Sound (peer.submit_settings n) s memory (a' ∙ a) (b' ∙ b) c d

  after_handshake-Sound :
      (h : Shake) (s : S) (memory : Bytes)
      → received s ≡ []
      → accepted s ≡ []
      → Sound (settle (after_handshake calls peer read_rounds write_rounds (h, s) memory))
  unfolding after_handshake settle
  after_handshake-Sound shake_wants_read s memory c d = is_waiting s false memory c d
  after_handshake-Sound shake_wants_write s memory c d = is_waiting s true memory c d
  after_handshake-Sound shake_failed s memory c d = is_removed
  after_handshake-Sound shaken s memory c d =
      elim (Bool-cases (verify_npn calls peer read_rounds write_rounds s)) [
        | inl h2 ↦ rw h2 (connection_made-Sound peer.server_new s memory refl c d)
        | inr other ↦ rw other is_removed
      ]

  tls_handshake-Sound :
      (s : S) (memory : Bytes)
      → received s ≡ []
      → accepted s ≡ []
      → Sound (settle (tls_handshake calls peer read_rounds write_rounds s memory))
  unfolding tls_handshake
  tls_handshake-Sound s memory c d =
      let (h, s') = peer.do_handshake s in
      after_handshake-Sound h s' memory (receives.shaking s ∙ c) (receives.shaking_out s ∙ d)

  on_write-Sound :
      (x : Session N S) → Sound x → Sound (on_write calls peer read_rounds write_rounds x)
  unfolding on_write
  on_write-Sound (waiting s w memory) (is_waiting _ _ _ c d) = tls_handshake-Sound s memory c d
  on_write-Sound (serving c) (is_serving _ h) =
      settle-IsSound (run_write calls peer read_rounds write_rounds c).0
        (run_write calls peer read_rounds write_rounds c).1
        (run_write-IsFit honest receives ample c h)
  on_write-Sound removed h = h
  on_write-Sound starved h = elim h [ ]

  on_read-Sound :
      (x : Session N S) → Sound x → Sound (on_read calls peer read_rounds write_rounds x)
  unfolding on_read
  on_read-Sound (waiting s w memory) (is_waiting _ _ _ c d) = tls_handshake-Sound s memory c d
  on_read-Sound (serving c) (is_serving _ h) =
      let fuel = read_rounds c.tls in
      settle-IsSound (read calls peer read_rounds write_rounds fuel c).0
        (read calls peer read_rounds write_rounds fuel c).1
        (read_lem honest receives ample fuel c h (ample.reads c.tls))
  on_read-Sound removed h = h
  on_read-Sound starved h = elim h [ ]

  relib :
      (c : Conn N S) (n : N) (w : Bool)
      → (consumed n ≡ consumed c.lib) × (out n ≡ out c.lib)
      → Whole c
      → Whole (record c { lib = n; writing = w })
  relib c n w (p, q) h = record { valid = h.valid; inward = p ∙ h.inward; outward = q ∙ h.outward }

  terminated-Sound :
      (x : Session N S) → Sound x → Sound (terminated calls peer read_rounds write_rounds x)
  unfolding terminated
  terminated-Sound (waiting s w memory) h = h
  terminated-Sound (serving c) (is_serving _ h) =
      is_serving _ (relib c _ c.writing (receives.ending settings_timeout c.lib) h)
  terminated-Sound removed h = h
  terminated-Sound starved h = elim h [ ]

  work-Sound :
      (k : ℕ) (x : Session N S) → Sound x → Sound (work calls peer read_rounds write_rounds k x)
  unfolding work
  work-Sound k (waiting s w memory) h = h
  work-Sound k (serving c) (is_serving _ h) =
      is_serving _ (relib c _ true (receives.working k c.lib) h)
  work-Sound k removed h = h
  work-Sound k starved h = elim h [ ]

  step-Sound :
      (e : Event) (x : Session N S) → Sound x → Sound (step calls peer read_rounds write_rounds e x)
  unfolding step
  step-Sound readable x h = on_read-Sound x h
  step-Sound writable x h = on_write-Sound x h
  step-Sound settings_timer x h = on_write-Sound _ (terminated-Sound x h)
  step-Sound (worked k) x h = work-Sound k x h

  run-Sound :
      (es : List Event) (x : Session N S)
      → Sound x
      → Sound (run calls peer read_rounds write_rounds es x)
  unfolding run
  run-Sound [] x h = h
  run-Sound (e ∷ es) x h = run-Sound es _ (step-Sound e x h)

  -- Under the laws of Wire/Laws and Link/Laws and with fuel above their bounds, from a new session
  -- whose TLS moved no byte, after any events: the session never lacks fuel, no byte goes either way
  -- while it waits for the handshake, and while it serves, nghttp2 took in, in order, all that TLS
  -- handed out, and what nghttp2 serialised is what TLS accepted, then the buffer's contents, then
  -- what is pending.
  pub run-new_session :
      (es : List Event) (s : S) (memory : Bytes)
      → received s ≡ []
      → accepted s ≡ []
      → IsSound out accepted consumed received
          (run calls peer read_rounds write_rounds es (new_session s memory))
  unfolding new_session
  run-new_session es s memory c d = run-Sound es _ (is_waiting s false memory c d)
