-- ===== src/Link.antt =====
-- src/httpsession.cc: a session from its constructor to its removal, `tls_handshake`, `read` and the callbacks
-- of its watchers. OpenSSL and nghttp2 are the records Calls of Wire and Peer; nghttp2's state stands
-- with that of the streams and of what handles them, since its calls run their callbacks.
pub mod Ciphers
pub mod Blocked
pub mod Laws
pub mod Faithful
pub mod Sound
pub mod Secure
mod Tests
use harmony_http.Prelude.{
  ℕ, ◌*◌, zero, suc, List, [], ◌∷◌, Bytes, Bool, true, false, ◌||◌, Option, some, none,
  if◌then◌else◌,
}
use harmony_http.Buffer.{init}
use harmony_http.Wire.{Calls, Conn, Run, returned, out_of_fuel, zero_rc, minus_one, write}
use Ciphers.{check_h2_is_selected, check_http2_requirements}

-- `SSL_read` with `SSL_get_error`.
pub data Got : Type 0 where
  got : Bytes → Got
  read_wants_read read_wants_write read_failed : Got

-- `SSL_do_handshake` with `SSL_get_error`.
pub data Shake : Type 0 where
  shaken shake_wants_read shake_wants_write shake_failed : Shake

-- The error codes that a session is terminated with.
pub data Reason : Type 0 where
  inadequate_security settings_timeout : Reason

-- `nghttp2_session_mem_recv`: whether its result is not negative, and whether a callback that it ran
-- started the watcher wev_.
pub record Recv (N : Type 0) : Type 0 where
  pub fine : Bool
  pub starts_writing : Bool
  pub after : N

-- `server_new` is none, and `submit_settings` false, where the call does not return 0. `other_work` is
-- what the server does to the streams between two callbacks of the session, by number.
pub record Peer (N S : Type 0) : Type 0 where
  pub ssl_read : S → ℕ → Got × S
  pub do_handshake : S → Shake × S
  pub next_proto : S → Option Bytes
  pub alpn : S → Option Bytes
  pub tls_version : S → ℕ
  pub cipher_id : S → ℕ
  pub tls1_2_version : ℕ
  pub server_new : Option N
  pub submit_settings : N → Bool × N
  pub terminate : Reason → N → N
  pub mem_recv : N → Bytes → Recv N
  pub other_work : ℕ → N → N

-- `waiting` is a session whose read_func_ and write_func_ are `tls_handshake` (they are always set
-- together), with the state of TLS, whether wev_ is started and the memory of wbuf_. `serving` has
-- `read` and `write` there. `removed` has been erased from its worker's list.
pub data Session (N S : Type 0) : Type 0 where
  waiting : S → Bool → Bytes → Session N S
  serving : Conn N S → Session N S
  removed starved : Session N S

pub data Event : Type 0 where
  readable writable settings_timer : Event
  worked : ℕ → Event

-- The constructor.
unfoldable pub new_session : {N S : Type 0} → S → Bytes → Session N S
new_session s memory = waiting s false memory

abbrev pub rbuf_size : ℕ
rbuf_size = 16 * 1024

-- What a callback makes of a result: `if (rv == -1) remove_self()`.
unfoldable pub settle : {N S : Type 0} → Run × Session N S → Session N S
settle (returned zero_rc, s) = s
settle (returned minus_one, s) = removed
settle (out_of_fuel, s) = starved

-- `connection_made() != 0`: any result but 0 makes the handshake return -1.
abbrev pub in_service : {N S : Type 0} → Run × Conn N S → Run × Session N S
in_service (r, c) = (r, serving c)

-- `read_rounds` is fuel for the loop of `read`, `write_rounds` for that of `write`.
module _ {N S : Type 0} (calls : Calls N S) (peer : Peer N S) (read_rounds : S → ℕ)
    (write_rounds : Conn N S → ℕ) where
  open peer use {
    ssl_read, do_handshake, next_proto, alpn, tls_version, cipher_id, tls1_2_version, server_new,
    submit_settings, terminate, mem_recv, other_work,
  }

  unfoldable pub run_write : Conn N S → Run × Conn N S
  run_write c = write calls (write_rounds c) c

  abbrev pub or_alpn : Option Bytes → Option Bytes → Option Bytes
  or_alpn none other = other
  or_alpn (some proto) other = some proto

  abbrev pub is_h2 : Option Bytes → Bool
  is_h2 none = false
  is_h2 (some proto) = check_h2_is_selected proto

  -- True for 0.
  unfoldable pub verify_npn : S → Bool
  verify_npn s = is_h2 (or_alpn (next_proto s) (alpn s))

  abbrev pub fresh_conn : N → S → Bytes → Conn N S
  fresh_conn n s memory = record {
    lib = n;
    tls = s;
    wbuf = init memory;
    pending = [];
    writing = false;
  }

  -- After `nghttp2_submit_settings`.
  unfoldable pub configured : Bool × N → S → Bytes → Run × Session N S
  unfolding run_write
  configured (false, n) s memory = (returned minus_one, serving (fresh_conn n s memory))
  configured (true, n) s memory =
      let served = in_service (run_write (fresh_conn n s memory)) in
      if check_http2_requirements tls1_2_version (tls_version s) (cipher_id s)
      then served
      else (returned minus_one, serving (fresh_conn (terminate inadequate_security n) s memory))

  -- A session without nghttp2's state is left as it waits: its caller removes it.
  unfoldable pub connection_made : Option N → S → Bytes → Run × Session N S
  unfolding configured
  connection_made none s memory = (returned minus_one, waiting s false memory)
  connection_made (some n) s memory = configured (submit_settings n) s memory

  unfoldable pub after_handshake : Shake × S → Bytes → Run × Session N S
  unfolding connection_made verify_npn
  after_handshake (shake_wants_read, s) memory = (returned zero_rc, waiting s false memory)
  after_handshake (shake_wants_write, s) memory = (returned zero_rc, waiting s true memory)
  after_handshake (shake_failed, s) memory = (returned minus_one, waiting s false memory)
  after_handshake (shaken, s) memory =
      let made = connection_made server_new s memory in
      if verify_npn s then made else (returned minus_one, waiting s false memory)

  unfoldable pub tls_handshake : S → Bytes → Run × Session N S
  unfolding after_handshake
  tls_handshake s memory = after_handshake (do_handshake s) memory

  -- `nghttp2_session_mem_recv` and the test behind it; the flag says that the loop goes on.
  unfoldable pub fed : Recv N → Conn N S → (Run × Bool) × Conn N S
  fed r c =
      let c' = record c { lib = r.after; writing = r.starts_writing || c.writing } in
      if r.fine then ((out_of_fuel, true), c') else ((returned minus_one, false), c')

  abbrev pub leave : Run × Conn N S → (Run × Bool) × Conn N S
  leave (r, c) = ((r, false), c)

  -- `ssl_read` and the tests of `read` on it.
  unfoldable pub after_read : Got → Conn N S → (Run × Bool) × Conn N S
  unfolding fed run_write
  after_read (got bs) c = fed (mem_recv c.lib bs) c
  after_read read_wants_read c = leave (run_write c)
  after_read read_wants_write c = ((returned minus_one, false), c)
  after_read read_failed c = ((returned minus_one, false), c)

  unfoldable pub read_round : Conn N S → (Run × Bool) × Conn N S
  unfolding after_read
  read_round c = let (g, s) = ssl_read c.tls rbuf_size in after_read g (record c { tls = s })

  unfoldable pub read : ℕ → Conn N S → Run × Conn N S
  unfolding read_round
  read zero c = (out_of_fuel, c)
  read (suc fuel) c =
      let ((r, more), c') = read_round c in
      let rest = read fuel c' in if more then rest else (r, c')

  unfoldable pub on_read : Session N S → Session N S
  unfolding tls_handshake read
  on_read (waiting s w memory) = settle (tls_handshake s memory)
  on_read (serving c) = settle (in_service (read (read_rounds c.tls) c))
  on_read removed = removed
  on_read starved = starved

  unfoldable pub on_write : Session N S → Session N S
  unfolding tls_handshake run_write
  on_write (waiting s w memory) = settle (tls_handshake s memory)
  on_write (serving c) = settle (in_service (run_write c))
  on_write removed = removed
  on_write starved = starved

  -- The part of `settings_timeout_cb` before `on_write`.
  unfoldable pub terminated : Session N S → Session N S
  terminated (serving c) = serving (record c { lib = terminate settings_timeout c.lib })
  terminated (waiting s w memory) = waiting s w memory
  terminated removed = removed
  terminated starved = starved

  -- What the server does to the streams of a session that serves, with `start_write`.
  unfoldable pub work : ℕ → Session N S → Session N S
  work k (serving c) = serving (record c { lib = other_work k c.lib; writing = true })
  work k (waiting s w memory) = waiting s w memory
  work k removed = removed
  work k starved = starved

  -- `read_cb`, `write_cb` and `settings_timeout_cb`.
  unfoldable pub step : Event → Session N S → Session N S
  unfolding on_read on_write terminated work
  step readable s = on_read s
  step writable s = on_write s
  step settings_timer s = on_write (terminated s)
  step (worked k) s = work k s

  unfoldable pub run : List Event → Session N S → Session N S
  unfolding step
  run [] s = s
  run (e ∷ es) s = run es (step e s)
