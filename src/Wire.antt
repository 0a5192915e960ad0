-- ===== src/Wire.antt =====
-- src/httpsession.cc: the write side of a connection, `HttpSession::write`, `fill_wb`, `ssl_write`.
-- nghttp2 and OpenSSL are parameters: `N` and `S` are their states, `Calls` what the session calls.
pub mod Laws
pub mod Fill
pub mod Flush
pub mod Idle
pub mod Drained
pub mod Keeps
mod Tests
use harmony_http.Prelude.{
  ℕ, zero, suc, ◌≡◌, List, [], ◌∷◌, Bool, true, false, ◌&&◌, not, ltb, leb, ◌==◌, if◌then◌else◌,
  length, drop, Bytes,
}
use harmony_http.Buffer
use harmony_http.Buffer.{Buffer}

-- The returned int: 0, or -1 for a session that must be removed.
pub data Rc : Type 0 where
  zero_rc minus_one : Rc

-- `nghttp2_session_mem_send`: a negative length, or the bytes that it offers (none: length 0).
pub data Sent : Type 0 where
  failed : Sent
  chunk : Bytes → Sent

-- `SSL_write` with `SSL_get_error`.
pub data Tls : Type 0 where
  wrote : ℕ → Tls
  want_read want_write other : Tls

-- `mem_send` may run `send_data_cb`, which writes into the session's buffer.
pub record Calls (N S : Type 0) : Type 0 where
  pub mem_send : N → Buffer → Sent × N × Buffer
  pub wants_read : N → Bool
  pub wants_write : N → Bool
  pub ssl_write : S → Bytes → Tls × S

-- The fields of HttpSession that writing uses; `pending` is data_pending_ with its length, empty
-- for the null pointer, and `writing` is whether the watcher wev_ is started.
pub record Conn (N S : Type 0) : Type 0 where
  pub lib : N
  pub tls : S
  pub wbuf : Buffer
  pub pending : Bytes
  pub writing : Bool

-- What a loop comes to: a returned code, or no fuel.
pub data Run : Type 0 where
  returned : Rc → Run
  out_of_fuel : Run

module _ {N S : Type 0} (calls : Calls N S) where
  open calls use {mem_send, wants_read, wants_write, ssl_write}

  -- `if (data_pending_) { ... }`: true if what is pending still does not fit.
  unfoldable pub move_pending : Conn N S → Bool × Conn N S
  move_pending c =
      let (b, n) = Buffer.write c.wbuf c.pending in
      (ltb n (length c.pending), record c { wbuf = b; pending = drop n c.pending })

  -- The part of a round after the call of `mem_send`: whether the loop goes on.
  unfoldable pub offer : Sent → N → Buffer → Conn N S → (Run × Bool) × Conn N S
  offer failed n b c = ((returned minus_one, false), record c { lib = n; wbuf = b })
  offer (chunk []) n b c = ((returned zero_rc, false), record c { lib = n; wbuf = b })
  offer (chunk (x ∷ xs)) n b c =
      ((out_of_fuel, true), record c { lib = n; wbuf = b; pending = x ∷ xs })

  -- One round of `fill_wb`; the flag says that the loop goes on.
  unfoldable pub fill_round : Conn N S → (Run × Bool) × Conn N S
  fill_round c =
      let (stuck, c') = move_pending c in
      let (sent, n, b) = mem_send c'.lib c'.wbuf in
      if stuck then ((returned zero_rc, false), c') else offer sent n b c'

  unfoldable pub fill_wb : ℕ → Conn N S → Run × Conn N S
  fill_wb zero c = (out_of_fuel, c)
  fill_wb (suc fuel) c =
      let ((r, more), c') = fill_round c in
      let rest = fill_wb fuel c' in if more then rest else (r, c')

  -- What `HttpSession::ssl_write` makes of the answer: the count that was written (SSL_write gives
  -- `wrote` a positive one), or the code that its caller returns.
  unfoldable pub after_tls : Tls → S → Conn N S → (ℕ × Rc) × Conn N S
  after_tls (wrote n) s c = ((n, zero_rc), record c { tls = s })
  after_tls want_read s c = ((0, minus_one), record c { tls = s })
  after_tls want_write s c = ((0, zero_rc), record c { tls = s; writing = true })
  after_tls other s c = ((0, minus_one), record c { tls = s })

  -- The test after the loop of `write`.
  unfoldable pub finish : Conn N S → Rc
  finish c =
      if not (wants_read c.lib) && (not (wants_write c.lib) && (Buffer.rleft c.wbuf == 0))
      then minus_one
      else zero_rc

  -- Room for every round of `fill_wb`: each but the last writes a byte or more.
  unfoldable pub fill_fuel : Conn N S → ℕ
  fill_fuel c = suc (suc (length c.wbuf.buf))

  unfoldable pub after_fill : Run → Conn N S → (Run × Bool) × Conn N S
  after_fill out_of_fuel c = ((out_of_fuel, false), c)
  after_fill (returned minus_one) c = ((returned minus_one, false), c)
  after_fill (returned zero_rc) c =
      if Buffer.rleft c.wbuf == 0
      then ((returned (finish c), false), record c { writing = false })
      else ((out_of_fuel, true), c)

  -- The branch of `write` on a buffer with nothing left to read.
  unfoldable pub refill : Conn N S → (Run × Bool) × Conn N S
  refill c =
      let (r, c') = fill_wb (fill_fuel c) (record c { wbuf = Buffer.reset c.wbuf }) in
      after_fill r c'

  -- The branch of `write` on a buffer with bytes left: `if (rv <= 0) return rv; drain(rv)`.
  unfoldable pub pushed : (ℕ × Rc) × Conn N S → (Run × Bool) × Conn N S
  pushed ((n, rc), c) =
      if n == 0
      then ((returned rc, false), c)
      else ((out_of_fuel, true), record c { wbuf = (Buffer.drain c.wbuf n).0 })

  unfoldable pub push : Conn N S → (Run × Bool) × Conn N S
  push c = let (t, s) = ssl_write c.tls (Buffer.contents c.wbuf) in pushed (after_tls t s c)

  unfoldable pub write_round : Conn N S → (Run × Bool) × Conn N S
  write_round c = if ltb 0 (Buffer.rleft c.wbuf) then push c else refill c

  unfoldable pub write : ℕ → Conn N S → Run × Conn N S
  write zero c = (out_of_fuel, c)
  write (suc fuel) c =
      let ((r, more), c') = write_round c in
      let rest = write fuel c' in if more then rest else (r, c')
