-- ===== src/Wire/Laws.antt =====
-- What the write side relies on of nghttp2 and OpenSSL, and the account that it keeps of bytes.
use harmony_http.Prelude.{ℕ, ◌+◌, ◌≤◌, ◌≡◌, ◌≢◌, [], ◌++◌, length, take, Bytes}
use harmony_http.Buffer
use harmony_http.Buffer.{Buffer}
use harmony_http.Buffer.Refine.{IsValid}
use harmony_http.Wire.{Calls, Conn, Sent, failed, chunk, Tls, wrote, want_read, want_write, other}

abbrev pub bytes_of : Sent → Bytes
bytes_of failed = []
bytes_of (chunk bs) = bs

abbrev pub count : Tls → ℕ
count (wrote n) = n
count want_read = 0
count want_write = 0
count other = 0

module _ {N S : Type 0} (calls : Calls N S) (out : N → Bytes) (left : N → ℕ) where
  -- One call of `nghttp2_session_mem_send` serialises some bytes: first those that its callback
  -- appends to the buffer, then those that it returns. `out` is all that was serialised so far,
  -- `left` a bound on what can still come without new submissions.
  pub record Emits (n : N) (b : Buffer) : Type 0 where
    pub direct : Bytes
    pub made : out (calls.mem_send n b).1 ≡ out n ++ (direct ++ bytes_of (calls.mem_send n b).0)
    pub placed : Buffer.contents (calls.mem_send n b).2 ≡ Buffer.contents b ++ direct
    pub valid : IsValid (calls.mem_send n b).2
    pub size : length (calls.mem_send n b).2.buf ≡ length b.buf
    pub cursor : (calls.mem_send n b).2.pos ≡ b.pos
    pub bounded :
        left (calls.mem_send n b).1 + (length direct + length (bytes_of (calls.mem_send n b).0))
        ≤ left n

module _ {N S : Type 0} (calls : Calls N S) (accepted : S → Bytes) where
  -- One call of `SSL_write` accepts a non-empty prefix of the data, or reports an error and accepts
  -- nothing.
  pub record Accepts (s : S) (bs : Bytes) : Type 0 where
    pub taken :
        accepted (calls.ssl_write s bs).1 ≡ accepted s ++ take (count (calls.ssl_write s bs).0) bs
    pub some_taken : (calls.ssl_write s bs).0 ≢ wrote 0
    pub fits : count (calls.ssl_write s bs).0 ≤ length bs

-- The documented behaviour of both libraries.
pub record Honest {N S : Type 0} (calls : Calls N S) (out : N → Bytes) (left : N → ℕ)
    (accepted : S → Bytes) : Type 0 where
  pub emits : (n : N) (b : Buffer) → IsValid b → Emits calls out left n b
  pub accepts : (s : S) (bs : Bytes) → Accepts calls accepted s bs

-- Every byte that was serialised is either accepted by TLS or still held, in order, and at most
-- `weight` bytes are held or still to come.
pub record Account {N S : Type 0} (out : N → Bytes) (left : N → ℕ) (accepted : S → Bytes)
    (weight : ℕ) (c : Conn N S) : Type 0 where
  pub valid : IsValid c.wbuf
  pub total : out c.lib ≡ accepted c.tls ++ (Buffer.contents c.wbuf ++ c.pending)
  pub bounded : left c.lib + (length c.pending + Buffer.rleft c.wbuf) ≤ weight
