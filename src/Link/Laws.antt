-- ===== src/Link/Laws.antt =====
-- What a session relies on of nghttp2 and OpenSSL, besides Wire/Laws.
use harmony_http.Prelude.{ℕ, ◌+◌, ◌≤◌, ◌<◌, ◌≡◌, some, [], ◌++◌, Bytes, true}
use harmony_http.Buffer.{Buffer}
use harmony_http.Wire.{Calls, Conn}
use harmony_http.Wire.Laws.{Honest}
use harmony_http.Wire.Idle.{load}
use harmony_http.Link.{
  Got, got, read_wants_read, read_wants_write, read_failed, Reason, Peer, rbuf_size,
}

abbrev pub bytes_got : Got → Bytes
bytes_got (got bs) = bs
bytes_got read_wants_read = []
bytes_got read_wants_write = []
bytes_got read_failed = []

abbrev pub tick : Got → ℕ
tick (got bs) = 1
tick read_wants_read = 0
tick read_wants_write = 0
tick read_failed = 0

-- `received` is what SSL_read has handed out so far, and `incoming` bounds the times that it can still do
-- so before it has to wait; `consumed` is what nghttp2 took in. Only SSL_read hands out, and only
-- mem_recv takes in; neither serialises or accepts what is to be sent, and nothing is serialised
-- before the first call of mem_send.
pub record Receives {N S : Type 0} (calls : Calls N S) (peer : Peer N S) (out : N → Bytes)
    (accepted : S → Bytes) (consumed : N → Bytes) (received : S → Bytes) (incoming : S → ℕ)
    : Type 0 where
  pub handed :
      (s : S)
      → received (peer.ssl_read s rbuf_size).1
        ≡ received s ++ bytes_got (peer.ssl_read s rbuf_size).0
  pub fewer :
      (s : S)
      → incoming (peer.ssl_read s rbuf_size).1 + tick (peer.ssl_read s rbuf_size).0 ≤ incoming s
  pub reading : (s : S) → accepted (peer.ssl_read s rbuf_size).1 ≡ accepted s
  pub shaking : (s : S) → received (peer.do_handshake s).1 ≡ received s
  pub shaking_out : (s : S) → accepted (peer.do_handshake s).1 ≡ accepted s
  pub sending : (s : S) (bs : Bytes) → received (calls.ssl_write s bs).1 ≡ received s
  pub taken :
      (n : N) (bs : Bytes)
      → (peer.mem_recv n bs).fine ≡ true
      → consumed (peer.mem_recv n bs).after ≡ consumed n ++ bs
  pub taken_out : (n : N) (bs : Bytes) → out (peer.mem_recv n bs).after ≡ out n
  pub serialising : (n : N) (b : Buffer) → consumed (calls.mem_send n b).1 ≡ consumed n
  pub started : (n : N) → peer.server_new ≡ some n → (consumed n ≡ []) × (out n ≡ [])
  pub settings :
      (n : N)
      → (consumed (peer.submit_settings n).1 ≡ consumed n)
        × (out (peer.submit_settings n).1 ≡ out n)
  pub ending :
      (r : Reason) (n : N)
      → (consumed (peer.terminate r n) ≡ consumed n) × (out (peer.terminate r n) ≡ out n)
  pub working :
      (k : ℕ) (n : N)
      → (consumed (peer.other_work k n) ≡ consumed n) × (out (peer.other_work k n) ≡ out n)

-- What was negotiated for a connection stays as it is once its handshake is done: reading and
-- writing do not change it.
pub record Settled {N S : Type 0} (calls : Calls N S) (peer : Peer N S) : Type 0 where
  pub read_next_proto : (s : S) (n : ℕ) → peer.next_proto (peer.ssl_read s n).1 ≡ peer.next_proto s
  pub read_alpn : (s : S) (n : ℕ) → peer.alpn (peer.ssl_read s n).1 ≡ peer.alpn s
  pub read_version : (s : S) (n : ℕ) → peer.tls_version (peer.ssl_read s n).1 ≡ peer.tls_version s
  pub read_cipher : (s : S) (n : ℕ) → peer.cipher_id (peer.ssl_read s n).1 ≡ peer.cipher_id s
  pub write_next_proto :
      (s : S) (bs : Bytes) → peer.next_proto (calls.ssl_write s bs).1 ≡ peer.next_proto s
  pub write_alpn : (s : S) (bs : Bytes) → peer.alpn (calls.ssl_write s bs).1 ≡ peer.alpn s
  pub write_version :
      (s : S) (bs : Bytes) → peer.tls_version (calls.ssl_write s bs).1 ≡ peer.tls_version s
  pub write_cipher :
      (s : S) (bs : Bytes) → peer.cipher_id (calls.ssl_write s bs).1 ≡ peer.cipher_id s

-- Fuel that is above every bound.
pub record Ample {N S : Type 0} {calls : Calls N S} {out : N → Bytes} {left : N → ℕ}
    {accepted : S → Bytes} (honest : Honest calls out left accepted) (incoming : S → ℕ)
    (read_rounds : S → ℕ) (write_rounds : Conn N S → ℕ) : Type 0 where
  pub reads : (s : S) → incoming s < read_rounds s
  pub writes : (c : Conn N S) → load honest c < write_rounds c
