-- ===== src/Link/Tests.antt =====
-- A peer that hands out its chunks one by one, and an nghttp2 that answers with what it took in: the laws of
-- Wire/Laws and Link/Laws hold of them, and the theorems on sessions apply to a run.
use harmony_http.Prelude.{
  ℕ, suc, ◌+◌, ◌≤◌, ◌≡◌, ◌-◌, ◌*◌, ◌&&◌, ◌||◌, refl, sym, ap, arith, List, [], ◌∷◌, ◌++◌,
  append-nil, length, Bytes, true, false, Option, some, none, codes, leb, bytes_eq,
}
use harmony_http.Buffer
use harmony_http.Buffer.{Buffer}
use harmony_http.Buffer.Refine.{IsValid}
use harmony_http.Wire
use harmony_http.Wire.{
  Calls, Conn, Run, returned, out_of_fuel, zero_rc, Sent, chunk, Tls, wrote, want_write, write,
}
use harmony_http.Wire.Laws.{Emits, Accepts, Honest}
use harmony_http.Wire.Idle.{load}
use harmony_http.Link
use harmony_http.Link.Laws
use harmony_http.Link.{
  Got, got, read_wants_read, shaken, Peer, Session, serving, new_session, readable, writable,
  settings_timer, worked, Event, run, read,
}
use harmony_http.Link.Ciphers
use harmony_http.Link.Ciphers.{check_http2_cipher_block_list, check_http2_requirements}
use harmony_http.Link.Laws.{Receives, Settled, Ample}
use harmony_http.Link.Sound.{IsSound, run-new_session}
use harmony_http.Link.Secure.{IsGuarded, run-IsGuarded}
use harmony_http.Link.Blocked.{
  blocked_low, blocked_high, within, check_http2_cipher_block_list_lem,
  check_http2_requirements-openssl,
}

-- What is to be sent, what was serialised, and what was taken in.
abbrev Lib : Type 0
Lib = List Bytes × Bytes × Bytes

-- What is to come, what was handed out, and what was accepted.
abbrev Stream : Type 0
Stream = List Bytes × Bytes × Bytes

abbrev offer_next : Lib → Buffer → Sent × Lib × Buffer
offer_next ([], made, took) b = (chunk [], ([], made, took), b)
offer_next (x ∷ xs, made, took) b = (chunk x, (xs, made ++ x, took), b)

abbrev accept_two : Stream → Bytes → Tls × Stream
accept_two (xs, handed, took) [] = (want_write, (xs, handed, took))
accept_two (xs, handed, took) (x ∷ []) = (wrote 1, (xs, handed, took ++ x ∷ []))
accept_two (xs, handed, took) (x ∷ y ∷ bs) = (wrote 2, (xs, handed, took ++ x ∷ y ∷ []))

abbrev hand_next : Stream → Got × Stream
hand_next ([], handed, took) = (read_wants_read, ([], handed, took))
hand_next (x ∷ xs, handed, took) = (got x, (xs, handed ++ x, took))

abbrev calls : Calls Lib Stream
calls = record {
  mem_send = offer_next;
  wants_read = λ n. true;
  wants_write = λ n. true;
  ssl_write = accept_two;
}

abbrev peer : Peer Lib Stream
peer = record {
  ssl_read = λ s n. hand_next s;
  do_handshake = λ s. (shaken, s);
  next_proto = λ s. none;
  alpn = λ s. some (codes "h2");
  tls_version = λ s. 0x0304;
  cipher_id = λ s. 0x03001301;
  tls1_2_version = 0x0303;
  server_new = some ([], [], []);
  submit_settings = λ n. (true, ((4 ∷ []) ∷ n.0, n.1, n.2));
  terminate = λ r n. n;
  mem_recv = λ n bs. record {
    fine = true;
    starts_writing = true;
    after = (n.0 ++ bs ∷ [], n.1, n.2 ++ bs);
  };
  other_work = λ k n. n;
}

abbrev total : List Bytes → ℕ
total [] = 0
total (x ∷ xs) = length x + total xs

abbrev made_so_far : Lib → Bytes
made_so_far (xs, made, took) = made

abbrev to_come : Lib → ℕ
to_come (xs, made, took) = total xs

abbrev took_in : Lib → Bytes
took_in (xs, made, took) = took

abbrev took_out : Stream → Bytes
took_out (xs, handed, took) = took

abbrev handed_out : Stream → Bytes
handed_out (xs, handed, took) = handed

abbrev arriving : Stream → ℕ
arriving (xs, handed, took) = length xs

calls-Emits : (n : Lib) (b : Buffer) → IsValid b → Emits calls made_so_far to_come n b
calls-Emits ([], made, took) b v = record {
  direct = [];
  made = sym (append-nil made);
  placed = sym (append-nil _);
  valid = v;
  size = refl;
  cursor = refl;
  bounded = omega arith;
}
calls-Emits (x ∷ xs, made, took) b v = record {
  direct = [];
  made = refl;
  placed = sym (append-nil _);
  valid = v;
  size = refl;
  cursor = refl;
  bounded = omega arith;
}

calls-Accepts : (s : Stream) (bs : Bytes) → Accepts calls took_out s bs
calls-Accepts (xs, handed, took) [] = record {
  taken = sym (append-nil took);
  some_taken = λ e. cc;
  fits = omega arith;
}
calls-Accepts (xs, handed, took) (x ∷ []) = record {
  taken = refl;
  some_taken = λ e. ground arith;
  fits = omega arith;
}
calls-Accepts (xs, handed, took) (x ∷ y ∷ bs) = record {
  taken = refl;
  some_taken = λ e. ground arith;
  fits = omega arith;
}

honest : Honest calls made_so_far to_come took_out
honest = record { emits = calls-Emits; accepts = calls-Accepts }

abbrev or_lib : Option Lib → Lib
or_lib none = ([], [], [])
or_lib (some n) = n

handed_lem :
    (s : Stream) → handed_out (hand_next s).1 ≡ handed_out s ++ Link.Laws.bytes_got (hand_next s).0
handed_lem ([], handed, took) = sym (append-nil handed)
handed_lem (x ∷ xs, handed, took) = refl

fewer_lem : (s : Stream) → arriving (hand_next s).1 + Link.Laws.tick (hand_next s).0 ≤ arriving s
fewer_lem ([], handed, took) = omega arith
fewer_lem (x ∷ xs, handed, took) = omega arith

reading_lem : (s : Stream) → took_out (hand_next s).1 ≡ took_out s
reading_lem ([], handed, took) = refl
reading_lem (x ∷ xs, handed, took) = refl

sending_lem : (s : Stream) (bs : Bytes) → handed_out (accept_two s bs).1 ≡ handed_out s
sending_lem s [] = refl
sending_lem s (x ∷ []) = refl
sending_lem s (x ∷ y ∷ bs) = refl

serialising_lem : (n : Lib) (b : Buffer) → took_in (offer_next n b).1 ≡ took_in n
serialising_lem ([], made, took) b = refl
serialising_lem (x ∷ xs, made, took) b = refl

receives : Receives calls peer made_so_far took_out took_in handed_out arriving
receives = record {
  handed = handed_lem;
  fewer = fewer_lem;
  reading = reading_lem;
  shaking = λ s. refl;
  shaking_out = λ s. refl;
  sending = sending_lem;
  taken = λ n bs e. refl;
  taken_out = λ n bs. refl;
  serialising = serialising_lem;
  started = λ n e. (ap (λ o. took_in (or_lib o)) (sym e), ap (λ o. made_so_far (or_lib o)) (sym e));
  settings = λ n. (refl, refl);
  ending = λ r n. (refl, refl);
  working = λ k n. (refl, refl);
}

settled : Settled calls peer
settled = record {
  read_next_proto = λ s n. refl;
  read_alpn = λ s n. refl;
  read_version = λ s n. refl;
  read_cipher = λ s n. refl;
  write_next_proto = λ s bs. refl;
  write_alpn = λ s bs. refl;
  write_version = λ s bs. refl;
  write_cipher = λ s bs. refl;
}

abbrev read_rounds : Stream → ℕ
read_rounds s = suc (arriving s)

abbrev write_rounds : Conn Lib Stream → ℕ
write_rounds c = suc (2 * (to_come c.lib + length c.pending) + (c.wbuf.last - c.wbuf.pos))

ample : Ample honest arriving read_rounds write_rounds
unfolding load Buffer.rleft
ample = record { reads = λ s. omega arith; writes = λ c. omega arith }

-- Two chunks come in, through the handshake, and go out again.
abbrev sample : Stream
sample = ((1 ∷ 2 ∷ 3 ∷ []) ∷ (5 ∷ []) ∷ [], [], [])

abbrev memory : Bytes
memory = 0 ∷ 0 ∷ 0 ∷ 0 ∷ []

abbrev events : List Event
events = readable ∷ readable ∷ worked 0 ∷ writable ∷ settings_timer ∷ []

abbrev served : Conn Lib Stream
served = record {
  lib = ([], 4 ∷ 1 ∷ 2 ∷ 3 ∷ 5 ∷ [], 1 ∷ 2 ∷ 3 ∷ 5 ∷ []);
  tls = ([], 1 ∷ 2 ∷ 3 ∷ 5 ∷ [], 4 ∷ 1 ∷ 2 ∷ 3 ∷ 5 ∷ []);
  wbuf = record { buf = 1 ∷ 2 ∷ 3 ∷ 5 ∷ []; pos = 0; last = 0 };
  pending = [];
  writing = false;
}

run_runs :
    run calls peer read_rounds write_rounds events (new_session sample memory) ≡ serving served
unfolding run new_session Link.step Link.on_read Link.on_write Link.terminated Link.work
    Link.tls_handshake Link.after_handshake Link.connection_made Link.configured Link.verify_npn
    Link.run_write Link.settle Link.fed Link.after_read Link.read_round Link.read
    Ciphers.check_h2_is_selected Ciphers.check_http2_requirements
    Ciphers.check_http2_cipher_block_list Ciphers.listed write Wire.write_round Wire.push
    Wire.refill Wire.pushed Wire.after_tls Wire.after_fill Wire.fill_wb Wire.fill_round
    Wire.fill_fuel Wire.move_pending Wire.offer Wire.finish Buffer.write Buffer.drain Buffer.rleft
    Buffer.wleft Buffer.copy_to Buffer.reset Buffer.contents Buffer.init bytes_eq
run_runs = refl

run-new_session_example :
    IsSound made_so_far took_out took_in handed_out
      (run calls peer read_rounds write_rounds events (new_session sample memory))
run-new_session_example = run-new_session honest receives ample events sample memory refl refl

run-IsGuarded_example :
    IsGuarded peer (run calls peer read_rounds write_rounds events (new_session sample memory))
run-IsGuarded_example = run-IsGuarded read_rounds write_rounds settled events sample memory

-- TLS_RSA_WITH_AES_128_CBC_SHA is 0x002F.
check_http2_cipher_block_list_lem_example : check_http2_cipher_block_list 0x2f ≡ (
    (leb 0x2f 0xff && within blocked_low 0x2f)
    || (leb 0xc000 0x2f && (leb 0x2f 0xc0ff && within blocked_high (0x2f - 0xc000))))
check_http2_cipher_block_list_lem_example = check_http2_cipher_block_list_lem 0x2f (omega arith)

check_http2_requirements-openssl_example :
    check_http2_requirements 0x0303 0x0303 (0x03000000 + 0x2f) ≡ leb 0x0303 0x0303
check_http2_requirements-openssl_example = check_http2_requirements-openssl 0x0303 0x0303 0x2f

-- By its two bytes it is refused.
check_http2_requirements_two_bytes : check_http2_requirements 0x0303 0x0303 0x2f ≡ false
unfolding check_http2_requirements check_http2_cipher_block_list Ciphers.listed
check_http2_requirements_two_bytes = refl
