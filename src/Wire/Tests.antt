-- ===== src/Wire/Tests.antt =====
-- A library that offers its chunks one by one, and a TLS that takes two bytes at a time: the
-- parameters of the write side can be met, and its theorems apply to a run.
use harmony_http.Prelude.{
  ℕ, ◌+◌, ◌≡◌, refl, sym, ap, arith, List, [], ◌∷◌, ◌++◌, append-nil, length, Bytes, true, false,
}
use harmony_http.Buffer
use harmony_http.Buffer.{Buffer}
use harmony_http.Buffer.Refine.{IsValid}
use harmony_http.Wire
use harmony_http.Wire.{
  Calls, Conn, Run, returned, out_of_fuel, zero_rc, Sent, chunk, Tls, wrote, want_write, write,
  fill_wb, fill_fuel,
}
use harmony_http.Wire.Laws.{Emits, Accepts, Honest, Account}
use harmony_http.Wire.Flush.{write-Account}
use harmony_http.Wire.Drained.{write_drained}

-- The bytes produced so far, and the chunks to come.
abbrev Lib : Type 0
Lib = Bytes × List Bytes

abbrev offer_next : Lib → Buffer → Sent × Lib × Buffer
offer_next (done, []) b = (chunk [], (done, []), b)
offer_next (done, x ∷ xs) b = (chunk x, (done ++ x, xs), b)

abbrev accept_two : Bytes → Bytes → Tls × Bytes
accept_two s [] = (want_write, s)
accept_two s (x ∷ []) = (wrote 1, s ++ x ∷ [])
accept_two s (x ∷ y ∷ bs) = (wrote 2, s ++ x ∷ y ∷ [])

abbrev calls : Calls Lib Bytes
calls = record {
  mem_send = offer_next;
  wants_read = λ n. true;
  wants_write = λ n. true;
  ssl_write = accept_two;
}

abbrev total : List Bytes → ℕ
total [] = 0
total (x ∷ xs) = length x + total xs

abbrev made_so_far : Lib → Bytes
made_so_far (done, xs) = done

abbrev to_come : Lib → ℕ
to_come (done, xs) = total xs

calls-Emits : (n : Lib) (b : Buffer) → IsValid b → Emits calls made_so_far to_come n b
calls-Emits (done, []) b v = record {
  direct = [];
  made = sym (append-nil done);
  placed = sym (append-nil _);
  valid = v;
  size = refl;
  cursor = refl;
  bounded = omega arith;
}
calls-Emits (done, x ∷ xs) b v = record {
  direct = [];
  made = refl;
  placed = sym (append-nil _);
  valid = v;
  size = refl;
  cursor = refl;
  bounded = omega arith;
}

calls-Accepts : (s bs : Bytes) → Accepts calls (λ t. t) s bs
calls-Accepts s [] = record { taken = sym (append-nil s); some_taken = λ e. cc; fits = omega arith }
calls-Accepts s (x ∷ []) = record {
  taken = refl;
  some_taken = λ e. ground arith;
  fits = omega arith;
}
calls-Accepts s (x ∷ y ∷ bs) = record {
  taken = refl;
  some_taken = λ e. ground arith;
  fits = omega arith;
}

honest : Honest calls made_so_far to_come (λ t. t)
honest = record { emits = calls-Emits; accepts = calls-Accepts }

-- Seven bytes in two chunks, through a buffer of four bytes.
abbrev sample : Conn Lib Bytes
sample = record {
  lib = ([], (1 ∷ 2 ∷ 3 ∷ 4 ∷ 5 ∷ []) ∷ (6 ∷ 7 ∷ []) ∷ []);
  tls = [];
  wbuf = record { buf = 0 ∷ 0 ∷ 0 ∷ 0 ∷ []; pos = 0; last = 0 };
  pending = [];
  writing = true;
}

sample-Account : Account made_so_far to_come (λ t. t) 7 sample
unfolding Buffer.contents Buffer.rleft
sample-Account = record { valid = omega arith; total = refl; bounded = omega arith }

write_runs : write calls 40 sample ≡ (
  returned zero_rc,
  record sample {
    lib = (1 ∷ 2 ∷ 3 ∷ 4 ∷ 5 ∷ 6 ∷ 7 ∷ [], []);
    tls = 1 ∷ 2 ∷ 3 ∷ 4 ∷ 5 ∷ 6 ∷ 7 ∷ [];
    wbuf = record { buf = 5 ∷ 6 ∷ 7 ∷ 4 ∷ []; pos = 0; last = 0 };
    writing = false;
  },
)
unfolding write Wire.write_round Wire.push Wire.refill Wire.pushed Wire.after_tls Wire.after_fill
    Wire.fill_wb Wire.fill_round Wire.fill_fuel Wire.move_pending Wire.offer Wire.finish
    Buffer.write Buffer.drain Buffer.rleft Buffer.wleft Buffer.copy_to Buffer.reset Buffer.contents
write_runs = refl

write-Account_example : Account made_so_far to_come (λ t. t) 7 (write calls 3 sample).1
write-Account_example = write-Account honest 3 7 sample sample-Account

write_drained_example : (write calls 40 sample).1.lib.0 ≡ (write calls 40 sample).1.tls
write_drained_example =
    write_drained honest 40 7 sample sample-Account (omega arith) (ap (λ r. r.0) write_runs)
      (ap (λ r. r.1.writing) write_runs)
