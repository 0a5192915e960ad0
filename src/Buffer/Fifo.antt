-- ===== src/Buffer/Fifo.antt =====
-- src/buffer.h: the buffer gives the answers of the queue.
use harmony_http.Prelude.{
  ℕ, ◌+◌, ◌-◌, min, ◌≡◌, refl, ap, ap₂, sym, ◌∙◌, arith, List, [], ◌∷◌, ◌++◌, length, take, drop,
  Bytes, Bool-cases, inl, inr, true, false, Option, none, some, leb, ltb, replicate, ◌≤◌,
  length-take, length-replicate,
}
use harmony_http.Buffer
use harmony_http.Buffer.{Buffer}
use harmony_http.Buffer.Copy.{length-copy_to}
use harmony_http.Buffer.Refine.{
  IsValid, IsValid-copy_to, contents-copy_to, length-contents, write_lem, drain_lem,
  drain_reset_lem,
}
use harmony_http.Buffer.Calls.{
  Fifo, Op, put, put_full, put_byte, put_copies, receive, get, shift, clear, Reply, wrote, read,
  place, advanced, all_written, step, room, append_all, append_some, fifo_step, answers, run,
  fifo_run, view,
}

fifo_eq :
    {q q' : Bytes} {u u' c c' : ℕ}
    → q ≡ q'
    → u ≡ u'
    → c ≡ c'
    → ◌≡◌ {A = Fifo}
        (record { queue = q; used = u; cap = c })
        (record { queue = q'; used = u'; cap = c' })
fifo_eq p q r = λ i. record { queue = p i; used = q i; cap = r i }

rleft-eq : (b : Buffer) → IsValid b → Buffer.rleft b ≡ length (Buffer.contents b)
rleft-eq b v = sym (length-contents b v)

room-eq :
    (b : Buffer) → IsValid b → Buffer.wleft b ≡ length b.buf - (b.pos + length (Buffer.contents b))
unfolding Buffer.wleft Buffer.rleft
room-eq b v = omega (arith, length-contents b v)

pub contents-reset : (b : Buffer) → Buffer.contents (Buffer.reset b) ≡ []
unfolding Buffer.contents Buffer.reset
contents-reset b = refl

-- Both abort, or the buffer stays valid, and its answer and what it then holds are the queue's.
abbrev Agrees : Option (Buffer × Reply) → Option (Fifo × Reply) → Type 0
Agrees none none = Unit {0}
Agrees none (some y) = ⊥
Agrees (some x) none = ⊥
Agrees (some (b, r)) (some (q, r')) = IsValid b × (view b ≡ q) × (r ≡ r')

-- Bytes that fit are stored at the write cursor.
stored :
    (b : Buffer) (src : Bytes) (n : ℕ)
    → IsValid b
    → n ≡ b.last + length src
    → n ≤ length b.buf
    → let b' : Buffer = record b { buf = Buffer.copy_to b.buf b.last src; last = n } in
      IsValid b' × (view b' ≡ record (view b) { queue = Buffer.contents b ++ src })
stored b src n v e fits = (
  IsValid-copy_to b src n v e fits,
  fifo_eq (contents-copy_to b src n v e fits) refl (length-copy_to b.buf b.last src),
)

room-leb : (b : Buffer) (n : ℕ) → IsValid b → leb n (Buffer.wleft b) ≡ leb n (room (view b))
room-leb b n v = ap (leb n) (room-eq b v)

write_full-Agrees :
    (b : Buffer) (src : Bytes)
    → IsValid b
    → Agrees (all_written (length src) (Buffer.write_full b src)) (append_all (view b) src)
unfolding Buffer.write_full
write_full-Agrees b src v = elim (Bool-cases (leb (length src) (Buffer.wleft b))) [
  | inl h ↦
      let (v', same) = stored b src (b.last + length src) v refl (ground arith) in
      rw (h, sym (room-leb b (length src) v) ∙ h) (v', same, refl)
  | inr h ↦ rw (h, sym (room-leb b (length src) v) ∙ h) tt
]

write_byte-Agrees :
    (b : Buffer) (x : ℕ)
    → IsValid b
    → Agrees (all_written 1 (Buffer.write_byte b x)) (append_all (view b) (x ∷ []))
unfolding Buffer.write_byte Buffer.copy_to Buffer.wleft
write_byte-Agrees b x v = elim (Bool-cases (ltb b.last (length b.buf))) [
  | inl h ↦
      let (v', same) = stored b (x ∷ []) (b.last + 1) v refl (ground arith) in
      let fits : leb 1 (Buffer.wleft b) ≡ true = ground arith in
      rw (h, sym (room-leb b 1 v) ∙ fits) (v', same, refl)
  | inr h ↦
      let fits : leb 1 (Buffer.wleft b) ≡ false = ground arith in
      rw (h, sym (room-leb b 1 v) ∙ fits) tt
]

fill-Agrees :
    (b : Buffer) (x count : ℕ)
    → IsValid b
    → Agrees (all_written count (Buffer.fill b x count)) (append_all (view b) (replicate count x))
unfolding Buffer.fill
fill-Agrees b x count v =
    let size = length-replicate count x in
    elim (Bool-cases (leb count (Buffer.wleft b))) [
      | inl h ↦
          let (v', same) =
            stored b (replicate count x) (b.last + count) v (omega arith) (ground arith) in
          rw (size, h, sym (room-leb b count v) ∙ h) (v', same, refl)
      | inr h ↦ rw (size, h, sym (room-leb b count v) ∙ h) tt
    ]

write-Agrees :
    (b : Buffer) (src : Bytes)
    → IsValid b
    → Agrees (let (b', n) = Buffer.write b src in some (b', wrote n)) (append_some (view b) src)
unfolding Buffer.write
write-Agrees b src v =
    let (_, appended, size, v') = write_lem b src v in
    let e = ap (min (length src)) (room-eq b v) in
    (v', fifo_eq (appended ∙ ap (λ n. Buffer.contents b ++ take n src) e) refl size, ap wrote e)

-- Bytes that are in place, with the cursor moved behind them, were written.
advanced-write :
    (b : Buffer) (src : Bytes)
    → IsValid b
    → advanced b (take (min (length src) (Buffer.wleft b)) src) ≡ Buffer.write b src
unfolding Buffer.advance Buffer.write
advanced-write b src v =
    let n = min (length src) (Buffer.wleft b) in
    let bytes = take n src in
    let size = length-take n src in
    let same = length-copy_to b.buf b.last bytes in
    let moved : min (length bytes) (length (Buffer.copy_to b.buf b.last bytes) - b.last) ≡ n =
      omega arith in
    ap (λ k. (record (place b bytes) { last = b.last + k }, k)) moved

-- One call.
step_refines : (b : Buffer) (op : Op) → IsValid b → Agrees (step b op) (fifo_step (view b) op)
unfolding step fifo_step Buffer.drain Buffer.drain_reset Buffer.reset
step_refines b (put src) v = write-Agrees b src v
step_refines b (put_full src) v = write_full-Agrees b src v
step_refines b (put_byte x) v = write_byte-Agrees b x v
step_refines b (put_copies x count) v = fill-Agrees b x count v
step_refines b (receive src) v = rw (advanced-write b src v) (write-Agrees b src v)
step_refines b (get count) v =
    let (_, rest, same, v') = drain_lem b count v in
    let e = ap (min count) (rleft-eq b v) in
    (
      v',
      fifo_eq (rest ∙ ap (λ n. drop n (Buffer.contents b)) e) (ap (λ n. b.pos + n) e)
          (ap length same),
      ap (λ n. read (take n (Buffer.contents b))) e,
    )
step_refines b (shift count) v =
    let (_, rest, front, size, v') = drain_reset_lem b count v in
    let e = ap (min count) (rleft-eq b v) in
    (
      v',
      fifo_eq (rest ∙ ap (λ n. drop n (Buffer.contents b)) e) front size,
      ap (λ n. read (take n (Buffer.contents b))) e,
    )
step_refines b clear v = (
  record { ordered = omega arith; within = omega arith },
  fifo_eq (contents-reset b) refl refl,
  refl,
)

answers-Agrees :
    (next : Buffer → List Reply) (fifo_next : Fifo → List Reply) (x : Option (Buffer × Reply))
    (y : Option (Fifo × Reply))
    → ((b : Buffer) → IsValid b → next b ≡ fifo_next (view b))
    → Agrees x y
    → answers next x ≡ answers fifo_next y
answers-Agrees next fifo_next none none h a = refl
answers-Agrees next fifo_next none (some y) h a = absurd a
answers-Agrees next fifo_next (some x) none h a = absurd a
answers-Agrees next fifo_next (some (b, r)) (some (q, r')) h (v, same, reply) =
    ap₂ (λ x xs. x ∷ xs) reply (h b v ∙ ap fifo_next same)

-- From a valid buffer, whatever calls of `write`, `write_full`, `write_byte`, `fill`, `write(count)` for
-- bytes stored at the write cursor, `drain`, `drain_reset` and `reset` a client makes, the buffer
-- gives the answers that the queue gives, and where an assertion fails or a byte is written past
-- the array, the queue has no room for what the call appends.
pub run_refines : (b : Buffer) (ops : List Op) → IsValid b → run b ops ≡ fifo_run (view b) ops
unfolding run fifo_run
run_refines b [] v = refl
run_refines b (op ∷ ops) v =
    answers-Agrees (λ b'. run b' ops) (λ q. fifo_run q ops) (step b op) (fifo_step (view b) op)
      (λ b' v'. run_refines b' ops v') (step_refines b op v)
