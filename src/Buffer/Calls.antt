-- ===== src/Buffer/Calls.antt =====
-- src/buffer.h: the contract of `Buffer<N>`, a queue of bytes whose consumed part is given back only
-- by `drain_reset` and `reset`, and the calls of a client on the buffer and on this queue.
use harmony_http.Prelude.{
  ℕ, ◌+◌, ◌-◌, min, List, [], ◌∷◌, ◌++◌, length, take, drop, Bytes, Option, none, some, leb,
  if◌then◌else◌, replicate,
}
use harmony_http.Buffer
use harmony_http.Buffer.{Buffer}

pub record Fifo : Type 0 where
  pub queue : Bytes
  pub used : ℕ
  pub cap : ℕ

-- The calls of a client, and what each answers. `receive` is what reads into the free part do: as
-- many bytes as fit are stored at the write cursor, and `write(count)` is called for them.
pub data Op : Type 0 where
  put : Bytes → Op
  put_full : Bytes → Op
  put_byte : ℕ → Op
  put_copies : ℕ → ℕ → Op
  receive : Bytes → Op
  get : ℕ → Op
  shift : ℕ → Op
  clear : Op

-- `aborted` is a failed assertion, or a byte past the array; there is no call after it.
pub data Reply : Type 0 where
  wrote : ℕ → Reply
  read : Bytes → Reply
  aborted : Reply

abbrev pub place : Buffer → Bytes → Buffer
place b bytes = record b { buf = Buffer.copy_to b.buf b.last bytes }

abbrev pub advanced : Buffer → Bytes → Buffer × ℕ
advanced b bytes = Buffer.advance (place b bytes) (length bytes)

abbrev pub all_written : ℕ → Option Buffer → Option (Buffer × Reply)
all_written n none = none
all_written n (some b) = some (b, wrote n)

-- One call on the buffer; a read shows the bytes that the call removes.
unfoldable pub step : Buffer → Op → Option (Buffer × Reply)
step b (put src) = let (b', n) = Buffer.write b src in some (b', wrote n)
step b (put_full src) = all_written (length src) (Buffer.write_full b src)
step b (put_byte x) = all_written 1 (Buffer.write_byte b x)
step b (put_copies x count) = all_written count (Buffer.fill b x count)
step b (receive src) =
    let (b', n) = advanced b (take (min (length src) (Buffer.wleft b)) src) in some (b', wrote n)
step b (get count) =
    let (b', n) = Buffer.drain b count in some (b', read (take n (Buffer.contents b)))
step b (shift count) =
    let (b', n) = Buffer.drain_reset b count in some (b', read (take n (Buffer.contents b)))
step b clear = some (Buffer.reset b, read (Buffer.contents b))

abbrev pub room : Fifo → ℕ
room q = q.cap - (q.used + length q.queue)

-- All of the bytes, or nothing.
abbrev pub append_all : Fifo → Bytes → Option (Fifo × Reply)
append_all q src =
    if leb (length src) (room q)
    then some (record q { queue = q.queue ++ src }, wrote (length src))
    else none

-- As many of the bytes as there is room for.
abbrev pub append_some : Fifo → Bytes → Option (Fifo × Reply)
append_some q src =
    let n = min (length src) (room q) in some (record q { queue = q.queue ++ take n src }, wrote n)

unfoldable pub fifo_step : Fifo → Op → Option (Fifo × Reply)
fifo_step q (put src) = append_some q src
fifo_step q (put_full src) = append_all q src
fifo_step q (put_byte x) = append_all q (x ∷ [])
fifo_step q (put_copies x count) = append_all q (replicate count x)
fifo_step q (receive src) = append_some q src
fifo_step q (get count) =
    let n = min count (length q.queue) in
    some (record q { queue = drop n q.queue; used = q.used + n }, read (take n q.queue))
fifo_step q (shift count) =
    let n = min count (length q.queue) in
    some (record q { queue = drop n q.queue; used = 0 }, read (take n q.queue))
fifo_step q clear = some (record q { queue = []; used = 0 }, read q.queue)

-- What a sequence of calls answers, `next` being the calls after the first.
abbrev pub answers {ℓ} : {A : Type ℓ} → (A → List Reply) → Option (A × Reply) → List Reply
answers next none = aborted ∷ []
answers next (some (b, r)) = r ∷ next b

unfoldable pub run : Buffer → List Op → List Reply
run b [] = []
run b (op ∷ ops) = answers (λ b'. run b' ops) (step b op)

unfoldable pub fifo_run : Fifo → List Op → List Reply
fifo_run q [] = []
fifo_run q (op ∷ ops) = answers (λ q'. fifo_run q' ops) (fifo_step q op)

abbrev pub view : Buffer → Fifo
view b = record { queue = Buffer.contents b; used = b.pos; cap = length b.buf }
