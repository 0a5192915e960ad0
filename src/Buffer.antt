-- ===== src/Buffer.antt =====
-- src/buffer.h: `Buffer<N>`, a fixed array with a read cursor and a write cursor.
-- The pointers `pos_` and `last_` are offsets from `std::begin(buf_)`, and N is the array's length.
pub mod Calls
pub mod Copy
pub mod Fifo
pub mod Refine
mod Tests
use harmony_http.Prelude.{
  ℕ, zero, suc, ◌+◌, ◌-◌, min, List, [], ◌∷◌, Option, none, some, Bool, length, set, take, drop,
  replicate, ltb, leb, if◌then◌else◌, Bytes,
}

pub record Buffer : Type 0 where
  pub buf : Bytes
  pub pos : ℕ
  pub last : ℕ

-- The constructor; the array starts with whatever bytes the memory holds.
unfoldable pub init : Bytes → Buffer
init memory = record { buf = memory; pos = 0; last = 0 }

unfoldable pub reset : Buffer → Buffer
reset b = record b { pos = 0; last = 0 }

-- Bytes left to read.
unfoldable pub rleft : Buffer → ℕ
rleft b = b.last - b.pos

-- Bytes that can still be stored.
unfoldable pub wleft : Buffer → ℕ
wleft b = length b.buf - b.last

-- `std::copy_n` into the array from offset `i` on, byte by byte.
unfoldable pub copy_to : Bytes → ℕ → Bytes → Bytes
copy_to buf i [] = buf
copy_to buf i (x ∷ src) = copy_to (set buf i x) (i + 1) src

-- `write(src, count)`: as much as fits, with the number of bytes written.
unfoldable pub write : Buffer → Bytes → Buffer × ℕ
unfolding wleft
write b src =
    let count = min (length src) (wleft b) in
    (record b { buf = copy_to b.buf b.last (take count src); last = b.last + count }, count)

-- `write_full`: none where its assertion fails.
unfoldable pub write_full : Buffer → Bytes → Option Buffer
unfolding wleft
write_full b src =
    if leb (length src) (wleft b)
    then some (record b { buf = copy_to b.buf b.last src; last = b.last + length src })
    else none

-- `write_byte` does not look at the space left: none is a write past the array.
unfoldable pub write_byte : Buffer → ℕ → Option Buffer
write_byte b byte =
    if ltb b.last (length b.buf)
    then some (record b { buf = set b.buf b.last byte; last = b.last + 1 })
    else none

unfoldable pub fill : Buffer → ℕ → ℕ → Option Buffer
unfolding wleft
fill b v count =
    if leb count (wleft b)
    then some (record b { buf = copy_to b.buf b.last (replicate count v); last = b.last + count })
    else none

-- `write(count)`: the bytes are already in place, only the cursor moves.
unfoldable pub advance : Buffer → ℕ → Buffer × ℕ
unfolding wleft
advance b count = let n = min count (wleft b) in (record b { last = b.last + n }, n)

unfoldable pub drain : Buffer → ℕ → Buffer × ℕ
unfolding rleft
drain b count = let n = min count (rleft b) in (record b { pos = b.pos + n }, n)

-- The part between the cursors is moved to the front: `std::copy` forwards, onto lower addresses.
unfoldable pub drain_reset : Buffer → ℕ → Buffer × ℕ
unfolding rleft
drain_reset b count =
    let n = min count (rleft b) in
    let rest = drop (b.pos + n) (take b.last b.buf) in
    (record { buf = copy_to b.buf 0 rest; pos = 0; last = b.last - (b.pos + n) }, n)

-- What a reader sees: the bytes between the cursors.
unfoldable pub contents : Buffer → Bytes
contents b = drop b.pos (take b.last b.buf)
