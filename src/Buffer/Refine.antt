-- ===== src/Buffer/Refine.antt =====
-- src/buffer.h: what each operation of `Buffer<N>` does to what a reader sees.
use harmony_http.Prelude.{
  ℕ, ◌+◌, ◌-◌, ◌≤◌, ◌<◌, min, ◌≡◌, refl, ap, sym, ◌∙◌, arith, [], ◌∷◌, ◌++◌, some, none, length,
  set, take, drop, replicate, Bytes, length-take, length-drop, length-set, length-replicate,
  drop-append_le, drop-drop,
}
use harmony_http.Buffer.{
  Buffer, rleft, wleft, copy_to, write, write_full, write_byte, fill, drain, drain_reset, contents,
}
use harmony_http.Buffer.Copy.{length-copy_to, take-copy_to}

pub record IsValid (b : Buffer) : Type 0 where
  pub ordered : b.pos ≤ b.last
  pub within : b.last ≤ length b.buf

-- The bytes between the cursors are as many as `rleft` says.
pub length-contents : (b : Buffer) → IsValid b → length (contents b) ≡ rleft b
unfolding contents rleft
length-contents b v = omega (arith, length-drop b.pos (take b.last b.buf), length-take b.last b.buf)

-- A copy at the write cursor appends to the contents.
pub contents-copy_to :
    (b : Buffer) (src : Bytes) (n : ℕ)
    → IsValid b
    → n ≡ b.last + length src
    → n ≤ length b.buf
    → contents (record b { buf = copy_to b.buf b.last src; last = n }) ≡ contents b ++ src
unfolding contents
contents-copy_to b src n v e h =
    ap (drop b.pos) (take-copy_to src b.buf b.last n e h)
    ∙ drop-append_le b.pos (take b.last b.buf) src (omega (arith, length-take b.last b.buf))

pub IsValid-copy_to :
    (b : Buffer) (src : Bytes) (n : ℕ)
    → IsValid b
    → n ≡ b.last + length src
    → n ≤ length b.buf
    → IsValid (record b { buf = copy_to b.buf b.last src; last = n })
IsValid-copy_to b src n v e h = record {
  ordered = omega arith;
  within = omega (arith, length-copy_to b.buf b.last src);
}

-- On a valid buffer, `write` takes the longest prefix that fits, appends exactly it to what a
-- reader will see, reports its length, keeps the array's size and leaves a valid buffer.
pub write_lem :
    (b : Buffer) (src : Bytes)
    → IsValid b
    → let (b', n) = write b src in
      (n ≡ min (length src) (wleft b))
      × (contents b' ≡ contents b ++ take n src)
      × (length b'.buf ≡ length b.buf)
      × IsValid b'
unfolding write
write_lem b src v =
    let k = min (length src) (wleft b) in
    let len : length (take k src) ≡ k = omega (arith, length-take k src) in
    let e : b.last + k ≡ b.last + length (take k src) = omega arith in
    let fits : b.last + k ≤ length b.buf = omega arith in
    (
      refl,
      contents-copy_to b (take k src) (b.last + k) v e fits,
      length-copy_to b.buf b.last (take k src),
      IsValid-copy_to b (take k src) (b.last + k) v e fits,
    )

-- On a valid buffer with room for the bytes, `write_full` succeeds, appends all of them to what
-- a reader will see, moves as much from the room to the unread bytes, and leaves a valid buffer.
pub write_full_lem :
    (b : Buffer) (src : Bytes)
    → IsValid b
    → length src ≤ wleft b
    → (b' : Buffer) × (write_full b src ≡ some b')
      × (contents b' ≡ contents b ++ src)
      × (rleft b' ≡ rleft b + length src)
      × (wleft b' + length src ≡ wleft b)
      × IsValid b'
unfolding write_full rleft
write_full_lem b src v h =
    let n = b.last + length src in
    let fits : n ≤ length b.buf = omega arith in
    (
      record b { buf = copy_to b.buf b.last src; last = n },
      ground arith,
      contents-copy_to b src n v refl fits,
      omega arith,
      omega (arith, length-copy_to b.buf b.last src),
      IsValid-copy_to b src n v refl fits,
    )

pub write_full_too_long :
    (b : Buffer) (src : Bytes) → wleft b < length src → write_full b src ≡ none
unfolding write_full
write_full_too_long b src h = ground arith

-- One byte is a copy of a list of one.
pub write_byte_lem :
    (b : Buffer) (x : ℕ)
    → IsValid b
    → 1 ≤ wleft b
    → (b' : Buffer) × (write_byte b x ≡ some b')
      × (contents b' ≡ contents b ++ x ∷ [])
      × (wleft b' + 1 ≡ wleft b)
      × IsValid b'
unfolding write_byte wleft copy_to
write_byte_lem b x v h =
    let n = b.last + 1 in
    let fits : n ≤ length b.buf = omega arith in
    (
      record b { buf = set b.buf b.last x; last = n },
      ground arith,
      contents-copy_to b (x ∷ []) n v refl fits,
      omega (arith, length-set b.buf b.last x),
      IsValid-copy_to b (x ∷ []) n v refl fits,
    )

-- `fill` appends `count` copies of a byte.
pub fill_lem :
    (b : Buffer) (x count : ℕ)
    → IsValid b
    → count ≤ wleft b
    → (b' : Buffer) × (fill b x count ≡ some b')
      × (contents b' ≡ contents b ++ replicate count x)
      × (wleft b' + count ≡ wleft b)
      × IsValid b'
unfolding fill
fill_lem b x count v h =
    let src = replicate count x in
    let n = b.last + count in
    let e : n ≡ b.last + length src = omega (arith, length-replicate count x) in
    let fits : n ≤ length b.buf = omega arith in
    (
      record b { buf = copy_to b.buf b.last src; last = n },
      ground arith,
      contents-copy_to b src n v e fits,
      omega (arith, length-copy_to b.buf b.last src),
      IsValid-copy_to b src n v e fits,
    )

-- `drain` removes the first bytes, at most all of them.
pub drain_lem :
    (b : Buffer) (count : ℕ)
    → IsValid b
    → let (b', n) = drain b count in
      (n ≡ min count (rleft b))
      × (contents b' ≡ drop n (contents b))
      × (b'.buf ≡ b.buf)
      × IsValid b'
unfolding drain contents
drain_lem b count v = (
  refl,
  sym (drop-drop b.pos (min count (rleft b)) (b.pos + min count (rleft b)) _ refl),
  refl,
  record { ordered = omega arith; within = omega arith },
)

-- On a valid buffer, `drain_reset` removes `count` bytes, or all where there are fewer, from the
-- front of what a reader sees, reports how many, puts the read cursor at the start, keeps the
-- array's size and leaves a valid buffer.
pub drain_reset_lem :
    (b : Buffer) (count : ℕ)
    → IsValid b
    → let (b', n) = drain_reset b count in
      (n ≡ min count (rleft b))
      × (contents b' ≡ drop n (contents b))
      × (b'.pos ≡ 0)
      × (length b'.buf ≡ length b.buf)
      × IsValid b'
unfolding drain_reset contents
drain_reset_lem b count v =
    let n = min count (rleft b) in
    let rest = drop (b.pos + n) (take b.last b.buf) in
    let len : length rest ≡ b.last - (b.pos + n) =
      omega (arith, length-drop (b.pos + n) (take b.last b.buf), length-take b.last b.buf) in
    (
      refl,
      take-copy_to rest b.buf 0 (b.last - (b.pos + n)) (omega arith) (omega arith)
          ∙ sym (drop-drop b.pos n (b.pos + n) (take b.last b.buf) refl),
      refl,
      length-copy_to b.buf 0 rest,
      record { ordered = omega arith; within = omega (arith, length-copy_to b.buf 0 rest) },
    )
