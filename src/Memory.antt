-- ===== src/Memory.antt =====
-- src/util.h: `MemBlock<N>`, a fixed array that is handed out piece by piece, and the texts of numbers that
-- `to_string` puts into it. malloc and snprintf are not in the model: a block of malloc is its place in
-- `add_`, and the text of a number is given.
pub mod Blocks
pub mod Digits
mod Tests
use harmony_http.Prelude.{
  ℕ, zero, suc, ◌+◌, ◌-◌, ◌/◌, ◌%◌, ◌^◌, List, [], ◌∷◌, ◌++◌, length, take, Bytes, Bool, Option,
  none, some, leb, ◌==◌, if◌then◌else◌,
}

-- `add` is the sizes of the blocks of malloc, in the order of `add_`.
pub record MemBlock : Type 0 where
  pub size : ℕ
  pub pos : ℕ
  pub add : List ℕ

-- What `alloc` returns: an offset into the array, or an index of `add_`; with the size.
pub data Block : Type 0 where
  inside outside : ℕ → ℕ → Block

unfoldable pub new_block : ℕ → MemBlock
new_block size = record { size = size; pos = 0; add = [] }

-- The sum is of type size_t.
unfoldable pub alloc : ℕ → MemBlock → Block × MemBlock
alloc n m =
    if leb ((n + m.pos) % 2 ^ 64) m.size
    then (inside m.pos n, record m { pos = (m.pos + n) % 2 ^ 64 })
    else (outside (length m.add) n, record m { add = m.add ++ n ∷ [] })

-- The destructor: the indexes whose blocks are freed.
unfoldable pub freed_from : ℕ → List ℕ → List ℕ
freed_from i [] = []
freed_from i (n ∷ ns) = i ∷ freed_from (i + 1) ns

unfoldable pub destroy : MemBlock → List ℕ
unfolding freed_from
destroy m = freed_from 0 m.add

-- The loop `while (n_) { n_ /= 10; size += 1; }`; none is out of fuel.
unfoldable pub count_size : ℕ → ℕ → ℕ → Option ℕ
count_size fuel zero size = some size
count_size zero (suc n) size = none
count_size (suc fuel) (suc n) size = count_size fuel (suc n / 10) (size + 1)

-- A number below 2^64 has 20 digits at most.
abbrev pub digits_fuel : ℕ
digits_fuel = 20

-- `alloc(size)` and `snprintf(out, size, ...)`, which writes no more than size - 1 bytes of the text.
unfoldable pub print : Bytes → MemBlock → Option ℕ → Option (Bytes × Block × MemBlock)
unfolding alloc
print text m none = none
print text m (some size) = let (block, m') = alloc size m in some (take (size - 1) text, block, m')

-- `to_string` of a number, by the text that it has in decimal: of uint64_t, and of int64_t with its absolute
-- value, since the division rounds to zero.
unfoldable pub to_string : (ℕ → Bytes) → ℕ → MemBlock → Option (Bytes × Block × MemBlock)
unfolding print count_size
to_string text n m = print (text n) m (count_size digits_fuel n 2)

unfoldable pub to_string_signed :
    (Bool → ℕ → Bytes) → Bool → ℕ → MemBlock → Option (Bytes × Block × MemBlock)
unfolding print count_size
to_string_signed text negative n m = print (text negative n) m (count_size digits_fuel n 2)
