-- ===== src/Memory/Digits.antt =====
-- src/util.h: the room that `to_string` asks for.
use native.Mathlib.Nat.{pow-suc}
use harmony_http.Prelude.{
  ℕ, zero, suc, ◌+◌, ◌-◌, ◌/◌, ◌^◌, ◌≤◌, ◌<◌, ◌≡◌, refl, ap, ◌∙◌, arith, length, take_all, Bytes,
  Bool, Option, none, some,
}
use harmony_http.Memory.{
  MemBlock, Block, alloc, count_size, digits_fuel, print, to_string, to_string_signed,
}

-- A number below 10^d has at most d digits, where d is not 0.
abbrev pub IsDecimal : (ℕ → Bytes) → Type 0
IsDecimal text = (d n : ℕ) → 0 < d → n < 10 ^ d → length (text n) ≤ d

-- The size counted is two more than a number of digits that is enough.
count_size_lem :
    (fuel n size : ℕ)
    → n < 10 ^ fuel
    → (d : ℕ) × (count_size fuel n size ≡ some (size + d)) × (n < 10 ^ d)
unfolding count_size
count_size_lem fuel zero size h = (0, ap some (omega arith), omega arith)
count_size_lem zero (suc n) size h = absurd (omega arith)
count_size_lem (suc fuel) (suc n) size h =
    let less : suc n / 10 < 10 ^ fuel = omega (arith, pow-suc 10 fuel) in
    let (d, counted, below) = count_size_lem fuel (suc n / 10) (size + 1) less in
    (suc d, counted ∙ ap some (omega arith), omega (arith, pow-suc 10 d))

-- With a sign that takes a byte at most; 0 has none.
abbrev pub IsDecimalSigned : (Bool → ℕ → Bytes) → Type 0
IsDecimalSigned text = (negative : Bool) (d n : ℕ) → n < 10 ^ d → length (text negative n) ≤ d + 1

-- The text of a number that is counted, and its room.
abbrev pub Prints : Bytes → MemBlock → Option (Bytes × Block × MemBlock) → Type 0
Prints text m none = ⊥
Prints text m (some (out, block, m')) =
    (size : ℕ) × (out ≡ text) × (length text < size) × ((block, m') ≡ alloc size m)

print-Prints :
    (text : Bytes) (n : ℕ) (m : MemBlock)
    → n < 2 ^ 64
    → ((d : ℕ) → n < 10 ^ d → length text ≤ d + 1)
    → Prints text m (print text m (count_size digits_fuel n 2))
unfolding print
print-Prints text n m small fits =
    let (d, counted, below) = count_size_lem digits_fuel n 2 (omega arith) in
    rw counted (
      2 + d,
      take_all (2 + d - 1) text (omega (arith, fits d below)),
      omega (arith, fits d below),
      refl,
    )

at_least_one :
    (text : ℕ → Bytes) (n : ℕ) → IsDecimal text → (d : ℕ) → n < 10 ^ d → length (text n) ≤ d + 1
at_least_one text n decimal zero below = omega (arith, decimal 1 n (omega arith) (omega arith))
at_least_one text n decimal (suc d) below = omega (arith, decimal (suc d) n (omega arith) below)

-- `to_string` of a number of 64 bits, whose text has no more digits than it needs, returns within the 20
-- rounds of its fuel; the block that it takes has room for the text and a zero byte, so that snprintf
-- does not cut it.
pub to_string-Prints :
    (text : ℕ → Bytes) (n : ℕ) (m : MemBlock)
    → IsDecimal text
    → n < 2 ^ 64
    → Prints (text n) m (to_string text n m)
unfolding to_string
to_string-Prints text n m decimal small =
    print-Prints (text n) n m small (at_least_one text n decimal)

-- The same of a number with a sign.
pub to_string_signed-Prints :
    (text : Bool → ℕ → Bytes) (negative : Bool) (n : ℕ) (m : MemBlock)
    → IsDecimalSigned text
    → n < 2 ^ 64
    → Prints (text negative n) m (to_string_signed text negative n m)
unfolding to_string_signed
to_string_signed-Prints text negative n m decimal small =
    print-Prints (text negative n) n m small (λ d below. decimal negative d n below)
