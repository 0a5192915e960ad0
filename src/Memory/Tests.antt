-- ===== src/Memory/Tests.antt =====
-- The decimal text of a number, and blocks taken from an array of eight bytes.
use native.Mathlib.Nat.{pow-suc}
use harmony_http.Prelude.{
  ℕ, zero, suc, ◌+◌, ◌/◌, ◌%◌, ◌^◌, ◌≤◌, ◌<◌, ◌≡◌, refl, arith, true, [], ◌∷◌, ◌++◌, length,
  length-append, Bytes, some, if◌then◌else◌, ltb, Bool-cases, inl, inr,
}
use harmony_http.Memory
use harmony_http.Memory.{MemBlock, Block, inside, outside, new_block, alloc, destroy, to_string}
use harmony_http.Memory.Blocks.{alloc_all, IsLaidOut, outsides, alloc_all-new_block}
use harmony_http.Memory.Digits.{IsDecimal, Prints, to_string-Prints}

-- The last digits of a number, as many as the fuel allows.
decimal : ℕ → ℕ → Bytes
decimal zero n = (48 + n % 10) ∷ []
decimal (suc fuel) n =
    let rest = decimal fuel (n / 10) in
    if ltb n 10 then (48 + n) ∷ [] else rest ++ (48 + n % 10) ∷ []

decimal_length : (fuel d n : ℕ) → 0 < d → n < 10 ^ d → length (decimal fuel n) ≤ d
unfolding decimal
decimal_length zero d n h b = omega arith
decimal_length (suc fuel) zero n h b = absurd (omega arith)
decimal_length (suc fuel) (suc zero) n h b =
    let small : ltb n 10 ≡ true = ground arith in rw small (omega arith)
decimal_length (suc fuel) (suc (suc d)) n h b = elim (Bool-cases (ltb n 10)) [
  | inl small ↦ rw small (omega arith)
  | inr large ↦
      let below : n / 10 < 10 ^ suc d = omega (arith, pow-suc 10 (suc d)) in
      rw large (
        omega (
          arith,
          length-append (decimal fuel (n / 10)) ((48 + n % 10) ∷ []),
          decimal_length fuel (suc d) (n / 10) (omega arith) below,
        ))
]

decimal-IsDecimal : IsDecimal (decimal 20)
decimal-IsDecimal d n h b = decimal_length 20 d n h b

to_string-Prints_example :
    Prints (decimal 20 65536) (new_block 512) (to_string (decimal 20) 65536 (new_block 512))
to_string-Prints_example =
    to_string-Prints (decimal 20) 65536 (new_block 512) decimal-IsDecimal (omega arith)

to_string_runs :
    to_string (decimal 20) 1234 (new_block 512)
    ≡ some (49 ∷ 50 ∷ 51 ∷ 52 ∷ [], inside 0 6, record { size = 512; pos = 6; add = [] })
unfolding to_string decimal alloc new_block Memory.count_size Memory.print
to_string_runs = refl

alloc_all-new_block_example :
    IsLaidOut 8 0 0 (5 ∷ 4 ∷ 3 ∷ 9 ∷ []) (alloc_all (5 ∷ 4 ∷ 3 ∷ 9 ∷ []) (new_block 8)).0
    × (destroy (alloc_all (5 ∷ 4 ∷ 3 ∷ 9 ∷ []) (new_block 8)).1
        ≡ outsides (alloc_all (5 ∷ 4 ∷ 3 ∷ 9 ∷ []) (new_block 8)).0)
alloc_all-new_block_example =
    alloc_all-new_block 8 (5 ∷ 4 ∷ 3 ∷ 9 ∷ [])
      (omega arith, (omega arith, (omega arith, (omega arith, tt))))
