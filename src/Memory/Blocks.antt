-- ===== src/Memory/Blocks.antt =====
-- src/util.h: the blocks that a sequence of calls of `MemBlock::alloc` returns.
use native.Mathlib.Nat.{mod-eq_of_lt}
use harmony_http.Prelude.{
  ℕ, ◌+◌, ◌%◌, ◌^◌, ◌≤◌, ◌<◌, ◌≡◌, refl, sym, ap, ◌∙◌, arith, List, [], ◌∷◌, ◌++◌, append_assoc,
  append-nil, ◌⊎◌, length, length-append, Bool-cases, inl, inr, leb,
}
use harmony_http.Memory.{MemBlock, Block, inside, outside, new_block, alloc, freed_from, destroy}

unfoldable pub alloc_all : List ℕ → MemBlock → List Block × MemBlock
alloc_all [] m = ([], m)
alloc_all (n ∷ ns) m = let (b, m₁) = alloc n m in let (bs, m₂) = alloc_all ns m₁ in (b ∷ bs, m₂)

-- The blocks have the sizes asked for; those inside the array of `size` bytes follow each other from offset
-- `pos` on, and those outside are numbered from `made` on.
abbrev pub IsLaidOut : ℕ → ℕ → ℕ → List ℕ → List Block → Type 0
IsLaidOut size pos made [] [] = Unit
IsLaidOut size pos made [] (b ∷ bs) = ⊥
IsLaidOut size pos made (n ∷ ns) [] = ⊥
IsLaidOut size pos made (n ∷ ns) (inside at k ∷ bs) =
    (at ≡ pos) × (k ≡ n) × (at + k ≤ size) × IsLaidOut size (pos + n) made ns bs
IsLaidOut size pos made (n ∷ ns) (outside i k ∷ bs) =
    (i ≡ made) × (k ≡ n) × (size < pos + n) × IsLaidOut size pos (made + 1) ns bs

-- Every request is small enough for the sum in `alloc` not to wrap.
abbrev pub AllSmall : ℕ → List ℕ → Type 0
AllSmall size [] = Unit
AllSmall size (n ∷ ns) = (n + size < 2 ^ 64) × AllSmall size ns

unfoldable pub outsides : List Block → List ℕ
outsides [] = []
outsides (inside at k ∷ bs) = outsides bs
outsides (outside i k ∷ bs) = i ∷ outsides bs

freed-append :
    (i n : ℕ) (ns : List ℕ) → freed_from i (ns ++ n ∷ []) ≡ freed_from i ns ++ (i + length ns) ∷ []
unfolding freed_from
freed-append i n [] = ap (λ t. t ∷ []) (omega arith)
freed-append i n (x ∷ ns) =
    ap (λ t. i ∷ t)
      (freed-append (i + 1) n ns ∙ ap (λ t. freed_from (i + 1) ns ++ t ∷ []) (omega arith))

alloc_cases :
    (n : ℕ) (m : MemBlock)
    → n + m.size < 2 ^ 64
    → m.pos ≤ m.size
    → ((m.pos + n ≤ m.size) × (alloc n m ≡ (inside m.pos n, record m { pos = m.pos + n })))
      ⊎ ((m.size < m.pos + n)
          × (alloc n m ≡ (outside (length m.add) n, record m { add = m.add ++ n ∷ [] })))
unfolding alloc
alloc_cases n m small within =
    let sum : (n + m.pos) % 2 ^ 64 ≡ n + m.pos = mod-eq_of_lt (omega arith) in
    let sum' : (m.pos + n) % 2 ^ 64 ≡ m.pos + n = mod-eq_of_lt (omega arith) in
    elim (Bool-cases (leb (n + m.pos) m.size)) [
      | inl fits ↦ inl (ground arith, rw (sum, sum', fits) refl)
      | inr full ↦ inr (ground arith, rw (sum, full) refl)
    ]

alloc_all_from :
    (ns : List ℕ) (m : MemBlock)
    → AllSmall m.size ns
    → m.pos ≤ m.size
    → IsLaidOut m.size m.pos (length m.add) ns (alloc_all ns m).0
      × (destroy (alloc_all ns m).1 ≡ destroy m ++ outsides (alloc_all ns m).0)
unfolding alloc_all destroy outsides
alloc_all_from [] m small within = (tt, sym (append-nil _))
alloc_all_from (n ∷ ns) m (s, small) within = elim (alloc_cases n m s within) [
  | inl (fits, e) ↦
      let (laid, given_back) = alloc_all_from ns (record m { pos = m.pos + n }) small fits in
      rw e ((refl, refl, fits, laid), given_back)
  | inr (full, e) ↦
      let (laid, given_back) =
        alloc_all_from ns (record m { add = m.add ++ n ∷ [] }) small within in
      let one_more : length (m.add ++ n ∷ []) ≡ length m.add + 1 = length-append m.add (n ∷ []) in
      rw e (
        (
          (refl, refl, full, rw (← one_more) laid),
          given_back
              ∙ ap (λ t. t ++ outsides (alloc_all ns (record m { add = m.add ++ n ∷ [] })).0)
                  (freed-append 0 n m.add ∙ ap (λ t. freed_from 0 m.add ++ t ∷ []) (omega arith))
              ∙ append_assoc (freed_from 0 m.add) (length m.add ∷ []) _,
        ))
]

-- For a new block and requests that do not wrap size_t: the pieces that `alloc` returns have the sizes
-- asked for; those inside the array follow each other from its start, do not overlap and stay within
-- it, in the order of the calls; a request is served by malloc exactly when it does not fit behind
-- them; and the destructor frees each block of malloc once.
pub alloc_all-new_block :
    (size : ℕ) (ns : List ℕ)
    → AllSmall size ns
    → IsLaidOut size 0 0 ns (alloc_all ns (new_block size)).0
      × (destroy (alloc_all ns (new_block size)).1 ≡ outsides (alloc_all ns (new_block size)).0)
unfolding new_block destroy freed_from
alloc_all-new_block size ns small = alloc_all_from ns (new_block size) small (omega arith)
