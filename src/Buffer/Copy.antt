-- ===== src/Buffer/Copy.antt =====
-- What `std::copy_n` into the array leaves in it.
use harmony_http.Prelude.{
  ℕ, zero, suc, ◌+◌, ◌≤◌, ◌<◌, ◌≡◌, refl, ap, ◌∙◌, ◌≡⟨◌⟩◌, ◌∎, arith, append-nil, [], ◌∷◌, ◌++◌,
  append_assoc, length, set, take, Bytes, length-set,
}
use harmony_http.Buffer.{copy_to}

pub length-copy_to : (buf : Bytes) (i : ℕ) (src : Bytes) → length (copy_to buf i src) ≡ length buf
unfolding copy_to
length-copy_to buf i [] = refl
length-copy_to buf i (x ∷ src) = length-copy_to (set buf i x) (i + 1) src ∙ length-set buf i x

take-set :
    (buf : Bytes) (i m x : ℕ)
    → i < length buf
    → m ≡ i + 1
    → take m (set buf i x) ≡ take i buf ++ x ∷ []
take-set [] i m x h e = absurd (omega arith)
take-set (y ∷ buf) i zero x h e = absurd (omega arith)
take-set (y ∷ buf) zero (suc zero) x h e = refl
take-set (y ∷ buf) zero (suc (suc m)) x h e = absurd (omega arith)
take-set (y ∷ buf) (suc i) (suc m) x h e =
    ap (λ t. y ∷ t) (take-set buf i m x (omega arith) (omega arith))

-- The array up to the end of the copy is what stood before it, then the bytes copied.
pub take-copy_to :
    (src buf : Bytes) (i n : ℕ)
    → n ≡ i + length src
    → n ≤ length buf
    → take n (copy_to buf i src) ≡ take i buf ++ src
unfolding copy_to
take-copy_to [] buf i n e h = let same : n ≡ i = omega arith in rw (same, append-nil)
take-copy_to (x ∷ src) buf i n e h =
    let b = set buf i x in
    let room : n ≤ length b = omega (arith, length-set buf i x) in
    take n (copy_to b (i + 1) src)
    ≡⟨ take-copy_to src b (i + 1) n (omega arith) room ⟩ take (i + 1) b ++ src
    ≡⟨ ap (λ t. t ++ src) (take-set buf i (i + 1) x (omega arith) refl) ⟩
      (take i buf ++ x ∷ []) ++ src
    ≡⟨ append_assoc (take i buf) (x ∷ []) src ⟩ take i buf ++ x ∷ src ∎
