-- ===== src/Link/Blocked.antt =====
-- src/util.cc: the ciphers that `check_http2_cipher_block_list` finds.
use harmony_http.Prelude.{
  ℕ, ◌+◌, ◌-◌, ◌<◌, ◌≡◌, refl, sym, ap, ◌∙◌, arith, List, [], ◌∷◌, Bool, true, false, ◌&&◌, ◌||◌,
  leb, not, Bool-cases, inl, inr, every, every_at,
}
use harmony_http.Link.Ciphers.{
  low_ids, high_ids, listed, check_http2_cipher_block_list, check_http2_requirements,
}

-- The block list of HTTP/2 (RFC 7540, appendix A) as ranges of two-byte ids.
abbrev pub blocked_low : List (ℕ × ℕ)
blocked_low =
    (0x00, 0x1b)
    ∷ (0x1e, 0x46)
    ∷ (0x67, 0x6d)
    ∷ (0x84, 0x9d)
    ∷ (0xa0, 0xa1)
    ∷ (0xa4, 0xa9)
    ∷ (0xac, 0xc5)
    ∷ (0xff, 0xff)
    ∷ []

-- Those that begin with 0xC0, by their second byte.
abbrev pub blocked_high : List (ℕ × ℕ)
blocked_high =
    (0x01, 0x2a)
    ∷ (0x2d, 0x2e)
    ∷ (0x31, 0x51)
    ∷ (0x54, 0x55)
    ∷ (0x58, 0x5b)
    ∷ (0x5e, 0x5f)
    ∷ (0x62, 0x6b)
    ∷ (0x6e, 0x7b)
    ∷ (0x7e, 0x7f)
    ∷ (0x82, 0x85)
    ∷ (0x88, 0x89)
    ∷ (0x8c, 0x8f)
    ∷ (0x92, 0x9d)
    ∷ (0xa0, 0xa1)
    ∷ (0xa4, 0xa5)
    ∷ (0xa8, 0xa9)
    ∷ []

unfoldable pub within : List (ℕ × ℕ) → ℕ → Bool
within [] id = false
within ((first, last) ∷ rs) id = let rest = within rs id in (leb first id && leb id last) || rest

same : Bool → Bool → Bool
same true b = b
same false b = not b

same-eq : (a b : Bool) → same a b ≡ true → a ≡ b
unfolding same
same-eq true true h = refl
same-eq true false h = cc
same-eq false true h = cc
same-eq false false h = refl

low_agrees : every (λ id. same (listed low_ids id) (within blocked_low id)) 256 ≡ true
unfolding every same listed within
low_agrees = refl

high_agrees : every (λ id. same (listed high_ids (0xc000 + id)) (within blocked_high id)) 256 ≡ true
unfolding every same listed within
high_agrees = refl

-- On ids of two bytes, `check_http2_cipher_block_list` is true exactly for those of the block list of
-- HTTP/2, given as ranges.
pub check_http2_cipher_block_list_lem :
    (id : ℕ)
    → id < 0x10000
    → check_http2_cipher_block_list id ≡ (
        (leb id 0xff && within blocked_low id)
        || (leb 0xc000 id && (leb id 0xc0ff && within blocked_high (id - 0xc000))))
unfolding check_http2_cipher_block_list
check_http2_cipher_block_list_lem id h = elim (Bool-cases (leb id 0xff)) [
  | inl low ↦
      let e : listed low_ids id ≡ within blocked_low id =
        same-eq _ _ (every_at _ 256 (ground arith) low_agrees) in
      let below : leb 0xc000 id ≡ false = ground arith in rw (low, below, e) refl
  | inr above ↦ elim (Bool-cases (leb 0xc000 id && leb id 0xc0ff)) [
    | inl inside ↦
        let k : 0xc000 + (id - 0xc000) ≡ id = ground arith in
        let e : listed high_ids (0xc000 + (id - 0xc000)) ≡ within blocked_high (id - 0xc000) =
          same-eq _ _ (every_at _ 256 {m = id - 0xc000} (ground arith) high_agrees) in
        let e' : listed high_ids id ≡ within blocked_high (id - 0xc000) =
          ap (listed high_ids) (sym k) ∙ e in
        rw (above, e') refl
    | inr outside ↦ ground arith
  ]
]

-- With OpenSSL's ids, which are 0x03000000 and the two bytes, `check_http2_requirements` looks at the
-- version only: no cipher is refused.
pub check_http2_requirements-openssl :
    (tls1_2_version version id : ℕ)
    → check_http2_requirements tls1_2_version version (0x03000000 + id) ≡ leb tls1_2_version version
unfolding check_http2_requirements check_http2_cipher_block_list
check_http2_requirements-openssl tls1_2_version version id = ground arith
