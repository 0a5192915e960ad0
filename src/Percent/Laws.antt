-- ===== src/Percent/Laws.antt =====
-- src/util.cc: `percent_decode` against an encoder, and its two versions against each other.
use harmony_http.Prelude.{
  ℕ, ◌+◌, ◌-◌, ◌/◌, ◌%◌, ◌≤◌, ◌<◌, ◌≡◌, ◌≢◌, refl, sym, ap, ap₂, ◌∙◌, arith, [], ◌∷◌, ◌++◌,
  append-nil, append_assoc, Bytes, every, every_at, Bool, true, false, ltb, ◌==◌, ==_iff,
  if◌then◌else◌, length, length-append, Bool-cases, inl, inr,
}
use harmony_http.Percent.{hex_byte, percent_decode, percent_decode_to, decode_loop}

-- RFC 3986: a byte as '%' and two hexadecimal digits, in upper case.
unfoldable pub hex_digit : ℕ → ℕ
hex_digit n = if ltb n 10 then n + b'0' else n - 10 + b'A'

module _ (plain : ℕ → Bool) where
  -- An encoder that leaves the `plain` bytes as they are.
  unfoldable pub encode : Bytes → Bytes
  encode [] = []
  encode (c ∷ s) =
      if plain c then c ∷ encode s else b'%' ∷ hex_digit (c / 16) ∷ hex_digit (c % 16) ∷ encode s

-- Every byte, by evaluation.
hex_table : every (λ c. hex_byte (hex_digit (c / 16)) (hex_digit (c % 16)) == c) 256 ≡ true
unfolding every hex_byte hex_digit
hex_table = refl

pub hex_byte-hex_digit : (c : ℕ) → c < 256 → hex_byte (hex_digit (c / 16)) (hex_digit (c % 16)) ≡ c
hex_byte-hex_digit c h = (==_iff _ c).0 (every_at _ 256 h hex_table)

abbrev pub AllBytes : Bytes → Type 0
AllBytes [] = Unit {0}
AllBytes (c ∷ s) = (c < 256) × AllBytes s

-- A byte that stands for itself is followed by the decoding of the rest.
decode_plain :
    (c : ℕ) (s : Bytes) → c ≢ b'%' → c ≢ b'+' → percent_decode (c ∷ s) ≡ c ∷ percent_decode s
unfolding percent_decode
decode_plain c [] h k = ground arith
decode_plain c (d ∷ []) h k = ground arith
decode_plain c (d ∷ e ∷ s) h k = ground arith

decode_escaped :
    (a b : ℕ) (s : Bytes)
    → percent_decode (b'%' ∷ hex_digit a ∷ hex_digit b ∷ s)
      ≡ hex_byte (hex_digit a) (hex_digit b) ∷ percent_decode s
unfolding percent_decode
decode_escaped a b s = refl

false-true : {b : Bool} → b ≡ true → b ≡ false → ⊥
false-true h k = cc

-- For an encoder that leaves some bytes as they are, '%' and '+' not among them, and escapes all
-- others: decoding what it made of a string of bytes gives the string back.
pub percent_decode-encode :
    (plain : ℕ → Bool) (s : Bytes)
    → plain b'%' ≡ false
    → plain b'+' ≡ false
    → AllBytes s
    → percent_decode (encode plain s) ≡ s
unfolding encode
percent_decode-encode plain [] hp hq a = unfold percent_decode in refl
percent_decode-encode plain (c ∷ s) hp hq (b, a) = elim (Bool-cases (plain c)) [
  | inl stays ↦ rw stays (
      decode_plain c (encode plain s) (λ e. false-true (rw e at stays) hp)
        (λ e. false-true (rw e at stays) hq)
      ∙ ap (λ t. c ∷ t) (percent_decode-encode plain s hp hq a))
  | inr escaped ↦ rw escaped (
      decode_escaped (c / 16) (c % 16) (encode plain s)
      ∙ ap₂ (λ x t. x ∷ t) (hex_byte-hex_digit c b) (percent_decode-encode plain s hp hq a))
]

-- Decoding never makes a string longer.
length-percent_decode : (s : Bytes) → length (percent_decode s) ≤ length s
unfolding percent_decode
length-percent_decode [] = omega arith
length-percent_decode (c ∷ []) = ground arith
length-percent_decode (c ∷ d ∷ []) = ground (arith, length-percent_decode (d ∷ []))
length-percent_decode (c ∷ d ∷ e ∷ s) =
    ground (arith, length-percent_decode s, length-percent_decode (d ∷ e ∷ s))

decode_loop-eq : (s out : Bytes) → decode_loop s out ≡ out ++ percent_decode s
unfolding decode_loop percent_decode
decode_loop-eq [] out = sym (append-nil out)
decode_loop-eq (c ∷ []) out = elim (Bool-cases (c == b'%')) [
  | inl esc ↦ rw esc (sym (append-nil out))
  | inr lit ↦ elim (Bool-cases (c == b'+')) [ inl p ↦ rw (lit, p) refl | inr q ↦ rw (lit, q) refl ]
]
decode_loop-eq (c ∷ d ∷ []) out = elim (Bool-cases (c == b'%')) [
  | inl esc ↦ rw esc (decode_loop-eq (d ∷ []) out)
  | inr lit ↦ elim (Bool-cases (c == b'+')) [
    | inl p ↦ rw (lit, p) (decode_loop-eq (d ∷ []) (out ++ b' ' ∷ []) ∙ append_assoc out _ _)
    | inr q ↦ rw (lit, q) (decode_loop-eq (d ∷ []) (out ++ c ∷ []) ∙ append_assoc out _ _)
  ]
]
decode_loop-eq (c ∷ d ∷ e ∷ s) out = elim (Bool-cases (c == b'%')) [
  | inl esc ↦ rw esc (decode_loop-eq s (out ++ hex_byte d e ∷ []) ∙ append_assoc out _ _)
  | inr lit ↦ rw lit (decode_loop-eq (d ∷ e ∷ s) _ ∙ append_assoc out _ _)
]

-- The version that writes to `out` returns what the version for a std::string returns, and
-- writes at most `src.size() + 1` bytes, the final NUL included.
pub percent_decode_to_lem :
    (s : Bytes)
    → ((percent_decode_to s).1 ≡ percent_decode s) × (length (percent_decode_to s).0 ≤ length s + 1)
unfolding percent_decode_to
percent_decode_to_lem s =
    let same = decode_loop-eq s [] in
    let size = ap length same in
    (
      same,
      omega (arith, size, length-percent_decode s, length-append {0} (decode_loop s []) (0 ∷ [])),
    )
