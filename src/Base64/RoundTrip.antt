-- ===== src/Base64/RoundTrip.antt =====
-- src/common_util.cc: the encoder and the decoder of base64 together.
use harmony_http.Prelude.{
  ℕ, zero, suc, ◌+◌, ◌-◌, ◌*◌, ◌/◌, ◌%◌, ◌^◌, ◌≤◌, ◌<◌, ◌≡◌, refl, sym, ap, ap₂, ◌∙◌, arith, [],
  ◌∷◌, ◌++◌, Bytes, every, every_at, true, lt→ltb, ◌==◌, ==_iff, length, set, get_or, replicate,
}
use harmony_http.Base64.{
  encode_sextet, encode_triple, encode_loop, pad, base64_encode, decode_sextet, decode_quad,
  decode_loop, written, decoded_length, base64_decode, mod_table, encoding_table,
}
use harmony_http.Percent.Laws.{AllBytes}

-- All 64 sextets, by evaluation.
sextet_table : every (λ n. decode_sextet (encode_sextet n) == n) 64 ≡ true
unfolding every decode_sextet encode_sextet
sextet_table = refl

encode_sextet_mod : (n : ℕ) → encode_sextet n ≡ encode_sextet (n % 64)
unfolding encode_sextet
encode_sextet_mod n =
    let e : n % 64 ≡ n % 64 % 64 = omega arith in ap (λ k. get_or encoding_table k 0) e

decode_sextet_pad : decode_sextet b'=' ≡ 0
unfolding decode_sextet
decode_sextet_pad = refl

decode_sextet-encode_sextet : (n : ℕ) → decode_sextet (encode_sextet n) ≡ n % 64
decode_sextet-encode_sextet n =
    let m = n % 64 in
    let same : encode_sextet n ≡ encode_sextet m = encode_sextet_mod n in
    rw same ((==_iff _ m).0 (every_at _ 64 (omega arith) sextet_table))

-- What `base64_encode` makes, chunk by chunk.
unfoldable pub encoded : Bytes → Bytes
encoded [] = []
encoded (a ∷ []) =
    let triple = a * 2 ^ 16 + 0 * 2 ^ 8 + 0 in
    encode_sextet (triple / 2 ^ 18) ∷ encode_sextet (triple / 2 ^ 12) ∷ b'=' ∷ b'=' ∷ []
encoded (a ∷ b ∷ []) =
    let triple = a * 2 ^ 16 + b * 2 ^ 8 + 0 in
    encode_sextet (triple / 2 ^ 18)
    ∷ encode_sextet (triple / 2 ^ 12)
    ∷ encode_sextet (triple / 2 ^ 6)
    ∷ b'='
    ∷ []
encoded (a ∷ b ∷ c ∷ s) = encode_triple a b c (encoded s)

-- Four sextets of a number of 24 bits make it up again.
sextets : ℕ → ℕ
sextets t =
    (t / 2 ^ 18 % 64) * 2 ^ 18 + (t / 2 ^ 12 % 64) * 2 ^ 12 + (t / 2 ^ 6 % 64) * 2 ^ 6 + t % 64

sextets_lem : (t : ℕ) → t < 2 ^ 24 → sextets t ≡ t
unfolding sextets
sextets_lem t h = omega arith

-- What the decoder writes for a number.
octets : ℕ → Bytes → Bytes
octets t rest = (t / 2 ^ 16) % 256 ∷ (t / 2 ^ 8) % 256 ∷ t % 256 ∷ rest

octets_lem :
    (a b c : ℕ) (rest : Bytes)
    → a < 256
    → b < 256
    → c < 256
    → octets (a * 2 ^ 16 + b * 2 ^ 8 + c) rest ≡ a ∷ b ∷ c ∷ rest
unfolding octets
octets_lem a b c rest ha hb hc = ground arith

-- A quad of sextets, however its four characters are written.
decode_quad_lem :
    (n p q r s t : ℕ) (rest : Bytes)
    → 0 < n
    → t < 2 ^ 24
    → decode_sextet p ≡ t / 2 ^ 18 % 64
    → decode_sextet q ≡ t / 2 ^ 12 % 64
    → decode_sextet r ≡ t / 2 ^ 6 % 64
    → decode_sextet s ≡ t % 64
    → decode_quad n p q r s rest ≡ octets t rest
unfolding decode_quad octets sextets
decode_quad_lem n p q r s t rest some_length small hp hq hr hs =
    rw (lt→ltb 0 n some_length, hp, hq, hr, hs) (ap (λ x. octets x rest) (sextets_lem t small))

-- The bytes with the zeros that fill the last chunk.
unfoldable pub filled : Bytes → Bytes
filled [] = []
filled (a ∷ []) = a ∷ 0 ∷ 0 ∷ []
filled (a ∷ b ∷ []) = a ∷ b ∷ 0 ∷ []
filled (a ∷ b ∷ c ∷ s) = a ∷ b ∷ c ∷ filled s

decode_loop-encoded :
    (n : ℕ) (xs : Bytes) → 0 < n → AllBytes xs → decode_loop n (encoded xs) ≡ filled xs
unfolding decode_loop encoded filled encode_triple
decode_loop-encoded n [] h all = refl
decode_loop-encoded n (a ∷ []) h (ha, all) =
    decode_quad_lem n _ _ _ _ (a * 2 ^ 16 + 0 * 2 ^ 8 + 0) [] h (omega arith)
      (decode_sextet-encode_sextet _) (decode_sextet-encode_sextet _)
      (decode_sextet_pad ∙ omega arith) (decode_sextet_pad ∙ omega arith)
    ∙ octets_lem a 0 0 [] ha (omega arith) (omega arith)
decode_loop-encoded n (a ∷ b ∷ []) h (ha, (hb, all)) =
    decode_quad_lem n _ _ _ _ (a * 2 ^ 16 + b * 2 ^ 8 + 0) [] h (omega arith)
      (decode_sextet-encode_sextet _) (decode_sextet-encode_sextet _)
      (decode_sextet-encode_sextet _) (decode_sextet_pad ∙ omega arith)
    ∙ octets_lem a b 0 [] ha hb (omega arith)
decode_loop-encoded n (a ∷ b ∷ c ∷ s) h (ha, (hb, (hc, all))) =
    decode_quad_lem n _ _ _ _ (a * 2 ^ 16 + b * 2 ^ 8 + c) _ h (omega arith)
      (decode_sextet-encode_sextet _) (decode_sextet-encode_sextet _)
      (decode_sextet-encode_sextet _) (decode_sextet-encode_sextet _)
    ∙ octets_lem a b c _ ha hb hc
    ∙ ap (λ t. a ∷ b ∷ c ∷ t) (decode_loop-encoded n s h all)

set-chunk :
    (j k p q r s v : ℕ) (rest : Bytes)
    → j ≡ k + 4
    → set (p ∷ q ∷ r ∷ s ∷ rest) j v ≡ p ∷ q ∷ r ∷ s ∷ set rest k v
set-chunk j k p q r s v rest e = let f : j ≡ suc (suc (suc (suc k))) = omega arith in rw f

-- The padding of a longer input is that of its rest.
pad-chunk :
    (i n m p q r s : ℕ) (rest : Bytes)
    → n ≡ m + 4
    → i ≤ m
    → pad i n (p ∷ q ∷ r ∷ s ∷ rest) ≡ p ∷ q ∷ r ∷ s ∷ pad i m rest
unfolding pad
pad-chunk zero n m p q r s rest e h = refl
pad-chunk (suc i) n m p q r s rest e h =
    ap (λ t. set t (n - 1 - i) b'=') (pad-chunk i n m p q r s rest e (omega arith))
    ∙ set-chunk (n - 1 - i) (m - 1 - i) p q r s b'=' (pad i m rest) (omega arith)

padding : Bytes → ℕ
padding xs = get_or mod_table (length xs % 3) 0

padding-chunk : (a b c : ℕ) (s : Bytes) → padding (a ∷ b ∷ c ∷ s) ≡ padding s
unfolding padding
padding-chunk a b c s =
    let e : length (a ∷ b ∷ c ∷ s) % 3 ≡ length s % 3 = omega arith in
    ap (λ k. get_or mod_table k 0) e

mod_table-le : (k : ℕ) → get_or mod_table k 0 ≤ 2
mod_table-le zero = omega arith
mod_table-le (suc zero) = omega arith
mod_table-le (suc (suc zero)) = omega arith
mod_table-le (suc (suc (suc k))) = omega arith

padding-le : (xs : Bytes) → padding xs ≤ 4 * ((length xs + 2) / 3)
unfolding padding
padding-le [] = omega arith
padding-le (x ∷ xs) = omega (arith, mod_table-le (suc (length xs) % 3))

base64_encode-pad :
    (xs : Bytes) → base64_encode xs ≡ pad (padding xs) (4 * ((length xs + 2) / 3)) (encode_loop xs)
unfolding base64_encode padding
base64_encode-pad xs = refl

encode_loop-chunk :
    (a b c : ℕ) (s : Bytes) → encode_loop (a ∷ b ∷ c ∷ s) ≡ encode_triple a b c (encode_loop s)
unfolding encode_loop
encode_loop-chunk a b c s = refl

pad-triple :
    (i n m a b c : ℕ) (rest : Bytes)
    → n ≡ m + 4
    → i ≤ m
    → pad i n (encode_triple a b c rest) ≡ encode_triple a b c (pad i m rest)
unfolding encode_triple
pad-triple i n m a b c rest e h = pad-chunk i n m _ _ _ _ rest e h

-- The encoder with its padding, chunk by chunk.
base64_encode-encoded : (xs : Bytes) → base64_encode xs ≡ encoded xs
unfolding encoded
base64_encode-encoded [] = unfold base64_encode in refl
base64_encode-encoded (a ∷ []) = unfold base64_encode encode_triple in refl
base64_encode-encoded (a ∷ b ∷ []) = unfold base64_encode encode_triple in refl
base64_encode-encoded (a ∷ b ∷ c ∷ s) =
    let n = 4 * ((length (a ∷ b ∷ c ∷ s) + 2) / 3) in
    let m = 4 * ((length s + 2) / 3) in
    base64_encode-pad (a ∷ b ∷ c ∷ s)
    ∙ ap₂ (λ i t. pad i n t) (padding-chunk a b c s) (encode_loop-chunk a b c s)
    ∙ pad-triple (padding s) n m a b c (encode_loop s) (omega arith) (padding-le s)
    ∙ ap (encode_triple a b c) (sym (base64_encode-pad s) ∙ base64_encode-encoded s)

length-encoded : (xs : Bytes) → length (encoded xs) ≡ 4 * ((length xs + 2) / 3)
unfolding encoded encode_triple
length-encoded [] = refl
length-encoded (a ∷ []) = omega arith
length-encoded (a ∷ b ∷ []) = omega arith
length-encoded (a ∷ b ∷ c ∷ s) = omega (arith, length-encoded s)

decode_nonempty :
    (xs : Bytes)
    → 0 < length xs
    → length xs % 4 ≡ 0
    → base64_decode xs ≡ written (decode_loop (decoded_length xs) xs)
unfolding base64_decode
decode_nonempty xs h k = ground arith

decoded_length-pos : (xs : Bytes) → 4 ≤ length xs → 0 < decoded_length xs
unfolding decoded_length
decoded_length-pos xs h = ground arith

-- Decoding what was encoded from a string of one byte or more, whose encoding is shorter than
-- 2^31 bytes, so that no `int` index of the two loops wraps, writes the string, and behind it the
-- zero bytes that fill its last chunk up to three.
pub base64_decode-base64_encode :
    (xs : Bytes)
    → 0 < length xs
    → 4 * ((length xs + 2) / 3) < 2 ^ 31
    → AllBytes xs
    → base64_decode (base64_encode xs) ≡ written (filled xs)
base64_decode-base64_encode xs h fits all =
    let size = length-encoded xs in
    ap base64_decode (base64_encode-encoded xs)
    ∙ decode_nonempty (encoded xs) (omega arith) (omega arith)
    ∙ ap written (
        decode_loop-encoded (decoded_length (encoded xs)) xs
          (decoded_length-pos (encoded xs) (omega arith)) all)

-- The zero bytes that come with it.
filled-append : (xs : Bytes) → filled xs ≡ xs ++ replicate (3 * ((length xs + 2) / 3) - length xs) 0
unfolding filled
filled-append [] = refl
filled-append (a ∷ []) = refl
filled-append (a ∷ b ∷ []) = refl
filled-append (a ∷ b ∷ c ∷ s) =
    let e : 3 * ((length s + 2) / 3) - length s
        ≡ 3 * ((length (a ∷ b ∷ c ∷ s) + 2) / 3) - length (a ∷ b ∷ c ∷ s) =
      omega arith in
    ap (λ t. a ∷ b ∷ c ∷ t) (filled-append s ∙ ap (λ k. s ++ replicate k 0) e)
