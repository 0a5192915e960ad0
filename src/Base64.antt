-- ===== src/Base64.antt =====
-- src/common_util.cc: `base64_encode` and `base64_decode_to_file`; a file is the bytes written to it.
pub mod RoundTrip
mod Tests
use harmony_http.Prelude.{
  ℕ, zero, suc, ◌+◌, ◌-◌, ◌*◌, ◌/◌, ◌%◌, ◌^◌, ◌≡◌, List, [], ◌∷◌, ◌++◌, Bytes, Bool, true, false,
  Option, none, some, ltb, ◌==◌, if◌then◌else◌, length, set, get_or, replicate, codes,
}

abbrev pub encoding_table : Bytes
encoding_table = codes "ABCDEFGHIJKLMNOPQRSTUVWXYZabcdefghijklmnopqrstuvwxyz0123456789+/"

abbrev pub mod_table : List ℕ
mod_table = 0 ∷ 2 ∷ 1 ∷ []

-- `encoding_table[n & 0x3F]`
unfoldable pub encode_sextet : ℕ → ℕ
encode_sextet n = get_or encoding_table (n % 64) 0

-- One round of the encoder: three octets in one number, and its four sextets.
unfoldable pub encode_triple : ℕ → ℕ → ℕ → Bytes → Bytes
encode_triple a b c rest =
    let triple = a * 2 ^ 16 + b * 2 ^ 8 + c in
    encode_sextet (triple / 2 ^ 18)
    ∷ encode_sextet (triple / 2 ^ 12)
    ∷ encode_sextet (triple / 2 ^ 6)
    ∷ encode_sextet triple
    ∷ rest

-- The loop; past the end of the input an octet is 0. Its indices `i` and `j` are of type int: they
-- do not wrap while the output is shorter than 2^31 bytes, and only such inputs are modelled.
unfoldable pub encode_loop : Bytes → Bytes
encode_loop [] = []
encode_loop (a ∷ []) = encode_triple a 0 0 []
encode_loop (a ∷ b ∷ []) = encode_triple a b 0 []
encode_loop (a ∷ b ∷ c ∷ s) = encode_triple a b c (encode_loop s)

-- `for (i = 0; i < count; i++) encoded_data[output_length - 1 - i] = '=';`
unfoldable pub pad : ℕ → ℕ → Bytes → Bytes
pad zero output_length out = out
pad (suc i) output_length out = set (pad i output_length out) (output_length - 1 - i) b'='

unfoldable pub base64_encode : Bytes → Bytes
unfolding pad encode_loop
base64_encode input =
    pad (get_or mod_table (length input % 3) 0) (4 * ((length input + 2) / 3)) (encode_loop input)

-- The static table of the decoder, zero but where the loop over the 64 sextets writes.
unfoldable pub build_table : ℕ → Bytes
build_table zero = replicate 256 0
build_table (suc i) = set (build_table i) (get_or encoding_table i 0) i

-- `data[i] == '=' ? 0 & i++ : decoding_table[data[i++]]`
unfoldable pub decode_sextet : ℕ → ℕ
unfolding build_table
decode_sextet c = if c == b'=' then 0 else get_or (build_table 64) c 0

-- One round of the decoder. The three tests compare `j`, which the loop never changes from 0.
unfoldable pub decode_quad : ℕ → ℕ → ℕ → ℕ → ℕ → Bytes → Bytes
decode_quad output_length a b c d rest =
    let triple =
      decode_sextet a * 2 ^ 18
      + decode_sextet b * 2 ^ 12
      + decode_sextet c * 2 ^ 6
      + decode_sextet d in
    if ltb 0 output_length
    then (triple / 2 ^ 16) % 256 ∷ (triple / 2 ^ 8) % 256 ∷ triple % 256 ∷ rest
    else rest

-- The index `i` is of type int as well: it does not wrap while the input is shorter than 2^31 bytes,
-- and only such inputs are modelled.
unfoldable pub decode_loop : ℕ → Bytes → Bytes
decode_loop n (a ∷ b ∷ c ∷ d ∷ s) = decode_quad n a b c d (decode_loop n s)
decode_loop n _ = []

-- What the decoder returns, and writes: false, a read before the start of the (empty) input, or
-- true with the file's bytes.
pub data Decoded : Type 0 where
  rejected : Decoded
  out_of_range : Decoded
  written : Bytes → Decoded

-- `output_length`, less one for each of the last two bytes that is '='.
unfoldable pub decoded_length : Bytes → ℕ
decoded_length input =
    let n = length input in
    n / 4 * 3
    - (if get_or input (n - 1) 0 == b'=' then 1 else 0)
    - (if get_or input (n - 2) 0 == b'=' then 1 else 0)

unfoldable pub base64_decode : Bytes → Decoded
unfolding decoded_length decode_loop
base64_decode input =
    if length input == 0
    then out_of_range
    else if length input % 4 == 0
    then written (decode_loop (decoded_length input) input)
    else rejected
