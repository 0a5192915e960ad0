-- ===== src/Link/Ciphers.antt =====
-- src/util.cc and src/util.h: `check_http2_cipher_block_list`, `check_http2_requirements` and
-- `check_h2_is_selected`. What SSL_version and SSL_CIPHER_get_id say is an argument.
use harmony_http.Prelude.{
  ℕ, ◌/◌, ◌%◌, ◌^◌, [], ◌∷◌, Bytes, bytes_eq, Bool, ◌&&◌, ◌||◌, not, leb, ◌==◌, get_or, codes,
}

-- The bits of the ids from 0x0000 to 0x00FF.
abbrev pub low_ids : Bytes
low_ids =
    0xff ∷ 0xff ∷ 0xff ∷ 0xcf ∷ 0xff ∷ 0xff ∷ 0xff ∷ 0xff ∷ 0x7f ∷ 0 ∷ 0 ∷ 0 ∷ 0x80 ∷ 0x3f ∷ 0 ∷ 0
    ∷ 0xf0 ∷ 0xff ∷ 0xff ∷ 0x3f ∷ 0xf3 ∷ 0xf3 ∷ 0xff ∷ 0xff ∷ 0x3f ∷ 0 ∷ 0 ∷ 0 ∷ 0 ∷ 0 ∷ 0 ∷ 0x80
    ∷ []

-- Those from 0xC000 to 0xC0FF.
abbrev pub high_ids : Bytes
high_ids =
    0xfe ∷ 0xff ∷ 0xff ∷ 0xff ∷ 0xff ∷ 0x67 ∷ 0xfe ∷ 0xff ∷ 0xff ∷ 0xff ∷ 0x33 ∷ 0xcf ∷ 0xfc ∷ 0xcf
    ∷ 0xff ∷ 0xcf ∷ 0x3c ∷ 0xf3 ∷ 0xfc ∷ 0x3f ∷ 0x33 ∷ 0x03 ∷ 0 ∷ 0 ∷ 0 ∷ 0 ∷ 0 ∷ 0 ∷ 0 ∷ 0 ∷ 0 ∷ 0
    ∷ []

-- `table[(id & 0xFF) / 8] & (1 << (id % 8))`, as a truth value.
unfoldable pub listed : Bytes → ℕ → Bool
listed table id = get_or table (id % 256 / 8) 0 / 2 ^ (id % 8) % 2 == 1

-- `IS_CIPHER_BANNED_METHOD2`; the mask 0xFFFFFF is applied to its truth value and leaves it as it is.
unfoldable pub check_http2_cipher_block_list : ℕ → Bool
unfolding listed
check_http2_cipher_block_list id =
    (leb id 0xff && listed low_ids id) || (leb 0xc000 id && (leb id 0xc0ff && listed high_ids id))

unfoldable pub check_http2_requirements : ℕ → ℕ → ℕ → Bool
unfolding check_http2_cipher_block_list
check_http2_requirements tls1_2_version version id =
    leb tls1_2_version version && not (check_http2_cipher_block_list id)

unfoldable pub check_h2_is_selected : Bytes → Bool
check_h2_is_selected proto =
    bytes_eq proto (codes "h2")
    || (bytes_eq proto (codes "h2-14") || bytes_eq proto (codes "h2-16"))
