-- ===== src/Percent.antt =====
-- src/util.cc: `from_hex` and both versions of `percent_decode`. A char is its byte; on the
-- target's signed char a byte from 0x80 on is negative, and so below '0'.
pub mod Laws
mod Tests
use Prim.Native.Nat.{bit_or}
use harmony_http.Prelude.{
  ℕ, suc, ◌+◌, ◌-◌, ◌*◌, ◌%◌, ◌≡◌, List, [], ◌∷◌, ◌++◌, Bytes, Bool, true, false, ◌||◌, ltb, leb,
  ◌==◌, if◌then◌else◌, length, set,
}

unfoldable pub from_hex : ℕ → ℕ
from_hex c =
    if leb 128 c || leb c b'9'
    then (c + 256 - b'0') % 256
    else if leb c b'Z'
    then (c + 256 - b'A' + 10) % 256
    else if leb c b'z'
    then (c + 256 - b'a' + 10) % 256
    else 0

-- `from_hex(a) << 4 | from_hex(b)`, converted to char.
unfoldable pub hex_byte : ℕ → ℕ → ℕ
unfolding from_hex
hex_byte a b = bit_or (from_hex a * 16) (from_hex b) % 256

-- The version that returns a std::string. A '%' with fewer than two bytes behind it is dropped.
unfoldable pub percent_decode : Bytes → Bytes
percent_decode [] = []
percent_decode (c ∷ []) = if c == b'%' then [] else if c == b'+' then b' ' ∷ [] else c ∷ []
percent_decode (c ∷ d ∷ []) =
    if c == b'%'
    then percent_decode (d ∷ [])
    else (if c == b'+' then b' ' else c) ∷ percent_decode (d ∷ [])
percent_decode (c ∷ d ∷ e ∷ s) =
    let skip = percent_decode s in
    let next = percent_decode (d ∷ e ∷ s) in
    if c == b'%' then hex_byte d e ∷ skip else (if c == b'+' then b' ' else c) ∷ next

-- The version that writes to `out`: its loop, with the bytes written so far.
unfoldable pub decode_loop : Bytes → Bytes → Bytes
decode_loop [] out = out
decode_loop (c ∷ []) out =
    if c == b'%' then out else if c == b'+' then out ++ b' ' ∷ [] else out ++ c ∷ []
decode_loop (c ∷ d ∷ []) out =
    decode_loop (d ∷ [])
      (if c == b'%' then out else if c == b'+' then out ++ b' ' ∷ [] else out ++ c ∷ [])
decode_loop (c ∷ d ∷ e ∷ s) out =
    let skip = decode_loop s (out ++ hex_byte d e ∷ []) in
    let next = decode_loop (d ∷ e ∷ s) (out ++ (if c == b'+' then b' ' else c) ∷ []) in
    if c == b'%' then skip else next

-- All that it writes, the final NUL included, and the string that it returns.
unfoldable pub percent_decode_to : Bytes → Bytes × Bytes
percent_decode_to src = let out = decode_loop src [] in (out ++ 0 ∷ [], out)
