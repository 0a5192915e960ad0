-- ===== src/Cookies.antt =====
-- src/util.cc: `get_cookie`, with the positions and counts that it gives to `substr`.
mod Tests
use harmony_http.Prelude.{
  ℕ, zero, suc, ◌+◌, ◌-◌, ◌^◌, ◌%◌, List, [], ◌∷◌, Bytes, Bool, true, false, not, Option, some,
  none, leb, ◌==◌, if◌then◌else◌, length, take, drop,
}
use harmony_http.Header.{streq_l}

abbrev pub npos : ℕ
npos = 2 ^ 64 - 1

-- The first position from `i` on at which a test holds, or npos.
unfoldable pub find : (ℕ → Bool) → ℕ → Bytes → ℕ
find test i [] = npos
find test i (c ∷ s) = let rest = find test (i + 1) s in if test c then i else rest

unfoldable pub find_first_not_of : ℕ → Bytes → ℕ
unfolding find
find_first_not_of c s = find (λ x. not (x == c)) 0 s

-- `find_first_of` from a position on.
unfoldable pub find_first_of : ℕ → ℕ → Bytes → ℕ
unfolding find
find_first_of c start s = find (λ x. x == c) start (drop start s)

-- `substr(start, count)`; none is the exception.
abbrev pub substr : ℕ → ℕ → Bytes → Option Bytes
substr start count s = if leb start (length s) then some (take count (drop start s)) else none

pub data Cookie : Type 0 where
  value : Bytes → Cookie
  absent out_of_range out_of_fuel : Cookie

-- The end of a round, with the key and the value of `substr`.
abbrev pub rest_after : (Bytes → Cookie) → Option Bytes → Cookie
rest_after next none = out_of_range
rest_after next (some cookies) = next cookies

abbrev pub compare_key : (Bytes → Cookie) → Bytes → Bytes → ℕ → Bytes → Bytes → Cookie
compare_key next cookies key vend k v =
    let rest = rest_after next (substr (vend + 1) npos cookies) in
    if streq_l k key then value v else if vend == npos then absent else rest

abbrev pub after_value : (Bytes → Cookie) → Bytes → Bytes → ℕ → Bytes → Option Bytes → Cookie
after_value next cookies key vend k none = out_of_range
after_value next cookies key vend k (some v) = compare_key next cookies key vend k v

abbrev pub after_key : (Bytes → Cookie) → Bytes → Bytes → ℕ → Option Bytes → Cookie
after_key next cookies key kend none = out_of_range
after_key next cookies key kend (some k) =
    let vbeg = (kend + 1) % 2 ^ 64 in
    let vend = find_first_of b';' vbeg cookies in
    after_value next cookies key vend k (substr vbeg vend cookies)

-- A round takes a byte at least from `cookies`.
unfoldable pub cookie_loop : ℕ → Bytes → Bytes → Cookie
unfolding find_first_not_of find_first_of
cookie_loop zero key cookies = out_of_fuel
cookie_loop (suc fuel) key cookies =
    let kbeg = find_first_not_of b' ' cookies in
    let kend = find_first_of b'=' 0 cookies in
    after_key (cookie_loop fuel key) cookies key kend (substr kbeg kend cookies)

unfoldable pub get_cookie : Bytes → Bytes → Cookie
unfolding cookie_loop
get_cookie cookies key = cookie_loop (length cookies + 1) key cookies
