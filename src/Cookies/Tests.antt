-- ===== src/Cookies/Tests.antt =====
-- src/util.cc: runs of `get_cookie`.
use harmony_http.Prelude.{◌≡◌, refl, codes}
use harmony_http.Header.{streq_l}
use harmony_http.Cookies.{
  value, absent, out_of_range, get_cookie, cookie_loop, find_first_of, find_first_not_of, find,
}

one_cookie : get_cookie (codes "sid=42") (codes "sid") ≡ value (codes "42")
unfolding get_cookie cookie_loop find_first_of find_first_not_of find streq_l
one_cookie = refl

-- The value takes in the semicolon behind it, and the second key the equals sign.
first_of_two : get_cookie (codes "sid=42; lang=en") (codes "sid") ≡ value (codes "42; la")
unfolding get_cookie cookie_loop find_first_of find_first_not_of find streq_l
first_of_two = refl

second_of_two : get_cookie (codes "a=1; b=2") (codes "b") ≡ absent
unfolding get_cookie cookie_loop find_first_of find_first_not_of find streq_l
second_of_two = refl

-- A semicolon at the end leaves an empty rest, whose first key is looked for at npos.
nothing_behind : get_cookie (codes "a=1;") (codes "b") ≡ out_of_range
unfolding get_cookie cookie_loop find_first_of find_first_not_of find streq_l
nothing_behind = refl
