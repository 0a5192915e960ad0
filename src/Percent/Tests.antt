-- ===== src/Percent/Tests.antt =====
-- Texts on which the theorems about percent-encoding apply.
use harmony_http.Prelude.{ℕ, ◌≡◌, refl, arith, Bool, leb, codes}
use harmony_http.Percent.{percent_decode}
use harmony_http.Percent.Laws.{encode, AllBytes, percent_decode-encode}

-- Letters stay, all else is escaped.
abbrev letters : ℕ → Bool
letters c = leb b'a' c

text-AllBytes : AllBytes (codes "a+b%")
text-AllBytes = (omega arith, (omega arith, (omega arith, (omega arith, tt))))

percent_decode-encode_example : percent_decode (encode letters (codes "a+b%")) ≡ codes "a+b%"
percent_decode-encode_example = percent_decode-encode letters (codes "a+b%") refl refl text-AllBytes
