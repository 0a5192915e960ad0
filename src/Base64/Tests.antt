-- ===== src/Base64/Tests.antt =====
-- A text of four bytes, two of them behind the last whole triple.
use harmony_http.Prelude.{◌≡◌, arith, codes}
use harmony_http.Percent.Laws.{AllBytes}
use harmony_http.Base64.{base64_encode, base64_decode, written}
use harmony_http.Base64.RoundTrip.{filled, base64_decode-base64_encode}

text-AllBytes : AllBytes (codes "four")
text-AllBytes = (omega arith, (omega arith, (omega arith, (omega arith, tt))))

base64_decode-base64_encode_example :
    base64_decode (base64_encode (codes "four")) ≡ written (filled (codes "four"))
base64_decode-base64_encode_example =
    base64_decode-base64_encode (codes "four") (omega arith) (omega arith) text-AllBytes
