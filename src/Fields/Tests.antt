-- ===== src/Fields/Tests.antt =====
-- A request with a pseudo header and two fields of one name.
use harmony_http.Prelude.{◌≡◌, refl, false, List, [], ◌∷◌, codes}
use harmony_http.Header.{streq_l}
use harmony_http.Fields.{RcbufPair, empty, get_header}
use harmony_http.Fields.Lookup.{First, others, add_headers, get_header-add_headers}

abbrev fields : List RcbufPair
fields =
    (record { address = 1; base = codes ":path" }, record { address = 2; base = codes "/a" })
    ∷ (record { address = 3; base = codes "Range" }, record { address = 4; base = codes "x" })
    ∷ (record { address = 5; base = codes "range" }, record { address = 6; base = codes "y" })
    ∷ []

not_expect : streq_l (codes "RANGE") (codes "expect") ≡ false
unfolding streq_l
not_expect = refl

not_ims : streq_l (codes "RANGE") (codes "if-modified-since") ≡ false
unfolding streq_l
not_ims = refl

get_header-add_headers_example :
    First (codes "RANGE") (others fields) (get_header (codes "RANGE") (add_headers fields empty))
get_header-add_headers_example = get_header-add_headers (codes "RANGE") fields not_expect not_ims
