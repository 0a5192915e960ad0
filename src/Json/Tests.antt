-- ===== src/Json/Tests.antt =====
-- Texts on which the theorems about the JSON writer apply.
use harmony_http.Prelude.{some, ◌≡◌, refl, [], ◌∷◌, ◌++◌, codes}
use harmony_http.Json
use harmony_http.Json.{
  append_quoted_string, string, Json, scalar, holds, array, object, no_more, next, no_member,
  member, text, number, put_json,
}
use harmony_http.Json.Quote.{escape, quoted, read_string, append_quoted_string_lem}
use harmony_http.Json.Print.{json_text, string-put_json}

append_quoted_string_lem_example :
    (append_quoted_string (34 ∷ 1 ∷ 97 ∷ []) (codes "[") ≡ codes "[" ++ quoted (34 ∷ 1 ∷ 97 ∷ []))
    × (read_string (quoted (34 ∷ 1 ∷ 97 ∷ []) ++ codes "]") ≡ some (34 ∷ 1 ∷ 97 ∷ [], codes "]"))
append_quoted_string_lem_example =
    append_quoted_string_lem (34 ∷ 1 ∷ 97 ∷ []) (codes "[") (codes "]")

abbrev sample : Json
sample = holds (
    object (
      member (codes "n") (scalar (number (codes "1"))) (
        member (codes "a") (holds (array (next (object no_member) (next (array no_more) no_more))))
          (member (codes "s") (scalar (text (codes "x"))) no_member))))

sample_text : json_text sample ≡ codes "{\"n\":1,\"a\":[{},[]],\"s\":\"x\"}"
unfolding json_text escape Json.escape_char
sample_text = refl

string-put_json_example : string (put_json sample []) ≡ json_text sample
string-put_json_example = string-put_json sample
