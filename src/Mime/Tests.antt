-- ===== src/Mime/Tests.antt =====
-- A file of types with comments, tabs and an extension that two lines list.
use harmony_http.Prelude.{
  ◌≡◌, refl, arith, List, [], ◌∷◌, Bytes, bytes_eq, codes, some, if◌then◌else◌,
}
use harmony_http.Mime.{Maps, lookup, read_mime_types, is_delim}
use harmony_http.Mime.First.{
  Entry, blank, comment, typed, file_text, AllEntries, pairs, type_of, ext_of,
}
use harmony_http.Mime.Lines.{read_mime_types-lookup}

abbrev types : List Entry
types =
    comment (codes " types")
    ∷ blank
    ∷ typed (codes "text/html") ((b'\t' ∷ b'\t' ∷ [], codes "html") ∷ (codes " ", codes "htm") ∷ [])
    ∷ typed (codes "text/x") ((codes " ", codes "htm") ∷ [])
    ∷ []

types-AllEntries : AllEntries types
unfolding is_delim
types-AllEntries = ground arith

read_mime_types-lookup_example :
    (maps : Maps) × (read_mime_types (some (file_text types)) ≡ some maps)
    × ((key : Bytes)
        → lookup key maps.0 ≡ (
            if bytes_eq (codes "ico") key
            then some (codes "image/x-icon")
            else type_of key (pairs types)))
    × ((key : Bytes)
        → lookup key maps.1 ≡ (
            if bytes_eq (codes "image/x-icon") key
            then some (codes "ico")
            else ext_of key (pairs types)))
read_mime_types-lookup_example = read_mime_types-lookup types types-AllEntries

htm_type : type_of (codes "htm") (pairs types) ≡ some (codes "text/html")
unfolding bytes_eq
htm_type = refl
