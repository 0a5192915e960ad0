-- ===== src/Fields/Lookup.antt =====
-- src/stream.cc: `get_header` after `add_header` was called for every field.
use harmony_http.Prelude.{
  ◌<◌, ◌≡◌, ◌⊎◌, inl, inr, refl, sym, ap, ◌∙◌, arith, List, [], ◌∷◌, ◌++◌, append_assoc, append-nil,
  Bytes, Bool, true, false, Bool-cases, Option, some, none, Option-cases, ltb, ◌==◌, if◌then◌else◌,
  length, length-append, codes,
}
use harmony_http.Header.{
  HttpHeader, lookup_header, streq_l, pseudo_method, pseudo_scheme, pseudo_authority, pseudo_host,
  pseudo_path, expect, if_modified_since,
}
use harmony_http.Header.Case.{SameCase, streq_l_iff}
use harmony_http.Fields.{
  Rcbuf, RcbufPair, Headers, empty, add_other, add_case, add_header, find_pair, get_header,
  max_nva_len,
}

-- The headers with a member of their own.
abbrev pub has_member : HttpHeader → Bool
has_member pseudo_method = true
has_member pseudo_scheme = true
has_member pseudo_authority = true
has_member pseudo_host = true
has_member pseudo_path = true
has_member expect = true
has_member if_modified_since = true
has_member _ = false

unfoldable pub others : List RcbufPair → List RcbufPair
others [] = []
others ((name, value) ∷ ps) =
    let rest = others ps in
    if has_member (lookup_header name.base) then rest else (name, value) ∷ rest

unfoldable pub add_headers : List RcbufPair → Headers → Headers
add_headers [] h = h
add_headers ((name, value) ∷ ps) h = add_headers ps (add_header name value h)

-- The array is filled before the vector is used.
abbrev Stored : List RcbufPair → List RcbufPair → List RcbufPair → Type 0
Stored nva additional ps =
    (nva ++ additional ≡ ps) × (((length nva < 10) × (additional ≡ [])) ⊎ (length nva ≡ 10))

add_other-Stored :
    (name value : Rcbuf) (h : Headers) (ps : List RcbufPair)
    → Stored h.nva h.additional ps
    → let h' = add_other name value h in Stored h'.nva h'.additional (ps ++ (name, value) ∷ [])
unfolding add_other
add_other-Stored name value h ps (e, inl (few, none_more)) =
    let room : ltb (length h.nva) 10 ≡ true = ground arith in
    let same : h.nva ≡ ps = sym (append-nil h.nva) ∙ ap (λ l. h.nva ++ l) (sym none_more) ∙ e in
    let size = length-append {0} h.nva ((name, value) ∷ []) in
    rw room (
      ap (λ l. (h.nva ++ (name, value) ∷ []) ++ l) none_more
          ∙ append-nil (h.nva ++ (name, value) ∷ [])
          ∙ ap (λ l. l ++ (name, value) ∷ []) same,
      elim (Bool-cases (length h.nva == 9)) [
        | inl nine ↦ inr (ground arith)
        | inr less ↦ inl (ground arith, none_more)
      ],
    )
add_other-Stored name value h ps (e, inr full) =
    let no_room : ltb (length h.nva) 10 ≡ false = ground arith in
    rw no_room (
      sym (append_assoc h.nva h.additional ((name, value) ∷ []))
          ∙ ap (λ l. l ++ (name, value) ∷ []) e,
      inr full,
    )

-- The pairs stored after a field of the given kind.
abbrev kept : HttpHeader → RcbufPair → List RcbufPair → List RcbufPair
kept kind p ps = if has_member kind then ps else ps ++ p ∷ []

add_case-Stored :
    (kind : HttpHeader) (name value : Rcbuf) (h : Headers) (ps : List RcbufPair)
    → Stored h.nva h.additional ps
    → let h' = add_case kind name value h in
      Stored h'.nva h'.additional (kept kind (name, value) ps)
unfolding add_case
add_case-Stored pseudo_method name value h ps s = s
add_case-Stored pseudo_scheme name value h ps s = s
add_case-Stored pseudo_authority name value h ps s = s
add_case-Stored pseudo_host name value h ps s = s
add_case-Stored pseudo_path name value h ps s = s
add_case-Stored expect name value h ps s = s
add_case-Stored if_modified_since name value h ps s = s
add_case-Stored _ name value h ps s = add_other-Stored name value h ps s

-- The first answer of two searches.
abbrev or_else : Option Bytes → Option Bytes → Option Bytes
or_else none y = y
or_else (some v) y = some v

find_pair-append :
    (q : Bytes) (xs ys : List RcbufPair)
    → find_pair q (xs ++ ys) ≡ or_else (find_pair q xs) (find_pair q ys)
unfolding find_pair
find_pair-append q [] ys = refl
find_pair-append q ((name, value) ∷ xs) ys = elim (Bool-cases (streq_l q name.base)) [
  | inl h ↦ rw h refl
  | inr h ↦ rw h (find_pair-append q xs ys)
]

get_header-Stored :
    (q : Bytes) (h : Headers) (ps : List RcbufPair)
    → streq_l q (codes "expect") ≡ false
    → streq_l q (codes "if-modified-since") ≡ false
    → Stored h.nva h.additional ps
    → get_header q h ≡ find_pair q ps
unfolding get_header
get_header-Stored q h ps a b (e, inl (few, none_more)) =
    let less : (length h.nva == max_nva_len) ≡ false = ground arith in
    let same : h.nva ≡ ps = sym (append-nil h.nva) ∙ ap (λ l. h.nva ++ l) (sym none_more) ∙ e in
    rw (a, b, sym same)
      (elim (Option-cases (find_pair q h.nva)) [
        | inl missing ↦ rw (missing, less) refl
        | inr (v, there) ↦ rw there refl
      ])
get_header-Stored q h ps a b (e, inr full) =
    let ten : (length h.nva == max_nva_len) ≡ true = ground arith in
    rw (a, b, sym e, find_pair-append q h.nva h.additional)
      (elim (Option-cases (find_pair q h.nva)) [
        | inl missing ↦ rw (missing, ten) refl
        | inr (v, there) ↦ rw there refl
      ])

add_headers-Stored :
    (fs ps : List RcbufPair) (h : Headers)
    → Stored h.nva h.additional ps
    → let h' = add_headers fs h in Stored h'.nva h'.additional (ps ++ others fs)
unfolding add_headers add_header others
add_headers-Stored [] ps h s = rw (append-nil ps) s
add_headers-Stored ((name, value) ∷ fs) ps h s =
    let kind = lookup_header name.base in
    let now = add_case-Stored kind name value h ps s in
    let rest =
      add_headers-Stored fs (kept kind (name, value) ps) (add_case kind name value h) now in
    elim (Bool-cases (has_member kind)) [
      | inl own ↦ rw own (rw own at rest)
      | inr plain ↦
          rw (plain, sym (append_assoc ps ((name, value) ∷ []) (others fs))) (rw plain at rest)
    ]

-- The value of the first field of a name, ignoring case, or none where no field has the name.
pub data First (q : Bytes) : List RcbufPair → Option Bytes → Type 0 where
  nowhere : First q [] none
  here :
      {name value : Rcbuf} {ps : List RcbufPair}
      → SameCase q name.base
      → First q ((name, value) ∷ ps) (some value.base)
  later :
      {name value : Rcbuf} {ps : List RcbufPair} {v : Option Bytes}
      → ¬ SameCase q name.base
      → First q ps v
      → First q ((name, value) ∷ ps) v

find_pair-First : (q : Bytes) (ps : List RcbufPair) → First q ps (find_pair q ps)
unfolding find_pair
find_pair-First q [] = nowhere
find_pair-First q ((name, value) ∷ ps) = elim (Bool-cases (streq_l q name.base)) [
  | inl h ↦ rw h (here ((streq_l_iff q name.base).0 h))
  | inr h ↦
      rw h
        (later (λ same. let found = (streq_l_iff q name.base).1 same in cc) (find_pair-First q ps))
]

-- After any number of fields was added to empty headers, the lookup of a name other than
-- "expect" and "if-modified-since" gives the value of the first field among those without a
-- member of their own whose name has the same bytes but for the case of letters, or nothing where
-- there is none, whether it stands in the array or in the vector.
pub get_header-add_headers :
    (q : Bytes) (fs : List RcbufPair)
    → streq_l q (codes "expect") ≡ false
    → streq_l q (codes "if-modified-since") ≡ false
    → First q (others fs) (get_header q (add_headers fs empty))
get_header-add_headers q fs a b =
    let same =
      get_header-Stored q (add_headers fs empty) (others fs) a b
        (add_headers-Stored fs [] empty (refl, inl (omega arith, refl))) in
    rw same (find_pair-First q (others fs))
