-- ===== src/Mime/First.antt =====
-- src/util.cc: the dictionaries that `read_mime_types` makes of a file of types.
use mathlib.Core.Bool.{false≢true}
use harmony_http.Prelude.{
  ◌≡◌, ◌≢◌, refl, sym, ap, ◌∙◌, List, [], ◌∷◌, ◌++◌, Bytes, bytes_eq, bytes_eq_refl, bytes_eq_sound,
  true, false, Bool-cases, inl, inr, Option, none, some, if◌then◌else◌,
}
use harmony_http.Mime.{StringMap, lookup, emplace, assign, is_delim, Maps, add_pair}

abbrev pub or_else : Option Bytes → Option Bytes → Option Bytes
or_else none o = o
or_else (some v) o = some v

abbrev pub only : Bytes → Bytes → Bytes → Option Bytes
only k v key = if bytes_eq k key then some v else none

or_else-none : (o : Option Bytes) → or_else o none ≡ o
or_else-none none = refl
or_else-none (some v) = refl

differs : (x y z : Bytes) → bytes_eq x y ≡ false → bytes_eq x z ≡ true → bytes_eq y z ≡ false
differs x y z h e = elim (Bool-cases (bytes_eq y z)) [
  | inl same ↦
      let p : x ≡ y = bytes_eq_sound x z e ∙ sym (bytes_eq_sound y z same) in
      absurd (false≢true (sym h ∙ rw p (bytes_eq_refl y)))
  | inr other ↦ other
]

lookup-emplace :
    (key k v : Bytes) (m : StringMap)
    → lookup key (emplace k v m) ≡ or_else (lookup key m) (only k v key)
unfolding lookup emplace
lookup-emplace key k v [] = refl
lookup-emplace key k v ((k', w) ∷ m) = elim (Bool-cases (bytes_eq k' k)) [
  | inl same ↦
      let e : k' ≡ k = bytes_eq_sound k' k same in
      elim (Bool-cases (bytes_eq k' key)) [
        | inl hit ↦ rw (same, hit) refl
        | inr miss ↦
            let miss' : bytes_eq k key ≡ false = rw (← e) miss in
            rw (same, miss, miss') (sym (or_else-none (lookup key m)))
      ]
  | inr other ↦ elim (Bool-cases (bytes_eq k' key)) [
    | inl hit ↦ rw (other, hit) refl
    | inr miss ↦ rw (other, miss) (lookup-emplace key k v m)
  ]
]

pub lookup-assign :
    (key k v : Bytes) (m : StringMap)
    → lookup key (assign k v m) ≡ (if bytes_eq k key then some v else lookup key m)
unfolding lookup assign
lookup-assign key k v [] = refl
lookup-assign key k v ((k', w) ∷ m) = elim (Bool-cases (bytes_eq k' k)) [
  | inl same ↦
      let e : k' ≡ k = bytes_eq_sound k' k same in
      elim (Bool-cases (bytes_eq k key)) [
        | inl hit ↦ let hit' : bytes_eq k' key ≡ true = rw e hit in rw (same, hit, hit') refl
        | inr miss ↦ let miss' : bytes_eq k' key ≡ false = rw e miss in rw (same, miss, miss') refl
      ]
  | inr other ↦ elim (Bool-cases (bytes_eq k' key)) [
    | inl hit ↦
        let no : bytes_eq k key ≡ false = differs k' k key other hit in rw (other, hit, no) refl
    | inr miss ↦ rw (other, miss) (lookup-assign key k v m)
  ]
]

-- A word of a file: not empty, without delimiters and newlines.
abbrev pub IsPlain : Bytes → Type 0
IsPlain [] = Unit {0}
IsPlain (c ∷ s) = (is_delim c ≡ false) × (c ≢ b'\n') × IsPlain s

abbrev pub IsWord : Bytes → Type 0
IsWord [] = ⊥
IsWord (c ∷ s) = IsPlain (c ∷ s)

-- What stands between words: spaces and tabs, one at least.
abbrev pub AllDelims : Bytes → Type 0
AllDelims [] = Unit {0}
AllDelims (c ∷ s) = (is_delim c ≡ true) × AllDelims s

abbrev pub IsGap : Bytes → Type 0
IsGap [] = ⊥
IsGap (c ∷ s) = AllDelims (c ∷ s)

-- A line: empty, a comment, or a type with its extensions, each behind a gap.
pub data Entry : Type 0 where
  blank : Entry
  comment : Bytes → Entry
  typed : Bytes → List (Bytes × Bytes) → Entry

abbrev pub exts_text : List (Bytes × Bytes) → Bytes
exts_text [] = []
exts_text ((gap, ext) ∷ es) = gap ++ (ext ++ exts_text es)

abbrev pub line_text : Entry → Bytes
line_text blank = []
line_text (comment s) = b'#' ∷ s
line_text (typed type es) = type ++ exts_text es

abbrev pub file_text : List Entry → Bytes
file_text [] = []
file_text (e ∷ es) = line_text e ++ b'\n' ∷ file_text es

abbrev pub NoNewline : Bytes → Type 0
NoNewline [] = Unit {0}
NoNewline (c ∷ s) = (c ≢ b'\n') × NoNewline s

abbrev pub NotHash : Bytes → Type 0
NotHash [] = Unit {0}
NotHash (c ∷ s) = c ≢ b'#'

abbrev pub AllExts : List (Bytes × Bytes) → Type 0
AllExts [] = Unit {0}
AllExts ((gap, ext) ∷ es) = IsGap gap × IsWord ext × AllExts es

abbrev pub IsEntry : Entry → Type 0
IsEntry blank = Unit {0}
IsEntry (comment s) = NoNewline s
IsEntry (typed type es) = IsWord type × NotHash type × AllExts es

abbrev pub AllEntries : List Entry → Type 0
AllEntries [] = Unit {0}
AllEntries (e ∷ es) = IsEntry e × AllEntries es

-- The extensions and types of a file, in its order.
abbrev pub pairs_with : Bytes → List (Bytes × Bytes) → List (Bytes × Bytes)
pairs_with type [] = []
pairs_with type ((gap, ext) ∷ es) = (ext, type) ∷ pairs_with type es

abbrev pub entry_pairs : Entry → List (Bytes × Bytes)
entry_pairs blank = []
entry_pairs (comment s) = []
entry_pairs (typed type es) = pairs_with type es

abbrev pub pairs : List Entry → List (Bytes × Bytes)
pairs [] = []
pairs (e ∷ es) = entry_pairs e ++ pairs es

-- Adding pairs in order, and the first type of an extension and the first extension of a type.
abbrev pub add_all : List (Bytes × Bytes) → Maps → Maps
add_all [] maps = maps
add_all ((ext, type) ∷ ps) maps = add_all ps (add_pair type ext maps)

abbrev pub type_of : Bytes → List (Bytes × Bytes) → Option Bytes
type_of key [] = none
type_of key ((ext, type) ∷ ps) = or_else (only ext type key) (type_of key ps)

abbrev pub ext_of : Bytes → List (Bytes × Bytes) → Option Bytes
ext_of key [] = none
ext_of key ((ext, type) ∷ ps) = or_else (only type ext key) (ext_of key ps)

or_else_assoc : (a b c : Option Bytes) → or_else (or_else a b) c ≡ or_else a (or_else b c)
or_else_assoc none b c = refl
or_else_assoc (some v) b c = refl

pub add_all-lookup :
    (key : Bytes) (ps : List (Bytes × Bytes)) (maps : Maps)
    → (lookup key (add_all ps maps).0 ≡ or_else (lookup key maps.0) (type_of key ps))
      × (lookup key (add_all ps maps).1 ≡ or_else (lookup key maps.1) (ext_of key ps))
add_all-lookup key [] maps = (sym (or_else-none _), sym (or_else-none _))
add_all-lookup key ((ext, type) ∷ ps) maps =
    let (p, q) = add_all-lookup key ps (add_pair type ext maps) in
    (
      p
          ∙ ap (λ o. or_else o (type_of key ps)) (lookup-emplace key ext type maps.0)
          ∙ or_else_assoc (lookup key maps.0) (only ext type key) (type_of key ps),
      q
          ∙ ap (λ o. or_else o (ext_of key ps)) (lookup-emplace key type ext maps.1)
          ∙ or_else_assoc (lookup key maps.1) (only type ext key) (ext_of key ps),
    )

pub add_all-append :
    (ps qs : List (Bytes × Bytes)) (maps : Maps)
    → add_all (ps ++ qs) maps ≡ add_all qs (add_all ps maps)
add_all-append [] qs maps = refl
add_all-append ((ext, type) ∷ ps) qs maps = add_all-append ps qs (add_pair type ext maps)
