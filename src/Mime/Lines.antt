-- ===== src/Mime/Lines.antt =====
-- src/util.cc: how `read_mime_types` takes a file apart.
use harmony_http.Prelude.{
  ℕ, zero, suc, ◌≤◌, ◌<◌, ◌≡◌, ◌≢◌, refl, sym, ap, ◌∙◌, arith, List, [], ◌∷◌, ◌++◌, length,
  length-append, Bytes, bytes_eq, codes, true, false, Option, none, some, ◌==◌, if◌then◌else◌,
}
use harmony_http.Mime.{
  lookup, assign, is_delim, word, skip_delims, Maps, add_pair, on_ext, add_exts, add_typed,
  add_line, and_then, add_lines, cons_line, lines, with_ico, read_mime_types,
}
use harmony_http.Mime.First.{
  IsPlain, IsWord, AllDelims, IsGap, Entry, blank, comment, typed, exts_text, line_text, file_text,
  NoNewline, AllExts, IsEntry, AllEntries, pairs_with, entry_pairs, pairs, add_all, add_all-append,
  add_all-lookup, lookup-assign, type_of, ext_of, or_else,
}

-- A text that is empty or begins with a delimiter.
abbrev Stops : Bytes → Type 0
Stops [] = Unit {0}
Stops (c ∷ s) = is_delim c ≡ true

Stops-exts_text : (es : List (Bytes × Bytes)) → AllExts es → Stops (exts_text es)
Stops-exts_text [] h = tt
Stops-exts_text (([], ext) ∷ es) h = absurd h.0
Stops-exts_text ((c ∷ gap, ext) ∷ es) h = h.0.0

word-stop : (t : Bytes) → Stops t → word t ≡ ([], t)
unfolding word
word-stop [] h = refl
word-stop (c ∷ s) h = rw h refl

word-append : (w t : Bytes) → IsPlain w → Stops t → word (w ++ t) ≡ (w, t)
unfolding word
word-append [] t p h = word-stop t h
word-append (c ∷ w) t (d, n, p) h = rw (d, word-append w t p h) refl

skip-word : (w t : Bytes) → IsWord w → skip_delims (w ++ t) ≡ w ++ t
unfolding skip_delims
skip-word [] t h = absurd h
skip-word (c ∷ w) t h = rw h.0 refl

skip-append : (g t : Bytes) → AllDelims g → skip_delims (g ++ t) ≡ skip_delims t
unfolding skip_delims
skip-append [] t h = refl
skip-append (c ∷ g) t (d, h) = rw d (skip-append g t h)

skip-gap : (g t : Bytes) → IsGap g → skip_delims (g ++ t) ≡ skip_delims t
skip-gap [] t h = absurd h
skip-gap (c ∷ g) t h = skip-append (c ∷ g) t h

on_ext-word :
    (f : Bytes × Bytes → Option Maps) (w t : Bytes) (maps : Maps)
    → IsWord w
    → Stops t
    → on_ext f (w ++ t) maps ≡ f (w, t)
unfolding on_ext
on_ext-word f [] t maps h s = absurd h
on_ext-word f (c ∷ w) t maps h s = ap f (word-append (c ∷ w) t h s)

skip-nil : skip_delims [] ≡ []
unfolding skip_delims
skip-nil = refl

on_ext-nil :
    (f : Bytes × Bytes → Option Maps) (t : Bytes) (maps : Maps)
    → t ≡ []
    → on_ext f t maps ≡ some maps
unfolding on_ext
on_ext-nil f t maps e = rw e refl

add_exts-pairs :
    (fuel : ℕ) (type : Bytes) (es : List (Bytes × Bytes)) (maps : Maps)
    → AllExts es
    → length es < fuel
    → add_exts fuel type (exts_text es) maps ≡ some (add_all (pairs_with type es) maps)
unfolding add_exts
add_exts-pairs zero type es maps h enough = absurd (omega arith)
add_exts-pairs (suc fuel) type [] maps h enough =
    on_ext-nil (λ we. add_exts fuel type we.1 (add_pair type we.0 maps)) (skip_delims []) maps
      skip-nil
add_exts-pairs (suc fuel) type ((gap, ext) ∷ es) maps (g, w, h) enough =
    ap (λ t. on_ext (λ we. add_exts fuel type we.1 (add_pair type we.0 maps)) t maps)
      (skip-gap gap (ext ++ exts_text es) g ∙ skip-word ext (exts_text es) w)
    ∙ on_ext-word (λ we. add_exts fuel type we.1 (add_pair type we.0 maps)) ext (exts_text es) maps
        w (Stops-exts_text es h)
    ∙ add_exts-pairs fuel type es (add_pair type ext maps) h (omega arith)

length-exts_text : (es : List (Bytes × Bytes)) → AllExts es → length es ≤ length (exts_text es)
length-exts_text [] h = omega arith
length-exts_text (([], ext) ∷ es) h = absurd h.0
length-exts_text ((c ∷ gap, ext) ∷ es) (g, w, h) = omega (
  arith,
  length-exts_text es h,
  length-append gap (ext ++ exts_text es),
  length-append ext (exts_text es),
)

add_typed-pairs :
    (type : Bytes) (es : List (Bytes × Bytes)) (maps : Maps)
    → IsWord type
    → AllExts es
    → add_typed (type, exts_text es) maps ≡ some (add_all (pairs_with type es) maps)
unfolding add_typed
add_typed-pairs [] es maps w h = absurd w
add_typed-pairs (c ∷ type) es maps w h =
    add_exts-pairs (suc (length (exts_text es))) (c ∷ type) es maps h
      (omega (arith, length-exts_text es h))

add_line-Entry :
    (e : Entry) (maps : Maps)
    → IsEntry e
    → add_line (line_text e) maps ≡ some (add_all (entry_pairs e) maps)
unfolding add_line
add_line-Entry blank maps h = refl
add_line-Entry (comment s) maps h = refl
add_line-Entry (typed [] es) maps h = absurd h.0
add_line-Entry (typed (c ∷ type) es) maps (w, n, h) =
    let no : (c == b'#') ≡ false = ground arith in
    rw (no, word-append (c ∷ type) (exts_text es) w (Stops-exts_text es h))
      (add_typed-pairs (c ∷ type) es maps w h)

-- The text of a line holds no newline.
delim-ne : (c : ℕ) → is_delim c ≡ true → c ≢ b'\n'
unfolding is_delim
delim-ne c h = ground arith

NoNewline-append : (x y : Bytes) → NoNewline x → NoNewline y → NoNewline (x ++ y)
NoNewline-append [] y p q = q
NoNewline-append (c ∷ x) y (p, ps) q = (p, NoNewline-append x y ps q)

NoNewline-gap : (g : Bytes) → AllDelims g → NoNewline g
NoNewline-gap [] h = tt
NoNewline-gap (c ∷ g) (d, h) = (delim-ne c d, NoNewline-gap g h)

NoNewline-plain : (w : Bytes) → IsPlain w → NoNewline w
NoNewline-plain [] h = tt
NoNewline-plain (c ∷ w) (d, n, h) = (n, NoNewline-plain w h)

NoNewline-word : (w : Bytes) → IsWord w → NoNewline w
NoNewline-word [] h = absurd h
NoNewline-word (c ∷ w) h = NoNewline-plain (c ∷ w) h

NoNewline-exts : (es : List (Bytes × Bytes)) → AllExts es → NoNewline (exts_text es)
NoNewline-exts [] h = tt
NoNewline-exts (([], ext) ∷ es) h = absurd h.0
NoNewline-exts ((c ∷ gap, ext) ∷ es) (g, w, h) =
    NoNewline-append (c ∷ gap) (ext ++ exts_text es) (NoNewline-gap (c ∷ gap) g)
      (NoNewline-append ext (exts_text es) (NoNewline-word ext w) (NoNewline-exts es h))

NoNewline-Entry : (e : Entry) → IsEntry e → NoNewline (line_text e)
NoNewline-Entry blank h = tt
NoNewline-Entry (comment s) h = (ground arith, h)
NoNewline-Entry (typed type es) (w, n, h) =
    NoNewline-append type (exts_text es) (NoNewline-word type w) (NoNewline-exts es h)

lines-append : (l rest : Bytes) → NoNewline l → lines (l ++ b'\n' ∷ rest) ≡ l ∷ lines rest
unfolding lines cons_line
lines-append [] rest h = refl
lines-append (c ∷ l) rest (n, h) =
    let no : (c == b'\n') ≡ false = ground arith in rw (no, lines-append l rest h) refl

lines-nil : lines [] ≡ []
unfolding lines
lines-nil = refl

add_lines-pairs :
    (es : List Entry) (maps : Maps)
    → AllEntries es
    → add_lines (lines (file_text es)) maps ≡ some (add_all (pairs es) maps)
unfolding add_lines
add_lines-pairs [] maps h = ap (λ ls. add_lines ls maps) lines-nil
add_lines-pairs (e ∷ es) maps (p, h) =
    ap (λ ls. add_lines ls maps) (lines-append (line_text e) (file_text es) (NoNewline-Entry e p))
    ∙ ap (λ o. and_then o (add_lines (lines (file_text es)))) (add_line-Entry e maps p)
    ∙ add_lines-pairs es (add_all (entry_pairs e) maps) h
    ∙ ap some (sym (add_all-append (entry_pairs e) (pairs es) maps))

lookup-nil : (key : Bytes) → lookup key [] ≡ none
unfolding lookup
lookup-nil key = refl

-- For a file of lines that are empty, comments, or a type with its extensions (words without spaces, tabs
-- and newlines, the type not beginning with '#', a gap of spaces or tabs before each extension), each
-- ended by a newline: `read_mime_types` ends with two maps; the first gives for an extension the type
-- of the first line that lists it, the second for a type the first extension of the first line with
-- one, but "ico" and "image/x-icon" always belong together.
pub read_mime_types-lookup :
    (es : List Entry)
    → AllEntries es
    → (maps : Maps) × (read_mime_types (some (file_text es)) ≡ some maps)
      × ((key : Bytes)
          → lookup key maps.0 ≡ (
              if bytes_eq (codes "ico") key
              then some (codes "image/x-icon")
              else type_of key (pairs es)))
      × ((key : Bytes)
          → lookup key maps.1 ≡ (
              if bytes_eq (codes "image/x-icon") key
              then some (codes "ico")
              else ext_of key (pairs es)))
unfolding read_mime_types
read_mime_types-lookup es h =
    let made = add_all (pairs es) ([], []) in
    (
      (
        assign (codes "ico") (codes "image/x-icon") made.0,
        assign (codes "image/x-icon") (codes "ico") made.1,
      ),
      ap (λ o. and_then o with_ico) (add_lines-pairs es ([], []) h),
      λ key.
          lookup-assign key (codes "ico") (codes "image/x-icon") made.0
          ∙ ap (λ o. if bytes_eq (codes "ico") key then some (codes "image/x-icon") else o)
              ((add_all-lookup key (pairs es) ([], [])).0
                ∙ ap (λ o. or_else o (type_of key (pairs es))) (lookup-nil key)),
      λ key.
          lookup-assign key (codes "image/x-icon") (codes "ico") made.1
          ∙ ap (λ o. if bytes_eq (codes "image/x-icon") key then some (codes "ico") else o)
              ((add_all-lookup key (pairs es) ([], [])).1
                ∙ ap (λ o. or_else o (ext_of key (pairs es))) (lookup-nil key)),
    )
