-- ===== src/Mime.antt =====
-- src/util.cc: `read_mime_types`, the dictionaries of extensions and types. The file is given by its bytes, or
-- none where it cannot be opened; a map is a list of pairs with different keys.
pub mod First
pub mod Lines
mod Tests
use harmony_http.Prelude.{
  ℕ, zero, suc, List, [], ◌∷◌, ◌++◌, length, Bytes, bytes_eq, codes, Bool, true, false, ◌||◌,
  Option, none, some, ◌==◌, if◌then◌else◌,
}
use harmony_http.Router.Level.{break_at}

abbrev pub StringMap : Type 0
StringMap = List (Bytes × Bytes)

unfoldable pub lookup : Bytes → StringMap → Option Bytes
lookup key [] = none
lookup key ((k, v) ∷ m) = let rest = lookup key m in if bytes_eq k key then some v else rest

-- `emplace` keeps the value of a key that is there.
unfoldable pub emplace : Bytes → Bytes → StringMap → StringMap
emplace key v [] = (key, v) ∷ []
emplace key v ((k, w) ∷ m) =
    let rest = emplace key v m in if bytes_eq k key then (k, w) ∷ m else (k, w) ∷ rest

-- `map[key] = v`
unfoldable pub assign : Bytes → Bytes → StringMap → StringMap
assign key v [] = (key, v) ∷ []
assign key v ((k, w) ∷ m) =
    let rest = assign key v m in if bytes_eq k key then (k, v) ∷ m else (k, w) ∷ rest

unfoldable pub is_delim : ℕ → Bool
is_delim c = (c == b' ') || (c == b'\t')

-- The word up to the first delimiter, and the rest from it on.
unfoldable pub word : Bytes → Bytes × Bytes
unfolding is_delim
word [] = ([], [])
word (c ∷ s) = let (w, rest) = word s in if is_delim c then ([], c ∷ s) else (c ∷ w, rest)

-- From the first byte on that is no delimiter.
unfoldable pub skip_delims : Bytes → Bytes
unfolding is_delim
skip_delims [] = []
skip_delims (c ∷ s) = let rest = skip_delims s in if is_delim c then rest else c ∷ s

-- Both maps; the first from extensions to types, the second from types to extensions.
abbrev pub Maps : Type 0
Maps = StringMap × StringMap

abbrev pub add_pair : Bytes → Bytes → Maps → Maps
add_pair type ext (rt1, rt2) = (emplace ext type rt1, emplace type ext rt2)

-- The loop over the extensions of a line; none is out of fuel.
unfoldable pub on_ext : (Bytes × Bytes → Option Maps) → Bytes → Maps → Option Maps
unfolding word
on_ext f [] maps = some maps
on_ext f (c ∷ s) maps = f (word (c ∷ s))

unfoldable pub add_exts : ℕ → Bytes → Bytes → Maps → Option Maps
unfolding on_ext skip_delims emplace
add_exts zero type s maps = none
add_exts (suc fuel) type s maps =
    on_ext (λ we. add_exts fuel type we.1 (add_pair type we.0 maps)) (skip_delims s) maps

-- A line with its type and what is behind it.
unfoldable pub add_typed : Bytes × Bytes → Maps → Option Maps
unfolding add_exts
add_typed ([], rest) maps = some maps
add_typed (c ∷ w, rest) maps = add_exts (suc (length rest)) (c ∷ w) rest maps

unfoldable pub add_line : Bytes → Maps → Option Maps
unfolding add_typed word
add_line [] maps = some maps
add_line (c ∷ s) maps =
    let added = add_typed (word (c ∷ s)) maps in if c == b'#' then some maps else added

abbrev pub and_then : Option Maps → (Maps → Option Maps) → Option Maps
and_then none f = none
and_then (some maps) f = f maps

unfoldable pub add_lines : List Bytes → Maps → Option Maps
unfolding add_line
add_lines [] maps = some maps
add_lines (l ∷ ls) maps = and_then (add_line l maps) (add_lines ls)

-- The lines that `getline` gives: a newline at the end of the file begins no line of its own.
unfoldable pub cons_line : ℕ → List Bytes → List Bytes
cons_line c [] = (c ∷ []) ∷ []
cons_line c (l ∷ ls) = (c ∷ l) ∷ ls

unfoldable pub lines : Bytes → List Bytes
unfolding cons_line
lines [] = []
lines (c ∷ s) = let rest = lines s in if c == b'\n' then [] ∷ rest else cons_line c rest

abbrev pub with_ico : Maps → Option Maps
with_ico (rt1, rt2) = some (
  assign (codes "ico") (codes "image/x-icon") rt1,
  assign (codes "image/x-icon") (codes "ico") rt2,
)

unfoldable pub read_mime_types : Option Bytes → Option Maps
unfolding lines add_lines assign
read_mime_types none = with_ico ([], [])
read_mime_types (some content) = and_then (add_lines (lines content) ([], [])) with_ico
