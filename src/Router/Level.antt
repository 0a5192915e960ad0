-- ===== src/Router/Level.antt =====
-- src/httprouter.cc: one level of a route or of a request path, and what it matches.
use harmony_http.Prelude.{
  ℕ, ◌+◌, ◌-◌, [], ◌∷◌, Bool, true, false, ◌&&◌, ◌||◌, not, leb, ◌==◌, if◌then◌else◌, length, take,
  drop, Bytes, codes, bytes_eq,
}

-- RouteNodeData::Type
pub data Kind : Type 0 where
  root constant param_int param_float param_string : Kind

-- RouteNodeData
pub record NodeData : Type 0 where
  pub kind : Kind
  pub label : Bytes

abbrev pub same_kind : Kind → Kind → Bool
same_kind root root = true
same_kind constant constant = true
same_kind param_int param_int = true
same_kind param_float param_float = true
same_kind param_string param_string = true
same_kind _ _ = false

-- operator==(const RouteNodeData &, const RouteNodeData &)
unfoldable pub data_eq : NodeData → NodeData → Bool
data_eq a b = same_kind a.kind b.kind && (same_kind a.kind root || bytes_eq a.label b.label)

-- The bytes before the first `sep`, and the rest from it on (empty where there is none).
unfoldable pub break_at : ℕ → Bytes → Bytes × Bytes
break_at sep [] = ([], [])
break_at sep (c ∷ s) =
    let (before, rest) = break_at sep s in if c == sep then ([], c ∷ s) else (c ∷ before, rest)

-- `assert(path[0] == '/')`
unfoldable pub starts_slash : Bytes → Bool
starts_slash [] = false
starts_slash (c ∷ s) = c == b'/'

-- The level after the first byte, and `next_path`.
unfoldable pub split_path : Bytes → Bytes × Bytes
unfolding break_at
split_path path =
    let (level, rest) = break_at b'/' (drop 1 path) in
    (level, elim rest [ [] ↦ codes "/" | x ∷ xs ↦ x ∷ xs ])

abbrev pub back : Bytes → ℕ → ℕ
back [] d = d
back (c ∷ s) d = back s c

-- The node for a level of a route that is not empty.
unfoldable pub parse_level : Bytes → NodeData
parse_level level =
    let (before, rest) = break_at b':' level in
    let type_end = length level - 1 in
    let named = take (type_end - 1) (drop 1 level) in
    let type_text = take (type_end - length before - 1) (drop (length before + 1) level) in
    if bytes_eq (take 1 level) (codes "{") && (back level 0 == b'}')
    then elim rest [
      | [] ↦ record { kind = param_string; label = named }
      | x ∷ xs ↦ record {
        kind =
            if bytes_eq type_text (codes "int")
            then param_int
            else if bytes_eq type_text (codes "float")
            then param_float
            else param_string;
        label = take (length before - 1) (drop 1 level);
      }
    ]
    else record { kind = constant; label = level }

abbrev pub is_digit : ℕ → Bool
is_digit c = leb b'0' c && leb c b'9'

unfoldable pub all_digits : Bytes → Bool
all_digits [] = true
all_digits (c ∷ s) = is_digit c && all_digits s

-- Digits and at most one dot; `dotted` is whether one was met.
unfoldable pub float_ok : Bool → Bytes → Bool
float_ok dotted [] = true
float_ok dotted (c ∷ s) =
    (is_digit c || ((c == b'.') && not dotted)) && float_ok (dotted || (c == b'.')) s

-- The switch of `match` on the node's type: whether the level passes.
unfoldable pub fits : NodeData → Bytes → Bool
unfolding all_digits float_ok
fits d level = elim d.kind [
  | root ↦ true
  | constant ↦ bytes_eq d.label (codes "*") || bytes_eq d.label level
  | param_int ↦ all_digits level
  | param_float ↦ float_ok false level
  | param_string ↦ true
]

-- The types whose level is pushed onto the variables.
unfoldable pub captures : Kind → Bool
captures root = false
captures constant = false
captures _ = true
