-- ===== src/Router/Paths.antt =====
-- Paths put together from levels, and how the router takes them apart again.
use harmony_http.Prelude.{
  ◌≡◌, ◌≢◌, refl, arith, List, [], ◌∷◌, ◌++◌, Bytes, true, false, codes, bytes_eq,
}
use harmony_http.Router.Level.{break_at, split_path, starts_slash}

abbrev pub NoSlash : Bytes → Type 0
NoSlash [] = Unit {0}
NoSlash (c ∷ s) = (c ≢ b'/') × NoSlash s

-- A level that can stand in a path: not empty, and without a slash.
abbrev pub IsLevel : Bytes → Type 0
IsLevel [] = ⊥
IsLevel (c ∷ s) = NoSlash (c ∷ s)

abbrev pub AllLevels : List Bytes → Type 0
AllLevels [] = Unit {0}
AllLevels (l ∷ ls) = IsLevel l × AllLevels ls

abbrev pub join : List Bytes → Bytes
join [] = []
join (l ∷ ls) = b'/' ∷ (l ++ join ls)

-- The path of some levels; no level is the path "/".
abbrev pub path_of : List Bytes → Bytes
path_of [] = codes "/"
path_of (l ∷ ls) = join (l ∷ ls)

pub NoSlash-IsLevel : (l : Bytes) → IsLevel l → NoSlash l
NoSlash-IsLevel [] h = absurd h
NoSlash-IsLevel (c ∷ s) h = h

break_at-join :
    (l : Bytes) (ls : List Bytes) → NoSlash l → break_at b'/' (l ++ join ls) ≡ (l, join ls)
unfolding break_at
break_at-join [] [] h = refl
break_at-join [] (k ∷ ls) h = refl
break_at-join (c ∷ s) ls (p, h) = ground (arith, break_at-join s ls h)

-- The first level of a path, and the path of the others.
pub split_path-join :
    (l : Bytes) (ls : List Bytes) → NoSlash l → split_path (join (l ∷ ls)) ≡ (l, path_of ls)
unfolding split_path
split_path-join l [] h = rw (break_at-join l [] h)
split_path-join l (k ∷ ls) h = rw (break_at-join l (k ∷ ls) h)

pub split_path-root : split_path (codes "/") ≡ ([], codes "/")
unfolding split_path
split_path-root = refl

pub starts_slash-path_of : (ls : List Bytes) → starts_slash (path_of ls) ≡ true
unfolding starts_slash
starts_slash-path_of [] = refl
starts_slash-path_of (l ∷ ls) = refl

-- A path with a level is not the path "/".
pub path_of-ne_root :
    (l : Bytes) (ls : List Bytes) → IsLevel l → bytes_eq (path_of (l ∷ ls)) (codes "/") ≡ false
unfolding bytes_eq
path_of-ne_root [] ls h = absurd h
path_of-ne_root (c ∷ s) ls h = refl
