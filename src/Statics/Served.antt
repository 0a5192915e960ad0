-- ===== src/Statics/Served.antt =====
-- src/server.cc and src/worker.cc: what is served after `serve_static_files`.
use mathlib.Core.Path.{subst}
use harmony_http.Prelude.{
  ◌≡◌, refl, ap, ◌∙◌, arith, inl, inr, List, [], ◌∷◌, ◌++◌, Bytes, Bool, Bool-cases, some, ◌==◌,
}
use harmony_http.Router.Level.{back}
use harmony_http.Files.{Disk, FileTable, FileEntry, answered, or_add, get_static_file}
use harmony_http.Statics.{
  Dir, cons_table, add_to_all, and_then, trim_back, add_slash, with_root, all_with_root, serve_root,
  serve_static_files,
}
use harmony_http.Statics.Listed.{under, files, add_paths, iterate_directory-files}
use harmony_http.Statics.Table.{
  Suits, pick-Suits, IsFile, Listed, Grown, Steps, add_static_file-Steps,
}

abbrev AllRooted : Bytes → List FileTable → Type 0
AllRooted root [] = Unit {0}
AllRooted root (w ∷ ws) = (w.static_root ≡ root) × AllRooted root ws

abbrev AllGrown : Disk → Bytes → List Bytes → List FileTable → List FileTable → Type 0
AllGrown disk root ps [] [] = Unit {0}
AllGrown disk root ps [] (w' ∷ ws') = ⊥
AllGrown disk root ps (w ∷ ws) [] = ⊥
AllGrown disk root ps (w ∷ ws) (w' ∷ ws') = Grown disk root ps w w' × AllGrown disk root ps ws ws'

add_to_all-AllGrown :
    (disk : Disk) (dir root p : Bytes) (ws : List FileTable)
    → root ≡ dir ++ b'/' ∷ []
    → AllRooted root ws
    → (ws' : List FileTable) × (add_to_all disk (root ++ p) ws ≡ some ws')
      × AllGrown disk root (p ∷ []) ws ws'
unfolding add_to_all
add_to_all-AllGrown disk dir root p [] ends h = ([], refl, tt)
add_to_all-AllGrown disk dir root p (w ∷ ws) ends (rooted, h) =
    let (w', kept, grown) =
      subst (Steps disk w p) rooted (add_static_file-Steps disk dir w p (rooted ∙ ends)) in
    let (ws', all, rest) = add_to_all-AllGrown disk dir root p ws ends h in
    (w' ∷ ws', (λ i. cons_table (kept i) (all i)), (grown, rest))

Grown-cons :
    (disk : Disk) (root p : Bytes) (ps : List Bytes) (a b c : FileTable)
    → Grown disk root (p ∷ []) a b
    → Grown disk root ps b c
    → Grown disk root (p ∷ ps) a c
Grown-cons disk root p ps a b c g h = record {
  rooted = h.rooted;
  keeps = λ key k. h.keeps key (g.keeps key k);
  news = λ q listed file. elim listed [
    | inl e ↦ h.keeps (b'/' ∷ q) (g.news q (inl e) file)
    | inr later ↦ h.news q later file
  ];
}

AllGrown-cons :
    (disk : Disk) (root p : Bytes) (ps : List Bytes) (xs ys zs : List FileTable)
    → AllGrown disk root (p ∷ []) xs ys
    → AllGrown disk root ps ys zs
    → AllGrown disk root (p ∷ ps) xs zs
AllGrown-cons disk root p ps [] [] [] g h = tt
AllGrown-cons disk root p ps [] [] (z ∷ zs) g h = absurd h
AllGrown-cons disk root p ps [] (y ∷ ys) zs g h = absurd g
AllGrown-cons disk root p ps (x ∷ xs) [] zs g h = absurd g
AllGrown-cons disk root p ps (x ∷ xs) (y ∷ ys) [] g h = absurd h
AllGrown-cons disk root p ps (x ∷ xs) (y ∷ ys) (z ∷ zs) (g, gs) (h, hs) =
    (Grown-cons disk root p ps x y z g h, AllGrown-cons disk root p ps xs ys zs gs hs)

AllGrown-nil :
    (disk : Disk) (root : Bytes) (ws : List FileTable)
    → AllRooted root ws
    → AllGrown disk root [] ws ws
AllGrown-nil disk root [] h = tt
AllGrown-nil disk root (w ∷ ws) (rooted, h) = (
  record { rooted = rooted; keeps = λ key k. k; news = λ p listed file. absurd listed },
  AllGrown-nil disk root ws h,
)

AllRooted-AllGrown :
    (disk : Disk) (root : Bytes) (ps : List Bytes) (ws ws' : List FileTable)
    → AllGrown disk root ps ws ws'
    → AllRooted root ws'
AllRooted-AllGrown disk root ps [] [] g = tt
AllRooted-AllGrown disk root ps [] (w' ∷ ws') g = absurd g
AllRooted-AllGrown disk root ps (w ∷ ws) [] g = absurd g
AllRooted-AllGrown disk root ps (w ∷ ws) (w' ∷ ws') (g, gs) =
    (g.rooted, AllRooted-AllGrown disk root ps ws ws' gs)

add_paths-AllGrown :
    (disk : Disk) (dir root : Bytes) (ps : List Bytes) (ws : List FileTable)
    → root ≡ dir ++ b'/' ∷ []
    → AllRooted root ws
    → (ws' : List FileTable) × (add_paths disk (under root ps) ws ≡ some ws')
      × AllGrown disk root ps ws ws'
unfolding add_paths
add_paths-AllGrown disk dir root [] ws ends h = (ws, refl, AllGrown-nil disk root ws h)
add_paths-AllGrown disk dir root (p ∷ ps) ws ends h =
    let (ws₁, one, first) = add_to_all-AllGrown disk dir root p ws ends h in
    let (ws₂, others, rest) =
      add_paths-AllGrown disk dir root ps ws₁ ends
        (AllRooted-AllGrown disk root (p ∷ []) ws ws₁ first) in
    (
      ws₂,
      ap (λ o. and_then o (add_paths disk (under root ps))) one ∙ others,
      AllGrown-cons disk root p ps ws ws₁ ws₂ first rest,
    )

-- The root ends with a slash.
ends_slash : (s : Bytes) → back s 0 ≡ b'/' → (dir : Bytes) × (s ≡ dir ++ b'/' ∷ [])
ends_slash [] e = absurd (omega arith)
ends_slash (c ∷ []) e = ([], λ i. e i ∷ [])
ends_slash (c ∷ d ∷ s) e = let (dir, same) = ends_slash (d ∷ s) e in (c ∷ dir, ap (λ t. c ∷ t) same)

add_slash_ends : (path : Bytes) → (dir : Bytes) × (add_slash path ≡ dir ++ b'/' ∷ [])
add_slash_ends path = elim (Bool-cases (back path 0 == b'/')) [
  | inl slash ↦ rw slash (ends_slash path (ground arith))
  | inr other ↦ rw other (path, refl)
]

all_with_root-AllRooted :
    (root : Bytes) (ws : List FileTable) → AllRooted root (all_with_root root ws)
all_with_root-AllRooted root [] = tt
all_with_root-AllRooted root (w ∷ ws) = (refl, all_with_root-AllRooted root ws)

-- There are as many workers as before, and each answers for every file of the list by its path behind the
-- root, with a slash before it, without a change of its table.
abbrev pub AllServe : Disk → Bytes → List Bytes → List FileTable → List FileTable → Type 0
AllServe disk root ps [] [] = Unit {0}
AllServe disk root ps [] (w' ∷ ws') = ⊥
AllServe disk root ps (w ∷ ws) [] = ⊥
AllServe disk root ps (w ∷ ws) (w' ∷ ws') =
    ((p : Bytes) (prefer relative : Bool)
      → Listed p ps
      → IsFile disk root p
      → (g : FileEntry) × (get_static_file disk (b'/' ∷ p) prefer relative w'
          ≡ answered (some g) w')
        × Suits prefer (b'/' ∷ p) w'.files g)
    × AllServe disk root ps ws ws'

Grown-get :
    (disk : Disk) (root : Bytes) (ps : List Bytes) (w w' : FileTable) (p : Bytes)
    (prefer relative : Bool)
    → Grown disk root ps w w'
    → Listed p ps
    → IsFile disk root p
    → (g : FileEntry) × (get_static_file disk (b'/' ∷ p) prefer relative w' ≡ answered (some g) w')
      × Suits prefer (b'/' ∷ p) w'.files g
unfolding get_static_file or_add
Grown-get disk root ps w w' p prefer relative grown listed file =
    let (g, picked, suits) = pick-Suits prefer (b'/' ∷ p) w'.files (grown.news p listed file) in
    (g, ap (or_add disk (b'/' ∷ p) prefer relative w') picked, suits)

AllGrown-AllServe :
    (disk : Disk) (root : Bytes) (ps : List Bytes) (vs ws' : List FileTable)
    → AllGrown disk root ps (all_with_root root vs) ws'
    → AllServe disk root ps vs ws'
AllGrown-AllServe disk root ps [] [] g = tt
AllGrown-AllServe disk root ps [] (w' ∷ ws') g = absurd g
AllGrown-AllServe disk root ps (v ∷ vs) [] g = absurd g
AllGrown-AllServe disk root ps (v ∷ vs) (w' ∷ ws') (g, gs) = (
  λ p prefer relative listed file.
      Grown-get disk root ps (with_root root v) w' p prefer relative g listed file,
  AllGrown-AllServe disk root ps vs ws' gs,
)

-- For a path that is not empty and not of spaces only: `serve_static_files` throws nothing, and afterwards every
-- worker answers a request for any file that `files` lists in the directory, where it can be read and
-- opened and is not taken for a compressed one, by its path behind the root. If compressed files are
-- not preferred, the answer is an entry with that path that is not compressed; if they are, it is an
-- entry with that path, and a compressed one exactly if the worker's table has one. The root is the
-- path without the spaces at its end and with a slash there.
pub serve_static_files-AllServe :
    (disk : Disk) (dir_at : Bytes → Dir) (path trimmed : Bytes) (ws : List FileTable)
    → trim_back path ≡ some trimmed
    → (ws' : List FileTable) × (serve_static_files disk dir_at path ws ≡ some ws')
      × AllServe disk (add_slash trimmed) (files (dir_at (add_slash trimmed))) ws ws'
unfolding serve_static_files serve_root
serve_static_files-AllServe disk dir_at path trimmed ws e =
    let root = add_slash trimmed in
    let tree = dir_at root in
    let (dir, ends) = add_slash_ends trimmed in
    let (ws', made, grown) =
      add_paths-AllGrown disk dir root (files tree) (all_with_root root ws) ends
        (all_with_root-AllRooted root ws) in
    (
      ws',
      ap (serve_root disk dir_at ws) e
          ∙ iterate_directory-files disk root tree (all_with_root root ws)
          ∙ made,
      AllGrown-AllServe disk root (files tree) ws ws' grown,
    )
