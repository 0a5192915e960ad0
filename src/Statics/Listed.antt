-- ===== src/Statics/Listed.antt =====
-- src/server.cc: the files that `iterate_directory` finds, as a list of paths.
use harmony_http.Prelude.{
  ◌≡◌, refl, sym, ap, ◌∙◌, List, [], ◌∷◌, ◌++◌, append_assoc, Bytes, Bool, true, false, none, some,
  if◌then◌else◌, codes,
}
use harmony_http.Files.{Disk, FileTable}
use harmony_http.Statics.{
  Dir, closed, opened, Entries, end, entry, Tables, add_to_all, and_then, starts_dot,
  iterate_directory, iterate_entries,
}

abbrev pub under : Bytes → List Bytes → List Bytes
under dir [] = []
under dir (p ∷ ps) = (dir ++ p) ∷ under dir ps

-- The paths below a directory of what is served: what passes the source's mask for a file in it and in
-- its directories, in the order of readdir, without the names that begin with a dot. Regular files
-- and links pass it, and character devices; the mask for a directory comes first, and sockets and
-- block devices pass that one.
unfoldable mutual
  pub files : Dir → List Bytes
  files closed = []
  files (opened es) = entry_files es

  pub entry_files : Entries → List Bytes
  entry_files end = []
  entry_files (entry name is_dir is_file dir es) =
      let inside = under (name ++ codes "/") (files dir) in
      (if starts_dot name then [] else if is_dir then inside else if is_file then name ∷ [] else [])
      ++ entry_files es

-- Adding paths one after another, each to every worker.
unfoldable pub add_paths : Disk → List Bytes → List FileTable → Tables
unfolding add_to_all
add_paths disk [] ws = some ws
add_paths disk (p ∷ ps) ws = and_then (add_to_all disk p ws) (add_paths disk ps)

under-append :
    (dir : Bytes) (ps qs : List Bytes) → under dir (ps ++ qs) ≡ under dir ps ++ under dir qs
under-append dir [] qs = refl
under-append dir (p ∷ ps) qs = ap (λ t. (dir ++ p) ∷ t) (under-append dir ps qs)

under-under : (x y : Bytes) (ps : List Bytes) → under x (under y ps) ≡ under (x ++ y) ps
under-under x y [] = refl
under-under x y (p ∷ ps) = λ i. sym (append_assoc x y p) i ∷ under-under x y ps i

then_assoc :
    (o : Tables) (f g h : List FileTable → Tables)
    → ((ws : List FileTable) → h ws ≡ and_then (f ws) g)
    → and_then o h ≡ and_then (and_then o f) g
then_assoc none f g h e = refl
then_assoc (some ws) f g h e = e ws

add_paths-append :
    (disk : Disk) (ps qs : List Bytes) (ws : List FileTable)
    → add_paths disk (ps ++ qs) ws ≡ and_then (add_paths disk ps ws) (add_paths disk qs)
unfolding add_paths
add_paths-append disk [] qs ws = refl
add_paths-append disk (p ∷ ps) qs ws =
    then_assoc (add_to_all disk p ws) (add_paths disk ps) (add_paths disk qs)
      (add_paths disk (ps ++ qs)) (add_paths-append disk ps qs)

then_same :
    (o : Tables) (f g : List FileTable → Tables)
    → ((ws : List FileTable) → f ws ≡ g ws)
    → and_then o f ≡ and_then o g
then_same none f g e = refl
then_same (some ws) f g e = e ws

then_some : (disk : Disk) (o : Tables) → and_then o (add_paths disk []) ≡ o
unfolding add_paths
then_some disk none = refl
then_some disk (some ws) = refl

add_paths-one :
    (disk : Disk) (p : Bytes) (ws : List FileTable)
    → add_paths disk (p ∷ []) ws ≡ add_to_all disk p ws
unfolding add_paths
add_paths-one disk p ws = then_some disk (add_to_all disk p ws)

-- An entry that adds the paths `ps`, and then the others.
entry_then :
    (disk : Disk) (path : Bytes) (o : Tables) (ps qs : List Bytes) (ws : List FileTable)
    (f : List FileTable → Tables)
    → o ≡ add_paths disk (under path ps) ws
    → ((ws' : List FileTable) → f ws' ≡ add_paths disk (under path qs) ws')
    → and_then o f ≡ add_paths disk (under path (ps ++ qs)) ws
entry_then disk path o ps qs ws f e h =
    then_same o f (add_paths disk (under path qs)) h
    ∙ ap (λ t. and_then t (add_paths disk (under path qs))) e
    ∙ sym (add_paths-append disk (under path ps) (under path qs) ws)
    ∙ ap (λ t. add_paths disk t ws) (sym (under-append path ps qs))

chosen :
    (disk : Disk) (path name : Bytes) (dot is_dir is_file : Bool) (inside : Tables)
    (ps : List Bytes) (ws : List FileTable)
    → inside ≡ add_paths disk (under path ps) ws
    → (if dot
        then some ws
        else if is_dir
        then inside
        else if is_file
        then add_to_all disk (path ++ name) ws
        else some ws)
      ≡ add_paths disk
          (under path
            (if dot then [] else if is_dir then ps else if is_file then name ∷ [] else []))
          ws
unfolding add_paths
chosen disk path name true is_dir is_file inside ps ws e = refl
chosen disk path name false true is_file inside ps ws e = e
chosen disk path name false false true inside ps ws e = sym (add_paths-one disk (path ++ name) ws)
chosen disk path name false false false inside ps ws e = refl

mutual
  unfolding iterate_directory files add_paths

  pub iterate_directory-files :
      (disk : Disk) (path : Bytes) (dir : Dir) (ws : List FileTable)
      → iterate_directory disk path dir ws ≡ add_paths disk (under path (files dir)) ws
  iterate_directory-files disk path closed ws = refl
  iterate_directory-files disk path (opened es) ws = iterate_entries-files disk path es ws

  iterate_entries-files :
      (disk : Disk) (path : Bytes) (es : Entries) (ws : List FileTable)
      → iterate_entries disk path es ws ≡ add_paths disk (under path (entry_files es)) ws
  iterate_entries-files disk path end ws = refl
  iterate_entries-files disk path (entry name is_dir is_file dir es) ws =
      entry_then disk path _ _ (entry_files es) ws (iterate_entries disk path es)
        (chosen disk path name (starts_dot name) is_dir is_file
          (iterate_directory disk (path ++ (name ++ codes "/")) dir ws)
          (under (name ++ codes "/") (files dir)) ws
          (iterate_directory-files disk (path ++ (name ++ codes "/")) dir ws
            ∙ ap (λ t. add_paths disk t ws)
                (sym (under-under path (name ++ codes "/") (files dir)))))
        (iterate_entries-files disk path es)
