-- ===== src/Statics.antt =====
-- src/server.cc: `serve_static_files` and `iterate_directory`, which put the files of a directory into the table of
-- every worker, on top of Files. What opendir and readdir give is the tree of directories.
pub mod Listed
pub mod Table
pub mod Served
mod Tests
use harmony_http.Prelude.{
  ℕ, List, [], ◌∷◌, ◌++◌, Bytes, Bool, true, false, Option, none, some, ◌==◌, if◌then◌else◌, codes,
}
use harmony_http.Router.Level.{back}
use harmony_http.Files.{Disk, FileTable, FileEntry, Added, missing, thrown, added, add_static_file}

-- A directory is `closed` if opendir fails. An entry has its name, whether `d_type & DT_DIR` holds, whether
-- `d_type & DT_REG | d_type & DT_LNK` does, and the directory at its path.
mutual
  pub data Dir : Type 0 where
    closed : Dir
    opened : Entries → Dir

  pub data Entries : Type 0 where
    end : Entries
    entry : Bytes → Bool → Bool → Dir → Entries → Entries

-- The tables of the workers, or none where `substr` throws.
abbrev pub Tables : Type 0
Tables = Option (List FileTable)

abbrev pub keep_table : FileTable → Added → Option FileTable
keep_table w missing = some w
keep_table w thrown = none
keep_table w (added f w') = some w'

abbrev pub cons_table : Option FileTable → Tables → Tables
cons_table none ws = none
cons_table (some w) none = none
cons_table (some w) (some ws) = some (w ∷ ws)

-- The loop over the workers.
unfoldable pub add_to_all : Disk → Bytes → List FileTable → Tables
unfolding add_static_file
add_to_all disk path [] = some []
add_to_all disk path (w ∷ ws) =
    cons_table (keep_table w (add_static_file disk path w)) (add_to_all disk path ws)

abbrev pub and_then : Tables → (List FileTable → Tables) → Tables
and_then none f = none
and_then (some ws) f = f ws

-- `de->d_name[0] == '.'`
abbrev pub starts_dot : Bytes → Bool
starts_dot [] = false
starts_dot (c ∷ s) = c == b'.'

unfoldable mutual
  unfolding add_to_all

  pub iterate_directory : Disk → Bytes → Dir → List FileTable → Tables
  iterate_directory disk path closed ws = some ws
  iterate_directory disk path (opened es) ws = iterate_entries disk path es ws

  pub iterate_entries : Disk → Bytes → Entries → List FileTable → Tables
  iterate_entries disk path end ws = some ws
  iterate_entries disk path (entry name is_dir is_file dir es) ws =
      let inside = iterate_directory disk (path ++ (name ++ codes "/")) dir ws in
      let done =
        if starts_dot name
        then some ws
        else if is_dir
        then inside
        else if is_file
        then add_to_all disk (path ++ name) ws
        else some ws in
      and_then done (iterate_entries disk path es)

-- `while (path.back() == ' ') path.pop_back()`; none is `back` of an empty string.
unfoldable pub trim_back : Bytes → Option Bytes
trim_back [] = none
trim_back (c ∷ s) = elim (trim_back s) [
  | none ↦ if c == b' ' then none else some (c ∷ [])
  | some t ↦ some (c ∷ t)
]

abbrev pub add_slash : Bytes → Bytes
add_slash path = if back path 0 == b'/' then path else path ++ codes "/"

abbrev pub with_root : Bytes → FileTable → FileTable
with_root root w = record w { static_root = root }

abbrev pub all_with_root : Bytes → List FileTable → List FileTable
all_with_root root [] = []
all_with_root root (w ∷ ws) = with_root root w ∷ all_with_root root ws

unfoldable pub serve_root : Disk → (Bytes → Dir) → List FileTable → Option Bytes → Tables
unfolding iterate_directory
serve_root disk dir_at ws none = none
serve_root disk dir_at ws (some path) =
    iterate_directory disk (add_slash path) (dir_at (add_slash path))
      (all_with_root (add_slash path) ws)

-- None is also an empty path or one of spaces only, which the code reads before its start.
unfoldable pub serve_static_files : Disk → (Bytes → Dir) → Bytes → List FileTable → Tables
unfolding serve_root trim_back
serve_static_files disk dir_at path ws = serve_root disk dir_at ws (trim_back path)
