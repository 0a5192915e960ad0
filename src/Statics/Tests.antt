-- ===== src/Statics/Tests.antt =====
-- A directory with a file, a hidden directory and another directory, for two workers.
use harmony_http.Prelude.{◌≡◌, refl, inl, inr, List, [], ◌∷◌, bytes_eq, codes, true, false, some}
use harmony_http.Files.{
  Disk, FileTable, bare_entry, set_mime_type, check_if_compressed, set_ext, after_last_dot,
  new_entry,
}
use harmony_http.Statics.{Dir, closed, opened, end, entry, add_slash, trim_back, serve_static_files}
use harmony_http.Statics.Listed.{files}
use harmony_http.Statics.Table.{IsFile, Listed}
use harmony_http.Statics.Served.{AllServe, serve_static_files-AllServe}

abbrev disk : Disk
disk = record {
  readable = λ path. true;
  open_file = λ path. some (3, record { mtime = 9; size = 20 });
  mime_types = λ ext. some (codes "text/plain");
}

abbrev tree : Dir
tree = opened (
    entry (codes ".git") true false (opened (entry (codes "head") false true closed end)) (
      entry (codes "a.txt") false true closed (
        entry (codes "css") true false (opened (entry (codes "b.css") false true closed end))
          (entry (codes "pipe") false false closed end))))

tree_files : files tree ≡ codes "a.txt" ∷ codes "css/b.css" ∷ []
unfolding files
tree_files = refl

abbrev tables : List FileTable
tables = record { static_root = []; files = [] } ∷ record { static_root = []; files = [] } ∷ []

trimmed_lem : trim_back (codes "www  ") ≡ some (codes "www")
unfolding trim_back
trimmed_lem = refl

-- The nested file meets the conditions of the theorem.
nested-IsFile : IsFile disk (codes "www/") (codes "css/b.css")
unfolding new_entry set_mime_type check_if_compressed bytes_eq set_ext after_last_dot
nested-IsFile = record {
  readable = refl;
  fd = 3;
  info = record { mtime = 9; size = 20 };
  opens = refl;
  entry =
      record (bare_entry (codes "www/") 3 (record { mtime = 9; size = 20 })
        (codes "www/css/b.css")) { ext = codes "css"; mime_type = codes "text/plain" };
  made = refl;
  plain = refl;
}

nested-Listed : Listed (codes "css/b.css") (files tree)
unfolding files
nested-Listed = inr (inl refl)

serve_static_files-AllServe_example :
    (ws' : List FileTable) × (serve_static_files disk (λ path. tree) (codes "www  ") tables
      ≡ some ws')
    × AllServe disk (add_slash (codes "www")) (files tree) tables ws'
serve_static_files-AllServe_example =
    serve_static_files-AllServe disk (λ path. tree) (codes "www  ") (codes "www") tables trimmed_lem
