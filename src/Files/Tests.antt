-- ===== src/Files/Tests.antt =====
-- src/worker.cc: a table with one plain and one compressed file.
use harmony_http.Prelude.{◌≡◌, refl, [], Bytes, true, false, Option, some, none, codes, bytes_eq}
use harmony_http.Files.{
  FileInfo, FileEntry, Disk, FileTable, add_static_file, Answer, exception, answered,
  get_static_file, bare_entry, set_mime_type, check_if_compressed, set_ext, after_last_dot,
}

abbrev root : Bytes
root = codes "www/"

abbrev two_lines : FileInfo
two_lines = record { mtime = 9; size = 20 }

abbrev disk : Disk
disk = record {
  readable = λ path. true;
  open_file = λ path. some (3, two_lines);
  mime_types = λ ext. some (codes "text/plain");
}

abbrev empty : FileTable
empty = record { static_root = root; files = [] }

abbrev entry : FileEntry
entry = record (bare_entry root 3 two_lines (codes "www/a.txt")) {
  ext = codes "txt";
  mime_type = codes "text/plain";
}

abbrev key_of : Option FileEntry → Bytes
key_of none = []
key_of (some e) = e.relpath

abbrev answered_key : Answer → Bytes
answered_key exception = []
answered_key (answered f w) = key_of f

-- A path that a client asks for starts with a slash, and the key of its new entry gets two.
two_slashes :
    answered_key (get_static_file disk (codes "/a.txt") false true empty) ≡ codes "//a.txt"
unfolding get_static_file add_static_file set_mime_type check_if_compressed bytes_eq set_ext
    after_last_dot
two_slashes = refl
