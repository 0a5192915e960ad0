-- ===== src/Files.antt =====
-- src/fileentry.h, src/fileentry.cc and src/worker.cc: the table of static files of a worker. The file
-- system and the dictionary of MIME types are parameters; an entry's place in memory and the watcher of
-- its file are not modelled.
pub mod Lookup
mod Tests
use harmony_http.Prelude.{
  ℕ, ◌+◌, ◌-◌, List, [], ◌∷◌, ◌++◌, Bytes, bytes_eq, Bool, true, false, not, ◌&&◌, ◌||◌, Option,
  some, none, ltb, leb, ◌==◌, if◌then◌else◌, length, drop, codes,
}

pub record FileInfo : Type 0 where
  pub mtime : ℕ
  pub size : ℕ

pub record FileEntry : Type 0 where
  pub fd : ℕ
  pub path : Bytes
  pub relpath : Bytes
  pub ext : Bytes
  pub mime_type : Bytes
  pub compressed : Bool
  pub encoding : Bytes
  pub info : FileInfo
  pub new_info : FileInfo
  pub updated : Bool

-- `open_file` gives a descriptor and what fstat says of it.
pub record Disk : Type 0 where
  pub readable : Bytes → Bool
  pub open_file : Bytes → Option (ℕ × FileInfo)
  pub mime_types : Bytes → Option Bytes

-- `files` is the multimap by `relpath`; entries with one key are in the order they came in.
pub record FileTable : Type 0 where
  pub static_root : Bytes
  pub files : List FileEntry

unfoldable pub has_dot : Bytes → Bool
has_dot [] = false
has_dot (c ∷ s) = (c == b'.') || has_dot s

-- `substr(0, find_last_of('.'))`
unfoldable pub before_last_dot : Bytes → Bytes
unfolding has_dot
before_last_dot [] = []
before_last_dot (c ∷ s) =
    let rest = before_last_dot s in if has_dot s then c ∷ rest else if c == b'.' then [] else c ∷ s

-- `substr(find_last_of('.') + 1)`
unfoldable pub after_last_dot : Bytes → Bytes
unfolding has_dot
after_last_dot [] = []
after_last_dot (c ∷ s) =
    let rest = after_last_dot s in if has_dot s then rest else if c == b'.' then s else c ∷ s

abbrev pub or_empty : Option Bytes → Bytes
or_empty none = []
or_empty (some s) = s

unfoldable pub set_ext : Bytes → FileEntry → FileEntry
set_ext path f = record f { ext = after_last_dot path }

unfoldable pub mark_compressed : Bytes → Bytes → FileEntry → FileEntry
unfolding set_ext
mark_compressed encoding path f =
    set_ext (before_last_dot path)
      (record f { compressed = true; encoding = encoding; relpath = before_last_dot f.relpath })

unfoldable pub check_if_compressed : Bytes → FileEntry → FileEntry
check_if_compressed path f =
    if bytes_eq f.ext (codes "br")
    then mark_compressed (codes "br") path f
    else if bytes_eq f.ext (codes "gzip") || bytes_eq f.ext (codes "gz")
    then mark_compressed (codes "gzip") path f
    else f

unfoldable pub set_mime_type : Disk → FileEntry → FileEntry
set_mime_type disk f = record f { mime_type = or_empty (disk.mime_types f.ext) }

-- The members before the extension is looked at.
abbrev pub bare_entry : Bytes → ℕ → FileInfo → Bytes → FileEntry
bare_entry root fd info path = record {
  fd = fd;
  path = path;
  relpath = drop (length root - 1) path;
  ext = [];
  mime_type = [];
  compressed = false;
  encoding = [];
  info = info;
  new_info = info;
  updated = false;
}

-- The constructor; none is the exception of `substr`.
unfoldable pub new_entry : Disk → Bytes → ℕ → FileInfo → Bytes → Option FileEntry
new_entry disk root fd info path =
    if ltb 0 (length root) && leb (length root - 1) (length path)
    then some (
        set_mime_type disk (check_if_compressed path (set_ext path (bare_entry root fd info path))))
    else none

-- What `add_static_file` comes to.
pub data Added : Type 0 where
  missing thrown : Added
  added : FileEntry → FileTable → Added

unfoldable pub keep_entry : FileTable → Option FileEntry → Added
keep_entry w none = thrown
keep_entry w (some f) = added f (record w { files = w.files ++ f ∷ [] })

unfoldable pub after_open : Disk → Bytes → FileTable → Option (ℕ × FileInfo) → Added
unfolding keep_entry new_entry
after_open disk path w none = missing
after_open disk path w (some (fd, info)) = keep_entry w (new_entry disk w.static_root fd info path)

unfoldable pub add_static_file : Disk → Bytes → FileTable → Added
unfolding after_open
add_static_file disk path w =
    if disk.readable path then after_open disk path w (disk.open_file path) else missing

unfoldable pub remove_key : Bytes → List FileEntry → List FileEntry
remove_key key [] = []
remove_key key (f ∷ fs) =
    let rest = remove_key key fs in if bytes_eq f.relpath key then rest else f ∷ rest

-- It erases every entry with the key of the file.
unfoldable pub remove_static_file : FileEntry → FileTable → FileTable
unfolding remove_key
remove_static_file f w = record w { files = remove_key f.relpath w.files }

unfoldable pub equal_range : Bytes → List FileEntry → List FileEntry
equal_range key [] = []
equal_range key (f ∷ fs) =
    let rest = equal_range key fs in if bytes_eq f.relpath key then f ∷ rest else rest

-- The loop: the first entry of the kind that is asked for, otherwise the last one.
unfoldable pub pick : Bool → Option FileEntry → List FileEntry → Option FileEntry
pick prefer ret [] = ret
pick prefer ret (f ∷ fs) =
    let rest = pick prefer (some f) fs in
    if prefer && f.compressed
    then some f
    else if not prefer && not f.compressed
    then some f
    else rest

-- What `get_static_file` comes to.
pub data Answer : Type 0 where
  exception : Answer
  answered : Option FileEntry → FileTable → Answer

-- The compressed file, if it is there.
abbrev pub prefer_br : Option FileEntry → FileTable → Added → Answer
prefer_br ret w missing = answered ret w
prefer_br ret w thrown = exception
prefer_br ret w (added f w') = answered (some f) w'

abbrev pub try_br : Disk → Bytes → Bool → Option FileEntry → FileTable → Answer
unfolding add_static_file
try_br disk path prefer ret w =
    if prefer
    then prefer_br ret w (add_static_file disk (w.static_root ++ (path ++ codes ".br")) w)
    else answered ret w

abbrev pub after_add : Disk → Bytes → Bool → FileTable → Added → Answer
after_add disk path prefer w missing = try_br disk path prefer none w
after_add disk path prefer w thrown = exception
after_add disk path prefer w (added f w') = try_br disk path prefer (some f) w'

unfoldable pub or_add : Disk → Bytes → Bool → Bool → FileTable → Option FileEntry → Answer
unfolding add_static_file
or_add disk path prefer relative w (some f) = answered (some f) w
or_add disk path prefer relative w none =
    after_add disk path prefer w
      (add_static_file disk (if relative then w.static_root ++ path else path) w)

unfoldable pub get_static_file : Disk → Bytes → Bool → Bool → FileTable → Answer
unfolding or_add equal_range pick
get_static_file disk path prefer relative w =
    or_add disk path prefer relative w (pick prefer none (equal_range path w.files))

-- `info`: a new size and time are taken over when they are asked for.
unfoldable pub read_info : FileEntry → FileInfo × FileEntry
read_info f =
    let info = if f.updated then f.new_info else f.info in
    (info, record f { info = info; updated = false })

unfoldable pub update_info : FileInfo → FileEntry → FileEntry
update_info info f = record f { new_info = info; updated = true }
