-- ===== src/Files/Lookup.antt =====
-- src/worker.cc: a file that was added is found again.
use harmony_http.Prelude.{
  ℕ, ◌-◌, ◌≡◌, refl, sym, ap, ◌∙◌, inl, inr, arith, List, [], ◌∷◌, ◌++◌, Bytes, bytes_eq,
  bytes_eq_refl, bytes_eq_sound, Bool, true, false, Bool-cases, ◌&&◌, ◌||◌, Option, some, none, ltb,
  leb, length, length-append, drop, drop-append_add, append_assoc, codes,
}
use mathlib.Core.Path.{subst}
use harmony_http.Files.{
  FileInfo, FileEntry, Disk, FileTable, set_ext, bare_entry, mark_compressed, check_if_compressed,
  set_mime_type, new_entry, Added, missing, thrown, added, keep_entry, after_open, add_static_file,
  equal_range, pick, answered, or_add, get_static_file,
}

true-false : true ≡ false → ⊥
true-false e = cc

none-some : {A : Type 0} {x : A} → none ≡ some x → ⊥
none-some e = cc

some-eq : {A : Type 0} {x y : A} → some x ≡ some y → x ≡ y
some-eq e = cc

-- An entry that is not compressed keeps the key that the constructor cut from its path.
check_if_compressed-relpath :
    (path : Bytes) (f : FileEntry)
    → (check_if_compressed path f).compressed ≡ false
    → (check_if_compressed path f).relpath ≡ f.relpath
unfolding check_if_compressed mark_compressed set_ext
check_if_compressed-relpath path f h = elim (Bool-cases (bytes_eq f.ext (codes "br"))) [
  | inl br ↦ absurd (true-false (rw br at h))
  | inr no_br ↦ elim (Bool-cases (bytes_eq f.ext (codes "gzip") || bytes_eq f.ext (codes "gz"))) [
    | inl gz ↦ absurd (true-false (rw (no_br, gz) at h))
    | inr no_gz ↦ rw (no_br, no_gz) refl
  ]
]

-- What `add_static_file` adds stands last in the table, with the key behind the root.
abbrev Keeps : FileTable → Bytes → Added → Type 0
Keeps w path missing = Unit {0}
Keeps w path thrown = Unit {0}
Keeps w path (added f w') =
    (w' ≡ record w { files = w.files ++ f ∷ [] })
    × (f.compressed ≡ false → f.relpath ≡ drop (length w.static_root - 1) path)

keep_entry-Keeps :
    (w : FileTable) (path : Bytes) (r : Option FileEntry)
    → ((f : FileEntry)
        → r ≡ some f
        → f.compressed ≡ false
        → f.relpath ≡ drop (length w.static_root - 1) path)
    → Keeps w path (keep_entry w r)
unfolding keep_entry
keep_entry-Keeps w path none h = tt
keep_entry-Keeps w path (some f) h = (refl, h f refl)

set_mime_type-relpath :
    (disk : Disk) (path : Bytes) (x f : FileEntry)
    → set_mime_type disk (check_if_compressed path x) ≡ f
    → f.compressed ≡ false
    → f.relpath ≡ x.relpath
unfolding set_mime_type
set_mime_type-relpath disk path x f e h =
    ap (λ g. g.relpath) (sym e) ∙ check_if_compressed-relpath path x (ap (λ g. g.compressed) e ∙ h)

pub new_entry-relpath :
    (disk : Disk) (root : Bytes) (fd : ℕ) (info : FileInfo) (path : Bytes) (f : FileEntry)
    → new_entry disk root fd info path ≡ some f
    → f.compressed ≡ false
    → f.relpath ≡ drop (length root - 1) path
unfolding new_entry set_ext
new_entry-relpath disk root fd info path f e h =
    elim (Bool-cases (ltb 0 (length root) && leb (length root - 1) (length path))) [
      | inl ok ↦
          set_mime_type-relpath disk path (set_ext path (bare_entry root fd info path)) f
            (some-eq (rw ok at e)) h
      | inr bad ↦ absurd (none-some (rw bad at e))
    ]

after_open-Keeps :
    (disk : Disk) (path : Bytes) (w : FileTable) (r : Option (ℕ × FileInfo))
    → Keeps w path (after_open disk path w r)
unfolding after_open
after_open-Keeps disk path w none = tt
after_open-Keeps disk path w (some (fd, info)) =
    keep_entry-Keeps w path (new_entry disk w.static_root fd info path)
      (new_entry-relpath disk w.static_root fd info path)

add_static_file-Keeps :
    (disk : Disk) (path : Bytes) (w : FileTable) → Keeps w path (add_static_file disk path w)
unfolding add_static_file
add_static_file-Keeps disk path w = elim (Bool-cases (disk.readable path)) [
  | inl there ↦ rw there (after_open-Keeps disk path w (disk.open_file path))
  | inr gone ↦ rw gone tt
]

Keeps-added :
    (w : FileTable) (path : Bytes) (r : Added) (f : FileEntry) (w' : FileTable)
    → r ≡ added f w'
    → Keeps w path r
    → Keeps w path (added f w')
Keeps-added w path r f w' e k = subst (λ x. Keeps w path x) e k

-- An entry that `get_static_file` may answer for a key when plain files are asked for.
abbrev pub IsPlain : Bytes → FileEntry → Type 0
IsPlain key f = (f.relpath ≡ key) × (f.compressed ≡ false)

pick-IsPlain :
    (key : Bytes) (ret : Option FileEntry) (fs : List FileEntry) (f : FileEntry)
    → IsPlain key f
    → (g : FileEntry) × (pick false ret (equal_range key (fs ++ f ∷ [])) ≡ some g) × IsPlain key g
unfolding pick equal_range
pick-IsPlain key ret [] f h =
    let found : bytes_eq f.relpath key ≡ true = rw h.0 (bytes_eq_refl key) in
    (f, rw (found, h.1) refl, h)
pick-IsPlain key ret (g ∷ fs) f h = elim (Bool-cases (bytes_eq g.relpath key)) [
  | inl same ↦ elim (Bool-cases g.compressed) [
    | inl packed ↦
        let (x, picked, plain) = pick-IsPlain key (some g) fs f h in
        (x, rw same (simp packed picked), plain)
    | inr plain ↦ (g, rw (same, plain) refl, (bytes_eq_sound g.relpath key same, plain))
  ]
  | inr other ↦ let (x, picked, plain) = pick-IsPlain key ret fs f h in (x, rw other picked, plain)
]

-- The key that the constructor cuts from the path of a file behind the root.
pub drop-root :
    (dir root rest : Bytes)
    → root ≡ dir ++ b'/' ∷ []
    → drop (length root - 1) (root ++ rest) ≡ b'/' ∷ rest
drop-root dir root rest e =
    ap (λ d. drop (length d - 1) (d ++ rest)) e
    ∙ ap (λ l. drop (length (dir ++ b'/' ∷ []) - 1) l) (append_assoc dir (b'/' ∷ []) rest)
    ∙ drop-append_add (length (dir ++ b'/' ∷ []) - 1) dir (b'/' ∷ rest) 0
        (omega (arith, length-append dir (b'/' ∷ [])))

-- A file behind the root, whose directory is `dir`, that `add_static_file` added as a plain file: later a
-- plain file is asked for by its path behind the directory, slash included. `get_static_file` then
-- answers with a plain file of this path and leaves the table as it is, whether the path counts as
-- relative or not.
pub get_static_file-added :
    (disk : Disk) (dir rest : Bytes) (w w' : FileTable) (f : FileEntry) (relative : Bool)
    → w.static_root ≡ dir ++ b'/' ∷ []
    → add_static_file disk (w.static_root ++ rest) w ≡ added f w'
    → f.compressed ≡ false
    → (g : FileEntry) × (get_static_file disk (b'/' ∷ rest) false relative w'
        ≡ answered (some g) w')
      × IsPlain (b'/' ∷ rest) g
unfolding get_static_file or_add
get_static_file-added disk dir rest w w' f relative root e h =
    let (table, keyed) =
      Keeps-added w (w.static_root ++ rest) (add_static_file disk (w.static_root ++ rest) w) f w' e
        (add_static_file-Keeps disk (w.static_root ++ rest) w) in
    let key : f.relpath ≡ b'/' ∷ rest = keyed h ∙ drop-root dir w.static_root rest root in
    let (g, picked, plain) = pick-IsPlain (b'/' ∷ rest) none w.files f (key, h) in
    (
      g,
      ap (or_add disk (b'/' ∷ rest) false relative w')
          (ap (λ t. pick false none (equal_range (b'/' ∷ rest) t.files)) table ∙ picked),
      plain,
    )
