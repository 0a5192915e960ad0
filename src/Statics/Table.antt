-- ===== src/Statics/Table.antt =====
-- src/server.cc and src/worker.cc: one more file in the table of a worker.
use mathlib.Core.Bool.{false≢true}
use mathlib.Core.Path.{subst}
use harmony_http.Prelude.{
  ℕ, ◌-◌, ◌<◌, ◌≡◌, ◌⊎◌, refl, sym, ap, ◌∙◌, arith, inl, inr, List, [], ◌∷◌, ◌++◌, length,
  length-append, Bytes, bytes_eq, bytes_eq_refl, bytes_eq_sound, Bool, true, false, ◌&&◌, ◌||◌,
  Bool-cases, Option, Option-cases, none, some, ltb, leb,
}
use harmony_http.Files.{
  FileInfo, FileEntry, Disk, FileTable, new_entry, keep_entry, after_open, add_static_file,
  equal_range, pick,
}
use harmony_http.Files.Lookup.{IsPlain, new_entry-relpath, drop-root}
use harmony_http.Statics.{keep_table}

-- Some entry may be answered for the key.
abbrev pub AnyPlain : Bytes → List FileEntry → Type 0
AnyPlain key [] = ⊥
AnyPlain key (f ∷ fs) = IsPlain key f ⊎ AnyPlain key fs

AnyPlain-append_left :
    (key : Bytes) (xs ys : List FileEntry) → AnyPlain key xs → AnyPlain key (xs ++ ys)
AnyPlain-append_left key [] ys h = absurd h
AnyPlain-append_left key (x ∷ xs) ys (inl h) = inl h
AnyPlain-append_left key (x ∷ xs) ys (inr h) = inr (AnyPlain-append_left key xs ys h)

AnyPlain-append_right :
    (key : Bytes) (xs ys : List FileEntry) → AnyPlain key ys → AnyPlain key (xs ++ ys)
AnyPlain-append_right key [] ys h = h
AnyPlain-append_right key (x ∷ xs) ys h = inr (AnyPlain-append_right key xs ys h)

pick-AnyPlain :
    (key : Bytes) (ret : Option FileEntry) (fs : List FileEntry)
    → AnyPlain key fs
    → (g : FileEntry) × (pick false ret (equal_range key fs) ≡ some g) × IsPlain key g
unfolding pick equal_range
pick-AnyPlain key ret [] h = absurd h
pick-AnyPlain key ret (f ∷ fs) (inl (same, plain)) =
    let found : bytes_eq f.relpath key ≡ true = rw same (bytes_eq_refl key) in
    (f, rw (found, plain) refl, (same, plain))
pick-AnyPlain key ret (f ∷ fs) (inr h) = elim (Bool-cases (bytes_eq f.relpath key)) [
  | inl same ↦ elim (Bool-cases f.compressed) [
    | inl packed ↦
        let (x, picked, plain) = pick-AnyPlain key (some f) fs h in
        (x, rw same (simp packed picked), plain)
    | inr plain ↦ (f, rw (same, plain) refl, (bytes_eq_sound f.relpath key same, plain))
  ]
  | inr other ↦ let (x, picked, plain) = pick-AnyPlain key ret fs h in (x, rw other picked, plain)
]

-- A compressed entry has the key.
abbrev pub has_compressed : Bytes → List FileEntry → Bool
has_compressed key [] = false
has_compressed key (f ∷ fs) = (bytes_eq f.relpath key && f.compressed) || has_compressed key fs

-- What a request may be answered by: an entry of the plain file, or where compressed ones are
-- preferred a compressed entry with the key if there is one.
abbrev pub Suits : Bool → Bytes → List FileEntry → FileEntry → Type 0
Suits false key fs g = IsPlain key g
Suits true key fs g = (g.relpath ≡ key) × (g.compressed ≡ has_compressed key fs)

-- After an entry that is not compressed.
pick_compressed-some :
    (key : Bytes) (last : FileEntry) (fs : List FileEntry)
    → last.relpath ≡ key
    → last.compressed ≡ false
    → (g : FileEntry) × (pick true (some last) (equal_range key fs) ≡ some g) × Suits true key fs g
unfolding pick equal_range
pick_compressed-some key last [] same plain = (last, refl, (same, plain))
pick_compressed-some key last (f ∷ fs) same plain = elim (Bool-cases (bytes_eq f.relpath key)) [
  | inl here ↦ elim (Bool-cases f.compressed) [
    | inl packed ↦
        (f, rw (here, packed) refl, (bytes_eq_sound f.relpath key here, rw (here, packed) refl))
    | inr bare ↦
        let (g, picked, suits) =
          pick_compressed-some key f fs (bytes_eq_sound f.relpath key here) bare in
        (g, rw here (simp bare picked), (suits.0, rw here (simp bare suits.1)))
  ]
  | inr other ↦
      let (g, picked, suits) = pick_compressed-some key last fs same plain in
      (g, rw other picked, (suits.0, rw other suits.1))
]

pick_compressed :
    (key : Bytes) (fs : List FileEntry)
    → AnyPlain key fs
    → (g : FileEntry) × (pick true none (equal_range key fs) ≡ some g) × Suits true key fs g
unfolding pick equal_range
pick_compressed key [] h = absurd h
pick_compressed key (f ∷ fs) h = elim (Bool-cases (bytes_eq f.relpath key)) [
  | inl here ↦ elim (Bool-cases f.compressed) [
    | inl packed ↦
        (f, rw (here, packed) refl, (bytes_eq_sound f.relpath key here, rw (here, packed) refl))
    | inr bare ↦
        let (g, picked, suits) =
          pick_compressed-some key f fs (bytes_eq_sound f.relpath key here) bare in
        (g, rw here (simp bare picked), (suits.0, rw here (simp bare suits.1)))
  ]
  | inr other ↦ elim h [
    | inl (same, plain) ↦
        let found : bytes_eq f.relpath key ≡ true = rw same (bytes_eq_refl key) in cc
    | inr later ↦
        let (g, picked, suits) = pick_compressed key fs later in
        (g, rw other picked, (suits.0, rw other suits.1))
  ]
]

-- Where an entry may be answered for the key, one that suits is picked.
pub pick-Suits :
    (prefer : Bool) (key : Bytes) (fs : List FileEntry)
    → AnyPlain key fs
    → (g : FileEntry) × (pick prefer none (equal_range key fs) ≡ some g) × Suits prefer key fs g
pick-Suits true key fs h = pick_compressed key fs h
pick-Suits false key fs h = pick-AnyPlain key none fs h

-- A file below the root that can be read and opened, and is not taken for a compressed one.
pub record IsFile (disk : Disk) (root p : Bytes) : Type 0 where
  pub readable : disk.readable (root ++ p) ≡ true
  pub fd : ℕ
  pub info : FileInfo
  pub opens : disk.open_file (root ++ p) ≡ some (fd, info)
  pub entry : FileEntry
  pub made : new_entry disk root fd info (root ++ p) ≡ some entry
  pub plain : entry.compressed ≡ false

abbrev pub Listed : Bytes → List Bytes → Type 0
Listed p [] = ⊥
Listed p (q ∷ qs) = (p ≡ q) ⊎ Listed p qs

-- From one table to a later one: the root stands, nothing is lost, and the files of the list are there.
pub record Grown (disk : Disk) (root : Bytes) (ps : List Bytes) (w w' : FileTable) : Type 0 where
  pub rooted : w'.static_root ≡ root
  pub keeps : (key : Bytes) → AnyPlain key w.files → AnyPlain key w'.files
  pub news : (p : Bytes) → Listed p ps → IsFile disk root p → AnyPlain (b'/' ∷ p) w'.files

new_entry-some :
    (disk : Disk) (dir root : Bytes) (fd : ℕ) (info : FileInfo) (p : Bytes)
    → root ≡ dir ++ b'/' ∷ []
    → (f : FileEntry) × (new_entry disk root fd info (root ++ p) ≡ some f)
unfolding new_entry
new_entry-some disk dir root fd info p ends =
    let size : 0 < length root = omega (arith, ap length ends, length-append dir (b'/' ∷ [])) in
    let fits : (ltb 0 (length root) && leb (length root - 1) (length (root ++ p))) ≡ true =
      ground (arith, size, length-append root p) in
    rw fits (_, refl)

entry_of : Disk → Bytes → Bytes → Option (ℕ × FileInfo) → Option FileEntry
entry_of disk root path none = none
entry_of disk root path (some (fd, info)) = new_entry disk root fd info path

some-eq : {A : Type 0} {x y : A} → some x ≡ some y → x ≡ y
some-eq e = cc

-- What `add_static_file` does to a table with the root.
abbrev pub Steps : Disk → FileTable → Bytes → Bytes → Type 0
Steps disk w p root =
    (w' : FileTable) × (keep_table w (add_static_file disk (root ++ p) w) ≡ some w')
    × Grown disk root (p ∷ []) w w'

-- A table that stays as it is, for a path that is no file.
same-Grown :
    (disk : Disk) (w : FileTable) (p : Bytes)
    → (IsFile disk w.static_root p → ⊥)
    → Grown disk w.static_root (p ∷ []) w w
same-Grown disk w p absent = record {
  rooted = refl;
  keeps = λ key h. h;
  news = λ q listed file. elim listed [
    | inl e ↦ absurd (absent (subst (IsFile disk w.static_root) e file))
    | inr h ↦ absurd h
  ];
}

opened-Grown :
    (disk : Disk) (dir : Bytes) (w : FileTable) (p : Bytes) (fd : ℕ) (info : FileInfo)
    (f : FileEntry)
    → w.static_root ≡ dir ++ b'/' ∷ []
    → disk.open_file (w.static_root ++ p) ≡ some (fd, info)
    → new_entry disk w.static_root fd info (w.static_root ++ p) ≡ some f
    → Grown disk w.static_root (p ∷ []) w (record w { files = w.files ++ f ∷ [] })
unfolding entry_of
opened-Grown disk dir w p fd info f ends opens made = record {
  rooted = refl;
  keeps = λ key h. AnyPlain-append_left key w.files (f ∷ []) h;
  news = λ q listed file. elim listed [
    | inl e ↦
        let here = subst (IsFile disk w.static_root) e file in
        let agree : some here.entry ≡ some f =
          sym here.made
          ∙ ap (entry_of disk w.static_root (w.static_root ++ p)) (sym here.opens ∙ opens)
          ∙ made in
        let plain : f.compressed ≡ false =
          ap (λ x. x.compressed) (sym (some-eq agree)) ∙ here.plain in
        let key : f.relpath ≡ b'/' ∷ p =
          new_entry-relpath disk w.static_root fd info (w.static_root ++ p) f made plain
          ∙ drop-root dir w.static_root p ends in
        AnyPlain-append_right (b'/' ∷ q) w.files (f ∷ [])
          (inl (key ∙ ap (λ t. b'/' ∷ t) (sym e), plain))
    | inr h ↦ absurd h
  ];
}

pub add_static_file-Steps :
    (disk : Disk) (dir : Bytes) (w : FileTable) (p : Bytes)
    → w.static_root ≡ dir ++ b'/' ∷ []
    → Steps disk w p w.static_root
unfolding add_static_file after_open keep_entry
add_static_file-Steps disk dir w p ends = elim (Bool-cases (disk.readable (w.static_root ++ p))) [
  | inr gone ↦
      (w, rw gone refl, same-Grown disk w p (λ file. false≢true (sym gone ∙ file.readable)))
  | inl there ↦ elim (Option-cases (disk.open_file (w.static_root ++ p))) [
    | inl shut ↦ (
      w,
      rw (there, shut, after_open) refl,
      same-Grown disk w p (λ file. let e = sym shut ∙ file.opens in cc),
    )
    | inr ((fd, info), opens) ↦
        let (f, made) = new_entry-some disk dir w.static_root fd info p ends in
        (
          record w { files = w.files ++ f ∷ [] },
          rw (there, opens, after_open, made, keep_entry) refl,
          opened-Grown disk dir w p fd info f ends opens made,
        )
  ]
]
