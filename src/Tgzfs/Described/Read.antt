-- ===== src/Tgzfs/Described/Read.antt =====
-- internal/tools/tgzfs/fs.go: what New, ReadFile and Stat say of an archive.
use core_provider.Base.{
  ℕ, suc, List, Bool, true, false, Option, none, some, ◌≡◌, refl, sym, ◌∙◌, ◌⊎◌, inl, inr, ap, ap,
  arith, if◌then◌else◌, length,
}
use core_provider.Tgzfs.Paths.{FilePath, dir, is_here}
use core_provider.Tgzfs.Nodes.{DirEntry, entry, fake_dir_entry, with_children, Heap, lookup}
use core_provider.Tgzfs.{Tarfs}
use core_provider.Base.Result.{Result, ok, err}
use core_provider.Base.Exec.{◌>>=◌}
use core_provider.Tgzfs.Paths.{clean}
use core_provider.Tgzfs.{Member, empty, add_members, new}
use core_provider.Tgzfs.Build.{shape, shape_at, view}
use core_provider.Tgzfs.Paths.{Name, is_dot, is_valid}
use core_provider.Tgzfs.Nodes.{is_dir, FileInfo, file_info}
use core_provider.Tgzfs.{Tarfs, get, read_file, stat, content, err_dir, err_not_exist, err_invalid}
use core_provider.Tgzfs.Described.{Listing, contents, stream_contents, described}
use core_provider.Tgzfs.Described.Loop.{empty-IsBuilt, Outcome, add_members-Outcome}

-- what New is to return: the error, or a file system that holds what the members describe, and under
-- whose names every directory has a name
abbrev pub Holds : Result Listing → Result Tarfs × Heap → Type 0
Holds (err e) (r, h) = r ≡ err e
Holds (ok ns) (r, h) =
    (t : Tarfs) × (r ≡ ok t)
    × ((q : FilePath) → view q (t, h) ≡ described q ns)
    × ((q : FilePath) (a : ℕ)
        → lookup q t.entries ≡ some a
        → (is_here (dir q) ≡ true) ⊎ ((b : ℕ) × (lookup (dir q) t.entries ≡ some b)))

-- New returns the first error of the stream, or a file system in which every name stands for the last
-- member that has it, or else, if a longer name implies it, for a directory with no header; and the
-- directory of every name in the map is in the map or is ".".
pub new-Holds :
    (stream : Result (List Member)) (h : Heap) → Holds (stream_contents stream) (new stream h)
unfolding stream_contents new ◌>>=◌ Outcome described view shape_at lookup
new-Holds (err e) h = refl
new-Holds (ok ms) h =
    go (contents ms) (add_members ms empty h) (add_members-Outcome ms empty h (empty-IsBuilt h))
  where
    go : (r : Result Listing) (o : Result Tarfs × Heap) → Outcome (empty, h) r o → Holds r o
    go (err e) o out = out
    go (ok ns) o out = (
      out.made,
      out.returns,
      out.views,
      λ q a there. elim ((out.built.closed (suc (length q.parts))).closed q (omega arith)) [
        | inl absent ↦ absurd (ground arith)
        | inr up ↦ up
      ],
    )

-- what reading a name, and asking for its FileInfo, is to answer
unfoldable pub read_held : Option DirEntry → Result (List ℕ)
read_held none = err (err_not_exist "readfile")
read_held (some v) = if is_dir v then err (err_dir "readfile") else ok (content v)

unfoldable pub read_described : Name → Listing → Result (List ℕ)
unfolding read_held
read_described name ns =
    if is_dot name
    then err (err_dir "readfile")
    else if is_valid name
    then read_held (described (clean name) ns)
    else err (err_invalid "readfile")

unfoldable pub stat_held : Option DirEntry → Result FileInfo
stat_held none = err (err_not_exist "stat")
stat_held (some v) = ok (file_info v)

-- for a name other than "."
unfoldable pub stat_described : Name → Listing → Result FileInfo
unfolding stat_held
stat_described name ns =
    if is_valid name then stat_held (described (clean name) ns) else err (err_invalid "stat")

read-shape :
    (e : DirEntry)
    → (if is_dir e then err (err_dir "readfile") else ok (content e)) ≡ read_held (some (shape e))
unfolding read_held shape with_children is_dir content
read-shape (entry hdr b cs) = refl
read-shape (fake_dir_entry n cs) = refl

file_info-shape : (e : DirEntry) → file_info (shape e) ≡ file_info e
unfolding shape with_children file_info
file_info-shape (entry hdr b cs) = refl
file_info-shape (fake_dir_entry n cs) = refl

module _ (name : Name) (t : Tarfs) (h : Heap) where
  read-view : read_file name t h ≡ (
      if is_dot name
      then err (err_dir "readfile")
      else if is_valid name
      then read_held (view (clean name) (t, h))
      else err (err_invalid "readfile"))
  unfolding read_file get view shape_at read_held
  read-view =
      ap (λ r. if is_dot name then err (err_dir "readfile") else r)
        (go (is_valid name) (lookup (clean name) t.entries))
    where
      after : Result ℕ → Result (List ℕ)
      after (err e) = err e
      after (ok a) = if is_dir (h.cell a) then err (err_dir "readfile") else ok (content (h.cell a))

      found : Option ℕ → Result ℕ
      found none = err (err_not_exist "readfile")
      found (some a) = ok a

      go :
          (valid : Bool) (o : Option ℕ)
          → after (if valid then found o else err (err_invalid "readfile"))
            ≡ (if valid then read_held (shape_at h o) else err (err_invalid "readfile"))
      go false o = refl
      go true none = refl
      go true (some a) = read-shape (h.cell a)

  stat-view :
      is_dot name ≡ false
      → stat name t h
        ≡ (if is_valid name then stat_held (view (clean name) (t, h)) else err (err_invalid "stat"))
  unfolding stat get view shape_at stat_held
  stat-view named = rw named (go (is_valid name) (lookup (clean name) t.entries))
    where
      after : Result ℕ → Result FileInfo
      after (err e) = err e
      after (ok a) = ok (file_info (h.cell a))

      found : Option ℕ → Result ℕ
      found none = err (err_not_exist "stat")
      found (some a) = ok a

      go :
          (valid : Bool) (o : Option ℕ)
          → after (if valid then found o else err (err_invalid "stat"))
            ≡ (if valid then stat_held (shape_at h o) else err (err_invalid "stat"))
      go false o = refl
      go true none = refl
      go true (some a) = ap ok (sym (file_info-shape (h.cell a)))

-- Of an archive that is read without an error, New makes a file system in which ReadFile answers with
-- the bytes of the last member of the name, or with the error for a directory, for a name that no member
-- has or implies, or for a name that is not valid; and Stat, at a name other than ".", with the header of
-- that member, with the implied directory, or with those errors.
pub new-reads :
    (stream : Result (List Member)) (h : Heap) (ns : Listing)
    → stream_contents stream ≡ ok ns
    → (t : Tarfs) × (h' : Heap) × (new stream h ≡ (ok t, h'))
      × ((name : Name) → read_file name t h' ≡ read_described name ns)
      × ((name : Name) → is_dot name ≡ false → stat name t h' ≡ stat_described name ns)
unfolding read_described stat_described
new-reads stream h ns contents_ok = go (rw contents_ok at (new-Holds stream h))
  where
    go :
        Holds (ok ns) (new stream h)
        → (t : Tarfs) × (h' : Heap) × (new stream h ≡ (ok t, h'))
          × ((name : Name) → read_file name t h' ≡ read_described name ns)
          × ((name : Name) → is_dot name ≡ false → stat name t h' ≡ stat_described name ns)
    go (t, made, views, closed) = (
      t,
      (new stream h).1,
      ap (λ r. (r, (new stream h).1)) made,
      λ name. read-view name t (new stream h).1 ∙ rw (views (clean name)) refl,
      λ name named. stat-view name t (new stream h).1 named ∙ rw (views (clean name)) refl,
    )
