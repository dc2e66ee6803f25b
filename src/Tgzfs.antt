-- ===== src/Tgzfs.antt =====
-- internal/tools/tgzfs/fs.go and errors.go: a file system over the members of a tar.gz archive.
-- What gzip and archive/tar read from the stream is an argument: the members in order, the end of the
-- list being io.EOF. `Exec Heap` changes the entries, which all file systems and open files share.
pub mod Paths
pub mod Nodes
pub mod Files
pub mod Build
pub mod Described
pub mod Sub
pub mod Loops
pub mod Paging
pub mod Reading
pub mod Roots
use Prim.Native.String.{compare}
use package.text.Mathlib.Text.{is_lt}
use core_provider.Base.{
  ℕ, String, List, [], ◌∷◌, ◌++◌, Bool, false, Option, none, some, if◌then◌else◌,
}
use core_provider.Base.Result.{Error, text, wrap, Result, ok, err}
use core_provider.Base.Exec.{Exec, pure, raise, lift, ◌>>=◌}
use core_provider.Tgzfs.Paths.{
  Name, FilePath, file_path, clean, dir, base, is_dot, is_here, is_valid, strip,
}
use core_provider.Tgzfs.Nodes.{
  Header, DirEntry, entry, fake_dir_entry, FileInfo, root_info, header_name, is_dir_mode,
  entry_name, is_dir, info, file_info, children, with_children, Heap, write, allocate, append_child,
  Entries, lookup, insert,
}

-- What the tar reader gives next: a member with its bytes, or an error in reading them; or an error.
pub data Member : Type 0 where
  member : Header → Result (List ℕ) → Member
  broken : Error → Member

-- `root_entry` is set by Sub; `root_entries` is then the slice of that entry, so the entry is asked.
pub record Tarfs : Type 0 where
  pub entries : Entries
  pub root_entries : List ℕ
  pub root_entry : Option ℕ

abbrev pub empty : Tarfs
empty = record { entries = []; root_entries = []; root_entry = none }

-- &fs.PathError{Op: op, Path: name, Err: …}, of which the operation and the cause are kept
unfoldable pub err_invalid : String → Error
err_invalid op = wrap op (text "invalid argument")

unfoldable pub err_not_exist : String → Error
err_not_exist op = wrap op (text "file does not exist")

unfoldable pub err_not_dir : String → Error
err_not_dir op = wrap op (text "not a directory")

unfoldable pub err_dir : String → Error
err_dir op = wrap op (text "is a directory")

-- tfs.append(name, e), where `attach_parent` is its call of itself for the directory
unfoldable pub append_with :
    (attach_parent : ℕ → Tarfs × Heap → Tarfs × Heap) → FilePath → ℕ → Tarfs × Heap → Tarfs × Heap
append_with attach_parent name e (t, h) =
    let t' = record t { entries = insert name e t.entries } in
    if is_here (dir name)
    then (record t' { root_entries = t'.root_entries ++ e ∷ [] }, h)
    else elim (lookup (dir name) t'.entries) [
      | some parent ↦ (t', append_child parent e h)
      | none ↦
          let (t'', h') =
            attach_parent h.next (t', allocate (fake_dir_entry (base (dir name)) []) h) in
          (t'', append_child h.next e h')
    ]

-- The directory of "/" is "/", which is then in the map: the call is not made.
unfoldable pub append_parts : Bool → List String → ℕ → Tarfs × Heap → Tarfs × Heap
append_parts r [] = append_with (λ _ s. s) (file_path r [])
append_parts r (x ∷ ps) = append_with (append_parts r ps) (file_path r (x ∷ ps))

unfoldable pub append : FilePath → ℕ → Tarfs × Heap → Tarfs × Heap
unfolding append_parts
append p = append_parts p.rooted p.parts

-- one round of the loop of New
unfoldable pub add_entry : Header → List ℕ → Tarfs → Exec Heap Tarfs
add_entry hdr b t h =
    let (t', h') = append (clean hdr.name) h.next (t, allocate (entry hdr b []) h) in (ok t', h')

unfoldable pub add_member : Header → Result (List ℕ) → Tarfs → Exec Heap Tarfs
add_member hdr body t =
    if is_here (clean hdr.name) then pure t else (do b ← lift body; add_entry hdr b t)

unfoldable pub add_members : List Member → Tarfs → Exec Heap Tarfs
add_members [] t = pure t
add_members (broken e ∷ ms) t = raise e
add_members (member hdr body ∷ ms) t = do t' ← add_member hdr body t; add_members ms t'

-- New(r), after gzip.NewReader
unfoldable pub new : Result (List Member) → Exec Heap Tarfs
new stream = do ms ← lift stream; add_members ms empty

-- tfs.get(name, op)
unfoldable pub get : Name → String → Tarfs → Result ℕ
get name op t =
    if is_valid name
    then elim (lookup (clean name) t.entries) [ none ↦ err (err_not_exist op) | some e ↦ ok e ]
    else err (err_invalid op)

-- what the slice of the root holds now
unfoldable pub root_listing : Tarfs → Heap → List ℕ
root_listing t h = elim t.root_entry [ none ↦ t.root_entries | some e ↦ children (h.cell e) ]

-- `entries[i].Name() < entries[j].Name()`
name_lt : Heap → ℕ → ℕ → Bool
name_lt h a b = is_lt (compare (entry_name (h.cell a)) (entry_name (h.cell b)))

place : Heap → ℕ → List ℕ → List ℕ
place h a [] = a ∷ []
place h a (b ∷ bs) = if name_lt h b a then b ∷ place h a bs else a ∷ b ∷ bs

-- sort.Slice by name; where names are equal it may leave the entries in another order
unfoldable pub sort_by_name : Heap → List ℕ → List ℕ
unfolding name_lt place
sort_by_name h [] = []
sort_by_name h (a ∷ rest) = place h a (sort_by_name h rest)

-- tfs.ReadDir(name); the entry's own slice is sorted
unfoldable pub read_dir : Name → Tarfs → Exec Heap (List ℕ)
read_dir name t h =
    if is_dot name then (ok (root_listing t h), h) else elim (get name "readdir" t) [
      | err e ↦ (err e, h)
      | ok a ↦
          let sorted = sort_by_name h (children (h.cell a)) in
          if is_dir (h.cell a)
          then (ok sorted, write a (with_children sorted (h.cell a)) h)
          else (err (err_not_dir "readdir"), h)
    ]

-- `e.(*entry)`; the other type has been sent away as a directory
unfoldable pub content : DirEntry → List ℕ
content (entry hdr b cs) = b
content (fake_dir_entry n cs) = []

-- tfs.ReadFile(name)
unfoldable pub read_file : Name → Tarfs → Heap → Result (List ℕ)
read_file name t h =
    if is_dot name then err (err_dir "readfile") else elim (get name "readfile" t) [
      | err e ↦ err e
      | ok a ↦ if is_dir (h.cell a) then err (err_dir "readfile") else ok (content (h.cell a))
    ]

-- tfs.Stat(name)
unfoldable pub stat : Name → Tarfs → Heap → Result FileInfo
stat name t h =
    if is_dot name
    then elim t.root_entry [ none ↦ ok root_info | some e ↦ ok (info (h.cell e)) ]
    else elim (get name "stat" t) [ err e ↦ err e | ok a ↦ ok (file_info (h.cell a)) ]

module _ (matches : FilePath → Result Bool) where
  -- the loop of tfs.Glob(pattern), in the order of the model's map; `matches` is path.Match(pattern, ·)
  unfoldable pub glob_entries : Entries → Result (List FilePath)
  glob_entries [] = ok []
  glob_entries ((name, a) ∷ es) =
      let rest = glob_entries es in
      elim (matches name) [
        | err e ↦ err e
        | ok found ↦ elim rest [
          | err e ↦ err e
          | ok names ↦ ok (if found then name ∷ names else names)
        ]
      ]

  unfoldable pub glob : Tarfs → Result (List FilePath)
  glob t = glob_entries t.entries

-- the entries below a directory, under their names from there
unfoldable pub below : List String → Entries → Entries
below under [] = []
below under ((name, a) ∷ es) =
    let rest = below under es in
    if name.rooted then rest else elim (strip under name.parts) [
      | none ↦ rest
      | some ps ↦ insert (file_path false ps) a rest
    ]

-- tfs.Sub(dir)
unfoldable pub sub : Name → Tarfs → Heap → Result Tarfs
sub name t h = if is_dot name then ok t else elim (get name "sub" t) [
  | err e ↦ err e
  | ok a ↦
      if is_dir (h.cell a)
      then ok (record {
        entries = below (clean name).parts t.entries;
        root_entries = children (h.cell a);
        root_entry = some a;
      })
      else err (err_not_dir "sub")
]
