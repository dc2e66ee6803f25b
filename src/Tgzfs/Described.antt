-- ===== src/Tgzfs/Described.antt =====
-- internal/tools/tgzfs/fs.go, New: the file system that an archive describes, and that New builds it.
pub mod Loop
pub mod Read
use core_provider.Base.{
  ℕ, suc, ◌+◌, ◌≤◌, ◌<◌, String, List, [], ◌∷◌, ◌++◌, Bool, true, false, not, ◌&&◌, ◌||◌, Option,
  none, some, ◌≡◌, ◌==◌, refl, sym, ◌∙◌, ◌⊎◌, inl, inr, ap, ap, Bool-cases, Option-cases, arith,
  if◌then◌else◌, length,
}
use core_provider.Tgzfs.Paths.{FilePath, file_path, dir, tail, base, is_here, path_eq, path_eq_iff}
use core_provider.Tgzfs.Nodes.{
  DirEntry, entry, fake_dir_entry, children, with_children, Heap, write, allocate, append_child,
  lookup, insert, lookup-insert,
}
use core_provider.Tgzfs.{Tarfs, append_with, append_parts, append}
use core_provider.Base.Result.{Error, Result, ok, err}
use core_provider.Base.Exec.{Exec, ◌>>=◌}
use core_provider.Tgzfs.Paths.{clean}
use core_provider.Tgzfs.Nodes.{Header}
use core_provider.Tgzfs.{Member, member, broken, empty, add_entry, add_member, add_members, new}
use core_provider.Tgzfs.Build.{
  shape, shape_at, view, above, implied, or_else, put, IsBound, IsClosed, Added,
}
use core_provider.Tgzfs.Build.Append.{append_parts-Added}
use core_provider.Tgzfs.Build.Closed.{append-IsClosed}

-- the members in order, each under its cleaned name
abbrev pub Listing : Type 0
Listing = List (FilePath × DirEntry)

unfoldable pub listed : Header → Result (List ℕ) → Result Listing → Result Listing
listed hdr body rest = if is_here (clean hdr.name) then rest else elim body [
  | err e ↦ err e
  | ok b ↦ elim rest [ err e ↦ err e | ok ns ↦ ok ((clean hdr.name, entry hdr b []) ∷ ns) ]
]

-- The members of an archive, or its first error. What is called "." is left out.
unfoldable pub contents : List Member → Result Listing
unfolding listed
contents [] = ok []
contents (broken e ∷ ms) = err e
contents (member hdr body ∷ ms) = listed hdr body (contents ms)

-- the last member with a name, and whether one has the name on its way
unfoldable pub last_of : FilePath → Listing → Option DirEntry
last_of q [] = none
last_of q ((p, v) ∷ ns) = or_else (last_of q ns) (if path_eq q p then some v else none)

unfoldable pub on_way : FilePath → Listing → Bool
on_way q [] = false
on_way q ((p, v) ∷ ns) = above q p || on_way q ns

unfoldable pub described_after : Option DirEntry → FilePath → Listing → Option DirEntry
unfolding last_of on_way
described_after old q ns =
    or_else (last_of q ns) (or_else old (if on_way q ns then some (implied q) else none))

-- What an archive holds under a name: the last member that has it, or else the directory that a longer
-- name implies.
unfoldable pub described : FilePath → Listing → Option DirEntry
unfolding described_after
described = described_after none

pub described-put :
    (q p : FilePath) (v : DirEntry) (old : Option DirEntry) (ns : Listing)
    → described_after (put p v q old) q ns ≡ described_after old q ((p, v) ∷ ns)
unfolding described_after put last_of on_way
described-put q p v old ns = go (last_of q ns) (path_eq q p) old
  where
    go :
        (last : Option DirEntry) (same : Bool) (old : Option DirEntry)
        → or_else last (
            or_else
              (if same then some v else or_else old (if above q p then some (implied q) else none))
              (if on_way q ns then some (implied q) else none))
          ≡ or_else
              (or_else last (if same then some v else none))
              (or_else old (if above q p || on_way q ns then some (implied q) else none))
    go (some w) same old = refl
    go none true old = refl
    go none false (some w) = refl
    go none false none = ground arith

pub described-nil : (q : FilePath) (o : Option DirEntry) → described_after o q [] ≡ o
unfolding described_after last_of on_way
described-nil q none = refl
described-nil q (some v) = refl

pub described-cons :
    (q : FilePath) (n : FilePath × DirEntry) (o : Option DirEntry) (ns : Listing)
    → described_after (described_after o q (n ∷ [])) q ns ≡ described_after o q (n ∷ ns)
described-cons q (p, v) o ns =
    rw (sym (described-put q p v o []), described-nil q (put p v q o)) (described-put q p v o ns)

-- the members of the stream, or the first error, that of the header of gzip included
unfoldable pub stream_contents : Result (List Member) → Result Listing
stream_contents (err e) = err e
stream_contents (ok ms) = contents ms
