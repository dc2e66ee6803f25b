-- ===== src/Tgzfs/Build.antt =====
-- internal/tools/tgzfs/fs.go, New and append: what the file system holds under each name.
pub mod Steps
pub mod Append
pub mod Closed
use core_provider.Base.{
  ℕ, suc, ◌+◌, ◌≤◌, ◌<◌, String, List, [], ◌∷◌, ◌++◌, Bool, true, false, not, ◌&&◌, ◌||◌, Option,
  none, some, ◌≡◌, refl, ◌⊎◌, inl, inr, ap, Bool-cases, Option-cases, arith, if◌then◌else◌, length,
}
use core_provider.Tgzfs.Paths.{FilePath, file_path, dir, tail, base, is_here, path_eq, path_eq_iff}
use core_provider.Tgzfs.Nodes.{
  DirEntry, entry, fake_dir_entry, children, with_children, Heap, write, allocate, append_child,
  lookup, insert, lookup-insert,
}
use core_provider.Tgzfs.{Tarfs, append_with, append_parts, append}

-- append calls itself for the directory of the name until it meets "." or a name that is there. The
-- call at "/", whose directory is "/" again, is not made: the equation of the source holds.
pub append_lem :
    (p : FilePath) (e : ℕ) (s : Tarfs × Heap) → append p e s ≡ append_with (append (dir p)) p e s
unfolding append append_parts append_with dir tail is_here
append_lem p e (t, h) = go p.rooted p.parts
  where
    go :
        (r : Bool) (ps : List String)
        → append_parts r ps e (t, h)
          ≡ append_with (append_parts r (tail ps)) (file_path r ps) e (t, h)
    go true [] = ground (
      arith,
      lookup-insert (file_path true []) (file_path true []) e t.entries,
      path_eq_iff (file_path true []) (file_path true []),
    )
    go false [] = refl
    go r (x ∷ ps) = refl

-- an entry without what it contains
unfoldable pub shape : DirEntry → DirEntry
unfolding with_children
shape e = with_children [] e

unfoldable pub shape_at : Heap → Option ℕ → Option DirEntry
unfolding shape
shape_at h none = none
shape_at h (some a) = some (shape (h.cell a))

-- what a name stands for
unfoldable pub view : FilePath → Tarfs × Heap → Option DirEntry
unfolding shape_at
view q (t, h) = shape_at h (lookup q t.entries)

-- `q` is a directory on the way to the parts, and not "."
unfoldable pub above_parts : FilePath → Bool → List String → Bool
above_parts q r [] = false
above_parts q r (x ∷ ps) = path_eq q (file_path r ps) || above_parts q r ps

unfoldable pub above : FilePath → FilePath → Bool
unfolding above_parts
above q p = above_parts q p.rooted p.parts && not (is_here q)

abbrev pub implied : FilePath → DirEntry
implied q = fake_dir_entry (base q) []

-- every pointer in the map is allocated
pub record IsBound (s : Tarfs × Heap) : Type 0 where
  pub bound : (q : FilePath) (a : ℕ) → lookup q s.0.entries ≡ some a → a < s.1.next

-- the directory of every name with fewer than `n` parts is in the map, or is "."
pub record IsClosed (n : ℕ) (t : Tarfs) : Type 0 where
  pub closed :
      (q : FilePath)
      → length q.parts < n
      → (lookup q t.entries ≡ none)
        ⊎ (is_here (dir q) ≡ true)
        ⊎ ((a : ℕ) × (lookup (dir q) t.entries ≡ some a))

abbrev pub or_else : Option DirEntry → Option DirEntry → Option DirEntry
or_else (some v) o = some v
or_else none o = o

-- what the map says of `q` once `p` is put there, given what it has said
unfoldable pub put : FilePath → DirEntry → FilePath → Option DirEntry → Option DirEntry
unfolding above
put p v q old =
    if path_eq q p then some v else or_else old (if above q p then some (implied q) else none)

-- What a call for the parts promises of the state that it leaves.
pub record Added (p : FilePath) (e : ℕ) (s s' : Tarfs × Heap) : Type 0 where
  pub views : (q : FilePath) → view q s' ≡ put p (shape (s.1.cell e)) q (view q s)
  pub bounds : IsBound s'
  pub grows : s.1.next ≤ s'.1.next
  pub keeps : (a : ℕ) → a < s.1.next → shape (s'.1.cell a) ≡ shape (s.1.cell a)
