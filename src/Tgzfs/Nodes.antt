-- ===== src/Tgzfs/Nodes.antt =====
-- internal/tools/tgzfs/fs.go, entry and fakeDirEntry, and what file.go and archive/tar say of a file.
use Prim.Native.Nat.{bit_and}
use core_provider.Base.{
  ℕ, suc, ◌+◌, ◌/◌, ◌%◌, String, List, [], ◌∷◌, ◌++◌, Bool, true, Option, none, some, ◌≡◌, refl,
  ◌==◌, arith, if◌then◌else◌,
}
use core_provider.Tgzfs.Paths.{Name, FilePath, clean, base, written_base, path_eq, path_eq_iff}

-- What a tar.Header says. `mode` is the fs.FileMode that its FileInfo computes, type bits included.
pub record Header : Type 0 where
  pub name : Name
  pub mode : ℕ
  pub size : ℕ
  pub mod_time : ℕ

-- fs.ModeDir, and fs.ModeType: the bits of directory, symlink, device, pipe, socket, character device
-- and irregular file
abbrev pub mode_dir : ℕ
mode_dir = 0x8000_0000

abbrev pub mode_type : ℕ
mode_type = 0x8f28_0000

-- `mode & ModeDir != 0`
unfoldable pub is_dir_mode : ℕ → Bool
is_dir_mode m = m / mode_dir % 2 == 1

-- h.FileInfo().Name()
unfoldable pub header_name : Header → String
header_name h = if is_dir_mode h.mode then base (clean h.name) else written_base h.name

-- `children` is the field `entries`: the addresses of the entries in a directory.
pub data DirEntry : Type 0 where
  entry : Header → (content children : List ℕ) → DirEntry
  fake_dir_entry : String → (children : List ℕ) → DirEntry

-- The three types that an fs.FileInfo of this package has.
pub data FileInfo : Type 0 where
  header_info : Header → FileInfo
  fake_info : String → FileInfo
  root_info : FileInfo

unfoldable pub info_name : FileInfo → String
unfolding header_name
info_name (header_info h) = header_name h
info_name (fake_info n) = n
info_name root_info = "."

unfoldable pub info_size : FileInfo → ℕ
info_size (header_info h) = h.size
info_size (fake_info n) = 0
info_size root_info = 0

unfoldable pub info_mode : FileInfo → ℕ
info_mode (header_info h) = h.mode
info_mode (fake_info n) = mode_dir
info_mode root_info = mode_dir + 0o755

-- `none` is the zero time
unfoldable pub info_mod_time : FileInfo → Option ℕ
info_mod_time (header_info h) = some h.mod_time
info_mod_time (fake_info n) = none
info_mod_time root_info = none

unfoldable pub info_is_dir : FileInfo → Bool
unfolding is_dir_mode
info_is_dir (header_info h) = is_dir_mode h.mode
info_is_dir (fake_info n) = true
info_is_dir root_info = true

-- The methods of the two entries.
unfoldable pub entry_name : DirEntry → String
unfolding header_name
entry_name (entry h b cs) = header_name h
entry_name (fake_dir_entry n cs) = n

unfoldable pub is_dir : DirEntry → Bool
unfolding is_dir_mode
is_dir (entry h b cs) = is_dir_mode h.mode
is_dir (fake_dir_entry n cs) = true

unfoldable pub entry_type : DirEntry → ℕ
entry_type (entry h b cs) = bit_and h.mode mode_type
entry_type (fake_dir_entry n cs) = mode_dir

unfoldable pub info : DirEntry → FileInfo
info (entry h b cs) = header_info h
info (fake_dir_entry n cs) = fake_info n

unfoldable pub file_info : DirEntry → FileInfo
file_info (entry h b cs) = header_info h
file_info (fake_dir_entry n cs) = fake_info n

unfoldable pub children : DirEntry → List ℕ
children (entry h b cs) = cs
children (fake_dir_entry n cs) = cs

unfoldable pub with_children : List ℕ → DirEntry → DirEntry
with_children new (entry h b cs) = entry h b new
with_children new (fake_dir_entry n cs) = fake_dir_entry n new

-- The entries are shared by their pointers. Those from `next` on are not allocated yet.
pub record Heap : Type 0 where
  pub next : ℕ
  pub cell : ℕ → DirEntry

unfoldable pub write : ℕ → DirEntry → Heap → Heap
write a e h = record h { cell = λ b. if b == a then e else h.cell b }

-- `&entry{…}`: the new pointer is the old `next`
unfoldable pub allocate : DirEntry → Heap → Heap
unfolding write
allocate e h = record { next = suc h.next; cell = (write h.next e h).cell }

-- e.append(c)
unfoldable pub append_child : (parent child : ℕ) → Heap → Heap
unfolding write children with_children
append_child parent child h =
    let e = h.cell parent in write parent (with_children (children e ++ child ∷ []) e) h

-- The map from cleaned names to entries.
abbrev pub Entries : Type 0
Entries = List (FilePath × ℕ)

unfoldable pub lookup : FilePath → Entries → Option ℕ
lookup p [] = none
lookup p ((q, a) ∷ es) = if path_eq p q then some a else lookup p es

unfoldable pub insert : FilePath → ℕ → Entries → Entries
insert p a [] = (p, a) ∷ []
insert p a ((q, b) ∷ es) = if path_eq p q then (p, a) ∷ es else (q, b) ∷ insert p a es

pub lookup-insert :
    (p q : FilePath) (a : ℕ) (es : Entries)
    → lookup q (insert p a es) ≡ (if path_eq q p then some a else lookup q es)
unfolding lookup insert
lookup-insert p q a [] = refl
lookup-insert p q a ((r, b) ∷ es) =
    ground (arith, path_eq_iff q p, path_eq_iff p r, path_eq_iff q r, lookup-insert p q a es)
