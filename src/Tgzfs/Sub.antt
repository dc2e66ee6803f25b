-- ===== src/Tgzfs/Sub.antt =====
-- internal/tools/tgzfs/fs.go, Sub: the file system of a directory.
pub mod Below
use core_provider.Base.{
  ℕ, suc, ◌+◌, ◌≤◌, ◌<◌, String, List, [], ◌∷◌, ◌++◌, Bool, true, false, not, ◌&&◌, ◌||◌, Option,
  none, some, ◌≡◌, refl, sym, ◌∙◌, ap, ◌⊎◌, inl, inr, Bool-cases, Option-cases, arith,
  if◌then◌else◌, length, length-append, str_eq, eq_iff,
}
use core_provider.Base.Result.{Error, Result, ok, err, Result-split}
use core_provider.Tgzfs.Paths.{
  Name, FilePath, file_path, clean, clean_parts, clean_part, is_rooted, is_dot, is_valid, all_plain,
  path_eq, path_eq_iff, parts_eq, parts_eq_iff, strip,
}
use core_provider.Tgzfs.Nodes.{is_dir, children, Heap, Entries, lookup, insert, lookup-insert}
use core_provider.Tgzfs.{
  Tarfs, err_invalid, err_not_exist, get, read_dir, read_file, stat, below, sub,
}
use core_provider.Tgzfs.Files.{File, file, new_file, open_name}
use core_provider.Tgzfs.Sub.Below.{plain-append, append-valid, get-below, get-ok}

-- what Sub has found, where it returns a file system
record Found (d : Name) (t s : Tarfs) : Type 0 where
  address : ℕ
  plain : all_plain d ≡ true
  below_dir : s.entries ≡ below (clean d).parts t.entries
  root : s.root_entry ≡ some address
  opened : (op : String) → get d op t ≡ ok address

valid-plain : (n : Name) → is_valid n ≡ true → is_dot n ≡ false → all_plain n ≡ true
unfolding is_valid
valid-plain [] valid named = cc
valid-plain (x ∷ n) valid named = ground arith

if-ok :
    (b : Bool) (r s : Tarfs) (e : Error)
    → ◌≡◌ {A = Result Tarfs} (if b then ok r else err e) (ok s)
    → s ≡ r
if-ok true r s e h = cc
if-ok false r s e h = cc

sub-Found : (d : Name) (t s : Tarfs) (h : Heap) → is_dot d ≡ false → sub d t h ≡ ok s → Found d t s
unfolding sub
sub-Found d t s h named made = elim (Result-split (get d "sub" t)) [
  | inl (a, e) ↦
      let is : s ≡ record {
        entries = below (clean d).parts t.entries;
        root_entries = children (h.cell a);
        root_entry = some a;
      } =
        if-ok (is_dir (h.cell a)) _ s _ (rw (named, e) at made) in
      record {
        address = a;
        plain = valid-plain d (get-ok d "sub" t a e).0 named;
        below_dir = ap (λ (u : Tarfs). u.entries) is;
        root = ap (λ (u : Tarfs). u.root_entry) is;
        opened = (get-ok d "sub" t a e).1;
      }
  | inr (e, q) ↦ absurd (ground (arith, q))
]

nothing-valid : is_valid [] ≡ true → ⊥
unfolding is_valid
nothing-valid valid = cc

module _ {d : Name} {t s : Tarfs} (found : Found d t s) (h : Heap) where
  open-dir : is_dot d ≡ false → open_name d t h ≡ ok (file (new_file found.address h))
  unfolding open_name
  open-dir named = rw (named, found.opened "open") refl

  open-root : open_name ("." ∷ []) s h ≡ ok (file (new_file found.address h))
  unfolding open_name is_dot
  open-root = rw found.root refl

-- Where Sub returns the file system of a directory, a valid name other than "." is read, asked for its
-- FileInfo, listed and opened there as the directory's name with that name behind it is in the whole, and
-- "." is opened there as the directory is in the whole.
pub sub-reads :
    (d : Name) (t s : Tarfs) (h : Heap) (n : Name)
    → is_dot d ≡ false
    → sub d t h ≡ ok s
    → is_valid n ≡ true
    → is_dot n ≡ false
    → (read_file n s h ≡ read_file (d ++ n) t h)
      × (stat n s h ≡ stat (d ++ n) t h)
      × (read_dir n s h ≡ read_dir (d ++ n) t h)
      × (open_name n s h ≡ open_name (d ++ n) t h)
      × (open_name ("." ∷ []) s h ≡ open_name d t h)
unfolding read_file stat read_dir open_name
sub-reads d t s h [] named made valid named_n = absurd (nothing-valid valid)
sub-reads d t s h (x ∷ q) named made valid named_n = (
  rw (named_n, named_all, same "readfile") refl,
  rw (named_n, named_all, same "stat") refl,
  rw (named_n, named_all, same "readdir") refl,
  rw (named_n, named_all, same "open") refl,
  open-root found h ∙ sym (open-dir found h named),
)
  where
    found : Found d t s
    found = sub-Found d t s h named made

    plain_q : all_plain (x ∷ q) ≡ true
    plain_q = valid-plain (x ∷ q) valid named_n

    same : (op : String) → get (x ∷ q) op s ≡ get (d ++ x ∷ q) op t
    same = get-below d x q t s found.plain plain_q found.below_dir

    named_all : is_dot (d ++ x ∷ q) ≡ false
    named_all = (append-valid d x q (plain-append d (x ∷ q) found.plain plain_q)).1
