-- ===== src/Tgzfs/Files.antt =====
-- internal/tools/tgzfs/file.go: open files and directories. bytes.Reader is the standard library's; of
-- it the position and the bytes are kept. A length and a count are below 2 ^ 63.
use core_provider.Base.{
  ℕ, ◌+◌, ◌-◌, ◌^◌, List, [], Option, none, some, ◌==◌, ltb, leb, length, take, drop, if◌then◌else◌,
}
use core_provider.Base.Result.{Error, text, panic, Result, ok, err}
use core_provider.Tgzfs.Paths.{Name, is_dot}
use core_provider.Tgzfs.Nodes.{
  DirEntry, entry, fake_dir_entry, FileInfo, root_info, is_dir, info, children, Heap,
}
use core_provider.Tgzfs.{Tarfs, err_dir, err_not_dir, get, root_listing}

abbrev pub eof : Error
eof = text "EOF"

pub record Reader : Type 0 where
  pub bytes : List ℕ
  pub at : ℕ

-- `dir_entry` is the pointer to the entry; `reader` is nil for a fakeDirEntry.
pub record OpenFile : Type 0 where
  pub dir_entry : ℕ
  pub reader : Option Reader
  pub read_dir_pos : ℕ

-- an open root without an entry of its own
pub record RootFile : Type 0 where
  pub tfs : Tarfs
  pub read_dir_pos : ℕ

pub data File : Type 0 where
  file : OpenFile → File
  root_file : RootFile → File

unfoldable pub reader_of : DirEntry → Option Reader
reader_of (entry h b cs) = some (record { bytes = b; at = 0 })
reader_of (fake_dir_entry n cs) = none

-- newFile(e)
unfoldable pub new_file : ℕ → Heap → OpenFile
unfolding reader_of
new_file a h = record { dir_entry = a; reader = reader_of (h.cell a); read_dir_pos = 0 }

-- tfs.Open(name)
unfoldable pub open_name : Name → Tarfs → Heap → Result File
open_name name t h =
    if is_dot name
    then ok (elim t.root_entry [
      | none ↦ root_file (record { tfs = t; read_dir_pos = 0 })
      | some e ↦ file (new_file e h)
    ])
    else elim (get name "open" t) [ err e ↦ err e | ok a ↦ ok (file (new_file a h)) ]

-- f.Stat()
unfoldable pub stat : File → Heap → FileInfo
stat (file f) h = info (h.cell f.dir_entry)
stat (root_file f) h = root_info

unfoldable pub nil_reader : Error
nil_reader = panic "invalid memory address or nil pointer dereference"

-- r.Read(b) with room for `n` bytes: what is read, and the position after it
unfoldable pub reader_read : ℕ → Reader → Result (List ℕ) × Reader
reader_read n r =
    if leb (length r.bytes) r.at
    then (err eof, r)
    else let got = take n (drop r.at r.bytes) in (ok got, record r { at = r.at + length got })

unfoldable pub read_with : ℕ → OpenFile → Option Reader → Result (List ℕ) × OpenFile
unfolding nil_reader
read_with n f none = (err nil_reader, f)
read_with n f (some r) = let (got, r') = reader_read n r in (got, record f { reader = some r' })

-- f.Read(b)
unfoldable pub file_read : ℕ → OpenFile → Heap → Result (List ℕ) × OpenFile
unfolding read_with
file_read n f h =
    if is_dir (h.cell f.dir_entry) then (err (err_dir "read"), f) else read_with n f f.reader

unfoldable pub read : ℕ → File → Heap → Result (List ℕ) × File
read n (file f) h = let (got, f') = file_read n f h in (got, file f')
read n (root_file f) h = (err (err_dir "read"), root_file f)

-- A signed offset, and what it counts from.
pub data Offset : Type 0 where
  forward back : ℕ → Offset

pub data Whence : Type 0 where
  from_start from_here from_end : Whence

seek_base : Whence → Reader → ℕ
seek_base from_start r = 0
seek_base from_here r = r.at
seek_base from_end r = length r.bytes

-- the new position, or none if it is negative
seek_target : Offset → ℕ → Option ℕ
seek_target (forward n) base = some (base + n)
seek_target (back n) base = if ltb base n then none else some (base - n)

seek_with : Offset → Whence → OpenFile → Option Reader → Result ℕ × OpenFile
unfolding nil_reader seek_base seek_target
seek_with o w f none = (err nil_reader, f)
seek_with o w f (some r) = elim (seek_target o (seek_base w r)) [
  | none ↦ (err (text "bytes.Reader.Seek: negative position"), f)
  | some p ↦ (ok p, record f { reader = some (record r { at = p }) })
]

-- f.Seek(offset, whence)
unfoldable pub seek : Offset → Whence → OpenFile → Heap → Result ℕ × OpenFile
unfolding seek_with
seek o w f h =
    if is_dir (h.cell f.dir_entry) then (err (err_dir "seek"), f) else seek_with o w f f.reader

-- The two ReadDir: the entries from `pos` on, at most `n` of them, and the new position. `n` is 0 for
-- every count that is not positive. The sum is an int of 64 bits: past the largest it is negative, so
-- it is at most the length, and is then a bound of a slice.
unfoldable pub page : List ℕ → (pos n : ℕ) → Result (List ℕ) × ℕ
page entries pos n =
    if leb (length entries) pos
    then (if n == 0 then (ok [], pos) else (err eof, pos))
    else if n == 0
    then (ok (drop pos entries), pos + length (drop pos entries))
    else if leb (2 ^ 63) (pos + n)
    then (err (panic "slice bounds out of range"), pos)
    else if leb (pos + n) (length entries)
    then (ok (take n (drop pos entries)), pos + n)
    else (ok (drop pos entries), pos + length (drop pos entries))

-- f.ReadDir(n)
unfoldable pub file_read_dir : ℕ → OpenFile → Heap → Result (List ℕ) × OpenFile
unfolding page
file_read_dir n f h =
    if is_dir (h.cell f.dir_entry)
    then (let (r, pos) = page (children (h.cell f.dir_entry)) f.read_dir_pos n in
        (r, record f { read_dir_pos = pos }))
    else (err (err_not_dir "readdir"), f)

-- rf.ReadDir(n)
unfoldable pub root_read_dir : ℕ → RootFile → Heap → Result (List ℕ) × RootFile
unfolding page
root_read_dir n f h =
    let (r, pos) = page (root_listing f.tfs h) f.read_dir_pos n in
    (r, record f { read_dir_pos = pos })

unfoldable pub read_dir : ℕ → File → Heap → Result (List ℕ) × File
unfolding file_read_dir root_read_dir
read_dir n (file f) h = let (r, f') = file_read_dir n f h in (r, file f')
read_dir n (root_file f) h = let (r, f') = root_read_dir n f h in (r, root_file f')
