-- ===== src/Tgzfs/Reading.antt =====
-- internal/tools/tgzfs/fs.go, ReadFile, beside Open and Read of file.go.
use core_provider.Base.{
  ℕ, ◌+◌, ◌≤◌, ◌<◌, String, List, [], ◌++◌, false, Option, none, some, ◌≡◌, refl, inl, inr, ap, ◌∙◌,
  Bool-cases, leb→le, arith, leb, length, take, drop,
}
use core_provider.Base.Result.{ok, err, Result-split}
use core_provider.Tgzfs.Paths.{Name, is_dot}
use core_provider.Tgzfs.Nodes.{Heap, is_dir, DirEntry, entry, fake_dir_entry}
use core_provider.Tgzfs.{Tarfs, get, read_file, content}
use core_provider.Tgzfs.Files.{
  eof, Reader, OpenFile, File, file, root_file, reader_of, new_file, open_name, read, reader_read,
  read_with, file_read,
}
use core_provider.Tgzfs.Sub.Below.{get-ok}
use core_provider.Tgzfs.Loops.{
  collect, Advances, collect-left, length-drop, take-length, take_pos, take-drop, drop_past,
}

-- how much there is to read
unfoldable pub file_size : File → ℕ
file_size (file f) = elim f.reader [ none ↦ 0 | some r ↦ length r.bytes ]
file_size (root_file f) = 0

-- a regular file that is open
record IsReading (h : Heap) (f : File) : Type 0 where
  opened : OpenFile
  reader : Reader
  is_open : f ≡ file opened
  regular : is_dir (h.cell opened.dir_entry) ≡ false
  reads : opened.reader ≡ some reader

left_in : Option Reader → List ℕ
left_in none = []
left_in (some r) = drop r.at r.bytes

left_of : File → List ℕ
left_of (file f) = left_in f.reader
left_of (root_file f) = []

reading : OpenFile → Reader → File
reading f r = file (record f { reader = some r })

-- Read reads from the reader, and moves its position only
read-reader :
    (n : ℕ) (f : OpenFile) (r : Reader) (h : Heap)
    → is_dir (h.cell f.dir_entry) ≡ false
    → f.reader ≡ some r
    → read n (file f) h ≡ ((reader_read n r).0, reading f (reader_read n r).1)
unfolding read file_read read_with reading
read-reader n f r h regular reads = rw (regular, reads) refl

reader_read_more :
    (n : ℕ) (r : Reader)
    → 0 < n
    → r.at < length r.bytes
    → (got : List ℕ) × (p : ℕ) × (reader_read n r ≡ (ok got, record r { at = p }))
      × (drop r.at r.bytes ≡ got ++ drop p r.bytes)
      × (0 < length got)
unfolding reader_read
reader_read_more n r some_n before = (
  take n (drop r.at r.bytes),
  r.at + length (take n (drop r.at r.bytes)),
  ground arith,
  take-drop r.at (length (take n (drop r.at r.bytes))) r.bytes
      ∙ ap (λ (xs : List ℕ). xs ++ drop (r.at + length (take n (drop r.at r.bytes))) r.bytes)
          (take-length n (drop r.at r.bytes)),
  take_pos n (drop r.at r.bytes) some_n (omega (arith, length-drop r.at r.bytes)),
)

reader_read_over : (n : ℕ) (r : Reader) → length r.bytes ≤ r.at → reader_read n r ≡ (err eof, r)
unfolding reader_read
reader_read_over n r past = ground arith

read-Advances :
    (n : ℕ) (h : Heap)
    → 0 < n
    → (f : File) → IsReading h f
    → Advances (λ g. read n g h) (IsReading h) left_of f
unfolding left_of left_in reading
read-Advances n h some_n f i = elim (Bool-cases (leb (length r.bytes) r.at)) [
  | inl past ↦ inl (
    rw (i.is_open, i.reads) (drop_past r.at r.bytes (leb→le _ _ past)),
    rw
        (
          i.is_open,
          read-reader n i.opened r h i.regular i.reads,
          reader_read_over n r (leb→le _ _ past),
        )
        refl,
  )
  | inr before ↦
      let (got, p, e, parts, some_got) = reader_read_more n r some_n (ground arith) in
      inr (
        got,
        reading i.opened (record r { at = p }),
        rw (i.is_open, read-reader n i.opened r h i.regular i.reads, e) refl,
        rw (i.is_open, i.reads) parts,
        some_got,
        record {
          opened = record i.opened { reader = some (record r { at = p }) };
          reader = record r { at = p };
          is_open = refl;
          regular = i.regular;
          reads = refl;
        },
      )
]
  where
    r : Reader
    r = i.reader

-- what ReadFile has found, where it returns bytes
record Regular (name : Name) (t : Tarfs) (h : Heap) (b : List ℕ) : Type 0 where
  address : ℕ
  named : is_dot name ≡ false
  found : (op : String) → get name op t ≡ ok address
  regular : is_dir (h.cell address) ≡ false
  bytes : content (h.cell address) ≡ b

read_file-Regular :
    (name : Name) (t : Tarfs) (h : Heap) (b : List ℕ)
    → read_file name t h ≡ ok b
    → Regular name t h b
unfolding read_file
read_file-Regular name t h b e = elim (Bool-cases (is_dot name)) [
  | inl dot ↦ absurd (ground arith)
  | inr named ↦ elim (Result-split (get name "readfile" t)) [
    | inr (problem, g) ↦ absurd (ground (arith, g))
    | inl (a, g) ↦ record {
      address = a;
      named = named;
      found = (get-ok name "readfile" t a g).1;
      regular = ground (arith, g);
      bytes = ground (arith, g);
    }
  ]
]

-- the file that Open gives for it, and the reader that it starts with
opened_reader :
    {name : Name} {t : Tarfs} {h : Heap} {b : List ℕ} (r : Regular name t h b)
    → (new_file r.address h).reader ≡ some (record { bytes = b; at = 0 })
unfolding new_file reader_of is_dir content
opened_reader {h} {b} r = go (h.cell r.address) r.regular r.bytes
  where
    go :
        (e : DirEntry)
        → is_dir e ≡ false
        → content e ≡ b
        → reader_of e ≡ some (record { bytes = b; at = 0 })
    go (entry hdr c cs) regular bytes = rw bytes refl
    go (fake_dir_entry n cs) regular bytes = cc

opened_file :
    {name : Name} {t : Tarfs} {h : Heap} {b : List ℕ} (r : Regular name t h b)
    → is_dir (h.cell (new_file r.address h).dir_entry) ≡ false
unfolding new_file
opened_file r = r.regular

-- Where ReadFile returns bytes, Open of the same name returns a file of as many bytes, and the calls Read, each for the
-- same positive number of bytes, return those bytes, in order, and then io.EOF; a call for each byte and
-- one more are enough.
pub open_name-read_file :
    (name : Name) (t : Tarfs) (h : Heap) (b : List ℕ) (n k : ℕ)
    → read_file name t h ≡ ok b
    → 0 < n
    → length b < k
    → (f : File) × (open_name name t h ≡ ok f)
      × (file_size f ≡ length b)
      × (collect (λ g. read n g h) k f ≡ some (b, eof))
unfolding open_name left_of left_in file_size
open_name-read_file name t h b n k reads some_n fuel = (
  file (new_file r.address h),
  rw (r.named, r.found "open") refl,
  rw (opened_reader r) refl,
  collect-left (λ g. read n g h) (IsReading h) left_of (read-Advances n h some_n) k (file opened)
        is_reading (rw left fuel)
      ∙ rw left refl,
)
  where
    r : Regular name t h b
    r = read_file-Regular name t h b reads

    opened : OpenFile
    opened = new_file r.address h

    left : left_of (file opened) ≡ b
    left = rw (opened_reader r) refl

    is_reading : IsReading h (file opened)
    is_reading = record {
      opened = opened;
      reader = record { bytes = b; at = 0 };
      is_open = refl;
      regular = opened_file r;
      reads = opened_reader r;
    }
