-- ===== src/Tgzfs/Paging.antt =====
-- internal/tools/tgzfs/file.go: files read, and directories listed, to the end.
use mathlib.Core.List.{append-nil}
use native.Mathlib.Nat.{zero-add}
use core_provider.Base.{
  ℕ, ◌+◌, ◌-◌, ◌^◌, ◌≤◌, ◌<◌, List, ◌++◌, Bool, true, false, some, ◌≡◌, refl, ◌⊎◌, inl, inr, sym,
  ◌∙◌, Bool-cases, leb→le, arith, ◌==◌, leb, length, take, drop,
}
use core_provider.Base.Result.{panic, ok, err}
use core_provider.Tgzfs.Nodes.{Heap, is_dir, children}
use core_provider.Tgzfs.{root_listing}
use core_provider.Tgzfs.Files.{
  eof, File, file, root_file, page, read_dir, file_read_dir, root_read_dir,
}
use core_provider.Tgzfs.Loops.{
  collect, Advances, collect-left, length-drop, length-take, take_pos, take-drop, drop_past,
}

-- what one call of ReadDir answers, in the terms of what is left: io.EOF at the end, and before it some
-- of the entries, at most as many as are asked for
abbrev Paged : List ℕ → (pos n : ℕ) → Type 0
Paged entries pos n =
    ((length entries ≤ pos) × (page entries pos n ≡ (err eof, pos)))
    ⊎ ((got : List ℕ) × (pos' : ℕ) × (page entries pos n ≡ (ok got, pos'))
        × (drop pos entries ≡ got ++ drop pos' entries)
        × (0 < length got)
        × (length got ≤ n))

module _ (entries : List ℕ) (pos n : ℕ) (some_n : 0 < n) (before : pos < length entries) where
  left_pos : 0 < length (drop pos entries)
  left_pos = omega (arith, length-drop pos entries)

  whole_page :
      (pos + n ≤ length entries)
      → (drop pos entries ≡ take n (drop pos entries) ++ drop (pos + n) entries)
        × (0 < length (take n (drop pos entries)))
        × (length (take n (drop pos entries)) ≤ n)
  whole_page fits = (
    take-drop pos n entries,
    take_pos n (drop pos entries) some_n left_pos,
    omega (arith, length-drop pos entries, length-take n (drop pos entries)),
  )

  last_page : drop pos entries ≡ drop pos entries ++ drop (pos + length (drop pos entries)) entries
  last_page =
      rw
        (drop_past (pos + length (drop pos entries)) entries
          (omega (arith, length-drop pos entries)))
        (sym (append-nil (drop pos entries)))

page-Paged :
    (entries : List ℕ) (pos n : ℕ) → 0 < n → length entries + n < 2 ^ 63 → Paged entries pos n
unfolding page
page-Paged entries pos n some_n fits = elim (Bool-cases (leb (length entries) pos)) [
  | inl past ↦ inl (leb→le _ _ past, rw (past, asks) refl)
  | inr before ↦ inr (elim (Bool-cases (leb (pos + n) (length entries))) [
    | inl whole ↦
        let w = whole_page entries pos n some_n (ground arith) (leb→le _ _ whole) in
        (
          take n (drop pos entries),
          pos + n,
          rw (before, asks, in_range (ground arith), whole) refl,
          w.0,
          w.1,
          w.2,
        )
    | inr part ↦ (
      drop pos entries,
      pos + length (drop pos entries),
      rw (before, asks, in_range (ground arith), part) refl,
      last_page entries pos n some_n (ground arith),
      left_pos entries pos n some_n (ground arith),
      ground (arith, length-drop pos entries),
    )
  ])
]
  where
    asks : (n == 0) ≡ false
    asks = ground arith

    in_range : pos < length entries → leb (2 ^ 63) (pos + n) ≡ false
    in_range h = ground arith

-- a directory that is open
unfoldable pub entries_of : File → Heap → List ℕ
entries_of (file f) h = children (h.cell f.dir_entry)
entries_of (root_file f) h = root_listing f.tfs h

unfoldable pub position : File → ℕ
position (file f) = f.read_dir_pos
position (root_file f) = f.read_dir_pos

unfoldable pub is_directory : File → Heap → Bool
is_directory (file f) h = is_dir (h.cell f.dir_entry)
is_directory (root_file f) h = true

at_position : ℕ → File → File
at_position p (file f) = file (record f { read_dir_pos = p })
at_position p (root_file f) = root_file (record f { read_dir_pos = p })

-- ReadDir reads a page, and moves its position only
read_dir-page :
    (n : ℕ) (f : File) (h : Heap)
    → is_directory f h ≡ true
    → read_dir n f h ≡ (
      (page (entries_of f h) (position f) n).0,
      at_position (page (entries_of f h) (position f) n).1 f,
    )
unfolding read_dir file_read_dir root_read_dir entries_of position is_directory at_position
read_dir-page n (file f) h dir = rw dir refl
read_dir-page n (root_file f) h dir = refl

module _ (h : Heap) (p : ℕ) where
  entries_of-at : (f : File) → entries_of (at_position p f) h ≡ entries_of f h
  unfolding entries_of at_position
  entries_of-at (file f) = refl
  entries_of-at (root_file f) = refl

  is_directory-at : (f : File) → is_directory (at_position p f) h ≡ is_directory f h
  unfolding is_directory at_position
  is_directory-at (file f) = refl
  is_directory-at (root_file f) = refl

  position-at : (f : File) → position (at_position p f) ≡ p
  unfolding position at_position
  position-at (file f) = refl
  position-at (root_file f) = refl

abbrev left_of : Heap → File → List ℕ
left_of h f = drop (position f) (entries_of f h)

-- every directory as long as the first, so that the sum stays below the bound
abbrev IsShort : Heap → ℕ → File → Type 0
IsShort h n f = (is_directory f h ≡ true) × (length (entries_of f h) + n < 2 ^ 63)

read_dir-Advances :
    (n : ℕ) (h : Heap)
    → 0 < n
    → (f : File) → IsShort h n f
    → Advances (λ g. read_dir n g h) (IsShort h n) (left_of h) f
read_dir-Advances n h some_n f (dir, fits) =
    elim (page-Paged (entries_of f h) (position f) n some_n fits) [
      | inl (past, e) ↦
          inl (drop_past (position f) (entries_of f h) past, rw (read_dir-page n f h dir, e) refl)
      | inr (got, p, e, parts, some_got, few) ↦ inr (
        got,
        at_position p f,
        rw (read_dir-page n f h dir, e) refl,
        rw (position-at h p f, entries_of-at h p f) parts,
        some_got,
        (rw (is_directory-at h p f) dir, rw (entries_of-at h p f) fits),
      )
    ]

-- The calls ReadDir(n), with `n` positive, list what is left of a directory, each entry once and in
-- order, and then io.EOF; a call for each entry and one more are enough. The directory is not changed
-- meanwhile, and its length and `n` together are below 2 ^ 63.
pub list_to_end :
    (n : ℕ) (f : File) (h : Heap) (k : ℕ)
    → 0 < n
    → is_directory f h ≡ true
    → length (entries_of f h) + n < 2 ^ 63
    → length (entries_of f h) < k
    → collect (λ g. read_dir n g h) k f ≡ some (drop (position f) (entries_of f h), eof)
list_to_end n f h k some_n dir fits fuel =
    collect-left (λ g. read_dir n g h) (IsShort h n) (left_of h) (read_dir-Advances n h some_n) k f
      (dir, fits) (omega (arith, length-drop (position f) (entries_of f h)))

-- the answers of ReadDir and the new positions, over any position
page-first :
    (entries : List ℕ) (n : ℕ)
    → 0 < n
    → n ≤ length entries
    → n < 2 ^ 63
    → page entries 0 n ≡ (ok (take n entries), n)
unfolding page
page-first entries n some_n whole fits = ground (arith, zero-add n)

page-whole :
    (entries : List ℕ) (n : ℕ)
    → 0 < length entries
    → length entries < n
    → n < 2 ^ 63
    → page entries 0 n ≡ (ok entries, 0 + length entries)
unfolding page
page-whole entries n some_entry more fits = ground (arith, zero-add n)

page-overflow :
    (entries : List ℕ) (pos n : ℕ)
    → pos < length entries
    → 0 < n
    → 2 ^ 63 ≤ pos + n
    → page entries pos n ≡ (err (panic "slice bounds out of range"), pos)
unfolding page
page-overflow entries pos n before some_n over = ground arith

-- In a directory of more than one entry that is read from its start, after ReadDir(1) has returned the
-- first entry, ReadDir of the largest int panics; and the same call made at once returns all entries, if
-- they are fewer than 2 ^ 63 - 1.
pub read_dir-overflow :
    (f : File) (h : Heap)
    → is_directory f h ≡ true
    → position f ≡ 0
    → 1 < length (entries_of f h)
    → length (entries_of f h) < 2 ^ 63 - 1
    → ((read_dir 1 f h).0 ≡ ok (take 1 (entries_of f h)))
      × ((read_dir (2 ^ 63 - 1) (read_dir 1 f h).1 h).0 ≡ err (panic "slice bounds out of range"))
      × ((read_dir (2 ^ 63 - 1) f h).0 ≡ ok (entries_of f h))
read_dir-overflow f h dir start many fits = (
  rw (read_dir-page 1 f h dir, start, first) refl,
  rw (read_dir-page 1 f h dir, start, first) second,
  rw
      (
        read_dir-page (2 ^ 63 - 1) f h dir,
        start,
        page-whole (entries_of f h) (2 ^ 63 - 1) (omega arith) (omega arith) (omega arith),
      )
      refl,
)
  where
    first : page (entries_of f h) 0 1 ≡ (ok (take 1 (entries_of f h)), 1)
    first = page-first (entries_of f h) 1 (omega arith) (omega arith) (omega arith)

    second : (read_dir (2 ^ 63 - 1) (at_position 1 f) h).0 ≡ err (panic "slice bounds out of range")
    second =
        rw
          (
            read_dir-page (2 ^ 63 - 1) (at_position 1 f) h (is_directory-at h 1 f ∙ dir),
            position-at h 1 f,
            entries_of-at h 1 f,
            page-overflow (entries_of f h) 1 (2 ^ 63 - 1) many (omega arith) (omega arith),
          )
          refl
