-- ===== src/Chart/Archived.antt =====
-- internal/tools/chart over internal/tools/tgzfs: the packages that the functions of package chart take,
-- and what they read in them.
use mathlib.Core.Path.{subst}
use core_provider.Base.{
  ℕ, suc, ◌<◌, String, List, [], ◌∷◌, true, false, some, ◌≡◌, refl, ap, ◌∙◌, arith, str_append,
  length,
}
use core_provider.Base.Result.{Result, ok, err}
use core_provider.Chart.{Charts, chart_info_from_bytes, from_reader, directories, chart_json_schema}
use core_provider.Chart.Archive.{
  Archive, blank, is_eof, ended, read_all_of, Formats, open_archive, root_names, read_text,
  over_archives,
}
use core_provider.Tgzfs.Paths.{Name, base, clean, is_dot, is_valid}
use core_provider.Tgzfs.Nodes.{
  Header, DirEntry, entry, fake_dir_entry, Heap, entry_name, is_dir, is_dir_mode, with_children,
}
use core_provider.Tgzfs.{Tarfs, new, read_file, root_listing, content}
use core_provider.Tgzfs.Build.{shape, implied}
use core_provider.Tgzfs.Described.{Listing, stream_contents, described}
use core_provider.Tgzfs.Described.Read.{new-reads, read_described, read_held}
use core_provider.Tgzfs.Reading.{open_name-read_file}
use core_provider.Tgzfs.Roots.{top, OneRoot}
use core_provider.Tgzfs.Roots.Package.{Package as NewPackage, AllUnder, new-Package}

-- what an implied directory says of itself
looks-name :
    (x : String) (e : DirEntry) → shape e ≡ implied (top x) → (entry_name e ≡ x) × (is_dir e ≡ true)
unfolding shape with_children entry_name is_dir base
looks-name x (fake_dir_entry n cs) looks = (ground arith, refl)
looks-name x (entry hdr b cs) looks = cc

module _ (f : Formats) where
  -- the root of a package, as it is listed
  root_names-OneRoot :
      (x : String) (t : Tarfs) (h : Heap) → OneRoot x (t, h) → root_names f (t, h) ≡ (x, true) ∷ []
  unfolding root_names root_listing
  root_names-OneRoot x t h one =
      let (name, dir) = looks-name x (h.cell one.address) one.looks in
      rw (one.no_entry, one.roots, name, dir) refl

  -- ReadFile, through Open and ReadAll
  read_text-read_file :
      (name : String) (t : Tarfs) (h : Heap) (b : List ℕ)
      → read_file (f.split name) t h ≡ ok b
      → read_text f (t, h) name ≡ ok (f.text_of b)
  unfolding read_text read_all_of is_eof ended
  read_text-read_file name t h b reads =
      let (opened, opens, size, all) =
        open_name-read_file (f.split name) t h b 512 (suc (length b)) reads (omega arith)
          (omega arith) in
      rw (read_text, opens) (rw (size, all) refl)

  -- the file of a name that a regular member has last
  read_file-described :
      (name : Name) (t : Tarfs) (h : Heap) (ns : Listing) (hdr : Header) (b : List ℕ)
      → is_valid name ≡ true
      → is_dot name ≡ false
      → described (clean name) ns ≡ some (entry hdr b [])
      → is_dir_mode hdr.mode ≡ false
      → read_described name ns ≡ ok b
  unfolding read_described read_held is_dir content
  read_file-described name t h ns hdr b valid named last regular =
      rw (named, valid, last) (rw regular refl)

  opened :
      (bytes : List ℕ) (t : Tarfs) (h : Heap)
      → new (f.unpack bytes) blank ≡ (ok t, h)
      → open_archive f bytes ≡ ok (t, h)
  unfolding open_archive
  opened bytes t h e =
      let outcome : Result Tarfs × Heap → Result Archive =
        λ o. elim o.0 [ err problem ↦ err problem | ok u ↦ ok (u, o.1) ] in
      ap outcome e

-- the one entry at the root of what New returns
root-at :
    (x : String) (o : Result Tarfs × Heap) (t : Tarfs) (h : Heap)
    → NewPackage x o
    → o ≡ (ok t, h)
    → OneRoot x (t, h)
root-at x o t h pk e = subst (λ s. OneRoot x s) same pk.root
  where
    same : ◌≡◌ {A = Tarfs × Heap} (pk.made, o.1) (t, h)
    same = ground (arith, pk.returns, e)

-- what the functions of package chart make of an archive with one directory at its root
module _ {W A : Type 0} (q : Charts W A) (bytes : List ℕ) (a : A) (x : String)
    (opens : q.new_archive bytes ≡ ok a) (names : q.read_root a ≡ (x, true) ∷ []) where
  from_bytes :
      chart_info_from_bytes q bytes ≡ ok (record { archive = a; root_dir = x; package_url = "" })
  unfolding chart_info_from_bytes
  from_bytes = rw (chart_info_from_bytes, opens, names) refl

  from_download :
      (url : String)
      → from_reader q (record { reader = some (ok bytes); url = url })
        ≡ ok (record { archive = a; root_dir = x; package_url = url })
  unfolding from_reader directories
  from_download url = rw (from_reader, opens, names) refl

named : (x : String) → is_dot (x ∷ "values.schema.json" ∷ []) ≡ false
unfolding is_dot
named x = refl

-- A package whose members all lie below the directory `x`, and that has some, is taken by
-- ChartInfoFromBytes and by FromReader, with `x` for its root directory; and where a regular file is the
-- last member with the name `x`/values.schema.json, ChartJsonSchema reads the text of its bytes. The name
-- is valid, and strings.Split divides it at its slash.
pub package-reads :
    {W A : Type 0} (f : Formats) (p : Charts W A) (x : String) (bytes : List ℕ) (url : String)
    (ns : Listing) (hdr : Header) (b : List ℕ)
    → stream_contents (f.unpack bytes) ≡ ok ns
    → AllUnder x ns
    → 0 < length ns
    → f.split (str_append x "/values.schema.json") ≡ x ∷ "values.schema.json" ∷ []
    → is_valid (x ∷ "values.schema.json" ∷ []) ≡ true
    → described (clean (x ∷ "values.schema.json" ∷ [])) ns ≡ some (entry hdr b [])
    → is_dir_mode hdr.mode ≡ false
    → (a : Archive) × (chart_info_from_bytes (over_archives f p) bytes
        ≡ ok (record { archive = a; root_dir = x; package_url = "" }))
      × (from_reader (over_archives f p) (record { reader = some (ok bytes); url = url })
          ≡ ok (record { archive = a; root_dir = x; package_url = url }))
      × (chart_json_schema
            (over_archives f p)
            (record { archive = a; root_dir = x; package_url = "" })
          ≡ ok (f.text_of b))
unfolding over_archives chart_json_schema
package-reads f p x bytes url ns hdr b c all some_member split valid last regular =
    let (t, h, made, reads, stats) = new-reads (f.unpack bytes) blank ns c in
    let root = root-at x _ t h (new-Package x (f.unpack bytes) blank ns c all some_member) made in
    let names = root_names-OneRoot f x t h root in
    let file : read_file (f.split (str_append x "/values.schema.json")) t h ≡ ok b = rw split (
      reads (x ∷ "values.schema.json" ∷ [])
      ∙ read_file-described f _ t h ns hdr b valid (named x) last regular) in
    (
      (t, h),
      from_bytes (over_archives f p) bytes (t, h) x (opened f bytes t h made) names,
      from_download (over_archives f p) bytes (t, h) x (opened f bytes t h made) names url,
      read_text-read_file f (str_append x "/values.schema.json") t h b file,
    )
