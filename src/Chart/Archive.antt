-- ===== src/Chart/Archive.antt =====
-- internal/tools/chart over internal/tools/tgzfs: the archive of a chart as tgzfs.New makes it, its root
-- as fs.ReadDir lists it, and its files as Open and io.ReadAll read them.
use core_provider.Base.{
  ℕ, suc, String, List, [], Bool, true, false, Option, none, some, map, str_eq,
}
use core_provider.Base.Result.{Error, text, panic, Result, ok, err}
use core_provider.Chart.{Charts}
use core_provider.Tgzfs.Paths.{Name}
use core_provider.Tgzfs.Nodes.{fake_dir_entry, Heap, entry_name, is_dir}
use core_provider.Tgzfs.{Member, Tarfs, new, root_listing}
use core_provider.Tgzfs.Files.{File, open_name, read}
use core_provider.Tgzfs.Loops.{collect}
use core_provider.Tgzfs.Reading.{file_size}

-- a file system with the entries that it shares with others
abbrev pub Archive : Type 0
Archive = Tarfs × Heap

abbrev pub blank : Heap
blank = record { next = 0; cell = λ a. fake_dir_entry "" [] }

unfoldable pub is_eof : Error → Bool
is_eof (text s) = str_eq s "EOF"
is_eof _ = false

unfoldable pub ended : Option (List ℕ × Error) → Result (List ℕ)
ended none = err (panic "out of fuel")
ended (some (b, e)) = elim (is_eof e) [ true ↦ ok b | false ↦ err e ]

-- io.ReadAll, with a buffer of 512 bytes for each call; a call for each byte and one more are enough
unfoldable pub read_all_of : File → Heap → Result (List ℕ)
unfolding file_size is_eof ended
read_all_of f h = ended (collect (λ g. read 512 g h) (suc (file_size f)) f)

-- What gzip and archive/tar read from the bytes, the text of some bytes, and strings.Split at "/".
pub record Formats : Type 0 where
  pub unpack : List ℕ → Result (List Member)
  pub text_of : List ℕ → String
  pub split : String → Name

module _ (f : Formats) where
  unfoldable pub open_archive : List ℕ → Result Archive
  open_archive bytes =
      let (r, h) = new (f.unpack bytes) blank in elim r [ err e ↦ err e | ok t ↦ ok (t, h) ]

  -- fs.ReadDir(pkg, "."), the names with whether each is a directory
  unfoldable pub root_names : Archive → List (String × Bool)
  root_names (t, h) = map (λ a. (entry_name (h.cell a), is_dir (h.cell a))) (root_listing t h)

  -- fs.Open(name), and io.ReadAll of the file
  unfoldable pub read_text : Archive → String → Result String
  read_text (t, h) name = elim (open_name (f.split name) t h) [
    | err e ↦ err e
    | ok opened ↦ elim (read_all_of opened h) [ err e ↦ err e | ok b ↦ ok (f.text_of b) ]
  ]

  -- the functions of package chart, over these archives
  unfoldable pub over_archives : {W A : Type 0} → Charts W A → Charts W Archive
  unfolding open_archive root_names read_text
  over_archives p = record {
    api = p.api;
    wait = p.wait;
    secret = p.secret;
    download = p.download;
    new_archive = open_archive;
    read_root = root_names;
    read_file = read_text;
    unmarshal = p.unmarshal;
    replace_all = p.replace_all;
    go_name = p.go_name;
  }
