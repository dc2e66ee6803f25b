-- ===== src/Examples/Archives.antt =====
-- The theorems on archives at the archive of a small chart, and what a header for a directory does that
-- comes after the members in it.
use core_provider.Base.{
  ℕ, ◌-◌, ◌^◌, String, List, [], ◌∷◌, Bool, true, false, Option, none, some, ◌≡◌, refl, arith,
  length, str_eq, map, drop, take, if◌then◌else◌,
}
use core_provider.Base.Result.{text, panic, Result, ok, err}
use core_provider.Base.Exec.{pure, raise}
use core_provider.Examples.Fixtures.{api_errors}
use core_provider.Chart.{Charts, chart_info_from_bytes, from_reader, chart_json_schema}
use core_provider.Chart.Archive.{Archive, blank, Formats, over_archives}
use core_provider.Chart.Archived.{package-reads}
use core_provider.Tgzfs.Paths.{Name, file_path}
use core_provider.Tgzfs.Nodes.{Header, Heap, entry, entry_name, children}
use core_provider.Tgzfs.{
  Member, member, Tarfs, new, sub, get, read_dir, read_file, root_listing, stat,
}
use core_provider.Tgzfs.Files.{File, file, root_file, eof, open_name, read}
use core_provider.Tgzfs.Files
use core_provider.Tgzfs.Loops.{collect}
use core_provider.Tgzfs.Paging
use core_provider.Tgzfs.Paging.{list_to_end, read_dir-overflow}
use core_provider.Tgzfs.Reading.{file_size, open_name-read_file}
use core_provider.Tgzfs.Described.{Listing, described, stream_contents}
use core_provider.Tgzfs.Described.Read.{Holds, new-Holds}
use core_provider.Tgzfs.Sub.{sub-reads}

abbrev a_header : Name → Header
a_header n = record { name = n; mode = 0o644; size = 2; mod_time = 0 }

abbrev a_file : Name → List ℕ → Member
a_file n b = member (a_header n) (ok b)

abbrev a_directory : Name → Member
a_directory n = member (record (a_header n) { mode = 0x8000_01ed }) (ok [])

abbrev schema_name : Name
schema_name = "chart" ∷ "values.schema.json" ∷ []

abbrev a_chart : List Member
a_chart =
    a_file ("chart" ∷ "Chart.yaml" ∷ []) (1 ∷ [])
    ∷ a_file schema_name (7 ∷ 8 ∷ [])
    ∷ a_file ("chart" ∷ "templates" ∷ "a.yaml" ∷ []) (3 ∷ [])
    ∷ []

abbrev a_listing : Listing
a_listing =
    (
      file_path false ("Chart.yaml" ∷ "chart" ∷ []),
      entry (a_header ("chart" ∷ "Chart.yaml" ∷ [])) (1 ∷ []) [],
    )
    ∷ (
      file_path false ("values.schema.json" ∷ "chart" ∷ []),
      entry (a_header schema_name) (7 ∷ 8 ∷ []) [],
    )
    ∷ (
      file_path false ("a.yaml" ∷ "templates" ∷ "chart" ∷ []),
      entry (a_header ("chart" ∷ "templates" ∷ "a.yaml" ∷ [])) (3 ∷ []) [],
    )
    ∷ []

chart_fs : Tarfs × Heap
chart_fs = (
  record {
    entries =
        (file_path false ("Chart.yaml" ∷ "chart" ∷ []), 0)
        ∷ (file_path false ("chart" ∷ []), 1)
        ∷ (file_path false ("values.schema.json" ∷ "chart" ∷ []), 2)
        ∷ (file_path false ("a.yaml" ∷ "templates" ∷ "chart" ∷ []), 3)
        ∷ (file_path false ("templates" ∷ "chart" ∷ []), 4)
        ∷ [];
    root_entries = 1 ∷ [];
    root_entry = none;
  },
  (new (ok a_chart) blank).1,
)

new_chart : new (ok a_chart) blank ≡ (ok chart_fs.0, chart_fs.1)
unfolding core_provider.Base.Exec.◌>>=◌ core_provider.Tgzfs.Nodes.allocate
    core_provider.Tgzfs.Nodes.append_child core_provider.Tgzfs.Nodes.children
    core_provider.Tgzfs.Nodes.insert core_provider.Tgzfs.Nodes.lookup
    core_provider.Tgzfs.Nodes.with_children core_provider.Tgzfs.Nodes.write
    core_provider.Tgzfs.Paths.base core_provider.Tgzfs.Paths.bool_eq core_provider.Tgzfs.Paths.clean
    core_provider.Tgzfs.Paths.clean_part core_provider.Tgzfs.Paths.clean_parts
    core_provider.Tgzfs.Paths.dir core_provider.Tgzfs.Paths.is_here
    core_provider.Tgzfs.Paths.is_rooted core_provider.Tgzfs.Paths.parts_eq
    core_provider.Tgzfs.Paths.path_eq core_provider.Tgzfs.Paths.tail core_provider.Tgzfs.Paths.up
    core_provider.Tgzfs.add_entry core_provider.Tgzfs.add_member core_provider.Tgzfs.add_members
    core_provider.Tgzfs.append core_provider.Tgzfs.append_parts core_provider.Tgzfs.append_with
    core_provider.Tgzfs.new chart_fs
new_chart = refl

new-Holds_example : Holds (ok a_listing) (new (ok a_chart) blank)
unfolding core_provider.Tgzfs.Described.contents core_provider.Tgzfs.Described.listed
    core_provider.Tgzfs.Described.stream_contents core_provider.Tgzfs.Nodes.children
    core_provider.Tgzfs.Paths.clean core_provider.Tgzfs.Paths.clean_part
    core_provider.Tgzfs.Paths.clean_parts core_provider.Tgzfs.Paths.is_here
    core_provider.Tgzfs.Paths.is_rooted core_provider.Tgzfs.Paths.up
new-Holds_example = new-Holds (ok a_chart) blank

schema_bytes : read_file schema_name chart_fs.0 chart_fs.1 ≡ ok (7 ∷ 8 ∷ [])
unfolding core_provider.Base.Exec.◌>>=◌ core_provider.Tgzfs.Nodes.allocate
    core_provider.Tgzfs.Nodes.append_child core_provider.Tgzfs.Nodes.children
    core_provider.Tgzfs.Nodes.insert core_provider.Tgzfs.Nodes.is_dir
    core_provider.Tgzfs.Nodes.is_dir_mode core_provider.Tgzfs.Nodes.lookup
    core_provider.Tgzfs.Nodes.with_children core_provider.Tgzfs.Nodes.write
    core_provider.Tgzfs.Paths.all_plain core_provider.Tgzfs.Paths.base
    core_provider.Tgzfs.Paths.bool_eq core_provider.Tgzfs.Paths.clean
    core_provider.Tgzfs.Paths.clean_part core_provider.Tgzfs.Paths.clean_parts
    core_provider.Tgzfs.Paths.dir core_provider.Tgzfs.Paths.is_dot core_provider.Tgzfs.Paths.is_here
    core_provider.Tgzfs.Paths.is_rooted core_provider.Tgzfs.Paths.is_valid
    core_provider.Tgzfs.Paths.parts_eq core_provider.Tgzfs.Paths.path_eq
    core_provider.Tgzfs.Paths.tail core_provider.Tgzfs.Paths.up core_provider.Tgzfs.add_entry
    core_provider.Tgzfs.add_member core_provider.Tgzfs.add_members core_provider.Tgzfs.append
    core_provider.Tgzfs.append_parts core_provider.Tgzfs.append_with core_provider.Tgzfs.content
    core_provider.Tgzfs.err_dir core_provider.Tgzfs.err_invalid core_provider.Tgzfs.err_not_exist
    core_provider.Tgzfs.get core_provider.Tgzfs.new core_provider.Tgzfs.read_file chart_fs
schema_bytes = refl

open_name-read_file_example :
    (f : File) × (open_name schema_name chart_fs.0 chart_fs.1 ≡ ok f)
    × (file_size f ≡ 2)
    × (collect (λ g. read 1 g chart_fs.1) 3 f ≡ some (7 ∷ 8 ∷ [], eof))
open_name-read_file_example =
    open_name-read_file schema_name chart_fs.0 chart_fs.1 (7 ∷ 8 ∷ []) 1 3 schema_bytes
      (omega arith) (omega arith)

abbrev chart_dir : File
chart_dir = file (record { dir_entry = 1; reader = none; read_dir_pos = 0 })

chart_dir_lists :
    (Paging.is_directory chart_dir chart_fs.1 ≡ true)
    × (Paging.entries_of chart_dir chart_fs.1 ≡ 0 ∷ 2 ∷ 4 ∷ [])
unfolding core_provider.Base.Exec.◌>>=◌ core_provider.Tgzfs.Nodes.allocate
    core_provider.Tgzfs.Nodes.append_child core_provider.Tgzfs.Nodes.children
    core_provider.Tgzfs.Nodes.insert core_provider.Tgzfs.Nodes.is_dir
    core_provider.Tgzfs.Nodes.is_dir_mode core_provider.Tgzfs.Nodes.lookup
    core_provider.Tgzfs.Nodes.with_children core_provider.Tgzfs.Nodes.write
    core_provider.Tgzfs.Paging.entries_of core_provider.Tgzfs.Paging.is_directory
    core_provider.Tgzfs.Paths.base core_provider.Tgzfs.Paths.bool_eq core_provider.Tgzfs.Paths.clean
    core_provider.Tgzfs.Paths.clean_part core_provider.Tgzfs.Paths.clean_parts
    core_provider.Tgzfs.Paths.dir core_provider.Tgzfs.Paths.is_here
    core_provider.Tgzfs.Paths.is_rooted core_provider.Tgzfs.Paths.parts_eq
    core_provider.Tgzfs.Paths.path_eq core_provider.Tgzfs.Paths.tail core_provider.Tgzfs.Paths.up
    core_provider.Tgzfs.add_entry core_provider.Tgzfs.add_member core_provider.Tgzfs.add_members
    core_provider.Tgzfs.append core_provider.Tgzfs.append_parts core_provider.Tgzfs.append_with
    core_provider.Tgzfs.new core_provider.Tgzfs.root_listing chart_fs
chart_dir_lists = (refl, refl)

list_to_end_example :
    collect (λ g. Files.read_dir 2 g chart_fs.1) 4 chart_dir
    ≡ some (drop 0 (Paging.entries_of chart_dir chart_fs.1), eof)
unfolding Paging.position Paging.entries_of
list_to_end_example =
    list_to_end 2 chart_dir chart_fs.1 4 (omega arith) chart_dir_lists.0
      (rw chart_dir_lists.1 (omega arith)) (rw chart_dir_lists.1 (omega arith))

read_dir-overflow_example :
    ((Files.read_dir 1 chart_dir chart_fs.1).0
      ≡ ok (take 1 (Paging.entries_of chart_dir chart_fs.1)))
    × ((Files.read_dir (2 ^ 63 - 1) (Files.read_dir 1 chart_dir chart_fs.1).1 chart_fs.1).0
        ≡ err (panic "slice bounds out of range"))
    × ((Files.read_dir (2 ^ 63 - 1) chart_dir chart_fs.1).0
        ≡ ok (Paging.entries_of chart_dir chart_fs.1))
unfolding Paging.position
read_dir-overflow_example =
    read_dir-overflow chart_dir chart_fs.1 chart_dir_lists.0 refl
      (rw chart_dir_lists.1 (omega arith)) (rw chart_dir_lists.1 (omega arith))

sub_fs : Tarfs
sub_fs = record {
  entries =
      (file_path false ("templates" ∷ []), 4)
      ∷ (file_path false ("a.yaml" ∷ "templates" ∷ []), 3)
      ∷ (file_path false ("values.schema.json" ∷ []), 2)
      ∷ (file_path false ("Chart.yaml" ∷ []), 0)
      ∷ [];
  root_entries = 0 ∷ 2 ∷ 4 ∷ [];
  root_entry = some 1;
}

sub_chart : sub ("chart" ∷ []) chart_fs.0 chart_fs.1 ≡ ok sub_fs
unfolding core_provider.Base.Exec.◌>>=◌ core_provider.Tgzfs.Nodes.allocate
    core_provider.Tgzfs.Nodes.append_child core_provider.Tgzfs.Nodes.children
    core_provider.Tgzfs.Nodes.insert core_provider.Tgzfs.Nodes.is_dir
    core_provider.Tgzfs.Nodes.is_dir_mode core_provider.Tgzfs.Nodes.lookup
    core_provider.Tgzfs.Nodes.with_children core_provider.Tgzfs.Nodes.write
    core_provider.Tgzfs.Paths.all_plain core_provider.Tgzfs.Paths.base
    core_provider.Tgzfs.Paths.bool_eq core_provider.Tgzfs.Paths.clean
    core_provider.Tgzfs.Paths.clean_part core_provider.Tgzfs.Paths.clean_parts
    core_provider.Tgzfs.Paths.dir core_provider.Tgzfs.Paths.is_dot core_provider.Tgzfs.Paths.is_here
    core_provider.Tgzfs.Paths.is_rooted core_provider.Tgzfs.Paths.is_valid
    core_provider.Tgzfs.Paths.parts_eq core_provider.Tgzfs.Paths.path_eq
    core_provider.Tgzfs.Paths.strip core_provider.Tgzfs.Paths.tail core_provider.Tgzfs.Paths.up
    core_provider.Tgzfs.add_entry core_provider.Tgzfs.add_member core_provider.Tgzfs.add_members
    core_provider.Tgzfs.append core_provider.Tgzfs.append_parts core_provider.Tgzfs.append_with
    core_provider.Tgzfs.below core_provider.Tgzfs.err_invalid core_provider.Tgzfs.err_not_dir
    core_provider.Tgzfs.err_not_exist core_provider.Tgzfs.get core_provider.Tgzfs.new
    core_provider.Tgzfs.sub chart_fs sub_fs
sub_chart = refl

sub-reads_example :
    (read_file ("templates" ∷ "a.yaml" ∷ []) sub_fs chart_fs.1
      ≡ read_file ("chart" ∷ "templates" ∷ "a.yaml" ∷ []) chart_fs.0 chart_fs.1)
    × (stat ("templates" ∷ "a.yaml" ∷ []) sub_fs chart_fs.1
        ≡ stat ("chart" ∷ "templates" ∷ "a.yaml" ∷ []) chart_fs.0 chart_fs.1)
    × (read_dir ("templates" ∷ "a.yaml" ∷ []) sub_fs chart_fs.1
        ≡ read_dir ("chart" ∷ "templates" ∷ "a.yaml" ∷ []) chart_fs.0 chart_fs.1)
    × (open_name ("templates" ∷ "a.yaml" ∷ []) sub_fs chart_fs.1
        ≡ open_name ("chart" ∷ "templates" ∷ "a.yaml" ∷ []) chart_fs.0 chart_fs.1)
    × (open_name ("." ∷ []) sub_fs chart_fs.1 ≡ open_name ("chart" ∷ []) chart_fs.0 chart_fs.1)
unfolding core_provider.Base.Exec.◌>>=◌ core_provider.Tgzfs.Paths.all_plain
    core_provider.Tgzfs.Paths.is_dot core_provider.Tgzfs.Paths.is_valid
sub-reads_example =
    sub-reads ("chart" ∷ []) chart_fs.0 sub_fs chart_fs.1 ("templates" ∷ "a.yaml" ∷ []) refl
      sub_chart refl refl

-- The functions of package chart without a cluster and a repository.
no_cluster : Charts (Unit {0}) (Unit {0})
no_cluster = record {
  api = api_errors;
  wait = λ d. pure tt;
  secret = λ n. pure [];
  download = λ u o. raise (text "no repository");
  new_archive = λ b. err (text "unused");
  read_root = λ a. [];
  read_file = λ a n. err (text "unused");
  unmarshal = λ t. ok [];
  replace_all = λ s old new_text. s;
  go_name = λ s. s;
}

-- the bytes of the archive are read as the members above, and its texts by their first byte
abbrev formats : Formats
formats = record {
  unpack = λ b. ok a_chart;
  text_of = λ b. elim b [ x ∷ rest ↦ "{}" | [] ↦ "" ];
  split = λ n. if str_eq n "chart/values.schema.json" then schema_name else n ∷ [];
}

package-reads_example :
    (a : Archive) × (chart_info_from_bytes (over_archives formats no_cluster) []
      ≡ ok (record { archive = a; root_dir = "chart"; package_url = "" }))
    × (from_reader (over_archives formats no_cluster) (record { reader = some (ok []); url = "u" })
        ≡ ok (record { archive = a; root_dir = "chart"; package_url = "u" }))
    × (chart_json_schema
          (over_archives formats no_cluster)
          (record { archive = a; root_dir = "chart"; package_url = "" })
        ≡ ok "{}")
unfolding core_provider.Base.Exec.◌>>=◌ core_provider.Tgzfs.Build.above
    core_provider.Tgzfs.Build.above_parts core_provider.Tgzfs.Described.contents
    core_provider.Tgzfs.Described.described core_provider.Tgzfs.Described.described_after
    core_provider.Tgzfs.Described.last_of core_provider.Tgzfs.Described.listed
    core_provider.Tgzfs.Described.on_way core_provider.Tgzfs.Described.stream_contents
    core_provider.Tgzfs.Nodes.children core_provider.Tgzfs.Nodes.is_dir_mode
    core_provider.Tgzfs.Paths.all_plain core_provider.Tgzfs.Paths.base
    core_provider.Tgzfs.Paths.bool_eq core_provider.Tgzfs.Paths.clean
    core_provider.Tgzfs.Paths.clean_part core_provider.Tgzfs.Paths.clean_parts
    core_provider.Tgzfs.Paths.is_dot core_provider.Tgzfs.Paths.is_here
    core_provider.Tgzfs.Paths.is_rooted core_provider.Tgzfs.Paths.is_valid
    core_provider.Tgzfs.Paths.parts_eq core_provider.Tgzfs.Paths.path_eq
    core_provider.Tgzfs.Paths.up
package-reads_example =
    package-reads formats no_cluster "chart" [] "u" a_listing (a_header schema_name) (7 ∷ 8 ∷ [])
      refl (refl, refl, (refl, refl, (refl, refl, tt))) (omega arith) refl refl refl refl

-- A header for the directory, after the files in it: the name stands for the new entry, which lists
-- nothing, the root lists the directory two times, and the chart is refused.
abbrev late : List Member
late = a_file schema_name (7 ∷ 8 ∷ []) ∷ a_directory ("chart" ∷ "" ∷ []) ∷ []

late_roots :
    elim (new (ok late) blank).0 as (λ _. List ℕ × Result (List ℕ)) [
      | err e ↦ ([], err e)
      | ok t ↦ (t.root_entries, (read_dir ("chart" ∷ []) t (new (ok late) blank).1).0)
    ]
    ≡ (1 ∷ 2 ∷ [], ok [])
unfolding core_provider.Base.Exec.◌>>=◌ core_provider.Tgzfs.Nodes.allocate
    core_provider.Tgzfs.Nodes.append_child core_provider.Tgzfs.Nodes.children
    core_provider.Tgzfs.Nodes.entry_name core_provider.Tgzfs.Nodes.header_name
    core_provider.Tgzfs.Nodes.insert core_provider.Tgzfs.Nodes.is_dir
    core_provider.Tgzfs.Nodes.is_dir_mode core_provider.Tgzfs.Nodes.lookup
    core_provider.Tgzfs.Nodes.with_children core_provider.Tgzfs.Nodes.write
    core_provider.Tgzfs.Paths.all_plain core_provider.Tgzfs.Paths.base
    core_provider.Tgzfs.Paths.bool_eq core_provider.Tgzfs.Paths.clean
    core_provider.Tgzfs.Paths.clean_part core_provider.Tgzfs.Paths.clean_parts
    core_provider.Tgzfs.Paths.dir core_provider.Tgzfs.Paths.is_dot core_provider.Tgzfs.Paths.is_here
    core_provider.Tgzfs.Paths.is_rooted core_provider.Tgzfs.Paths.is_valid
    core_provider.Tgzfs.Paths.parts_eq core_provider.Tgzfs.Paths.path_eq
    core_provider.Tgzfs.Paths.tail core_provider.Tgzfs.Paths.up
    core_provider.Tgzfs.Paths.written_base core_provider.Tgzfs.add_entry
    core_provider.Tgzfs.add_member core_provider.Tgzfs.add_members core_provider.Tgzfs.append
    core_provider.Tgzfs.append_parts core_provider.Tgzfs.append_with core_provider.Tgzfs.err_invalid
    core_provider.Tgzfs.err_not_dir core_provider.Tgzfs.err_not_exist core_provider.Tgzfs.get
    core_provider.Tgzfs.new core_provider.Tgzfs.read_dir core_provider.Tgzfs.root_listing
    core_provider.Tgzfs.sort_by_name
late_roots = refl
