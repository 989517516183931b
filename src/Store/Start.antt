-- ===== src/Store/Start.antt =====
-- src/store.cpp, the constructor of `Store` over a directory: the tables are found by their names
-- and opened, the newest first.
pub mod Above
use cachedb.Prelude.{
  ℕ, ◌+◌, Bool, true, false, not, Option, none, some, List, [], ◌∷◌, leb, if◌then◌else◌, length,
  drop,
}
use cachedb.Prelude.Bytes.{Bytes, key_eq}
use cachedb.Prelude.Words.{add_u64}
use cachedb.Prelude.SortedMap
use cachedb.Memtable.{init}
use cachedb.Sstable.{FileData}
use cachedb.Sstable.Reader.{Sstable}
use cachedb.Sstable.Open.{OpenIo, open_table}
use cachedb.Store.{
  StoreOptions, Directory, TableFile, Store, Result, returned, threw, has_no_dir, remove_file,
  k_flush_temp, temp_path, store_over,
}
use cachedb.Store.Names.{sequence_of, table_path}
use cachedb.Store.Compact.{k_compact_temp}

-- What opendir(2) answers, the two unlinks, and the calls that open each table; past the end of
-- `open_ios` they succeed.
pub record StartIo : Type 0 where
  pub opens_dir : Bool
  pub unlinks_compact : Bool
  pub unlinks_flush : Bool
  pub open_ios : List OpenIo

abbrev all_open : OpenIo
all_open = record {
  opens = true;
  seeks = true;
  reads_footer = true;
  reads_index = true;
  reads_bloom = true;
}

-- The loop over readdir(3). The name of an entry is its path behind "dir/".
unfoldable pub scan_names : ℕ → List (Bytes × FileData) → List ℕ
scan_names prefix [] = []
scan_names prefix ((path, file) ∷ files) =
    let later = scan_names prefix files in
    elim (sequence_of (drop prefix path)) [ none ↦ later | some seq ↦ seq ∷ later ]

unfoldable pub insert_desc : ℕ → List ℕ → List ℕ
insert_desc n [] = n ∷ []
insert_desc n (m ∷ ms) = let later = insert_desc n ms in if leb m n then n ∷ m ∷ ms else m ∷ later

-- std::sort from the back
unfoldable pub sort_desc : List ℕ → List ℕ
unfolding insert_desc
sort_desc [] = []
sort_desc (n ∷ ns) = insert_desc n (sort_desc ns)

abbrev first_io : List OpenIo → OpenIo
first_io [] = all_open
first_io (io ∷ ios) = io

abbrev later_ios : List OpenIo → List OpenIo
later_ios [] = []
later_ios (io ∷ ios) = ios

abbrev table_at : OpenIo → Store → Bytes → Option Sstable
table_at io s path = elim (SortedMap.find path s.directory.files) [
  | none ↦ none
  | some file ↦ open_table io file.contents s.options.use_bloom
]

-- The loop over the sequences. It is none for the exception of a table that does not open.
unfoldable pub open_tables : List OpenIo → Store → List ℕ → Option (List TableFile)
open_tables ios s [] = some []
open_tables ios s (seq ∷ seqs) =
    let later = open_tables (later_ios ios) s seqs in
    let path = table_path s seq in
    elim (table_at (first_io ios) s path) [
      | none ↦ none
      | some t ↦ elim later [
        | none ↦ none
        | some ts ↦ some ((record { path = path; table = t }) ∷ ts)
      ]
    ]

abbrev pub next_after : List ℕ → ℕ
next_after [] = 1
next_after (seq ∷ seqs) = add_u64 seq 1

-- The removal of a temporary file.
abbrev pub without_temp : Bool → Bytes → Store → Store
without_temp unlinks name s =
    if unlinks
    then record s {
      directory = record s.directory { files = remove_file (temp_path s name) s.directory.files };
    }
    else s

unfoldable pub open_store : StartIo → StoreOptions → Directory → Result Store
unfolding scan_names sort_desc open_tables
open_store io options directory =
    let s = record (store_over none directory) { options = options } in
    let found = sort_desc (scan_names (length options.dir + 1) directory.files) in
    let cleaned =
      without_temp io.unlinks_flush k_flush_temp
        (without_temp io.unlinks_compact k_compact_temp s) in
    if has_no_dir s
    then returned s
    else if not io.opens_dir
    then threw
    else elim (open_tables io.open_ios cleaned found) [
      | none ↦ threw
      | some tables ↦
          returned (record cleaned { sstables = tables; next_sequence = next_after found })
    ]
