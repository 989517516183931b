-- ===== src/Store/Compact.antt =====
-- src/store.cpp, `maybe_compact`: a run of tables is merged into one, which takes the name of the
-- newest of them. What the kernel answers is an argument. Nothing is answered when a merge runs out
-- of its fuel, or the walk for a run of tables does.
pub mod Returns
use cachedb.Prelude.{
  ◌+◌, ◌-◌, ℕ, zero, suc, Bool, true, false, not, ◌||◌, Option, none, some, List, [], ◌∷◌, ◌++◌,
  ltb, ◌==◌, if◌then◌else◌, length, take, drop,
}
use cachedb.Prelude.Int.{ℤ}
use cachedb.Prelude.Bytes.{Bytes}
use cachedb.Prelude.Text.{codes}
use cachedb.Prelude.SortedMap
use cachedb.Sstable.{FileData}
use cachedb.Sstable.Reader.{Sstable}
use cachedb.Sstable.Open.{OpenIo, open_table}
use cachedb.Compaction.{CompactIo, CompactionResult, compact}
use cachedb.Store.{
  TableFile, Store, Result, returned, threw, has_no_dir, remove_file, put_file, temp_path,
}
use cachedb.Store.Flush.{
  DirIo, fsync_dir, with_files, UnlinkReturn, unlinked, unlink_failed, unlink_all,
}
use cachedb.Store.Tiers.{k_compaction_trigger, best_run}

abbrev pub k_compact_temp : Bytes
k_compact_temp = codes "compact.tmp"

-- What the calls meet, in their order: stat(2) of each table, the merge, the removal of its file
-- when it failed, the rename, the sync of the directory, the removal of the inputs with the sync
-- behind it, and the opening of the merged table, or its removal with the sync behind that.
pub record MergeIo : Type 0 where
  pub stats : List Bool
  pub compact_io : CompactIo
  pub unlinks_temp : Bool
  pub renames : Bool
  pub dir_io : DirIo
  pub input_unlinks : List UnlinkReturn
  pub inputs_dir_io : DirIo
  pub open_io : OpenIo
  pub unlinks_target : Bool
  pub target_dir_io : DirIo

-- file_size: stat(2), with 0 when it fails.
unfoldable pub file_size : Bool → List (Bytes × FileData) → Bytes → ℕ
file_size stat_works files path =
    if stat_works
    then elim (SortedMap.find path files) [ none ↦ 0 | some file ↦ length file.contents ]
    else 0

unfoldable pub table_sizes : List Bool → List (Bytes × FileData) → List TableFile → List ℕ
unfolding file_size
table_sizes stats files [] = []
table_sizes [] files (t ∷ ts) = file_size true files t.path ∷ table_sizes [] files ts
table_sizes (works ∷ stats) files (t ∷ ts) =
    file_size works files t.path ∷ table_sizes stats files ts

abbrev pub tables_of : List TableFile → List Sstable
tables_of [] = []
tables_of (t ∷ ts) = t.table ∷ tables_of ts

abbrev pub first_path : List TableFile → Bytes
first_path [] = []
first_path (t ∷ ts) = t.path

-- From where the new name is durable: `file` is the merged file, and the run has `len` tables
-- from `begin` on.
unfoldable pub replace_run : MergeIo → Store → ℕ → ℕ → ℕ → FileData → Store × Result ℕ
unfolding fsync_dir unlink_all
replace_run io s begin len written file =
    let run = take len (drop begin s.sstables) in
    let newer = take begin s.sstables in
    let older = drop (begin + len) s.sstables in
    let target = first_path run in
    let files = (unlink_all io.input_unlinks (drop 1 run) s.directory.files).0 in
    let unlinked_inputs = (fsync_dir io.inputs_dir_io (record s.directory { files = files })).0 in
    let erased = record s { sstables = newer ++ older; directory = unlinked_inputs } in
    let emptied = record unlinked_inputs {
      files =
          if io.unlinks_target
          then remove_file target unlinked_inputs.files
          else unlinked_inputs.files;
    } in
    let dropped = (fsync_dir io.target_dir_io emptied).0 in
    if ltb 0 written
    then elim (open_table io.open_io file.contents s.options.use_bloom) [
      | none ↦ (erased, threw)
      | some t ↦ (
        record erased {
          sstables = newer ++ ((record { path = target; table = t }) ∷ older);
          compactions = s.compactions + 1;
        },
        returned (len - 1),
      )
    ]
    else (record erased { directory = dropped; compactions = s.compactions + 1 }, returned len)

-- From the end of the merge on, with the file at the temporary name.
unfoldable pub swap_in :
    MergeIo → Store → ℕ → ℕ → CompactionResult → Option FileData → Store × Result ℕ
unfolding replace_run
swap_in io s begin len merged none =
    let without = remove_file (temp_path s k_compact_temp) s.directory.files in
    (if io.unlinks_temp then with_files s without else s, returned 0)
swap_in io s begin len merged (some file) =
    let temp = temp_path s k_compact_temp in
    let target = first_path (take len (drop begin s.sstables)) in
    let without = remove_file temp s.directory.files in
    let abandoned = with_files s (if io.unlinks_temp then without else (temp, file) ∷ without) in
    let (d, dir_synced) =
      fsync_dir io.dir_io (record s.directory { files = put_file target file without }) in
    let named = record s { directory = d } in
    if not merged.ok || not io.renames
    then (abandoned, returned 0)
    else if not dir_synced
    then (named, returned 0)
    else replace_run io named begin len merged.written file

-- The exception of the output that does not open goes through.
abbrev pub after_merge :
    MergeIo → Store → ℕ → ℕ → Result (CompactionResult × Option FileData) → Store × Result ℕ
after_merge io s begin len threw = (s, threw)
after_merge io s begin len (returned (merged, file)) = swap_in io s begin len merged file

-- From the choice of the run on.
unfoldable pub merge_run : MergeIo → ℤ → Store → ℕ → ℕ → Option (Store × Result ℕ)
unfolding swap_in
merge_run io now s begin len =
    let inputs = tables_of (take len (drop begin s.sstables)) in
    let drop_obsolete = begin + len == length s.sstables in
    elim (compact io.compact_io inputs s.options.bloom_bits_per_key drop_obsolete now) [
      | none ↦ none
      | some result ↦ some (after_merge io s begin len result)
    ]

unfoldable pub maybe_compact : MergeIo → ℤ → Store → Option (Store × Result ℕ)
unfolding merge_run table_sizes best_run
maybe_compact io now s =
    if not s.options.use_compaction
    then some (s, returned 0)
    else if has_no_dir s || ltb (length s.sstables) k_compaction_trigger
    then some (s, returned 0)
    else elim (best_run (table_sizes io.stats s.directory.files s.sstables)) [
      | none ↦ none
      | some none ↦ some (s, returned 0)
      | some (some (begin, len)) ↦ merge_run io now s begin len
    ]
