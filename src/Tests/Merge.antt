-- ===== src/Tests/Merge.antt =====
-- The start of a store, the choice of tables to merge and the merge at concrete inputs.
use cachedb.Prelude.{
  inl, inr, take, ℕ, ◌+◌, ◌-◌, ◌≤◌, ◌≡◌, ◌^◌, none, some, refl, sym, ◌∙◌, drop, true, false, List,
  [], ◌∷◌, ◌++◌, replicate, arith, length,
}
use cachedb.Prelude.Int.{ℤ, pos}
use cachedb.Prelude.Bytes.{Bytes, cmp, key_eq}
use cachedb.Prelude.SortedMap
use cachedb.Prelude.SortedMap.{SortedMap}
use cachedb.Memtable.{Entry}
use cachedb.Sstable.Block.{entries_block}
use cachedb.Sstable.Cursor.Walk.{Walks, cursor-Walks}
use cachedb.Prelude.Endian.{load_le}
use cachedb.Sstable.Reader.{Sstable, read_exact}
use cachedb.Sstable.Open.{open_table, load_table, load_index, has_magic}
use cachedb.Sstable.Cursor.{ensure, show_entry, load_body, load, cursor}
use cachedb.Compaction.{heads, open_cursors, push}
use mathlib.Core.Option.{some-injective, none-ne-some}
use cachedb.Prelude.Chars.{decimal}
use cachedb.Prelude.Text.{codes}
use cachedb.Store.{
  Store, Directory, store_over, temp_path, k_flush_temp, remove_file, Result, returned, TableFile,
}
use cachedb.Store.Names.{sequence_of, table_name, table_path, strtoull, padded}
use cachedb.Store.Tiers.{run_begin, find_run, best_run}
use cachedb.Store.Tiers.Run.{Similar, best_run-Similar}
use cachedb.Store.Compact.{MergeIo, maybe_compact}
use cachedb.Store.Compact.Returns.{maybe_compact-returns}
use cachedb.Store.Start.{StartIo, open_store, scan_names, sort_desc, insert_desc, open_tables}
use cachedb.Store.Start.Above.{Below, open_store-Below}
use cachedb.Tests.Engine.{engine, a, open_io, finish_io, log_io, records, records-AllEncodable}
use cachedb.Bloom.{build, add_keys, bits_for, optimal_probes}
use cachedb.Sstable.Index.{index_from}
use cachedb.Sstable.{FileData}
use cachedb.Wal.Replay
use cachedb.Wal.Replay.{ReplayResult, replay}
use cachedb.Wal.Replay.Recovery.{log_bytes, kept, io_of}
use cachedb.Store.Write.{apply}
use cachedb.Store.Calls.{Refines, IsSound, AllHold}
use cachedb.Store.Recovery.{records_map, tables_map, restart-Refines}
use cachedb.Store.Flush.{FlushAllIo, flush_all}
use cachedb.Store.FlushAll.{Removed, flush_all-Removed}

-- Five tables, of which the oldest is too large for the run.
abbrev sizes : List ℕ
sizes = 10 ∷ 12 ∷ 9 ∷ 11 ∷ 100 ∷ []

chosen : best_run sizes ≡ some (some (0, 4))
unfolding best_run find_run run_begin
chosen = refl

best_run-Similar_example : (0 + 4 ≤ length sizes) × (4 ≤ 4) × Similar sizes 0 (0 + 4)
best_run-Similar_example = best_run-Similar sizes 0 4 chosen

-- A table of one entry, a = n, whose lookup is not used.
abbrev table_over : ℕ → Sstable
table_over n = record {
  file = 1 ∷ 0 ∷ 0 ∷ 0 ∷ 1 ∷ 0 ∷ 0 ∷ 0 ∷ 0 ∷ 0x61 ∷ n ∷ [];
  readable = true;
  bloom = [];
  index = [];
  data_end = 11;
  use_bloom = false;
}

-- The first cursor has the entry, and no error.
first_entry :
    ◌≡◌ {A = Bytes × Bytes}
      ((cursor [] (table_over 0x31)).key, (cursor [] (table_over 0x31)).value)
      (0x61 ∷ [], 0x31 ∷ [])
unfolding cursor load load_body show_entry ensure read_exact load_le
first_entry = refl

-- The newest of four tables with the same key comes out of the heap first.
in_order :
    heads 0 (open_cursors [] (table_over 0x34 ∷ table_over 0x33 ∷ [])) []
    ≡ some (record { input = 0; key = a } ∷ record { input = 1; key = a } ∷ [])
unfolding heads open_cursors push cursor load load_body show_entry ensure read_exact load_le cmp
in_order = refl

-- A file that was forced down.
abbrev synced : Bytes → FileData
synced bytes = record { contents = bytes; disk = bytes }

abbrev file_of : ℕ → TableFile
file_of n = record { path = table_path engine n; table = table_over (n + 48) }

-- Four tables whose names are in the directory.
abbrev tiered : Store
tiered = record engine {
  sstables = file_of 4 ∷ file_of 3 ∷ file_of 2 ∷ file_of 1 ∷ [];
  directory = record {
    files =
        (table_path engine 1, synced (table_over 49).file)
        ∷ (table_path engine 2, synced (table_over 50).file)
        ∷ (table_path engine 3, synced (table_over 51).file)
        ∷ (table_path engine 4, synced (table_over 52).file)
        ∷ [];
    durable = [];
  };
  next_sequence = 5;
}

abbrev merge_io : MergeIo
merge_io = record {
  stats = [];
  compact_io = record {
    creates = true;
    reads = (true ∷ []) ∷ [];
    entry_writes = [];
    finish_io = finish_io;
  };
  unlinks_temp = true;
  renames = true;
  dir_io = record { opens = true; fsyncs = [] };
  input_unlinks = [];
  inputs_dir_io = record { opens = true; fsyncs = [] };
  open_io = open_io;
  unlinks_target = true;
  target_dir_io = record { opens = true; fsyncs = [] };
}

maybe_compact-returns_example :
    (r : Store × Result ℕ) × (maybe_compact merge_io (pos 5) tiered ≡ some r)
maybe_compact-returns_example = maybe_compact-returns merge_io (pos 5) tiered

-- The file of a table with no entries, and a directory with it and an unfinished flush.
abbrev empty_filter : Bytes
empty_filter = replicate 8 0 ++ (7 ∷ [])

abbrev empty_table : Bytes
empty_table =
    replicate 4 0 ++ (empty_filter ++ (replicate 8 0 ++ (4 ∷ (replicate 15 0 ++ codes "CDBSSTv2"))))

abbrev directory : Directory
directory = record {
  files =
      (table_path engine 7, synced empty_table) ∷ (temp_path engine k_flush_temp, synced []) ∷ [];
  durable = [];
}

abbrev start_io : StartIo
start_io = record { opens_dir = true; unlinks_compact = true; unlinks_flush = true; open_ios = [] }

abbrev started : Store
started =
    record (store_over none
      (record directory { files = (table_path engine 7, synced empty_table) ∷ [] })) {
        options = engine.options;
        next_sequence = 8;
        sstables =
            (record {
              path = table_path engine 7;
              table = record {
                file = empty_table;
                readable = true;
                bloom = empty_filter;
                index = [];
                data_end = 0;
                use_bloom = true;
              };
            })
            ∷ [];
      }

starts : open_store start_io engine.options directory ≡ returned started
unfolding open_store scan_names sort_desc insert_desc open_tables sequence_of table_path table_name
    padded strtoull open_table load_table load_index has_magic load_le decimal remove_file
    SortedMap.find store_over cmp
starts = refl

seventh : sequence_of (drop 2 (table_path engine 7)) ≡ some 7
unfolding sequence_of table_path table_name padded strtoull decimal cmp
seventh = refl

unnamed : sequence_of (drop 2 (temp_path engine k_flush_temp)) ≡ none
unfolding sequence_of cmp
unnamed = refl

numbers : Below (2 ^ 64 - 1) 2 directory.files
numbers = (
  λ n is. omega (arith, some-injective 7 n (sym seventh ∙ is)),
  (λ n is. absurd (none-ne-some n (sym unnamed ∙ is)), tt),
)

has_dir : key_eq engine.options.dir [] ≡ false
unfolding cmp
has_dir = refl

open_store-Below_example :
    Below started.next_sequence (length engine.options.dir + 1) directory.files
open_store-Below_example =
    open_store-Below start_io engine.options directory started has_dir numbers starts

started-AllHold : AllHold started.sstables
unfolding build add_keys bits_for optimal_probes index_from
started-AllHold = (
  (
    [],
    record {
      post = empty_table;
      bits_per_key = pos 10;
      file = refl;
      data_end = refl;
      index = refl;
      bloom = refl;
      readable = refl;
    },
    tt,
    tt,
  ),
  tt,
)

restart-Refines_example :
    (s : Store) × (result : ReplayResult) × (replay apply started
        (io_of (take 30 (log_bytes records)))
      ≡ Replay.returned s result (some (log_bytes (kept 30 records))))
    × IsSound (length (kept 30 records)) s
    × ((now : ℤ) → Refines now s (records_map (kept 30 records) (tables_map started.sstables)))
restart-Refines_example =
    restart-Refines records 30 start_io engine.options directory started records-AllEncodable starts
      started-AllHold

-- FLUSHALL of the table that was opened.
abbrev remove_io : FlushAllIo
remove_io = record { unlinks = []; dir_io = record { opens = true; fsyncs = [] }; log = log_io }

flush_all-Removed_example : Removed started (flush_all remove_io started)
unfolding cmp store_over
flush_all-Removed_example = flush_all-Removed remove_io started refl (inr (inl refl), tt)

-- A table of a value and a tombstone, with what stands behind its data.
abbrev two_entries : SortedMap Entry
two_entries =
    (a, record { value = 0x31 ∷ []; tombstone = false; expires_at_ms = pos 9 })
    ∷ (0x62 ∷ [], record { value = []; tombstone = true; expires_at_ms = pos 0 })
    ∷ []

abbrev walked : Sstable
walked = record {
  file = entries_block two_entries ++ (1 ∷ 2 ∷ []);
  readable = true;
  bloom = [];
  index = [];
  data_end = length (entries_block two_entries);
  use_bloom = false;
}

cursor-Walks_example : Walks two_entries (cursor [] walked)
cursor-Walks_example =
    cursor-Walks walked two_entries (1 ∷ 2 ∷ []) refl
      ((omega arith, omega arith, omega arith), ((omega arith, omega arith, omega arith), tt)) refl
      refl
