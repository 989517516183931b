-- ===== src/Tests/Engine.antt =====
-- The store, and the tables under it, at concrete inputs.
use cachedb.Prelude.{◌+◌, ◌≡◌, none, some, refl, inr, true, false, List, [], ◌∷◌, arith}
use cachedb.Prelude.Int.{ℤ, pos}
use cachedb.Prelude.Bytes.{Bytes, cmp}
use cachedb.Prelude.Text.{codes}
use cachedb.Prelude.Endian.{put_le, put_u32, put_u64}
use cachedb.Prelude.SortedMap
use cachedb.Prelude.SortedMap.{SortedMap}
use cachedb.Memtable.{Entry, init}
use cachedb.Memtable
use cachedb.Memtable.Invariant.{init-IsValid}
use cachedb.Wal.Kernel.{wrote, write_interrupted, write_failed, sync_failed, write_all, fsync_loop}
use cachedb.Wal.Record.{k_set, k_delete, Record}
use cachedb.Wal.Log.{Env, open_wal, k_always}
use cachedb.Wal.Replay.Recovery.{AllEncodable}
use cachedb.Bloom.{build}
use cachedb.Sstable.{FinishIo, add, finish, encode_entry, push_index}
use cachedb.Sstable.Growth.{adds}
use cachedb.Sstable.Reader.{Sstable}
use cachedb.Sstable.Reader
use cachedb.Sstable.Open.{OpenIo, open_table}
use cachedb.Sstable.Block.{answer}
use cachedb.Sstable.RoundTrip.{IsTable, writer, table_round_trip}
use cachedb.Store.{Store, k_flush_temp}
use cachedb.Store.Names.{sequence_of, table_name, table_path, sequence_of-table_name}
use cachedb.Store.Layers.{lookup, lookup_tables}
use cachedb.Store.Flush.{FlushIo, flush, unlink_failed, FlushAllIo, flush_all}
use cachedb.Store.Write.{WriteIo}
use cachedb.Store.View.{live, lookup-live}
use cachedb.Store.Calls.{
  Call, set_key, del_key, del_keys, expire_key, sweep, flush_now, run, total_weight, last_time,
  Refines, IsSound,
}
use cachedb.Store.Calls
use cachedb.Store.Refine.Steps.{run-Refines}
use cachedb.Store.Crash.{Recoverable, Covered, flush-Covered}
use cachedb.Store.FlushAll.{lookup-flush_all}
use cachedb.Store.Recovery.{nothing}

abbrev pub a : Bytes
a = 0x61 ∷ []

abbrev b : Bytes
b = 0x62 ∷ []

abbrev entries : SortedMap Entry
entries =
    (a, record { value = 0x31 ∷ []; tombstone = false; expires_at_ms = pos 900 })
    ∷ (b, record { value = []; tombstone = true; expires_at_ms = pos 0 })
    ∷ []

abbrev pub finish_io : FinishIo
finish_io = record {
  index_writes = wrote 2 ∷ [];
  filter_writes = [];
  footer_writes = write_interrupted ∷ [];
  fsyncs = [];
}

abbrev pub open_io : OpenIo
open_io = record {
  opens = true;
  seeks = true;
  reads_footer = true;
  reads_index = true;
  reads_bloom = true;
}

entries-IsTable : IsTable entries
unfolding encode_entry put_u32 put_u64 put_le cmp
entries-IsTable = record {
  sorted = (refl, tt);
  fits = ((omega arith, omega arith, omega arith), ((omega arith, omega arith, omega arith), tt));
  few = omega arith;
  small = omega arith;
}

finishes : (finish finish_io (writer (pos 10) entries ((wrote 3 ∷ []) ∷ []) finish_io)).1 ≡ true
unfolding adds add encode_entry push_index write_all finish fsync_loop build put_u32 put_u64 put_le
finishes = refl

table_round_trip_example :
    (t : Sstable) × (open_table open_io
        (finish finish_io (writer (pos 10) entries ((wrote 3 ∷ []) ∷ []) finish_io)).0.file
        true
      ≡ some t)
    × (Reader.get t a ≡ some (answer (SortedMap.find a entries)))
table_round_trip_example =
    table_round_trip (pos 10) entries ((wrote 3 ∷ []) ∷ []) finish_io open_io true a finishes
      entries-IsTable refl

abbrev pub log_io : Env
log_io = record {
  writes = wrote 4 ∷ [];
  fsyncs = [];
  truncates = true;
  now_ms = pos 5;
  steady_now = 0;
}

abbrev flush_io : FlushIo
flush_io = record {
  creates = true;
  entry_writes = [];
  finish_io = finish_io;
  unlinks = true;
  renames = true;
  dir_io = record { opens = true; fsyncs = [] };
  log = log_io;
  open_io = open_io;
}

-- A store with a log, a directory, and a memtable that is flushed at every write.
abbrev pub engine : Store
engine = record {
  memtable = init;
  sstables = [];
  options = record {
    dir = 0x64 ∷ [];
    memtable_limit_bytes = 1;
    bloom_bits_per_key = pos 10;
    use_bloom = true;
    use_compaction = true;
  };
  next_sequence = 1;
  swept_keys = 0;
  compactions = 0;
  flush_failed = false;
  wal = some (open_wal [] [] k_always 1000 0);
  directory = record { files = []; durable = [] };
}

pub engine-IsSound : IsSound 0 engine
engine-IsSound = record {
  valid = init-IsValid;
  room = record { fits = tt; few = omega arith; small = omega arith };
  tables = tt;
}

pub engine-empty : Refines (pos 0) engine nothing
unfolding lookup lookup_tables Memtable.find SortedMap.find
engine-empty key = refl

abbrev pub write_io : WriteIo
write_io = record { log = log_io; flush_io = flush_io }

-- The second write is refused by a full disk, and the last flush fails.
abbrev pub refused : WriteIo
refused = record { log = record log_io { writes = write_failed ∷ [] }; flush_io = flush_io }

abbrev calls : List (ℤ × Call)
calls =
    (pos 5, set_key write_io a (0x31 ∷ []) (pos 0))
    ∷ (pos 6, set_key refused b (0x32 ∷ []) (pos 0))
    ∷ (pos 7, expire_key write_io a (pos 100))
    ∷ (pos 8, del_keys write_io (b ∷ a ∷ []))
    ∷ (pos 8, sweep 10)
    ∷ (pos 9, flush_now (record flush_io { renames = false }))
    ∷ []

run-Refines_example :
    let (s', answers) = run calls engine in
    IsSound (0 + total_weight calls) s'
    × Refines (last_time (pos 0) calls) s' (Calls.replay calls answers nothing)
run-Refines_example =
    run-Refines calls 0 (pos 0) nothing engine engine-IsSound engine-empty (omega arith)
      (omega arith)

-- The engine with entries to flush.
abbrev loaded : Store
loaded = record engine { memtable = record init { entries = entries } }

flush-Covered_example :
    Covered (Recoverable entries) loaded (table_path loaded 1) (flush flush_io loaded).0
flush-Covered_example = flush-Covered flush_io loaded entries-IsTable

-- The engine over one table, which it cannot unlink.
abbrev pub stocked : Store
stocked = record engine {
  sstables =
      (record {
        path = 0x74 ∷ [];
        table = record {
          file = [];
          readable = true;
          bloom = [];
          index = [];
          data_end = 0;
          use_bloom = true;
        };
      })
      ∷ [];
}

abbrev pub flush_all_io : FlushAllIo
flush_all_io = record {
  unlinks = unlink_failed ∷ [];
  dir_io = record { opens = true; fsyncs = sync_failed ∷ [] };
  log = log_io;
}

absent_key : Memtable.find init a ≡ none
unfolding Memtable.find SortedMap.find
absent_key = refl

lookup-flush_all_example : lookup (pos 3) (flush_all flush_all_io stocked).0 a ≡ none
lookup-flush_all_example = lookup-flush_all (pos 3) flush_all_io stocked a (inr absent_key)

lookup-live_example : lookup (pos 1000) loaded a ≡ live (pos 1000) (lookup (pos 5) loaded a)
lookup-live_example = lookup-live (pos 5) (pos 1000) loaded a (omega arith)

abbrev pub records : List Record
records =
    (record { op = k_set; timestamp_ms = pos 5; expires_at_ms = pos 0; key = a; value = 0x31 ∷ [] })
    ∷ (record { op = k_delete; timestamp_ms = pos 6; expires_at_ms = pos 0; key = a; value = [] })
    ∷ []

pub records-AllEncodable : AllEncodable records
records-AllEncodable = (
  record { timestamp = omega arith; expiry = omega arith; klen = omega arith; vlen = omega arith },
  (
    record {
      timestamp = omega arith;
      expiry = omega arith;
      klen = omega arith;
      vlen = omega arith;
    },
    tt,
  ),
)

sequence_of-table_name_example : sequence_of (table_name 42) ≡ some 42
sequence_of-table_name_example = sequence_of-table_name 42 (omega arith)

-- The names that a scan of the directory passes by.
temp_names : (sequence_of k_flush_temp ≡ none) × (sequence_of (codes "wal.log") ≡ none)
unfolding sequence_of cmp
temp_names = (refl, refl)
