-- ===== src/Store/Crash.antt =====
-- src/store.cpp, the order of the steps of `flush`: what the disk holds when the log has been cut.
use cachedb.Prelude.{
  ◌≡◌, refl, sym, ap, ◌∙◌, ◌⊎◌, inl, inr, Bool, true, false, not, ◌||◌, Option, none, some,
  Option-cases, List, ◌∷◌, if◌then◌else◌,
}
use mathlib.Core.Path.{subst}
use cachedb.Prelude.Bytes.{Bytes, key_eq, cmp_refl}
use cachedb.Prelude.SortedMap
use cachedb.Prelude.SortedMap.{SortedMap}
use cachedb.Memtable.{Entry, clear, for_each}
use cachedb.Wal.Kernel.{fsync_loop}
use cachedb.Wal.Log
use cachedb.Prelude.Words.{add_u64}
use cachedb.Sstable.{FileData, data_of, create, finish}
use cachedb.Sstable.Finish.{finish_lem}
use cachedb.Sstable.Open.{OpenIo, open_table}
use cachedb.Sstable.Reader.{Sstable, get}
use cachedb.Sstable.Block.{answer}
use cachedb.Sstable.RoundTrip.{IsTable, all_read, table_round_trip}
use cachedb.Store.{
  Directory, Store, Result, returned, threw, has_no_dir, remove_file, put_file, k_flush_temp,
  temp_path,
}
use cachedb.Store.Names.{table_path}
use cachedb.Store.Flushed.{add_all-adds, publish_branches, flush_branches}
use cachedb.Store.Flush.{
  add_all, DirIo, forced_down, fsync_dir, FlushIo, cut_log, with_files, publish, is_empty_memtable,
  written_table, flush,
}

-- A file from which a restart reads back what the entries say of each key.
abbrev pub Recoverable : SortedMap Entry → Bytes → Type 0
Recoverable m contents =
    (open_io : OpenIo) (use_bloom : Bool) (key : Bytes)
    → all_read open_io ≡ true
    → (t : Sstable) × (open_table open_io contents use_bloom ≡ some t)
      × (get t key ≡ some (answer (SortedMap.find key m)))

-- The log is as it was, or a file with the property is durable in the directory under the name.
abbrev pub Covered : (Bytes → Type 0) → Store → Bytes → Store → Type 0
Covered Good s path s' =
    (s'.wal ≡ s.wal)
    ⊎ ((contents : Bytes) × (SortedMap.find path s'.directory.durable ≡ some contents)
        × Good contents)

abbrev Covers : (Bytes → Type 0) → Store → Bytes → Store × Result Bool → Type 0
Covers Good s path r = Covered Good s path r.0

pub cut_log-directory : (env : Log.Env) (s : Store) → (cut_log env s).0.directory ≡ s.directory
unfolding cut_log
cut_log-directory env s = elim (Option-cases s.wal) [
  | inl e ↦ rw (e, cut_log) refl
  | inr (w, e) ↦ rw (e, cut_log) refl
]

pub fsync_dir-durable :
    (io : DirIo) (d : Directory)
    → (fsync_dir io d).1 ≡ true
    → (fsync_dir io d).0.durable ≡ forced_down d.files
unfolding fsync_dir
fsync_dir-durable io d h = by io.opens (fsync_loop io.fsyncs) h
  where
    by :
        (a b : Bool)
        → let r : Directory × Bool =
            if not a
            then (d, false)
            else if b
            then (record d { durable = forced_down d.files }, true)
            else (d, false) in
          r.1 ≡ true → r.0.durable ≡ forced_down d.files
    by false b h = cc
    by true true h = refl
    by true false h = cc

find-put_file :
    (path : Bytes) (file : FileData) (files : List (Bytes × FileData))
    → SortedMap.find path (forced_down (put_file path file files)) ≡ some file.disk
unfolding SortedMap.find
find-put_file path file files = rw (key_eq, cmp_refl path) refl

publish-Covers :
    (Good : Bytes → Type 0) (io : FlushIo) (s : Store) (file : FileData)
    → Good file.disk
    → Covers Good s (table_path s s.next_sequence) (publish io s file)
unfolding publish
publish-Covers Good io s file good =
    let path = table_path s s.next_sequence in
    let without = remove_file (temp_path s k_flush_temp) s.directory.files in
    let d = record s.directory { files = put_file path file without } in
    let named = record s { directory = (fsync_dir io.dir_io d).0 } in
    let kept = λ (synced : (fsync_dir io.dir_io d).1 ≡ true).
      ap (λ e. SortedMap.find path e.durable) (cut_log-directory io.log named)
      ∙ ap (SortedMap.find path) (fsync_dir-durable io.dir_io d synced)
      ∙ find-put_file path file without in
    publish_branches (Covers Good s path) (if io.unlinks then with_files s without else s) named
      (cut_log io.log named).0 io.renames (fsync_dir io.dir_io d).1 (cut_log io.log named).1 _
      (inl (unnamed_lem io.unlinks)) (inl refl) (λ synced. inr (file.disk, kept synced, good))
      (λ synced.
        ended (cut_log io.log named).0 (open_table io.open_io file.contents s.options.use_bloom)
          (kept synced))
  where
    unnamed_lem :
        (b : Bool)
        → (if b
            then with_files s (remove_file (temp_path s k_flush_temp) s.directory.files)
            else s).wal
          ≡ s.wal
    unnamed_lem true = refl
    unnamed_lem false = refl

    ended :
        (cut : Store) (o : Option Sstable)
        → SortedMap.find (table_path s s.next_sequence) cut.directory.durable ≡ some file.disk
        → Covers Good s (table_path s s.next_sequence) (elim o [
          | none ↦ (cut, threw)
          | some t ↦ (
            record cut {
              sstables = (record { path = table_path s s.next_sequence; table = t }) ∷ s.sstables;
              next_sequence = add_u64 s.next_sequence 1;
              memtable = clear s.memtable;
            },
            returned true,
          )
        ])
    ended cut none e = inr (file.disk, e, good)
    ended cut (some t) e = inr (file.disk, e, good)

-- Whatever fails in a flush, the log is as it was, or the file of a table is durable in the
-- directory under the name that a restart reads, and a lookup in that table, once it is open,
-- finds for each key what the memtable held of it. The memtable fits the file format.
pub flush-Covered :
    (io : FlushIo) (s : Store)
    → IsTable s.memtable.entries
    → Covered (Recoverable s.memtable.entries) s (table_path s s.next_sequence) (flush io s).0
unfolding flush table_path for_each
flush-Covered io s h =
    let temp = temp_path s k_flush_temp in
    let bits = s.options.bloom_bits_per_key in
    let m = s.memtable.entries in
    let r = written_table io s in
    let assembled = with_files s (put_file temp (data_of r.0) s.directory.files) in
    let same = ap (finish io.finish_io) (add_all-adds io.entry_writes (create bits) m) in
    flush_branches (Covers (Recoverable m) s (table_path s s.next_sequence)) s _
      (has_no_dir s || is_empty_memtable s.memtable) io.creates r.1 _ (inl refl) (inl refl)
      (inl (removed io.unlinks))
      (λ well.
        let (fine, first, file, forced) =
          finish_lem io.finish_io (add_all io.entry_writes (create bits) m) well in
        publish-Covers (Recoverable m) io assembled (data_of r.0) (λ open_io use_bloom key reads.
          subst
            (λ (f : Bytes).
              (t : Sstable) × (open_table open_io f use_bloom ≡ some t)
              × (get t key ≡ some (answer (SortedMap.find key m))))
            (ap (λ x. x.0.file) (sym same) ∙ sym forced)
            (table_round_trip bits m io.entry_writes io.finish_io open_io use_bloom key
              (sym (ap (λ x. x.1) same) ∙ well) h reads)))
  where
    removed :
        (b : Bool)
        → (if b
            then with_files s (remove_file (temp_path s k_flush_temp) s.directory.files)
            else with_files s (
                put_file
                  (temp_path s k_flush_temp)
                  (data_of (written_table io s).0)
                  s.directory.files)).wal
          ≡ s.wal
    removed true = refl
    removed false = refl
