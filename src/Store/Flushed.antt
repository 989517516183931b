-- ===== src/Store/Flushed.antt =====
-- src/store.cpp, `Store::flush` and `maybe_flush`: what they do to the layers that a read consults.
use cachedb.Prelude.{
  ◌≡◌, refl, sym, ap, ◌∙◌, ◌⊎◌, inl, inr, Bool, true, false, not, ◌||◌, Option, none, some,
  Option-cases, List, [], ◌∷◌, if◌then◌else◌, ltb,
}
use cachedb.Prelude.Words.{add_u64}
use cachedb.Prelude.SortedMap.{SortedMap}
use cachedb.Memtable.{Entry, init, for_each, clear}
use cachedb.Wal.Kernel.{WriteReturn}
use cachedb.Sstable.{FileData, SstableWriter, data_of, create, finish}
use cachedb.Sstable.Growth.{adds}
use cachedb.Sstable.Reader.{Sstable}
use cachedb.Sstable.Open.{open_table}
use cachedb.Sstable.Index.{later_answers, items_of}
use cachedb.Sstable.Answers.{Holds}
use cachedb.Sstable.RoundTrip.{IsTable, reopened-Holds}
use cachedb.Store.{
  TableFile, Store, Result, returned, threw, has_no_dir, k_flush_temp, temp_path, put_file,
  remove_file,
}
use cachedb.Store.Names.{table_path}
use cachedb.Store.Flush.{
  FlushIo, add_all, fsync_dir, cut_log, with_files, publish, is_empty_memtable, written_table,
  flush, note_flush, maybe_flush,
}

pub add_all-adds :
    (writes : List (List WriteReturn)) (w : SstableWriter) (m : SortedMap Entry)
    → add_all writes w m ≡ adds w (items_of writes m)
unfolding add_all adds
add_all-adds writes w [] = refl
add_all-adds writes w ((k, e) ∷ m) = add_all-adds (later_answers writes) _ m

-- The layers are as they were, or the memtable is empty and its entries are in a new table in
-- front of the others.
abbrev pub Kept : Store → Store → Type 0
Kept s s' =
    ((s'.memtable ≡ s.memtable) × (s'.sstables ≡ s.sstables))
    ⊎ ((t : TableFile) × Holds s.memtable.entries t.table
        × (s'.memtable ≡ init)
        × (s'.sstables ≡ t ∷ s.sstables))

abbrev same_layers : (s : Store) → Kept s s
same_layers s = inl (refl, refl)

cut_log-Kept :
    (io : FlushIo) (s : Store)
    → ((cut_log io.log s).0.memtable ≡ s.memtable) × ((cut_log io.log s).0.sstables ≡ s.sstables)
unfolding cut_log
cut_log-Kept io s = elim (Option-cases s.wal) [
  | inl e ↦ rw (e, cut_log) (refl, refl)
  | inr (w, e) ↦ rw (e, cut_log) (refl, refl)
]

-- The same of a call's result.
abbrev pub Keeps : Store → Store × Result Bool → Type 0
Keeps s r = Kept s r.0

-- A property of what `publish` returns, by which of its calls fail.
pub publish_branches :
    (P : Store × Result Bool → Type 0) (unnamed named cut : Store) (a b c : Bool)
    (end : Store × Result Bool)
    → P (unnamed, returned false)
    → P (named, returned false)
    → (b ≡ true → P (cut, returned false))
    → (b ≡ true → P end)
    → P (
        if not a
        then (unnamed, returned false)
        else if not b
        then (named, returned false)
        else if not c
        then (cut, returned false)
        else end)
publish_branches P unnamed named cut false b c end p q t u = p
publish_branches P unnamed named cut true false c end p q t u = q
publish_branches P unnamed named cut true true false end p q t u = t refl
publish_branches P unnamed named cut true true true end p q t u = u refl

publish-Kept :
    (io : FlushIo) (s : Store) (file : FileData)
    → ((t : Sstable)
        → open_table io.open_io file.contents s.options.use_bloom ≡ some t
        → Holds s.memtable.entries t)
    → Keeps s (publish io s file)
unfolding publish clear
publish-Kept io s file reads =
    let path = table_path s s.next_sequence in
    let without = remove_file (temp_path s k_flush_temp) s.directory.files in
    let (d, dir_synced) =
      fsync_dir io.dir_io (record s.directory { files = put_file path file without }) in
    let named = record s { directory = d } in
    let (cut, log_cut) = cut_log io.log named in
    let kept = cut_log-Kept io named in
    let unnamed = if io.unlinks then with_files s without else s in
    publish_branches (Keeps s) unnamed named cut io.renames dir_synced log_cut _
      (unnamed_lem io.unlinks) (same_layers s) (λ synced. inl kept)
      (λ synced. ended cut (open_table io.open_io file.contents s.options.use_bloom) kept reads)
  where
    ended :
        (cut : Store) (o : Option Sstable)
        → (cut.memtable ≡ s.memtable) × (cut.sstables ≡ s.sstables)
        → ((t : Sstable) → o ≡ some t → Holds s.memtable.entries t)
        → Keeps s (elim o [
          | none ↦ (cut, threw)
          | some t ↦ (
            record cut {
              sstables = (record { path = table_path s s.next_sequence; table = t }) ∷ s.sstables;
              next_sequence = add_u64 s.next_sequence 1;
              memtable = clear s.memtable;
            },
            returned true,
          )
        ])
    ended cut none kept reads = inl kept
    ended cut (some t) kept reads =
        inr (record { path = table_path s s.next_sequence; table = t }, reads t refl, refl, refl)

    unnamed_lem :
        (b : Bool)
        → Kept s (
            if b
            then with_files s (remove_file (temp_path s k_flush_temp) s.directory.files)
            else s)
    unnamed_lem true = same_layers s
    unnamed_lem false = same_layers s

-- A property of what `flush` returns, by which of its calls fail.
pub flush_branches :
    (P : Store × Result Bool → Type 0) (s removed : Store) (a b c : Bool)
    (end : Store × Result Bool)
    → P (s, returned true)
    → P (s, threw)
    → P (removed, returned false)
    → (c ≡ true → P end)
    → P (
        if a
        then (s, returned true)
        else if not b
        then (s, threw)
        else if c
        then end
        else (removed, returned false))
flush_branches P s removed true b c end p q t u = p
flush_branches P s removed false false c end p q t u = q
flush_branches P s removed false true true end p q t u = u refl
flush_branches P s removed false true false end p q t u = t

-- A flush leaves the layers as they were, whatever fails in it, or it has moved every entry of the
-- memtable, with its tombstones and stamps, into a new newest table.
pub flush-Kept : (io : FlushIo) (s : Store) → IsTable s.memtable.entries → Keeps s (flush io s)
unfolding flush for_each
flush-Kept io s h =
    let temp = temp_path s k_flush_temp in
    let bits = s.options.bloom_bits_per_key in
    let m = s.memtable.entries in
    let r = written_table io s in
    let assembled = with_files s (put_file temp (data_of r.0) s.directory.files) in
    let same = ap (finish io.finish_io) (add_all-adds io.entry_writes (create bits) m) in
    flush_branches (Keeps s) s _ (has_no_dir s || is_empty_memtable s.memtable) io.creates r.1 _
      (same_layers s) (same_layers s) (removed io.unlinks)
      (λ well. publish-Kept io assembled (data_of r.0) (λ t opens.
        reopened-Holds bits m io.entry_writes io.finish_io io.open_io s.options.use_bloom t
          (sym (ap (λ x. x.1) same) ∙ well) h
          (ap (λ x. open_table io.open_io x.0.file s.options.use_bloom) (sym same) ∙ opens)))
  where
    removed :
        (b : Bool)
        → Kept s (
            if b
            then with_files s (remove_file (temp_path s k_flush_temp) s.directory.files)
            else with_files s (
                put_file
                  (temp_path s k_flush_temp)
                  (data_of (written_table io s).0)
                  s.directory.files))
    removed true = same_layers s
    removed false = same_layers s

pub maybe_flush-Kept :
    (io : FlushIo) (s : Store) → IsTable s.memtable.entries → Keeps s (maybe_flush io s)
unfolding maybe_flush
maybe_flush-Kept io s h =
    when (has_no_dir s) (ltb s.memtable.bytes s.options.memtable_limit_bytes)
      (noted (flush io s) (flush-Kept io s h))
  where
    noted : (r : Store × Result Bool) → Keeps s r → Keeps s (note_flush r)
    noted (s', returned ok) k = k
    noted (s', threw) k = k

    when :
        (a b : Bool)
        → Keeps s (note_flush (flush io s))
        → Keeps s (
            if a
            then (s, returned true)
            else if b
            then (s, returned true)
            else note_flush (flush io s))
    when true b k = same_layers s
    when false true k = same_layers s
    when false false k = k
