-- ===== src/Store/Flush.antt =====
-- src/store.cpp, `flush`, `maybe_flush` and `flush_all`, with `fsync_dir`. What the kernel answers
-- is an argument.
use cachedb.Prelude.{
  Bool, true, false, not, ◌&&◌, ◌||◌, none, some, List, [], ◌∷◌, ltb, if◌then◌else◌,
}
use cachedb.Prelude.Bytes.{Bytes}
use cachedb.Prelude.Words.{add_u64}
use cachedb.Prelude.SortedMap.{SortedMap}
use cachedb.Memtable.{Entry, Memtable, for_each, clear}
use cachedb.Wal.Kernel.{WriteReturn, SyncReturn, fsync_loop}
use cachedb.Wal.Log.{Wal, Env}
use cachedb.Wal.Log
use cachedb.Sstable.{FileData, SstableWriter, data_of, FinishIo, create, add, finish}
use cachedb.Sstable.Index.{first_answers, later_answers}
use cachedb.Sstable.Open.{OpenIo, open_table}
use cachedb.Store.{
  Directory, TableFile, Store, Result, returned, threw, has_no_dir, remove_file, put_file,
  k_flush_temp, temp_path,
}
use cachedb.Store.Names.{table_path}

pub record DirIo : Type 0 where
  pub opens : Bool
  pub fsyncs : List SyncReturn

-- What a loss of power leaves of the files: the data that their own fsync forced down.
abbrev pub forced_down : List (Bytes × FileData) → List (Bytes × Bytes)
forced_down [] = []
forced_down ((name, file) ∷ files) = (name, file.disk) ∷ forced_down files

-- The names that the directory has now are durable when it succeeds, and not the data of the files.
unfoldable pub fsync_dir : DirIo → Directory → Directory × Bool
fsync_dir io d =
    if not io.opens
    then (d, false)
    else if fsync_loop io.fsyncs
    then (record d { durable = forced_down d.files }, true)
    else (d, false)

-- What a flush meets, in the order of its calls. The writes of the entries are one list for each;
-- entries past its end are written in full. `unlinks` is about the removal of the temporary file.
pub record FlushIo : Type 0 where
  pub creates : Bool
  pub entry_writes : List (List WriteReturn)
  pub finish_io : FinishIo
  pub unlinks : Bool
  pub renames : Bool
  pub dir_io : DirIo
  pub log : Env
  pub open_io : OpenIo

-- memtable_.for_each, with writer.add on each entry.
unfoldable pub add_all : List (List WriteReturn) → SstableWriter → SortedMap Entry → SstableWriter
add_all writes w [] = w
add_all writes w ((k, e) ∷ m) =
    add_all (later_answers writes)
      (add (first_answers writes) w k e.value e.tombstone e.expires_at_ms) m

-- wal_ && !wal_->truncate(), as whether the log is cut, or there is none.
unfoldable pub cut_log : Env → Store → Store × Bool
cut_log env s = elim s.wal [
  | none ↦ (s, true)
  | some w ↦ let (w', ok) = Log.truncate env w in (record s { wal = some w' }, ok)
]

abbrev pub with_files : Store → List (Bytes × FileData) → Store
with_files s files = record s { directory = record s.directory { files = files } }

-- From the rename on: `file` is the finished file.
unfoldable pub publish : FlushIo → Store → FileData → Store × Result Bool
unfolding fsync_dir cut_log
publish io s file =
    let path = table_path s s.next_sequence in
    let without = remove_file (temp_path s k_flush_temp) s.directory.files in
    let (d, dir_synced) =
      fsync_dir io.dir_io (record s.directory { files = put_file path file without }) in
    let named = record s { directory = d } in
    let (cut, log_cut) = cut_log io.log named in
    if not io.renames
    then (if io.unlinks then with_files s without else s, returned false)
    else if not dir_synced
    then (named, returned false)
    else if not log_cut
    then (cut, returned false)
    else elim (open_table io.open_io file.contents s.options.use_bloom) [
      | none ↦ (cut, threw)
      | some t ↦ (
        record cut {
          sstables = (record { path = path; table = t }) ∷ s.sstables;
          next_sequence = add_u64 s.next_sequence 1;
          memtable = clear s.memtable;
        },
        returned true,
      )
    ]

abbrev pub is_empty_memtable : Memtable → Bool
is_empty_memtable t = elim t.entries [ [] ↦ true | _ ∷ _ ↦ false ]

-- The writer's file and whether it is finished.
abbrev pub written_table : FlushIo → Store → SstableWriter × Bool
written_table io s =
    finish io.finish_io
      (add_all io.entry_writes (create s.options.bloom_bits_per_key) (for_each s.memtable))

unfoldable pub flush : FlushIo → Store → Store × Result Bool
unfolding publish add_all
flush io s =
    let (w, finished) = written_table io s in
    let temp = temp_path s k_flush_temp in
    let assembled = with_files s (put_file temp (data_of w) s.directory.files) in
    if has_no_dir s || is_empty_memtable s.memtable
    then (s, returned true)
    else if not io.creates
    then (s, threw)
    else if finished
    then publish io assembled (data_of w)
    else (
      if io.unlinks then with_files s (remove_file temp s.directory.files) else assembled,
      returned false,
    )

-- flush_failed_ = !flush(), or the exception.
abbrev pub note_flush : Store × Result Bool → Store × Result Bool
note_flush (s, returned ok) = (record s { flush_failed = not ok }, returned true)
note_flush (s, threw) = (s, threw)

-- The answer is `returned true`, for void.
unfoldable pub maybe_flush : FlushIo → Store → Store × Result Bool
unfolding flush
maybe_flush io s =
    if has_no_dir s
    then (s, returned true)
    else if ltb s.memtable.bytes s.options.memtable_limit_bytes
    then (s, returned true)
    else note_flush (flush io s)

-- unlink(2): the name is gone, which is also ENOENT, or another error
pub data UnlinkReturn : Type 0 where
  unlinked unlink_failed : UnlinkReturn

-- The loop over `paths`: the listing, and whether all went well. Past the end of the answers each
-- file is unlinked.
unfoldable pub unlink_all :
    List UnlinkReturn → List TableFile → List (Bytes × FileData) → List (Bytes × FileData) × Bool
unlink_all answers [] files = (files, true)
unlink_all [] (t ∷ ts) files = unlink_all [] ts (remove_file t.path files)
unlink_all (unlinked ∷ answers) (t ∷ ts) files = unlink_all answers ts (remove_file t.path files)
unlink_all (unlink_failed ∷ answers) (t ∷ ts) files = ((unlink_all answers ts files).0, false)

pub record FlushAllIo : Type 0 where
  pub unlinks : List UnlinkReturn
  pub dir_io : DirIo
  pub log : Env

unfoldable pub flush_all : FlushAllIo → Store → Store × Bool
unfolding unlink_all fsync_dir cut_log
flush_all io s =
    let (files, removed) = unlink_all io.unlinks s.sstables s.directory.files in
    let unlinked = record s { sstables = []; directory = record s.directory { files = files } } in
    let (d, dir_synced) =
      if has_no_dir s then (unlinked.directory, true) else fsync_dir io.dir_io unlinked.directory in
    let synced = record unlinked { directory = d } in
    let (cut, log_cut) = cut_log io.log synced in
    if not (removed && dir_synced)
    then (synced, false)
    else if not log_cut
    then (cut, false)
    else (record cut { memtable = clear s.memtable; next_sequence = 1; flush_failed = false }, true)
