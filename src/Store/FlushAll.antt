-- ===== src/Store/FlushAll.antt =====
-- src/store.cpp, `flush_all`: FLUSHALL, whose steps may fail one by one.
use cachedb.Prelude.{
  ℕ, ◌+◌, length, drop, ◌≡◌, refl, sym, ap, ap₂, ◌∙◌, ◌⊎◌, inl, inr, Bool, true, false, not, ◌&&◌,
  none, Option-cases, List, [], ◌∷◌, if◌then◌else◌,
}
use mathlib.Core.Path.{subst}
use mathlib.Core.Bool.{false≢true}
use cachedb.Sstable.{FileData}
use cachedb.Store.Names.{sequence_of}
use cachedb.Prelude.Int.{ℤ}
use cachedb.Prelude.Bytes.{Bytes, key_eq, key_eq_iff}
use cachedb.Prelude.SortedMap
use cachedb.Prelude.SortedMap.{SortedMap}
use cachedb.Memtable.{Entry, init, clear, for_each}
use cachedb.Memtable
use cachedb.Wal.Log
use cachedb.Store.{TableFile, Store, has_no_dir, remove_file}
use cachedb.Store.Layers.{lookup_tables, lookup}
use cachedb.Memtable.Expiry.{judge}
use cachedb.Store.View.{of_visible, lookup-of_visible}
use cachedb.Store.Crash.{cut_log-directory, fsync_dir-durable}
use cachedb.Store.Flush.{
  UnlinkReturn, unlinked, unlink_failed, unlink_all, FlushAllIo, flush_all, fsync_dir, cut_log,
  forced_down,
}

-- A table of the list has the path.
abbrev pub Listed : Bytes → List TableFile → Type 0
Listed path [] = ⊥
Listed path (t ∷ ts) = (path ≡ t.path) ⊎ Listed path ts

-- Every file of the directory that a restart would take for a table is one of the open tables. A
-- path has `prefix` bytes in front of the name.
abbrev pub AllOpen : ℕ → List TableFile → List (Bytes × FileData) → Type 0
AllOpen prefix ts [] = Unit
AllOpen prefix ts ((path, file) ∷ files) =
    ((sequence_of (drop prefix path) ≡ none) ⊎ Listed path ts) × AllOpen prefix ts files

-- No file would be taken for a table.
abbrev pub NoTables {ℓ} : {A : Type ℓ} → ℕ → List (Bytes × A) → Type 0
NoTables prefix [] = Unit
NoTables prefix ((path, a) ∷ files) =
    (sequence_of (drop prefix path) ≡ none) × NoTables prefix files

remove_file-AllOpen :
    (prefix : ℕ) (t : TableFile) (ts : List TableFile) (files : List (Bytes × FileData))
    → AllOpen prefix (t ∷ ts) files
    → AllOpen prefix ts (remove_file t.path files)
unfolding remove_file
remove_file-AllOpen prefix t ts [] all_open = tt
remove_file-AllOpen prefix t ts ((path, file) ∷ files) (one, all_open) =
    by (remove_file-AllOpen prefix t ts files all_open) (key_eq path t.path) refl one
  where
    by :
        AllOpen prefix ts (remove_file t.path files)
        → (b : Bool) → key_eq path t.path ≡ b
        → (sequence_of (drop prefix path) ≡ none) ⊎ Listed path (t ∷ ts)
        → AllOpen prefix ts
            (if b then remove_file t.path files else (path, file) ∷ remove_file t.path files)
    by rest true e h = rest
    by rest false e (inl other) = (inl other, rest)
    by rest false e (inr (inr later)) = (inr later, rest)
    by rest false e (inr (inl same)) = absurd (false≢true (sym e ∙ (key_eq_iff path t.path).1 same))

AllOpen-NoTables :
    (prefix : ℕ) (files : List (Bytes × FileData)) → AllOpen prefix [] files → NoTables prefix files
AllOpen-NoTables prefix [] all_open = tt
AllOpen-NoTables prefix ((path, file) ∷ files) (inl other, all_open) =
    (other, AllOpen-NoTables prefix files all_open)
AllOpen-NoTables prefix ((path, file) ∷ files) (inr listed, all_open) = absurd listed

unlink_all-NoTables :
    (prefix : ℕ) (answers : List UnlinkReturn) (ts : List TableFile)
    (files : List (Bytes × FileData))
    → AllOpen prefix ts files
    → (unlink_all answers ts files).1 ≡ true
    → NoTables prefix (unlink_all answers ts files).0
unfolding unlink_all
unlink_all-NoTables prefix answers [] files all_open h = AllOpen-NoTables prefix files all_open
unlink_all-NoTables prefix [] (t ∷ ts) files all_open h =
    unlink_all-NoTables prefix [] ts (remove_file t.path files)
      (remove_file-AllOpen prefix t ts files all_open) h
unlink_all-NoTables prefix (unlinked ∷ answers) (t ∷ ts) files all_open h =
    unlink_all-NoTables prefix answers ts (remove_file t.path files)
      (remove_file-AllOpen prefix t ts files all_open) h
unlink_all-NoTables prefix (unlink_failed ∷ answers) (t ∷ ts) files all_open h =
    absurd (false≢true h)

forced_down-NoTables :
    (prefix : ℕ) (files : List (Bytes × FileData))
    → NoTables prefix files
    → NoTables prefix (forced_down files)
forced_down-NoTables prefix [] h = tt
forced_down-NoTables prefix ((path, file) ∷ files) (other, h) =
    (other, forced_down-NoTables prefix files h)

-- A property of what `flush_all` returns, by which of its steps fail.
flush_all_branches :
    (P : Store × Bool → Type 0) (synced cut end : Store) (a b c : Bool)
    → P (synced, false)
    → (a ≡ true → b ≡ true → P (cut, false))
    → (a ≡ true → b ≡ true → P (end, true))
    → P (if not (a && b) then (synced, false) else if not c then (cut, false) else (end, true))
flush_all_branches P synced cut end false b c p q r = p
flush_all_branches P synced cut end true false c p q r = p
flush_all_branches P synced cut end true true false p q r = q refl refl
flush_all_branches P synced cut end true true true p q r = r refl refl

-- The log is as it was, or no table is left on the disk.
abbrev pub Removed : Store → Store × Bool → Type 0
Removed s r = (r.0.wal ≡ s.wal) ⊎ NoTables (length s.options.dir + 1) r.0.directory.durable

-- Whatever fails in FLUSHALL, the log is as it was, or no file is durable that a restart would take
-- for a table: a loss of power can bring back no table that newer writes, which the log no longer
-- has, had replaced. The store has a directory, and every table that is named in it is one that
-- the store has open. (A flush or a FLUSHALL that failed may leave a table that is not open.)
pub flush_all-Removed :
    (io : FlushAllIo) (s : Store)
    → has_no_dir s ≡ false
    → AllOpen (length s.options.dir + 1) s.sstables s.directory.files
    → Removed s (flush_all io s)
unfolding flush_all
flush_all-Removed io s dir all_open =
    let (files, removed) = unlink_all io.unlinks s.sstables s.directory.files in
    let d = record s.directory { files = files } in
    let synced = record s { sstables = []; directory = (fsync_dir io.dir_io d).0 } in
    rw dir (
      flush_all_branches (Removed s) synced (cut_log io.log synced).0 _ removed
        (fsync_dir io.dir_io d).1 (cut_log io.log synced).1 (inl refl)
        (λ gone ok. inr (durable gone ok)) (λ gone ok. inr (durable gone ok)))
  where
    prefix : ℕ
    prefix = length s.options.dir + 1

    durable :
        (unlink_all io.unlinks s.sstables s.directory.files).1 ≡ true
        → (fsync_dir io.dir_io (record s.directory {
          files = (unlink_all io.unlinks s.sstables s.directory.files).0;
        })).1
          ≡ true
        → NoTables prefix
            (cut_log io.log (record s {
              sstables = [];
              directory =
                  (fsync_dir io.dir_io (record s.directory {
                    files = (unlink_all io.unlinks s.sstables s.directory.files).0;
                  })).0;
            })).0.directory.durable
    durable gone ok =
        subst (NoTables prefix)
          (sym
            (ap (λ e. e.durable) (cut_log-directory io.log _) ∙ fsync_dir-durable io.dir_io _ ok))
          (forced_down-NoTables prefix (unlink_all io.unlinks s.sstables s.directory.files).0
            (unlink_all-NoTables prefix io.unlinks s.sstables s.directory.files all_open gone))

-- The layers that are left: none of the tables, and the memtable or nothing.
abbrev Emptied : Store → Store × Bool → Type 0
Emptied s (s', ok) = (s'.sstables ≡ []) × (s'.memtable ≡ (if ok then init else s.memtable))

cut_log-layers :
    (env : Log.Env) (s : Store)
    → ((cut_log env s).0.sstables ≡ s.sstables) × ((cut_log env s).0.memtable ≡ s.memtable)
unfolding cut_log
cut_log-layers env s = elim (Option-cases s.wal) [
  | inl e ↦ rw (e, cut_log) (refl, refl)
  | inr (w, e) ↦ rw (e, cut_log) (refl, refl)
]

flush_all-Emptied : (io : FlushAllIo) (s : Store) → Emptied s (flush_all io s)
unfolding flush_all clear
flush_all-Emptied io s =
    let (files, removed) = unlink_all io.unlinks s.sstables s.directory.files in
    let unlinked = record s { sstables = []; directory = record s.directory { files = files } } in
    let r =
      if has_no_dir s then (unlinked.directory, true) else fsync_dir io.dir_io unlinked.directory in
    let synced = record unlinked { directory = r.0 } in
    let layers = cut_log-layers io.log synced in
    flush_all_branches (Emptied s) synced (cut_log io.log synced).0 _ removed r.1
      (cut_log io.log synced).1 (refl, refl) (λ p q. layers) (λ p q. (layers.0, refl))

find_nothing : (key : Bytes) → Memtable.find init key ≡ none
unfolding Memtable.find SortedMap.find
find_nothing key = refl

no_layer :
    (now : ℤ) (s s' : Store) (key : Bytes) (m : Memtable.Memtable)
    → s'.sstables ≡ []
    → s'.memtable ≡ m
    → Memtable.find m key ≡ none
    → lookup now s' key ≡ none
unfolding lookup_tables
no_layer now s s' key m ts same nothing =
    lookup-of_visible now s' key
    ∙ ap₂ (λ t l. of_visible (judge now (Memtable.find t key)) (lookup_tables now l key)) same ts
    ∙ ap (λ o. of_visible (judge now o) none) nothing

-- After FLUSHALL no key is found: none at all when it reports success, and when it reports a
-- failure none that only tables held. The tables are let go before the first step that can fail.
pub lookup-flush_all :
    (now : ℤ) (io : FlushAllIo) (s : Store) (key : Bytes)
    → ((flush_all io s).1 ≡ true) ⊎ (Memtable.find s.memtable key ≡ none)
    → lookup now (flush_all io s).0 key ≡ none
lookup-flush_all now io s key h = by (flush_all io s) (flush_all-Emptied io s) h
  where
    by :
        (r : Store × Bool)
        → Emptied s r
        → (r.1 ≡ true) ⊎ (Memtable.find s.memtable key ≡ none)
        → lookup now r.0 key ≡ none
    by (s', true) (ts, m) h = no_layer now s s' key init ts m (find_nothing key)
    by (s', false) (ts, m) (inl h) = let wrong : false ≡ true = h in cc
    by (s', false) (ts, m) (inr h) = no_layer now s s' key s.memtable ts m h
