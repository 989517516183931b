-- ===== src/Store/Write.antt =====
-- src/store.cpp, `set`, `expire`, `del`, `del_many`, `apply` and `sweep_expired`: the log first,
-- then the memtable, then a flush when it is due.
use cachedb.Prelude.{ℕ, ◌+◌, Bool, true, false, none, some, List, [], ◌∷◌, map, if◌then◌else◌}
use cachedb.Prelude.Int.{ℤ, pos}
use cachedb.Prelude.Words.{add_u64}
use cachedb.Prelude.Bytes.{Bytes}
use cachedb.Memtable.{Memtable}
use cachedb.Memtable
use cachedb.Wal.Record.{Op, k_set, k_delete, Record}
use cachedb.Wal.Log.{Wal, Env, Mutation}
use cachedb.Wal.Log
use cachedb.Store.{Store, Result, returned, threw}
use cachedb.Store.Layers.{lookup, get, is_some}
use cachedb.Store.Flush.{FlushIo, maybe_flush}

-- What a write meets: the log's calls, and those of a flush.
pub record WriteIo : Type 0 where
  pub log : Env
  pub flush_io : FlushIo

-- wal_->append, when there is a log.
unfoldable pub log_record : Env → Store → Op → Bytes → Bytes → ℤ → Store × Bool
log_record env s op key value expires_at_ms = elim s.wal [
  | none ↦ (s, true)
  | some w ↦
      let (w', ok) = Log.append env w op key value expires_at_ms in (record s { wal = some w' }, ok)
]

-- The end of a write: maybe_flush(), and the answer `a` unless it threw.
abbrev pub then_flush {ℓ} : {A : Type ℓ} → FlushIo → Store → A → Store × Result A
then_flush io s a =
    let (s', r) = maybe_flush io s in (s', elim r [ returned _ ↦ returned a | threw ↦ threw ])

unfoldable pub set : WriteIo → Store → Bytes → Bytes → ℤ → Store × Result Bool
unfolding log_record
set io s key value expires_at_ms =
    let (logged, ok) = log_record io.log s k_set key value expires_at_ms in
    if ok
    then then_flush io.flush_io
        (record logged { memtable = Memtable.set s.memtable key value expires_at_ms }) true
    else (logged, returned false)

pub record ExpireResult : Type 0 where
  pub durable : Bool
  pub applied : Bool

abbrev pub expire_answer : Result Bool → Result ExpireResult
expire_answer (returned true) = returned (record { durable = true; applied = true })
expire_answer (returned false) = returned (record { durable = false; applied = false })
expire_answer threw = threw

unfoldable pub expire : WriteIo → ℤ → Store → Bytes → ℤ → Store × Result ExpireResult
unfolding set
expire io now s key expires_at_ms = elim (lookup now s key) [
  | none ↦ (s, returned (record { durable = true; applied = false }))
  | some found ↦ let (s', r) = set io s key found.value expires_at_ms in (s', expire_answer r)
]

pub record DelResult : Type 0 where
  pub durable : Bool
  pub was_live : Bool

unfoldable pub del : WriteIo → ℤ → Store → Bytes → Store × Result DelResult
unfolding log_record
del io now s key =
    let was_live = is_some (get now s key) in
    let (logged, ok) = log_record io.log s k_delete key [] (pos 0) in
    if ok
    then then_flush io.flush_io (record logged { memtable = (Memtable.del s.memtable key).0 })
        (record { durable = true; was_live = was_live })
    else (logged, returned (record { durable = false; was_live = false }))

pub record DelBatchResult : Type 0 where
  pub durable : Bool
  pub removed : ℕ

-- The mutations of a batch of deletes.
abbrev pub deletion : Bytes → Mutation
deletion key = record { op = k_delete; key = key; value = []; expires_at_ms = pos 0 }

unfoldable pub log_batch : Env → Store → List Bytes → Store × Bool
log_batch env s keys = elim s.wal [
  | none ↦ (s, true)
  | some w ↦
      let (w', ok) = Log.append_batch env w (map deletion keys) in (record s { wal = some w' }, ok)
]

-- The second loop of `del_many`; each get reads the clock, here at one time.
unfoldable pub del_each : ℤ → Store → List Bytes → ℕ → Store × ℕ
del_each now s [] removed = (s, removed)
del_each now s (k ∷ ks) removed =
    del_each now (record s { memtable = (Memtable.del s.memtable k).0 }) ks
      (if is_some (get now s k) then removed + 1 else removed)

unfoldable pub del_many : WriteIo → ℤ → Store → List Bytes → Store × Result DelBatchResult
unfolding log_batch del_each
del_many io now s keys =
    let (logged, ok) = log_batch io.log s keys in
    let (deleted, removed) = del_each now logged keys 0 in
    if ok
    then then_flush io.flush_io deleted (record { durable = true; removed = removed })
    else (logged, returned (record { durable = false; removed = 0 }))

unfoldable pub apply : Store → Record → Store
apply s r = elim r.op [
  | k_set ↦ record s { memtable = Memtable.set s.memtable r.key r.value r.expires_at_ms }
  | k_delete ↦ record s { memtable = (Memtable.del s.memtable r.key).0 }
]

unfoldable pub sweep_expired : ℤ → Store → ℕ → Store × ℕ
sweep_expired now s budget =
    let (t, swept) = Memtable.sweep_expired s.memtable now budget in
    (record s { memtable = t; swept_keys = add_u64 s.swept_keys swept }, swept)
