-- ===== src/Wal/Log/Durable.antt =====
-- When the log may skip an fsync: `needs_sync`, and the early returns of `maybe_sync`, in
-- src/wal.h and src/wal.cpp.
use cachedb.Prelude.{
  ℕ, ◌+◌, ◌^◌, ◌<◌, ◌≤◌, ◌≡◌, refl, ap, inl, inr, Bool, true, false, List, [], ◌∷◌, ◌++◌, arith,
  length, length-append,
}
use cachedb.Prelude.Int.{ℤ}
use cachedb.Prelude.Bytes.{Bytes}
use cachedb.Wal.Record.{Op, Record}
use cachedb.Wal.Record.Layout.{record_bytes}
use cachedb.Wal.Record.RoundTrip.{length-record_bytes}
use cachedb.Wal.Replay.Recovery.{log_bytes}
use cachedb.Wal.Kernel.{write_all-Appends}
use cachedb.Wal.Log.{
  SyncPolicy, Wal, Env, Mutation, needs_sync, sync, write_out, append, append_batch, truncate,
  maybe_sync, set_group_commit, open_wal,
}
use cachedb.Wal.Log.Append.{dated, encode_batch-append}
use cachedb.Wal.Record.Layout.{encode-append}

-- The calls on an open log.
pub data Call : Type 0 where
  appends : Op → Bytes → Bytes → ℤ → Call
  batches : List Mutation → Call
  syncs truncates maybe_syncs : Call
  groups : Bool → Call

unfoldable pub call : Env → Wal → Call → Wal × Bool
call env w (appends op key value expires_at_ms) = append env w op key value expires_at_ms
call env w (batches ms) = append_batch env w ms
call env w syncs = sync env w
call env w truncates = truncate env w
call env w maybe_syncs = maybe_sync env w
call env w (groups on) = (set_group_commit w on, true)

-- With nothing counted since the last sync the disk holds all of the file.
pub record IsSettled (w : Wal) : Type 0 where
  pub settled : w.bytes_since_sync ≡ 0 → w.disk ≡ w.file
  pub counted : w.bytes_since_sync ≤ length w.file

write_out-IsSettled :
    (env : Env) (w : Wal) (buf : Bytes)
    → 1 ≤ length buf
    → IsSettled w
    → (write_out env w buf).1 ≡ true
    → length (write_out env w buf).0.file < 2 ^ 64
    → IsSettled (write_out env w buf).0
write_out-IsSettled env w buf some_bytes v done room =
    elim (write_all-Appends env.writes w.file buf) [
      | inl (ok, e) ↦
          let whole : (write_out env w buf).0.file ≡ w.file ++ buf =
            unfold write_out in ground arith in
          let fits : length w.file + length buf < 2 ^ 64 =
            omega (arith, ap length whole, length-append w.file buf) in
          record {
            settled = λ z. unfold write_out sync in ground (arith, v.counted);
            counted = unfold write_out sync in ground (arith, v.counted, length-append w.file buf);
          }
      | inr (part, left, failed, e, s, n) ↦ absurd (unfold write_out in ground arith)
    ]

encoded_some : (r : Record) (rest : Bytes) → 1 ≤ length (record_bytes r ++ rest)
encoded_some r rest = omega (arith, length-append (record_bytes r) rest, length-record_bytes r)

sync-IsSettled : (env : Env) (w : Wal) → (sync env w).1 ≡ true → IsSettled (sync env w).0
unfolding sync
sync-IsSettled env w done = ground arith

call-IsSettled :
    (env : Env) (w : Wal) (c : Call)
    → IsSettled w
    → (call env w c).1 ≡ true
    → length (call env w c).0.file < 2 ^ 64
    → IsSettled (call env w c).0
unfolding call
call-IsSettled env w (appends op key value x) v done room =
    let r : Record = record {
      op = op;
      timestamp_ms = env.now_ms;
      expires_at_ms = x;
      key = key;
      value = value;
    } in
    unfold append in
    write_out-IsSettled env w _ (rw (encode-append [] r) (omega (arith, length-record_bytes r))) v
      done room
call-IsSettled env w (batches []) v done room = unfold append_batch in v
call-IsSettled env w (batches (m ∷ ms)) v done room =
    unfold append_batch in
    write_out-IsSettled env w _
      (rw (encode_batch-append [] env.now_ms (m ∷ ms))
        (unfold log_bytes in encoded_some (dated env.now_ms m) _))
      v done room
call-IsSettled env w syncs v done room = sync-IsSettled env w done
call-IsSettled env w truncates v done room = unfold truncate sync in ground arith
call-IsSettled env w maybe_syncs v done room =
    unfold maybe_sync sync in ground (arith, v.settled, v.counted)
call-IsSettled env w (groups on) v done room =
    unfold set_group_commit in record { settled = v.settled; counted = v.counted }

-- A run of calls, each with what it meets, of which every one reported success.
unfoldable pub calls : Wal → List (Env × Call) → Wal
calls w [] = w
calls w ((env, c) ∷ cs) = calls (call env w c).0 cs

abbrev pub AllDone : Wal → List (Env × Call) → Type 0
AllDone w [] = Unit
AllDone w ((env, c) ∷ cs) =
    ((call env w c).1 ≡ true)
    × (length (call env w c).0.file < 2 ^ 64)
    × AllDone (call env w c).0 cs

calls-IsSettled :
    (w : Wal) (cs : List (Env × Call)) → IsSettled w → AllDone w cs → IsSettled (calls w cs)
unfolding calls
calls-IsSettled w [] v d = v
calls-IsSettled w ((env, c) ∷ cs) v d =
    calls-IsSettled (call env w c).0 cs (call-IsSettled env w c v d.0 d.1) d.2

-- From a log opened on a file that is on disk, after any calls that all reported success and kept
-- the file below 2 ^ 64 bytes: where `needs_sync` says that there is nothing to do, the disk does
-- hold the whole file. So the server may skip the fsync and release its replies.
pub needs_sync-false :
    (contents : Bytes) (policy : SyncPolicy) (interval start : ℕ) (cs : List (Env × Call))
    → let w = open_wal contents contents policy interval start in
      AllDone w cs → needs_sync (calls w cs) ≡ false → (calls w cs).disk ≡ (calls w cs).file
unfolding needs_sync
needs_sync-false contents policy interval start cs d quiet =
    let w = open_wal contents contents policy interval start in
    (calls-IsSettled w cs (unfold open_wal in record { settled = λ z. refl; counted = omega arith })
        d).settled
      (ground arith)

-- Whenever a sync reports success, whatever failed before it, the disk holds the whole file, and
-- so it does after a successful truncation.
pub sync_reaches_disk :
    (env : Env) (w : Wal)
    → ((sync env w).1 ≡ true → ((sync env w).0.disk ≡ w.file) × ((sync env w).0.file ≡ w.file))
      × ((truncate env w).1 ≡ true
          → ((truncate env w).0.disk ≡ []) × ((truncate env w).0.file ≡ []))
unfolding sync truncate
sync_reaches_disk env w = (λ h. ground arith, λ h. ground arith)
