-- ===== src/Wal/Log.antt =====
-- src/wal.h and src/wal.cpp, `class Wal`: the open log, its sync policy and its group commit. The
-- clocks and the answers of the kernel are arguments of each call.
pub mod Append
pub mod Durable
pub mod Recovered
pub mod Torn
use cachedb.Prelude.{
  ℕ, ◌+◌, ◌-◌, ◌<◌, Bool, true, false, not, ◌&&◌, List, [], ◌∷◌, ltb, ◌==◌, if◌then◌else◌, length,
}
use cachedb.Prelude.Int.{ℤ}
use cachedb.Prelude.Words.{add_u64, u64}
use cachedb.Prelude.Bytes.{Bytes}
use cachedb.Wal.Record.{Op, encode_record}
use cachedb.Wal.Kernel.{WriteReturn, SyncReturn, write_all, fsync_loop}

pub data SyncPolicy : Type 0 where
  k_always k_every_sec k_no : SyncPolicy

-- `file` is what the kernel holds for the descriptor, and `disk` what the last successful fsync
-- forced down, which survives a loss of power.
pub record Wal : Type 0 where
  pub file : Bytes
  pub disk : Bytes
  pub policy : SyncPolicy
  pub last_sync : ℕ
  pub sync_interval : ℕ
  pub size : ℕ
  pub bytes_since_sync : ℕ
  pub syncs : ℕ
  pub group_commit : Bool

-- What one call meets: the kernel's answers, now_ms(), and steady_clock::now().
pub record Env : Type 0 where
  pub writes : List WriteReturn
  pub fsyncs : List SyncReturn
  pub truncates : Bool
  pub now_ms : ℤ
  pub steady_now : ℕ

-- The constructor, over a file with these contents, of which `on_disk` is what the disk holds.
unfoldable pub open_wal : Bytes → Bytes → SyncPolicy → ℕ → ℕ → Wal
open_wal contents on_disk policy sync_interval steady_now = record {
  file = contents;
  disk = on_disk;
  policy = policy;
  last_sync = steady_now;
  sync_interval = sync_interval;
  size = u64 (length contents);
  bytes_since_sync = 0;
  syncs = 0;
  group_commit = false;
}

unfoldable pub set_group_commit : Wal → Bool → Wal
set_group_commit w on = record w { group_commit = on }

unfoldable pub needs_sync : Wal → Bool
needs_sync w = ltb 0 w.bytes_since_sync

unfoldable pub sync : Env → Wal → Wal × Bool
sync env w =
    if fsync_loop env.fsyncs
    then (
      record w {
        disk = w.file;
        last_sync = env.steady_now;
        bytes_since_sync = 0;
        syncs = add_u64 w.syncs 1;
      },
      true,
    )
    else (w, false)

abbrev is_always : SyncPolicy → Bool
is_always k_always = true
is_always k_every_sec = false
is_always k_no = false

abbrev is_every_sec : SyncPolicy → Bool
is_every_sec k_every_sec = true
is_every_sec k_always = false
is_every_sec k_no = false

-- write_all(fd, buf), the counters, and the sync that the policy asks for.
unfoldable pub write_out : Env → Wal → Bytes → Wal × Bool
unfolding sync
write_out env w buf =
    let (file, written) = write_all env.writes w.file buf in
    let w' = record w {
      file = file;
      size = add_u64 w.size (length buf);
      bytes_since_sync = add_u64 w.bytes_since_sync (length buf);
    } in
    if written
    then (if is_always w.policy && not w.group_commit then sync env w' else (w', true))
    else (record w { file = file }, false)

unfoldable pub append : Env → Wal → Op → Bytes → Bytes → ℤ → Wal × Bool
unfolding write_out
append env w op key value expires_at_ms =
    write_out env w (encode_record [] op env.now_ms key value expires_at_ms)

pub record Mutation : Type 0 where
  pub op : Op
  pub key : Bytes
  pub value : Bytes
  pub expires_at_ms : ℤ

-- encode_record on each mutation, all dated `now`
unfoldable pub encode_batch : Bytes → ℤ → List Mutation → Bytes
encode_batch buf now [] = buf
encode_batch buf now (m ∷ ms) =
    encode_batch (encode_record buf m.op now m.key m.value m.expires_at_ms) now ms

unfoldable pub append_batch : Env → Wal → List Mutation → Wal × Bool
unfolding write_out encode_batch
append_batch env w [] = (w, true)
append_batch env w (m ∷ ms) = write_out env w (encode_batch [] env.now_ms (m ∷ ms))

-- ftruncate(fd, 0)
unfoldable pub truncate : Env → Wal → Wal × Bool
unfolding sync
truncate env w =
    if env.truncates
    then sync env (record w { file = []; size = 0; bytes_since_sync = 0 })
    else (w, false)

unfoldable pub maybe_sync : Env → Wal → Wal × Bool
unfolding sync
maybe_sync env w =
    if not (is_every_sec w.policy)
    then (w, true)
    else if w.bytes_since_sync == 0
    then (w, true)
    else if ltb (env.steady_now - w.last_sync) w.sync_interval
    then (w, true)
    else sync env w
