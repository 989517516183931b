-- ===== src/Wal/Log/Append.antt =====
-- What `Wal::append` and `Wal::append_batch` leave in the file: src/wal.cpp.
use cachedb.Prelude.{
  ◌≡◌, refl, sym, ap, ◌∙◌, inl, inr, Bool, true, false, List, [], ◌∷◌, ◌++◌, map, arith, append-nil,
  append_assoc,
}
use cachedb.Prelude.Int.{ℤ}
use cachedb.Prelude.Bytes.{Bytes}
use cachedb.Wal.Record.{Op, Record, encode_record}
use cachedb.Wal.Record.Layout.{record_bytes, encode-append}
use cachedb.Wal.Replay.Recovery.{log_bytes}
use cachedb.Wal.Kernel.{write_all-Appends}
use cachedb.Wal.Log.{
  k_always, Wal, Env, Mutation, sync, write_out, append, encode_batch, append_batch,
}

-- A write of `buf` that reports `true` has all of it in the file; one that reports `false` has a
-- prefix of it there. Under `always` without group commit, `true` also means on disk.
pub record Wrote (w : Wal) (buf : Bytes) (r : Wal × Bool) : Type 0 where
  pub done : Bytes
  pub left : Bytes
  pub split : buf ≡ done ++ left
  pub file : r.0.file ≡ w.file ++ done
  pub whole : r.1 ≡ true → left ≡ []
  pub forced : r.1 ≡ true → w.policy ≡ k_always → w.group_commit ≡ false → r.0.disk ≡ r.0.file

pub sync-file : (env : Env) (w : Wal) → (sync env w).0.file ≡ w.file
unfolding sync
sync-file env w = ground arith

pub sync-disk : (env : Env) (w : Wal) → (sync env w).1 ≡ true → (sync env w).0.disk ≡ w.file
unfolding sync
sync-disk env w h = ground arith

-- Any buffer that `append` or `append_batch` writes out, on every branch.
pub write_out-Wrote : (env : Env) (w : Wal) (buf : Bytes) → Wrote w buf (write_out env w buf)
write_out-Wrote env w buf = elim (write_all-Appends env.writes w.file buf) [
  | inl (ok, e) ↦ record {
    done = buf;
    left = [];
    split = sym (append-nil buf);
    file = unfold write_out in ground arith;
    whole = λ _. refl;
    forced = λ t p g. unfold write_out in ground arith;
  }
  | inr (done, left, failed, e, s, n) ↦ record {
    done = done;
    left = left;
    split = s;
    file = unfold write_out in ground arith;
    whole = λ t. unfold write_out in ground arith;
    forced = λ t p g. unfold write_out in ground arith;
  }
]

-- A mutation as the record that is dated `now`.
abbrev pub dated : ℤ → Mutation → Record
dated now m = record {
  op = m.op;
  timestamp_ms = now;
  expires_at_ms = m.expires_at_ms;
  key = m.key;
  value = m.value;
}

pub encode_batch-append :
    (buf : Bytes) (now : ℤ) (ms : List Mutation)
    → encode_batch buf now ms ≡ buf ++ log_bytes (map (dated now) ms)
unfolding encode_batch log_bytes
encode_batch-append buf now [] = sym (append-nil buf)
encode_batch-append buf now (m ∷ ms) =
    encode_batch-append (encode_record buf m.op now m.key m.value m.expires_at_ms) now ms
    ∙ ap (λ b. b ++ log_bytes (map (dated now) ms)) (encode-append buf (dated now m))
    ∙ append_assoc buf (record_bytes (dated now m)) (log_bytes (map (dated now) ms))

-- `append` writes out the one record that it is given, dated now.
pub append-Wrote :
    (env : Env) (w : Wal) (op : Op) (key value : Bytes) (expires_at_ms : ℤ)
    → Wrote w
        (record_bytes (record {
          op = op;
          timestamp_ms = env.now_ms;
          expires_at_ms = expires_at_ms;
          key = key;
          value = value;
        }))
        (append env w op key value expires_at_ms)
unfolding append
append-Wrote env w op key value x =
    rw
      (← encode-append [] (record {
        op = op;
        timestamp_ms = env.now_ms;
        expires_at_ms = x;
        key = key;
        value = value;
      }))
      (write_out-Wrote env w _)

-- `append_batch` writes out the records of its one or more mutations at once, dated alike.
pub append_batch-Wrote :
    (env : Env) (w : Wal) (m : Mutation) (ms : List Mutation)
    → Wrote w (log_bytes (map (dated env.now_ms) (m ∷ ms))) (append_batch env w (m ∷ ms))
unfolding append_batch
append_batch-Wrote env w m ms =
    rw (← encode_batch-append [] env.now_ms (m ∷ ms)) (write_out-Wrote env w _)
