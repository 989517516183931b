-- ===== src/Wal/Log/Torn.antt =====
-- A write that failed half way leaves its bytes in the log, and the log stays open: src/wal.cpp,
-- `Wal::append` after a failed `write_all`.
use cachedb.Prelude.{
  ℕ, ◌+◌, ◌≤◌, ◌<◌, ◌≡◌, refl, ap, ◌∙◌, true, false, List, [], ◌∷◌, ◌++◌, arith, take, append_assoc,
}
use cachedb.Prelude.Int.{ℤ}
use cachedb.Prelude.Bytes.{Bytes}
use cachedb.Wal.Record.{Op, Record}
use cachedb.Wal.Record.Layout.{record_bytes, encode-append}
use cachedb.Wal.Record.RoundTrip.{IsEncodable, size, length-record_bytes}
use cachedb.Wal.Record.Safety.{decode_record-torn}
use cachedb.Wal.Replay.{replay}
use cachedb.Wal.Replay.Recovery.{log_bytes, AllEncodable, io_of, replay-tail}
use cachedb.Wal.Kernel.{wrote, write_failed, fsync_loop, write_all-fails_after, write_all-granted}
use cachedb.Wal.Log.{Wal, Env, append, write_out, sync}
use cachedb.Wal.Log.Recovered.{state_of, after}

-- write(2) takes `k` bytes of the record and then fails; the disk is full, say.
abbrev pub fails_after : ℕ → Env → Env
fails_after k env = record env { writes = wrote k ∷ write_failed ∷ [] }

abbrev pub works : Env → Env
works env = record env { writes = []; fsyncs = [] }

module _ (env : Env) (w : Wal) (op : Op) (key value : Bytes) (expires_at_ms : ℤ) where
  abbrev the_record : Record
  the_record = record {
    op = op;
    timestamp_ms = env.now_ms;
    expires_at_ms = expires_at_ms;
    key = key;
    value = value;
  }

  append-fails_after :
      (k : ℕ)
      → k < size the_record
      → let (w', reported) = append (fails_after k env) w op key value expires_at_ms in
        (reported ≡ false) × (w'.file ≡ w.file ++ take k (record_bytes the_record))
  append-fails_after k short =
      unfold append write_out in
      rw (encode-append [] the_record) (
        rw
          (write_all-fails_after k w.file (record_bytes the_record)
            (omega (arith, length-record_bytes the_record)))
          (refl, refl))

  append-works :
      let (w', reported) = append (works env) w op key value expires_at_ms in
      (reported ≡ true) × (w'.file ≡ w.file ++ record_bytes the_record)
  append-works =
      unfold append write_out sync fsync_loop in
      rw (encode-append [] the_record, write_all-granted w.file (record_bytes the_record))
        (ground arith)

-- The bug. An append that fails after 21 bytes or more reports the failure, and the log goes on.
-- The next append reports success. But its record stands behind the torn one, whose header claims
-- those bytes, so while the file is shorter than the torn record was to be, a replay stops there:
-- it finds the records from before the failure, and the acknowledged one is lost.
pub acknowledged_behind_torn {ℓ} :
    {S : Type ℓ} (apply : S → Record → S) (s : S) (rs : List Record) (w : Wal) (k : ℕ) (env : Env)
    (op : Op) (key value : Bytes) (expires_at_ms : ℤ) (env' : Env) (op' : Op) (key' value' : Bytes)
    (expires_at_ms' : ℤ)
    → let torn = the_record env w op key value expires_at_ms in
      let (w₁, reported) = append (fails_after k env) w op key value expires_at_ms in
      let (w₂, reported') = append (works env') w₁ op' key' value' expires_at_ms' in
      w.file ≡ log_bytes rs
      → AllEncodable rs
      → IsEncodable torn
      → 21 ≤ k
      → k + size (the_record env' w₁ op' key' value' expires_at_ms') < size torn
      → (reported ≡ false)
        × (reported' ≡ true)
        × (state_of (replay apply s (io_of w₂.file)) ≡ after apply s rs)
acknowledged_behind_torn apply s rs w k env op key value x env' op' key' value' x' clean old new
      past short =
    let first = append-fails_after env w op key value x k (omega arith) in
    let w₁ = (append (fails_after k env) w op key value x).0 in
    let second = append-works env' w₁ op' key' value' x' in
    let r' = the_record env' w₁ op' key' value' x' in
    let torn = take k (record_bytes (the_record env w op key value x)) in
    (
      first.0,
      second.0,
      ap (λ f. state_of (replay apply s (io_of f)))
            (second.1
              ∙ ap (λ f. f ++ record_bytes r') (first.1 ∙ ap (λ f. f ++ torn) clean)
              ∙ append_assoc (log_bytes rs) torn (record_bytes r'))
          ∙ ap state_of (
              replay-tail apply s rs (torn ++ record_bytes r') old (
                decode_record-torn (the_record env w op key value x) new k (record_bytes r') past
                  (omega (arith, length-record_bytes r')))),
    )
