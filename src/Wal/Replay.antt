-- ===== src/Wal/Replay.antt =====
-- src/wal.h, `ReplayResult`, and src/wal.cpp, `replay`. The callback is a function on the state
-- that it changes, and the file system answers through `ReplayIo`.
pub mod Recovery
pub mod Total
use cachedb.Prelude.{
  ℕ, zero, suc, ◌+◌, Bool, true, false, Option, none, some, List, [], ltb, if◌then◌else◌, length,
  take, drop,
}
use cachedb.Prelude.Bytes.{Bytes}
use cachedb.Wal.Record.{Record, DecodeResult, ok, incomplete, corrupt, decode_record}

pub record ReplayResult : Type 0 where
  pub records : ℕ
  pub good_bytes : ℕ
  pub truncated : Bool

-- open(path, O_RDWR): ENOENT, another error, or the file's contents
pub data Opened : Type 0 where
  missing denied : Opened
  opened : Bytes → Opened

pub record ReplayIo : Type 0 where
  pub open_result : Opened
  pub read_succeeds : Bool
  pub truncate_succeeds : Bool

-- `threw` is the std::system_error, with what the callback had done by then. `returned` has the
-- contents of the file as they are left. `stuck` is no outcome of the program: the model's fuel
-- ran out.
pub data Outcome {ℓ} (S : Type ℓ) : Type ℓ where
  returned : S → ReplayResult → Option Bytes → Outcome S
  threw : S → Outcome S
  stuck : Outcome S

module _ {ℓ} {S : Type ℓ} (apply : S → Record → S) where
  -- The loop over `decode_record(in.substr(offset))`: the state, the records and the offset.
  unfoldable pub replay_loop : ℕ → S → Bytes → ℕ → ℕ → Option (S × ℕ × ℕ)
  replay_loop zero s input offset records = none
  replay_loop (suc fuel) s input offset records =
      let r = decode_record (drop offset input) in
      let next = replay_loop fuel (apply s r.decoded) input (offset + r.consumed) (records + 1) in
      elim r.status [
        | ok ↦ next
        | incomplete ↦ some (s, records, offset)
        | corrupt ↦ some (s, records, offset)
      ]

  -- From the end of the loop on.
  unfoldable pub finish : Bytes → Bool → Option (S × ℕ × ℕ) → Outcome S
  finish contents truncate_succeeds none = stuck
  finish contents truncate_succeeds (some (s, records, offset)) =
      let truncated = ltb offset (length contents) in
      let result : ReplayResult = record {
        records = records;
        good_bytes = offset;
        truncated = truncated;
      } in
      if truncated
      then (if truncate_succeeds then returned s result (some (take offset contents)) else threw s)
      else returned s result (some contents)

  unfoldable pub replay : S → ReplayIo → Outcome S
  unfolding replay_loop finish
  replay s io = elim io.open_result [
    | missing ↦ returned s (record { records = 0; good_bytes = 0; truncated = false }) none
    | denied ↦ threw s
    | opened contents ↦
        if io.read_succeeds
        then finish contents io.truncate_succeeds
            (replay_loop (suc (length contents)) s contents 0 0)
        else threw s
  ]
