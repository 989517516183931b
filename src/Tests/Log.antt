-- ===== src/Tests/Log.antt =====
-- The log at concrete inputs.
use cachedb.Prelude.{
  ◌≤◌, ◌≡◌, ◌≢◌, ◌⊎◌, refl, true, false, List, [], ◌∷◌, ◌++◌, arith, length, take, replicate,
}
use cachedb.Prelude.Int.{pos, negsuc}
use cachedb.Prelude.Bytes.{Bytes}
use cachedb.Prelude.Endian.{put_le, put_u32, put_u64}
use cachedb.Wal.Record.{
  k_set, k_delete, Record, ok, incomplete, failed, decode_record, encode_record, put_covered,
  carries_expiry,
}
use cachedb.Wal.Record.Layout.{record_bytes, covered_bytes, encode}
use cachedb.Wal.Record.RoundTrip.{IsEncodable, canonical, decode_record-encode}
use cachedb.Wal.Record.Safety.{Sound, decode_record-Sound, decode_record-take}
use cachedb.Wal.Replay.{stuck, replay}
use cachedb.Wal.Replay.Recovery.{log_bytes, recovered, io_of, replay-take}
use cachedb.Wal.Replay.Total.{replay-ne-stuck}
use cachedb.Wal.Kernel.{write_all, fsync_loop}
use cachedb.Wal.Log.{k_always, k_every_sec, Wal, Env, Mutation, open_wal, sync, append, needs_sync}
use cachedb.Wal.Log.Append.{Wrote, append-Wrote}
use cachedb.Wal.Log.Durable.{Call, appends, syncs, call, calls, AllDone, needs_sync-false}
use cachedb.Wal.Log.Recovered.{after, state_of, append_then_crash}
use cachedb.Wal.Log.Torn.{fails_after, works, acknowledged_behind_torn}

abbrev key : Bytes
key = 0x6b ∷ []

-- SET k "hi" with an expiry, and a delete that was given one.
abbrev expiring : Record
expiring = record {
  op = k_set;
  timestamp_ms = pos 1000;
  expires_at_ms = negsuc 0;
  key = key;
  value = 0x68 ∷ 0x69 ∷ [];
}

abbrev deletion : Record
deletion = record {
  op = k_delete;
  timestamp_ms = pos 1001;
  expires_at_ms = pos 0;
  key = key;
  value = [];
}

expiring-IsEncodable : IsEncodable expiring
expiring-IsEncodable = record {
  timestamp = omega arith;
  expiry = omega arith;
  klen = omega arith;
  vlen = omega arith;
}

deletion-IsEncodable : IsEncodable deletion
deletion-IsEncodable = record {
  timestamp = omega arith;
  expiry = omega arith;
  klen = omega arith;
  vlen = omega arith;
}

decode_record-encode_example :
    decode_record (encode [] expiring ++ 0xff ∷ [])
    ≡ record { status = ok; consumed = length (encode [] expiring); decoded = canonical expiring }
decode_record-encode_example = decode_record-encode expiring (0xff ∷ []) expiring-IsEncodable

decode_record-Sound_example : Sound (1 ∷ 2 ∷ []) (decode_record (1 ∷ 2 ∷ []))
decode_record-Sound_example = decode_record-Sound (1 ∷ 2 ∷ [])

decode_record-take_example : decode_record (take 30 (record_bytes expiring)) ≡ failed incomplete
unfolding carries_expiry
decode_record-take_example = decode_record-take expiring expiring-IsEncodable 30 (omega arith)

-- A replay that collects what it is given.
abbrev collect : List Record → Record → List Record
collect rs r = rs ++ r ∷ []

replay-take_example :
    replay collect [] (io_of (take 50 (log_bytes (expiring ∷ deletion ∷ []))))
    ≡ recovered collect [] (expiring ∷ deletion ∷ []) 50
replay-take_example =
    replay-take collect [] (expiring ∷ deletion ∷ []) 50
      (expiring-IsEncodable, (deletion-IsEncodable, tt))

replay-ne-stuck_example : replay collect [] (io_of (5 ∷ 6 ∷ [])) ≢ stuck
replay-ne-stuck_example = replay-ne-stuck collect [] (io_of (5 ∷ 6 ∷ []))

abbrev calm : Env
calm = record { writes = []; fsyncs = []; truncates = true; now_ms = pos 1000; steady_now = 7 }

abbrev fresh : Wal
fresh = open_wal [] [] k_always 1000 0

append-Wrote_example :
    Wrote fresh
      (record_bytes deletion)
      (append (record calm { now_ms = pos 1001 }) fresh k_delete key [] (pos 0))
append-Wrote_example =
    append-Wrote (record calm { now_ms = pos 1001 }) fresh k_delete key [] (pos 0)

abbrev removal : Mutation
removal = record { op = k_delete; key = key; value = []; expires_at_ms = pos 0 }

abbrev session : List (Env × Call)
session = (calm, appends k_set key (1 ∷ []) (pos 0)) ∷ (calm, syncs) ∷ []

abbrev lazy : Wal
lazy = open_wal [] [] k_every_sec 1000 0

session-AllDone : AllDone lazy session
unfolding call open_wal append sync encode_record write_all fsync_loop put_u32 put_u64 put_le
    put_covered
session-AllDone = (refl, omega arith, (refl, omega arith, tt))

session_quiet : needs_sync (calls lazy session) ≡ false
unfolding calls call needs_sync open_wal append sync encode_record write_all fsync_loop put_u32
    put_u64 put_le put_covered
session_quiet = refl

needs_sync-false_example : (calls lazy session).disk ≡ (calls lazy session).file
needs_sync-false_example =
    needs_sync-false [] k_every_sec 1000 0 session session-AllDone session_quiet

abbrev one_record : Wal
one_record = open_wal (log_bytes (deletion ∷ [])) [] k_always 1000 0

append_then_crash_example :
    let (w', reported) = append calm one_record k_set key (0x68 ∷ 0x69 ∷ []) (negsuc 0) in
    let found = state_of (replay collect [] (io_of (take 40 w'.file))) in
    ((found ≡ after collect [] (deletion ∷ []))
      ⊎ (found ≡ after collect [] (deletion ∷ expiring ∷ [])))
    × (reported ≡ true → length w'.file ≤ 40 → found ≡ after collect [] (deletion ∷ expiring ∷ []))
unfolding open_wal
append_then_crash_example =
    append_then_crash collect [] (deletion ∷ []) calm one_record k_set key (0x68 ∷ 0x69 ∷ [])
      (negsuc 0) 40 refl (deletion-IsEncodable, tt) expiring-IsEncodable
      (unfold log_bytes record_bytes covered_bytes put_le carries_expiry in omega arith)

-- The disk fills up 30 bytes into a record of 62; after that a short SET is acknowledged.
acknowledged_behind_torn_example :
    let (w₁, reported) = append (fails_after 30 calm) fresh k_set key (replicate 40 1) (pos 0) in
    let (w₂, reported') = append (works calm) w₁ k_set key (9 ∷ []) (pos 0) in
    (reported ≡ false)
    × (reported' ≡ true)
    × (state_of (replay collect [] (io_of w₂.file)) ≡ after collect [] [])
unfolding open_wal log_bytes carries_expiry
acknowledged_behind_torn_example =
    acknowledged_behind_torn collect [] [] fresh 30 calm k_set key (replicate 40 1) (pos 0) calm
      k_set key (9 ∷ []) (pos 0) refl tt
      (record {
        timestamp = omega arith;
        expiry = omega arith;
        klen = omega arith;
        vlen = omega arith;
      })
      (omega arith) (omega arith)
