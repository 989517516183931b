-- ===== src/Wal/Replay/Total.antt =====
-- The replay of a file with any contents ends, and the intact prefix lies inside the file.
use cachedb.Prelude.{
  ℕ, zero, suc, ◌+◌, ◌<◌, ◌≤◌, ◌≡◌, ◌≢◌, inl, inr, Bool, true, false, Option, none, some, arith,
  if◌then◌else◌, length, drop, length-drop,
}
use cachedb.Prelude.Bytes.{Bytes}
use cachedb.Wal.Record.{Record, decode_record}
use cachedb.Wal.Record.Safety.{decode_record-Sound}
use cachedb.Wal.Replay.{
  ReplayIo, Opened, threw, stuck, opened, missing, denied, replay_loop, finish, replay,
}

module _ {ℓ} {S : Type ℓ} (apply : S → Record → S) where
  abbrev Ends : Bytes → Option (S × ℕ × ℕ) → Type ℓ
  Ends input r = (s : S) × (n : ℕ) × (o : ℕ) × (r ≡ some (s, n, o)) × (o ≤ length input)

  replay_loop-Ends :
      (fuel : ℕ) (s : S) (input : Bytes) (offset n : ℕ)
      → offset ≤ length input
      → length input < fuel + offset
      → Ends input (replay_loop apply fuel s input offset n)
  unfolding replay_loop
  replay_loop-Ends zero s input offset n h enough = absurd (omega arith)
  replay_loop-Ends (suc fuel) s input offset n h enough =
      let r = decode_record (drop offset input) in
      elim (decode_record-Sound (drop offset input)) [
        | inl (e, lo, hi, _, _) ↦
            rw (e, replay_loop)
              (replay_loop-Ends fuel (apply s r.decoded) input (offset + r.consumed) (n + 1)
                (omega (arith, length-drop offset input)) (omega arith))
        | inr (inl e, _) ↦ (s, n, offset, rw (e, replay_loop), h)
        | inr (inr e, _) ↦ (s, n, offset, rw (e, replay_loop), h)
      ]

  finish-ne-stuck :
      (contents : Bytes) (cut_ok : Bool) (r : Option (S × ℕ × ℕ))
      → Ends contents r
      → finish apply contents cut_ok r ≢ stuck
  unfolding finish
  finish-ne-stuck contents cut_ok none (s, n, o, e, h) bad = cc
  finish-ne-stuck contents cut_ok (some (s, n, o)) ends bad = ground arith

  opened-ne-stuck :
      (s : S) (contents : Bytes) (read_ok cut_ok : Bool)
      → (if read_ok
          then finish apply contents cut_ok
              (replay_loop apply (suc (length contents)) s contents 0 0)
          else threw s)
        ≢ stuck
  opened-ne-stuck s contents false cut_ok e = cc
  opened-ne-stuck s contents true cut_ok e =
      finish-ne-stuck contents cut_ok (replay_loop apply (suc (length contents)) s contents 0 0)
        (replay_loop-Ends (suc (length contents)) s contents 0 0 (omega arith) (omega arith)) e

  -- A replay of any file ends: the loop stops within one round for each byte of the file.
  pub replay-ne-stuck : (s : S) (io : ReplayIo) → replay apply s io ≢ stuck
  unfolding replay
  replay-ne-stuck s io = go io.open_result
    where
      go : (o : Opened) → replay apply s (record io { open_result = o }) ≢ stuck
      go missing e = cc
      go denied e = cc
      go (opened contents) e = opened-ne-stuck s contents io.read_succeeds io.truncate_succeeds e
