-- ===== src/Wal/Kernel.antt =====
-- The system calls under the log: src/wal.cpp, `write_all` and the loop of `Wal::sync`. What the
-- kernel answers is a list, one answer to a call in order; once the list is used up, it grants
-- every call in full.
use cachedb.Prelude.{
  ℕ, ◌≤◌, ◌<◌, ◌≡◌, refl, sym, ap, ◌∙◌, ◌⊎◌, inl, inr, Bool, true, false, List, [], ◌∷◌, ◌++◌,
  arith, length, take, drop, append-nil, append_assoc, take-append-drop, length-drop,
}
use cachedb.Prelude.Bytes.{Bytes}

-- write(2): how many of the bytes it took, EINTR, or another error
pub data WriteReturn : Type 0 where
  wrote : ℕ → WriteReturn
  write_interrupted write_failed : WriteReturn

-- fsync(2)
pub data SyncReturn : Type 0 where
  synced sync_interrupted sync_failed : SyncReturn

-- The contents of the file after the writes, and whether all of `left` went in.
unfoldable pub write_all : List WriteReturn → Bytes → Bytes → Bytes × Bool
write_all answers file [] = (file, true)
write_all [] file (b ∷ left) = (file ++ b ∷ left, true)
write_all (wrote n ∷ answers) file (b ∷ left) =
    write_all answers (file ++ take n (b ∷ left)) (drop n (b ∷ left))
write_all (write_interrupted ∷ answers) file (b ∷ left) = write_all answers file (b ∷ left)
write_all (write_failed ∷ answers) file (b ∷ left) = (file, false)

unfoldable pub fsync_loop : List SyncReturn → Bool
fsync_loop [] = true
fsync_loop (synced ∷ answers) = true
fsync_loop (sync_interrupted ∷ answers) = fsync_loop answers
fsync_loop (sync_failed ∷ answers) = false

-- `write_all` appends all of the bytes, or fails having appended a prefix that lacks some.
abbrev pub Appends : Bytes → Bytes → Bytes × Bool → Type 0
Appends file input r =
    ((r.1 ≡ true) × (r.0 ≡ file ++ input))
    ⊎ ((done : Bytes) × (left : Bytes) × (r.1 ≡ false)
        × (r.0 ≡ file ++ done)
        × (input ≡ done ++ left)
        × (1 ≤ length left))

Appends-further :
    (file done left input : Bytes) (r : Bytes × Bool)
    → done ++ left ≡ input
    → Appends (file ++ done) left r
    → Appends file input r
Appends-further file done left input r whole (inl (ok, e)) =
    inl (ok, e ∙ append_assoc file done left ∙ ap (◌++◌ file) whole)
Appends-further file done left input r whole (inr (more, rest, ok, e, s, n)) = inr (
  done ++ more,
  rest,
  ok,
  e ∙ append_assoc file done more,
  sym whole ∙ ap (◌++◌ done) s ∙ sym (append_assoc done more rest),
  n,
)

pub write_all-Appends :
    (answers : List WriteReturn) (file input : Bytes)
    → Appends file input (write_all answers file input)
unfolding write_all
write_all-Appends answers file [] = inl (refl, sym (append-nil file))
write_all-Appends [] file (b ∷ left) = inl (refl, refl)
write_all-Appends (wrote n ∷ answers) file (b ∷ left) =
    Appends-further file (take n (b ∷ left)) (drop n (b ∷ left)) (b ∷ left) _
      (take-append-drop n (b ∷ left))
      (write_all-Appends answers (file ++ take n (b ∷ left)) (drop n (b ∷ left)))
write_all-Appends (write_interrupted ∷ answers) file (b ∷ left) =
    write_all-Appends answers file (b ∷ left)
write_all-Appends (write_failed ∷ answers) file (b ∷ left) =
    inr ([], b ∷ left, refl, sym (append-nil file), refl, omega arith)

write_all-failed :
    (file left : Bytes) → 1 ≤ length left → write_all (write_failed ∷ []) file left ≡ (file, false)
unfolding write_all
write_all-failed file [] h = absurd (omega arith)
write_all-failed file (b ∷ left) h = refl

-- A write that takes `k` bytes and then fails.
pub write_all-fails_after :
    (k : ℕ) (file input : Bytes)
    → k < length input
    → write_all (wrote k ∷ write_failed ∷ []) file input ≡ (file ++ take k input, false)
unfolding write_all
write_all-fails_after k file [] h = absurd (omega arith)
write_all-fails_after k file (b ∷ left) h =
    write_all-failed (file ++ take k (b ∷ left)) (drop k (b ∷ left))
      (omega (arith, length-drop k (b ∷ left)))

pub write_all-granted : (file input : Bytes) → write_all [] file input ≡ (file ++ input, true)
unfolding write_all
write_all-granted file [] = ap (λ (f : Bytes). (f, true)) (sym (append-nil file))
write_all-granted file (b ∷ left) = refl
