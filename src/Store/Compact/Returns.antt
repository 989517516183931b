-- ===== src/Store/Compact/Returns.antt =====
-- src/store.cpp: a call of maybe_compact ends.
use cachedb.Prelude.{
  suc, arith, ℕ, ◌+◌, ◌≡◌, refl, ◌||◌, not, Option, none, some, ltb, ◌==◌, length, take, drop,
}
use mathlib.Core.Option.{none-ne-some}
use cachedb.Store.Tiers.Run.{find_run-Walked}
use cachedb.Prelude.Int.{ℤ}
use cachedb.Compaction.Ends.{compact-returns, bool_branches}
use cachedb.Store.{Store, Result, returned, has_no_dir}
use cachedb.Store.Tiers.{k_compaction_trigger, best_run}
use cachedb.Store.Compact.{MergeIo, table_sizes, tables_of, merge_run, maybe_compact}

abbrev Answered : Option (Store × Result ℕ) → Type 0
Answered o = (r : Store × Result ℕ) × (o ≡ some r)

merge_run-Answered :
    (io : MergeIo) (now : ℤ) (s : Store) (begin len : ℕ) → Answered (merge_run io now s begin len)
unfolding merge_run
merge_run-Answered io now s begin len =
    let (r, done) =
      compact-returns io.compact_io (tables_of (take len (drop begin s.sstables)))
        s.options.bloom_bits_per_key (begin + len == length s.sstables) now in
    rw (done, merge_run) (_, refl)

-- The walk that looks for a run and the merge of its tables end, whatever the tables hold and the
-- kernel answers.
pub maybe_compact-returns :
    (io : MergeIo) (now : ℤ) (s : Store)
    → (r : Store × Result ℕ) × (maybe_compact io now s ≡ some r)
unfolding maybe_compact best_run
maybe_compact-returns io now s =
    bool_branches Answered (not s.options.use_compaction) _ _ (λ _. (_, refl))
      (λ _.
        bool_branches Answered (has_no_dir s || ltb (length s.sstables) k_compaction_trigger) _ _
          (λ _. (_, refl))
          (λ _.
            let sizes = table_sizes io.stats s.directory.files s.sstables in
            let (o, walked) =
              find_run-Walked sizes (suc (length sizes)) (length sizes) (omega arith) in
            run (best_run sizes) o walked))
  where
    run :
        (w : Option (Option (ℕ × ℕ))) (o : Option (ℕ × ℕ))
        → w ≡ some o
        → Answered (elim w [
          | none ↦ none
          | some none ↦ some (s, returned 0)
          | some (some (begin, len)) ↦ merge_run io now s begin len
        ])
    run none o walked = absurd (none-ne-some o walked)
    run (some none) o walked = (_, refl)
    run (some (some (begin, len))) o walked = merge_run-Answered io now s begin len
