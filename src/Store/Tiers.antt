-- ===== src/Store/Tiers.antt =====
-- src/store.cpp, the walk of `maybe_compact` from the oldest table to the newest, which looks for a
-- run of tables of similar size. The sizes stand newest first, as the tables do.
pub mod Run
use cachedb.Prelude.{
  ℕ, zero, suc, ◌+◌, ◌-◌, ◌*◌, ◌%◌, ◌^◌, ◌≤◌, ◌<◌, ◌≡◌, refl, ap, sym, ◌∙◌, ◌⊎◌, inl, inr, min, max,
  Bool, true, false, not, ◌||◌, Option, none, some, List, [], ◌∷◌, arith, ltb, leb, ◌==◌,
  if◌then◌else◌, length, get_or,
}

abbrev pub k_compaction_trigger : ℕ
k_compaction_trigger = 4

abbrev pub k_tier_ratio : ℕ
k_tier_ratio = 2

-- Whether the inner loop breaks at a table.
abbrev pub breaks : ℕ → ℕ → Bool
breaks candidate smallest =
    let low = min candidate smallest in
    low == 0 || ltb (low * k_tier_ratio % 2 ^ 64) (max candidate smallest)

-- The inner loop: where the run that ends at i begins.
unfoldable pub run_begin : List ℕ → ℕ → ℕ → ℕ
run_begin sizes smallest zero = 0
run_begin sizes smallest (suc i) =
    let candidate = get_or sizes i 0 in
    let further = run_begin sizes (min candidate smallest) i in
    if breaks candidate smallest then suc i else further

-- The outer loop: the begin and the length of the run, or that there is none. Nothing is answered
-- when the fuel runs out before the walk ends.
unfoldable pub find_run : List ℕ → ℕ → ℕ → Option (Option (ℕ × ℕ))
unfolding run_begin
find_run sizes zero i = none
find_run sizes (suc fuel) i =
    let begin = run_begin sizes (get_or sizes (i - 1) 0) i in
    let later = find_run sizes fuel (if begin == i then i - 1 else begin) in
    if i == 0
    then some none
    else if leb k_compaction_trigger (i - begin)
    then some (some (begin, i - begin))
    else later

unfoldable pub best_run : List ℕ → Option (Option (ℕ × ℕ))
unfolding find_run
best_run sizes = find_run sizes (suc (length sizes)) (length sizes)
