-- ===== src/Memtable/Reach.antt =====
-- The cursor of the active sweep reaches every entry: `Memtable::sweep_expired` of memtable.cpp,
-- called again and again with a fixed budget.
use cachedb.Prelude.{
  ℕ, zero, suc, ◌+◌, ◌*◌, ◌≤◌, ◌≡◌, refl, ◌⊎◌, inl, inr, true, false, [], ◌∷◌, arith, if◌then◌else◌,
  length,
}
use cachedb.Prelude.Int.{ℤ}
use cachedb.Prelude.Words.{sub_u64}
use cachedb.Prelude.Bytes.{Bytes, cmp, key_lt, key_lt_trans, key_lt_irrefl}
use cachedb.Prelude.SortedMap.{SortedMap, IsSorted, Above, total}
use cachedb.Memtable.{Entry, Memtable, deleted, sweep_loop, sweep_from, is_expired, sweep_expired}
use cachedb.Memtable.Invariant.{IsValid, sweep_expired-IsValid, sweep_expired-walk}

-- No entry has run out at `now`.
abbrev pub AllClean : ℤ → SortedMap Entry → Type 0
AllClean now [] = Unit
AllClean now ((k, e) ∷ m) = (is_expired now e ≡ false) × AllClean now m

-- Nor any below the key `c`.
abbrev CleanBelow : ℤ → Bytes → SortedMap Entry → Type 0
CleanBelow now c [] = Unit
CleanBelow now c ((k, e) ∷ m) =
    ((if key_lt k c then is_expired now e else false) ≡ false) × CleanBelow now c m

-- How many entries a walk from `c` on has before it.
abbrev ahead_one : Bytes → Bytes → Entry → ℕ
ahead_one c k e = if key_lt k c then 0 else 1

abbrev ahead : Bytes → SortedMap Entry → ℕ
ahead c = total (ahead_one c)

-- The walk is over, or it stopped at a key `c` above `b` with all clean below and `left` ahead.
abbrev Progress : ℤ → Bytes → Bytes → ℕ → SortedMap Entry → Type 0
Progress now b c left m =
    AllClean now m ⊎ (CleanBelow now c m × (ahead c m ≤ left) × (key_lt b c ≡ true))

module _ (now : ℤ) where
  CleanBelow-Above :
      (c k : Bytes) (m : SortedMap Entry) → key_lt k c ≡ false → Above k m → CleanBelow now c m
  CleanBelow-Above c k [] h s = tt
  CleanBelow-Above c k ((j, e) ∷ m) h s =
      ground (arith, key_lt_trans k j c s.0, CleanBelow-Above c j m)

  ahead-Above :
      (c k : Bytes) (m : SortedMap Entry) → key_lt k c ≡ false → Above k m → ahead c m ≡ length m
  unfolding total
  ahead-Above c k [] h s = refl
  ahead-Above c k ((j, e) ∷ m) h s = ground (arith, key_lt_trans k j c s.0, ahead-Above c j m)

  ahead-le : (c : Bytes) (m : SortedMap Entry) → ahead c m ≤ length m
  unfolding total
  ahead-le c [] = omega arith
  ahead-le c ((j, e) ∷ m) = ground (arith, ahead-le c m)

  CleanBelow-start : (m : SortedMap Entry) → CleanBelow now [] m
  unfolding cmp
  CleanBelow-start [] = tt
  CleanBelow-start (([], e) ∷ m) = (refl, CleanBelow-start m)
  CleanBelow-start ((x ∷ k, e) ∷ m) = (refl, CleanBelow-start m)

  AllClean-of_none_ahead :
      (c : Bytes) (m : SortedMap Entry) → ahead c m ≤ 0 → CleanBelow now c m → AllClean now m
  unfolding total
  AllClean-of_none_ahead c [] h s = tt
  AllClean-of_none_ahead c ((j, e) ∷ m) h s = ground (arith, AllClean-of_none_ahead c m)

  deleted_clean : is_expired now deleted ≡ false
  unfolding is_expired
  deleted_clean = refl

  sweep_loop-AllClean :
      (budget live : ℕ) (m : SortedMap Entry)
      → AllClean now m
      → AllClean now (sweep_loop budget now live m).entries
  unfolding sweep_loop
  sweep_loop-AllClean budget live [] h = tt
  sweep_loop-AllClean zero live ((k, e) ∷ m) h = h
  sweep_loop-AllClean (suc budget) live ((k, e) ∷ m) h =
      ground (arith, sweep_loop-AllClean budget live m)

  sweep_from-AllClean :
      (c : Bytes) (budget live : ℕ) (m : SortedMap Entry)
      → AllClean now m
      → AllClean now (sweep_from c budget now live m).entries
  unfolding sweep_from
  sweep_from-AllClean c budget live [] h = tt
  sweep_from-AllClean c budget live ((k, e) ∷ m) h =
      ground
        (arith, sweep_from-AllClean c budget live m, sweep_loop-AllClean budget live ((k, e) ∷ m))

  sweep_loop-Progress :
      (b : Bytes) (budget live left : ℕ) (m : SortedMap Entry)
      → Above b m
      → length m ≤ left + budget
      → let r = sweep_loop budget now live m in Progress now b r.cursor left r.entries
  unfolding sweep_loop total
  sweep_loop-Progress b budget live left [] s h = inl tt
  sweep_loop-Progress b zero live left ((k, e) ∷ m) s h =
      inr (ground (arith, key_lt_irrefl k, ahead-le k m, CleanBelow-Above k k m))
  sweep_loop-Progress b (suc budget) live left ((k, e) ∷ m) s h = ground (
    arith,
    deleted_clean,
    sweep_loop-Progress k budget (if is_expired now e then sub_u64 live 1 else live) left m,
    key_lt_trans b k
        (sweep_loop budget now (if is_expired now e then sub_u64 live 1 else live) m).cursor,
  )

  sweep_from-Progress :
      (b c : Bytes) (budget live left : ℕ) (m : SortedMap Entry)
      → Above b m
      → CleanBelow now c m
      → ahead c m ≤ left + budget
      → let r = sweep_from c budget now live m in Progress now b r.cursor left r.entries
  unfolding sweep_from total
  sweep_from-Progress b c budget live left [] s clean h = inl tt
  sweep_from-Progress b c budget live left ((k, e) ∷ m) s clean h = ground (
    arith,
    ahead-Above c k m,
    sweep_loop-Progress b budget live left ((k, e) ∷ m),
    sweep_from-Progress k c budget live left m,
    key_lt_trans b k (sweep_from c budget now live m).cursor,
  )

  -- The same with no key below: the walk is over, or all is clean below where it stopped.
  Rest : Bytes → ℕ → SortedMap Entry → Type 0
  Rest c left m = AllClean now m ⊎ (CleanBelow now c m × (ahead c m ≤ left))

  sweep_loop-Rest :
      (budget live left : ℕ) (m : SortedMap Entry)
      → IsSorted m
      → length m ≤ left + budget
      → let r = sweep_loop budget now live m in Rest r.cursor left r.entries
  unfolding sweep_loop total Rest
  sweep_loop-Rest budget live left [] s h = inl tt
  sweep_loop-Rest zero live left ((k, e) ∷ m) s h =
      inr (ground (arith, key_lt_irrefl k, ahead-le k m, CleanBelow-Above k k m))
  sweep_loop-Rest (suc budget) live left ((k, e) ∷ m) s h = ground (
    arith,
    deleted_clean,
    sweep_loop-Progress k budget (if is_expired now e then sub_u64 live 1 else live) left m,
  )

  sweep_from-Rest :
      (c : Bytes) (budget live left : ℕ) (m : SortedMap Entry)
      → IsSorted m
      → CleanBelow now c m
      → ahead c m ≤ left + budget
      → let r = sweep_from c budget now live m in Rest r.cursor left r.entries
  unfolding sweep_from total Rest
  sweep_from-Rest c budget live left [] s clean h = inl tt
  sweep_from-Rest c budget live left ((k, e) ∷ m) s clean h = ground (
    arith,
    ahead-Above c k m,
    sweep_loop-Rest budget live left ((k, e) ∷ m),
    sweep_from-Progress k c budget live left m,
  )

-- `n` ticks of the event loop that all sweep at `now`.
unfoldable pub sweeps : ℕ → Memtable → ℤ → ℕ → Memtable
sweeps zero t now budget = t
sweeps (suc n) t now budget = sweeps n (sweep_expired t now budget).0 now budget

sweep_expired-Rest :
    (t : Memtable) (now : ℤ) (budget left : ℕ)
    → IsSorted t.entries
    → Rest now t.sweep_cursor (left + budget) t.entries
    → let u = (sweep_expired t now budget).0 in Rest now u.sweep_cursor left u.entries
unfolding Rest
sweep_expired-Rest t now budget left s (inl clean) = ground (
  arith,
  sweep_expired-walk t now budget,
  sweep_from-AllClean now t.sweep_cursor budget t.live_count t.entries clean,
)
sweep_expired-Rest t now budget left s (inr rest) = ground (
  arith,
  sweep_expired-walk t now budget,
  sweep_from-Rest now t.sweep_cursor budget t.live_count left t.entries s,
)

sweeps-Rest :
    (n : ℕ) (t : Memtable) (now : ℤ) (budget : ℕ)
    → IsValid t
    → Rest now t.sweep_cursor (n * budget) t.entries
    → AllClean now (sweeps n t now budget).entries
unfolding sweeps Rest
sweeps-Rest zero t now budget v (inl clean) = clean
sweeps-Rest zero t now budget v (inr (clean, none_ahead)) =
    AllClean-of_none_ahead now t.sweep_cursor t.entries (omega arith) clean
sweeps-Rest (suc n) t now budget v r =
    sweeps-Rest n (sweep_expired t now budget).0 now budget (sweep_expired-IsValid t now budget v) (
      sweep_expired-Rest t now budget (n * budget) v.sorted
        (let e : suc n * budget ≡ n * budget + budget = omega arith in rw e at r))

-- From the start of the map, as many sweeps as it takes to examine every entry once leave none
-- that has run out at `now`: the cursor passes no entry by.
pub sweeps-AllClean :
    (n : ℕ) (t : Memtable) (now : ℤ) (budget : ℕ)
    → IsValid t
    → t.sweep_cursor ≡ []
    → length t.entries ≤ n * budget
    → AllClean now (sweeps n t now budget).entries
unfolding Rest
sweeps-AllClean n t now budget v start enough = sweeps-Rest n t now budget v (
    inr (
      rw start (CleanBelow-start now t.entries),
      omega (arith, ahead-le now t.sweep_cursor t.entries),
    ))
