-- ===== src/Memtable/Invariant.antt =====
-- The memtable's own invariant: its keys are sorted, and `live_count_` is the number of entries
-- that are no tombstone, modulo the width of size_t.
use cachedb.Prelude.{
  ℕ, zero, suc, ◌+◌, ◌≡◌, refl, List, [], ◌∷◌, inl, inr, arith, if◌then◌else◌, Option-cases,
}
use cachedb.Prelude.Int.{ℤ}
use cachedb.Prelude.Words.{u64, sub_u64}
use cachedb.Prelude.Bytes.{Bytes}
use cachedb.Prelude.SortedMap
use cachedb.Prelude.SortedMap.{
  SortedMap, IsSorted, Above, total, emplace-IsSorted, assign-IsSorted, total-emplace, total-assign,
}
use cachedb.Memtable.{
  Entry, Memtable, init, find, set, overwrite, del, deleted, sweep_loop, sweep_from, is_expired,
  sweep_expired, clear,
}
use cachedb.Memtable.Lookup.{written}

abbrev live_one : Bytes → Entry → ℕ
live_one k e = if e.tombstone then 0 else 1

abbrev pub live_entries : SortedMap Entry → ℕ
live_entries = total live_one

pub record IsValid (t : Memtable) : Type 0 where
  pub sorted : IsSorted t.entries
  pub counted : t.live_count ≡ u64 (live_entries t.entries)

pub init-IsValid : IsValid init
unfolding total
init-IsValid = record { sorted = tt; counted = refl }

pub set-IsValid :
    (t : Memtable) (key value : Bytes) (expires_at_ms : ℤ)
    → IsValid t
    → IsValid (set t key value expires_at_ms)
unfolding find set overwrite
set-IsValid t key value x v = elim (Option-cases (SortedMap.find key t.entries)) [
  | inl e ↦
      rw (e, set)
        (record {
          sorted = emplace-IsSorted key (written value x) t.entries v.sorted;
          counted =
              omega (arith, v.counted, total-emplace live_one key (written value x) t.entries e);
        })
  | inr (old, e) ↦
      rw (e, set)
        (record {
          sorted = assign-IsSorted key (written value x) t.entries v.sorted;
          counted =
              ground
                (arith, v.counted, total-assign live_one key (written value x) old t.entries e);
        })
]

pub del-IsValid : (t : Memtable) (key : Bytes) → IsValid t → IsValid (del t key).0
unfolding find del
del-IsValid t key v = elim (Option-cases (SortedMap.find key t.entries)) [
  | inl e ↦
      rw (e, del)
        (record {
          sorted = emplace-IsSorted key deleted t.entries v.sorted;
          counted = omega (arith, v.counted, total-emplace live_one key deleted t.entries e);
        })
  | inr (old, e) ↦
      rw (e, del)
        (record {
          sorted = assign-IsSorted key deleted t.entries v.sorted;
          counted = ground (arith, v.counted, total-assign live_one key deleted old t.entries e);
        })
]

-- The walk keeps the keys, and takes one off the count for each live entry that it sweeps.
sweep_loop-Above :
    (b : Bytes) (budget : ℕ) (now : ℤ) (live : ℕ) (m : SortedMap Entry)
    → Above b m
    → Above b (sweep_loop budget now live m).entries
unfolding sweep_loop
sweep_loop-Above b budget now live [] s = s
sweep_loop-Above b zero now live ((k, e) ∷ m) s = s
sweep_loop-Above b (suc budget) now live ((k, e) ∷ m) s =
    ground
      (arith, sweep_loop-Above k budget now (if is_expired now e then sub_u64 live 1 else live) m)

sweep_from-Above :
    (b cursor : Bytes) (budget : ℕ) (now : ℤ) (live : ℕ) (m : SortedMap Entry)
    → Above b m
    → Above b (sweep_from cursor budget now live m).entries
unfolding sweep_from
sweep_from-Above b cursor budget now live [] s = s
sweep_from-Above b cursor budget now live ((k, e) ∷ m) s = ground (
  arith,
  sweep_from-Above k cursor budget now live m,
  sweep_loop-Above b budget now live ((k, e) ∷ m),
)

-- `c` counts the live entries that the walk has passed.
sweep_loop-counted :
    (budget : ℕ) (now : ℤ) (live c : ℕ) (m : SortedMap Entry)
    → live ≡ u64 (c + live_entries m)
    → let r = sweep_loop budget now live m in r.live_count ≡ u64 (c + live_entries r.entries)
unfolding sweep_loop total is_expired
sweep_loop-counted budget now live c [] h = h
sweep_loop-counted zero now live c ((k, e) ∷ m) h = h
sweep_loop-counted (suc budget) now live c ((k, e) ∷ m) h = ground (
  arith,
  sweep_loop-counted budget now (if is_expired now e then sub_u64 live 1 else live)
      (if is_expired now e then c else c + live_one k e) m,
)

sweep_from-counted :
    (cursor : Bytes) (budget : ℕ) (now : ℤ) (live c : ℕ) (m : SortedMap Entry)
    → live ≡ u64 (c + live_entries m)
    → let r = sweep_from cursor budget now live m in r.live_count ≡ u64 (c + live_entries r.entries)
unfolding sweep_from total
sweep_from-counted cursor budget now live c [] h = h
sweep_from-counted cursor budget now live c ((k, e) ∷ m) h = ground (
  arith,
  sweep_from-counted cursor budget now live (c + live_one k e) m,
  sweep_loop-counted budget now live c ((k, e) ∷ m),
)

sweep_loop-IsSorted :
    (budget : ℕ) (now : ℤ) (live : ℕ) (m : SortedMap Entry)
    → IsSorted m
    → IsSorted (sweep_loop budget now live m).entries
unfolding sweep_loop
sweep_loop-IsSorted budget now live [] s = s
sweep_loop-IsSorted zero now live ((k, e) ∷ m) s = s
sweep_loop-IsSorted (suc budget) now live ((k, e) ∷ m) s =
    ground
      (arith, sweep_loop-Above k budget now (if is_expired now e then sub_u64 live 1 else live) m)

sweep_from-IsSorted :
    (cursor : Bytes) (budget : ℕ) (now : ℤ) (live : ℕ) (m : SortedMap Entry)
    → IsSorted m
    → IsSorted (sweep_from cursor budget now live m).entries
unfolding sweep_from
sweep_from-IsSorted cursor budget now live [] s = s
sweep_from-IsSorted cursor budget now live ((k, e) ∷ m) s = ground (
  arith,
  sweep_from-Above k cursor budget now live m,
  sweep_loop-IsSorted budget now live ((k, e) ∷ m),
)

-- The early return on an empty map does what the walk would.
pub sweep_expired-walk :
    (t : Memtable) (now : ℤ) (budget : ℕ)
    → let r = sweep_from t.sweep_cursor budget now t.live_count t.entries in
      ((sweep_expired t now budget).0.entries ≡ r.entries)
      × ((sweep_expired t now budget).0.live_count ≡ r.live_count)
      × ((sweep_expired t now budget).0.sweep_cursor ≡ r.cursor)
      × ((sweep_expired t now budget).1 ≡ r.swept)
unfolding sweep_expired sweep_from
sweep_expired-walk t now budget = ground arith

pub sweep_expired-IsValid :
    (t : Memtable) (now : ℤ) (budget : ℕ) → IsValid t → IsValid (sweep_expired t now budget).0
sweep_expired-IsValid t now budget v = record {
  sorted =
      rw ((sweep_expired-walk t now budget).0)
        (sweep_from-IsSorted t.sweep_cursor budget now t.live_count t.entries v.sorted);
  counted = ground (
    arith,
    sweep_expired-walk t now budget,
    v.counted,
    sweep_from-counted t.sweep_cursor budget now t.live_count 0 t.entries,
  );
}

-- The operations that change a memtable.
pub data Change : Type 0 where
  sets : Bytes → Bytes → ℤ → Change
  dels : Bytes → Change
  sweeps : ℤ → ℕ → Change
  clears : Change

unfoldable pub change : Memtable → Change → Memtable
change t (sets key value expires_at_ms) = set t key value expires_at_ms
change t (dels key) = (del t key).0
change t (sweeps now budget) = (sweep_expired t now budget).0
change t clears = clear t

unfoldable pub changes : Memtable → List Change → Memtable
unfolding change
changes t [] = t
changes t (c ∷ cs) = changes (change t c) cs

change-IsValid : (t : Memtable) (c : Change) → IsValid t → IsValid (change t c)
unfolding change clear
change-IsValid t (sets key value x) v = set-IsValid t key value x v
change-IsValid t (dels key) v = del-IsValid t key v
change-IsValid t (sweeps now budget) v = sweep_expired-IsValid t now budget v
change-IsValid t clears v = init-IsValid

changes-IsValid_from : (t : Memtable) (cs : List Change) → IsValid t → IsValid (changes t cs)
unfolding changes
changes-IsValid_from t [] v = v
changes-IsValid_from t (c ∷ cs) v = changes-IsValid_from (change t c) cs (change-IsValid t c v)

-- Whatever sets, deletes, sweeps and clears a memtable has seen, its keys are in ascending order
-- with none twice, and its live count is the number of entries without a tombstone, modulo 2 ^ 64.
pub changes-IsValid : (cs : List Change) → IsValid (changes init cs)
changes-IsValid cs = changes-IsValid_from init cs init-IsValid
