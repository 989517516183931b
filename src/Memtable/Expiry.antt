-- ===== src/Memtable/Expiry.antt =====
-- The active sweep changes nothing that a read can tell: `Memtable::sweep_expired` of memtable.cpp,
-- seen through the judgement that `Store::lookup` makes of an entry.
use cachedb.Prelude.{
  ℕ, zero, suc, ◌≡◌, refl, ◌∙◌, ap, true, ◌||◌, Option, none, some, [], ◌∷◌, arith, if◌then◌else◌,
}
use cachedb.Prelude.Int.{ℤ, ◌≤ℤ◌}
use cachedb.Prelude.Words.{sub_u64}
use cachedb.Prelude.Bytes.{Bytes}
use cachedb.Prelude.SortedMap
use cachedb.Prelude.SortedMap.{SortedMap}
use cachedb.Memtable.{Entry, Memtable, find, sweep_loop, sweep_from, is_expired, sweep_expired}
use cachedb.Memtable.Invariant.{sweep_expired-walk}

-- What an entry says at a time: nothing here, hidden, or a value with its stamp.
pub data Visible : Type 0 where
  absent hidden : Visible
  shown : Bytes → ℤ → Visible

abbrev pub judge : ℤ → Option Entry → Visible
judge now none = absent
judge now (some e) =
    if e.tombstone || is_expired now e then hidden else shown e.value e.expires_at_ms

-- A stamp that has passed stays passed.
pub is_expired_later :
    (now later : ℤ) (e : Entry) → now ≤ℤ later → is_expired now e ≡ true → is_expired later e ≡ true
unfolding is_expired
is_expired_later now later e h p = ground arith

module _ (now later : ℤ) (order : now ≤ℤ later) where
  sweep_loop-judge :
      (k : Bytes) (budget live : ℕ) (m : SortedMap Entry)
      → judge later (SortedMap.find k (sweep_loop budget now live m).entries)
        ≡ judge later (SortedMap.find k m)
  unfolding sweep_loop SortedMap.find
  sweep_loop-judge k budget live [] = refl
  sweep_loop-judge k zero live ((j, e) ∷ m) = refl
  sweep_loop-judge k (suc budget) live ((j, e) ∷ m) = ground (
    arith,
    sweep_loop-judge k budget (if is_expired now e then sub_u64 live 1 else live) m,
    is_expired_later now later e order,
  )

  sweep_from-judge :
      (k cursor : Bytes) (budget live : ℕ) (m : SortedMap Entry)
      → judge later (SortedMap.find k (sweep_from cursor budget now live m).entries)
        ≡ judge later (SortedMap.find k m)
  unfolding sweep_from SortedMap.find
  sweep_from-judge k cursor budget live [] = refl
  sweep_from-judge k cursor budget live ((j, e) ∷ m) =
      ground (
        arith,
        sweep_from-judge k cursor budget live m,
        sweep_loop-judge k budget live ((j, e) ∷ m),
      )

-- A sweep at `now` changes what no key says, at `now` or at any later time: only entries whose
-- stamp has passed become tombstones, and both hide the key.
pub judge-sweep_expired :
    (t : Memtable) (now later : ℤ) (budget : ℕ) (key : Bytes)
    → now ≤ℤ later
    → judge later (find (sweep_expired t now budget).0 key) ≡ judge later (find t key)
unfolding find
judge-sweep_expired t now later budget key order =
    ap (λ m. judge later (SortedMap.find key m)) ((sweep_expired-walk t now budget).0)
    ∙ sweep_from-judge now later order key t.sweep_cursor budget t.live_count t.entries
