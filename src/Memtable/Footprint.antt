-- ===== src/Memtable/Footprint.antt =====
-- The estimate `bytes_`, which decides when the memtable is flushed: memtable.cpp, `heap_cost`,
-- `entry_cost` and the counting in `set`, `del` and `sweep_expired`.
use cachedb.Prelude.{ℕ, ◌+◌, ◌≤◌, ◌<◌, ◌^◌, ◌≡◌, refl, [], inl, inr, arith, Option-cases, length}
use cachedb.Prelude.Int.{ℤ}
use cachedb.Prelude.Bytes.{Bytes}
use cachedb.Prelude.SortedMap
use cachedb.Prelude.SortedMap.{SortedMap, total, total-emplace, total-assign}
use cachedb.Memtable.{Entry, Memtable, heap_cost, entry_cost, find, set, overwrite, del, deleted}
use cachedb.Memtable.Lookup.{written}

-- What one entry takes, as a plain sum.
abbrev pub row_cost : Bytes → Bytes → ℕ
row_cost key value = 128 + heap_cost (length key) + heap_cost (length value)

abbrev entry_row : Bytes → Entry → ℕ
entry_row k e = row_cost k e.value

-- What all the entries take.
abbrev pub footprint : SortedMap Entry → ℕ
footprint = total entry_row

heap_cost-zero : heap_cost 0 ≡ 0
unfolding heap_cost
heap_cost-zero = refl

-- Wherever the estimate covered the entries, it covers them after a `set`, unless the counter
-- passes 2 ^ 64; and it does not fall.
pub footprint-set :
    (t : Memtable) (key value : Bytes) (expires_at_ms : ℤ)
    → t.bytes + row_cost key value < 2 ^ 64
    → footprint t.entries ≤ t.bytes
    → (footprint (set t key value expires_at_ms).entries ≤ (set t key value expires_at_ms).bytes)
      × (t.bytes ≤ (set t key value expires_at_ms).bytes)
unfolding find set overwrite entry_cost
footprint-set t key value x room h = elim (Option-cases (SortedMap.find key t.entries)) [
  | inl e ↦ rw (e, set) (ground (arith, total-emplace entry_row key (written value x) t.entries e))
  | inr (old, e) ↦
      rw (e, set) (ground (arith, total-assign entry_row key (written value x) old t.entries e))
]

-- So it does after a `del`, which never lowers the estimate either.
pub footprint-del :
    (t : Memtable) (key : Bytes)
    → t.bytes + row_cost key [] < 2 ^ 64
    → footprint t.entries ≤ t.bytes
    → (footprint (del t key).0.entries ≤ (del t key).0.bytes) × (t.bytes ≤ (del t key).0.bytes)
unfolding find del entry_cost
footprint-del t key room h = elim (Option-cases (SortedMap.find key t.entries)) [
  | inl e ↦ rw (e, del) (ground (arith, total-emplace entry_row key deleted t.entries e))
  | inr (old, e) ↦
      rw (e, del)
        (ground (arith, heap_cost-zero, total-assign entry_row key deleted old t.entries e))
]
