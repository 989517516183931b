-- ===== src/Memtable.antt =====
-- src/memtable.h and src/memtable.cpp: the sorted table that every write lands in first. The
-- std::map is `SortedMap`; size_t counters wrap; times are int64_t milliseconds.
pub mod Lookup
pub mod Invariant
pub mod Footprint
pub mod Expiry
pub mod Reach
use cachedb.Prelude.{
  ℕ, zero, suc, ◌+◌, ◌-◌, ◌*◌, ◌/◌, Bool, true, false, not, ◌&&◌, Option, none, some, List, [], ◌∷◌,
  ltb, leb, if◌then◌else◌, length,
}
use cachedb.Prelude.Int.{ℤ, pos, leb_ℤ, is_zero}
use cachedb.Prelude.Words.{u64, add_u64, sub_u64}
use cachedb.Prelude.Bytes.{Bytes, key_lt}
use cachedb.Prelude.SortedMap
use cachedb.Prelude.SortedMap.{SortedMap}

-- `expires_at_ms` 0 is "never".
pub record Entry : Type 0 where
  pub value : Bytes
  pub tombstone : Bool
  pub expires_at_ms : ℤ

pub record Memtable : Type 0 where
  pub entries : SortedMap Entry
  pub sweep_cursor : Bytes
  pub live_count : ℕ
  pub bytes : ℕ

abbrev pub init : Memtable
init = record { entries = []; sweep_cursor = []; live_count = 0; bytes = 0 }

abbrev k_entry_overhead : ℕ
k_entry_overhead = 128

abbrev k_sso_capacity : ℕ
k_sso_capacity = 15

unfoldable pub heap_cost : ℕ → ℕ
heap_cost len = if leb len k_sso_capacity then 0 else u64 (u64 (len + 1 + 16 - 1) / 16 * 16 + 16)

unfoldable pub entry_cost : Bytes → Bytes → ℕ
entry_cost key value = u64 (k_entry_overhead + heap_cost (length key) + heap_cost (length value))

unfoldable pub find : Memtable → Bytes → Option Entry
find t key = SortedMap.find key t.entries

abbrev pub deleted : Entry
deleted = record { value = []; tombstone = true; expires_at_ms = pos 0 }

-- The part of `set` that writes over the entry `e` that it found.
overwrite : Memtable → Bytes → Entry → Bytes → ℤ → Memtable
overwrite t key e value expires_at_ms =
    let old_cost = heap_cost (length e.value) in
    let new_cost = heap_cost (length value) in
    record t {
      entries =
          SortedMap.assign key
            (record { value = value; tombstone = false; expires_at_ms = expires_at_ms }) t.entries;
      live_count = if e.tombstone then add_u64 t.live_count 1 else t.live_count;
      bytes = if ltb old_cost new_cost then add_u64 t.bytes (new_cost - old_cost) else t.bytes;
    }

unfoldable pub set : Memtable → Bytes → Bytes → ℤ → Memtable
unfolding find overwrite
set t key value expires_at_ms = elim (find t key) [
  | none ↦ record t {
    entries =
        SortedMap.emplace key
          (record { value = value; tombstone = false; expires_at_ms = expires_at_ms }) t.entries;
    live_count = add_u64 t.live_count 1;
    bytes = add_u64 t.bytes (entry_cost key value);
  }
  | some e ↦ overwrite t key e value expires_at_ms
]

-- The new table, and whether the key was live.
unfoldable pub del : Memtable → Bytes → Memtable × Bool
unfolding find
del t key = elim (find t key) [
  | none ↦ (
    record t {
      entries = SortedMap.emplace key deleted t.entries;
      bytes = add_u64 t.bytes (entry_cost key []);
    },
    false,
  )
  | some e ↦ (
    record t {
      entries = SortedMap.assign key deleted t.entries;
      live_count = if e.tombstone then t.live_count else sub_u64 t.live_count 1;
    },
    not e.tombstone,
  )
]

-- The test in the sweep: a value with a stamp that has passed.
unfoldable pub is_expired : ℤ → Entry → Bool
is_expired now e = not e.tombstone && (not (is_zero e.expires_at_ms) && leb_ℤ e.expires_at_ms now)

-- What the walk of a sweep leaves: the entries from where it stood, the live count, how many it
-- swept, and the key it stopped before, which is empty at the end of the map.
pub record Sweep : Type 0 where
  pub entries : SortedMap Entry
  pub live_count : ℕ
  pub swept : ℕ
  pub cursor : Bytes

-- for (examined = 0; examined < budget; ++examined), over the entries from `it` on
unfoldable pub sweep_loop : ℕ → ℤ → ℕ → SortedMap Entry → Sweep
unfolding is_expired
sweep_loop budget now live [] = record { entries = []; live_count = live; swept = 0; cursor = [] }
sweep_loop zero now live ((k, e) ∷ m) = record {
  entries = (k, e) ∷ m;
  live_count = live;
  swept = 0;
  cursor = k;
}
sweep_loop (suc budget) now live ((k, e) ∷ m) =
    let r = sweep_loop budget now (if is_expired now e then sub_u64 live 1 else live) m in
    if is_expired now e
    then record r { entries = (k, deleted) ∷ r.entries; swept = r.swept + 1 }
    else record r { entries = (k, e) ∷ r.entries }

-- entries_.lower_bound(cursor), and the loop from there
unfoldable pub sweep_from : Bytes → ℕ → ℤ → ℕ → SortedMap Entry → Sweep
unfolding sweep_loop
sweep_from cursor budget now live [] = record {
  entries = [];
  live_count = live;
  swept = 0;
  cursor = [];
}
sweep_from cursor budget now live ((k, e) ∷ m) =
    let r = sweep_from cursor budget now live m in
    let here = sweep_loop budget now live ((k, e) ∷ m) in
    if key_lt k cursor then record r { entries = (k, e) ∷ r.entries } else here

unfoldable pub sweep_expired : Memtable → ℤ → ℕ → Memtable × ℕ
unfolding sweep_from
sweep_expired t now budget =
    let r = sweep_from t.sweep_cursor budget now t.live_count t.entries in
    elim t.entries [
      | [] ↦ (record t { sweep_cursor = [] }, 0)
      | _ ∷ _ ↦ (
        record t { entries = r.entries; live_count = r.live_count; sweep_cursor = r.cursor },
        r.swept,
      )
    ]

-- The order in which for_each visits the entries.
unfoldable pub for_each : Memtable → SortedMap Entry
for_each t = t.entries

unfoldable pub entry_count : Memtable → ℕ
entry_count t = length t.entries

unfoldable pub clear : Memtable → Memtable
clear t = init
