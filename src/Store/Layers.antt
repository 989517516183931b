-- ===== src/Store/Layers.antt =====
-- src/store.cpp, `Store::lookup`, `get` and `ttl`: the layers from the newest to the oldest, of
-- which the first that knows the key settles it. The clock is an argument. It is read at most once
-- in a lookup, where the first stamp is met.
use cachedb.Prelude.{◌+◌, Bool, true, false, Option, none, some, List, [], ◌∷◌, if◌then◌else◌}
use cachedb.Prelude.Int.{ℤ, pos, pos_part, neg_part, sub_ℕ, leb_ℤ, is_zero}
use cachedb.Prelude.Bytes.{Bytes}
use cachedb.Memtable.{Entry}
use cachedb.Memtable
use cachedb.Sstable.Reader.{Lookup, Sstable, absent}
use cachedb.Sstable.Reader
use cachedb.Store.{TableFile, Store}

pub record Found : Type 0 where
  pub value : Bytes
  pub expires_at_ms : ℤ

-- The answer of a table; `Reader.get` always has one.
abbrev pub table_get : Sstable → Bytes → Lookup
table_get t key = elim (Reader.get t key) [ none ↦ absent | some l ↦ l ]

-- The lambda of `lookup`.
abbrev pub expired : ℤ → ℤ → Bool
expired now stamp = if is_zero stamp then false else leb_ℤ stamp now

-- What the layer that knows the key answers.
abbrev pub settle : ℤ → Bool → Bytes → ℤ → Option Found
settle now tombstone value stamp =
    if tombstone
    then none
    else if expired now stamp
    then none
    else some (record { value = value; expires_at_ms = stamp })

-- for (const auto& table : sstables_)
unfoldable pub lookup_tables : ℤ → List TableFile → Bytes → Option Found
lookup_tables now [] key = none
lookup_tables now (t ∷ ts) key =
    let older = lookup_tables now ts key in
    let found = table_get t.table key in
    if found.found then settle now found.tombstone found.value found.expires_at_ms else older

unfoldable pub lookup : ℤ → Store → Bytes → Option Found
unfolding lookup_tables
lookup now s key = elim (Memtable.find s.memtable key) [
  | some e ↦ settle now e.tombstone e.value e.expires_at_ms
  | none ↦ lookup_tables now s.sstables key
]

unfoldable pub get : ℤ → Store → Bytes → Option Bytes
unfolding lookup
get now s key = elim (lookup now s key) [ none ↦ none | some found ↦ some found.value ]

abbrev pub is_some {ℓ} : {A : Type ℓ} → Option A → Bool
is_some none = false
is_some (some a) = true

unfoldable pub exists_key : ℤ → Store → Bytes → Bool
unfolding get
exists_key now s key = is_some (get now s key)

pub record TtlResult : Type 0 where
  pub exists_now : Bool
  pub has_expiry : Bool
  pub remaining_ms : ℤ

abbrev pub sub_ℤ : ℤ → ℤ → ℤ
sub_ℤ a b = sub_ℕ (pos_part a + neg_part b) (neg_part a + pos_part b)

-- The clock is read a second time, at `later`.
unfoldable pub ttl : ℤ → ℤ → Store → Bytes → TtlResult
unfolding lookup
ttl now later s key = elim (lookup now s key) [
  | none ↦ record { exists_now = false; has_expiry = false; remaining_ms = pos 0 }
  | some found ↦
      let remaining = sub_ℤ found.expires_at_ms later in
      if is_zero found.expires_at_ms
      then record { exists_now = true; has_expiry = false; remaining_ms = pos 0 }
      else record {
        exists_now = true;
        has_expiry = true;
        remaining_ms = if leb_ℤ remaining (pos 0) then pos 0 else remaining;
      }
]
