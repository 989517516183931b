-- ===== src/Memtable/Lookup.antt =====
-- What `Memtable::find` returns after a write: memtable.cpp, `find`, `set` and `del`.
use cachedb.Prelude.{
  ◌≡◌, refl, Bool, false, not, Option, none, some, inl, inr, arith, if◌then◌else◌, Option-cases,
}
use cachedb.Prelude.Int.{ℤ}
use cachedb.Prelude.Bytes.{Bytes, key_eq}
use cachedb.Prelude.SortedMap
use cachedb.Prelude.SortedMap.{SortedMap, find-emplace, find-assign}
use cachedb.Memtable.{Entry, Memtable, find, set, overwrite, del, deleted}

abbrev pub written : Bytes → ℤ → Entry
written value expires_at_ms = record {
  value = value;
  tombstone = false;
  expires_at_ms = expires_at_ms;
}

-- After `set`, the key holds exactly the value and the stamp that were given, with no tombstone,
-- and every other key holds what it held.
pub find-set :
    (t : Memtable) (key j value : Bytes) (expires_at_ms : ℤ)
    → find (set t key value expires_at_ms) j
      ≡ (if key_eq key j then some (written value expires_at_ms) else find t j)
unfolding find set overwrite
find-set t key j value x = elim (Option-cases (SortedMap.find key t.entries)) [
  | inl e ↦ rw (e, set) (find-emplace key j (written value x) t.entries e)
  | inr (old, e) ↦ rw (e, set) (find-assign key j (written value x) old t.entries e)
]

-- After `del`, the key holds an empty tombstone without a stamp, whether it was there or not, and
-- every other key holds what it held.
pub find-del :
    (t : Memtable) (key j : Bytes)
    → find (del t key).0 j ≡ (if key_eq key j then some deleted else find t j)
unfolding find del
find-del t key j = elim (Option-cases (SortedMap.find key t.entries)) [
  | inl e ↦ rw (e, del) (find-emplace key j deleted t.entries e)
  | inr (old, e) ↦ rw (e, del) (find-assign key j deleted old t.entries e)
]

abbrev pub is_live : Option Entry → Bool
is_live none = false
is_live (some e) = not e.tombstone

-- `del` reports that the key was live exactly when `find` gave an entry that is no tombstone.
pub del-is_live : (t : Memtable) (key : Bytes) → (del t key).1 ≡ is_live (find t key)
unfolding find del
del-is_live t key = ground arith

-- The entry of a key, put in or written over.
abbrev pub upsert : Bytes → Entry → SortedMap Entry → SortedMap Entry
upsert key e m = elim (SortedMap.find key m) [
  | none ↦ SortedMap.emplace key e m
  | some _ ↦ SortedMap.assign key e m
]

pub set-upsert :
    (t : Memtable) (key value : Bytes) (expires_at_ms : ℤ)
    → (set t key value expires_at_ms).entries ≡ upsert key (written value expires_at_ms) t.entries
unfolding find set overwrite
set-upsert t key value x = elim (Option-cases (SortedMap.find key t.entries)) [
  | inl e ↦ rw (e, set, upsert) refl
  | inr (old, e) ↦ rw (e, set, upsert) refl
]

pub del-upsert : (t : Memtable) (key : Bytes) → (del t key).0.entries ≡ upsert key deleted t.entries
unfolding find del
del-upsert t key = elim (Option-cases (SortedMap.find key t.entries)) [
  | inl e ↦ rw (e, del, upsert) refl
  | inr (old, e) ↦ rw (e, del, upsert) refl
]
