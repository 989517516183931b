-- ===== src/Store/Effect.antt =====
-- What a change of the memtable does to the lookups of src/store.cpp.
use cachedb.Prelude.{
  ℕ, ◌^◌, ◌<◌, ◌≡◌, ◌≢◌, refl, sym, ap, ap₂, ◌∙◌, inl, inr, Bool, true, false, Option, none, some,
  List, [], ◌∷◌, arith, if◌then◌else◌, length,
}
use mathlib.Core.Path.{subst}
use cachedb.Prelude.Int.{ℤ, ◌≤ℤ◌}
use cachedb.Prelude.Bytes.{Bytes, key_eq}
use cachedb.Prelude.SortedMap
use cachedb.Prelude.SortedMap.{SortedMap, IsSorted}
use cachedb.Memtable.{Entry, Memtable, init, deleted, is_expired}
use cachedb.Memtable
use cachedb.Memtable.Lookup.{written, find-set, find-del}
use cachedb.Memtable.Expiry.{judge, judge-sweep_expired}
use cachedb.Memtable.Invariant.{IsValid, init-IsValid}
use cachedb.Sstable.Block.{AllFit}
use cachedb.Store.{TableFile, Store}
use cachedb.Store.Layers.{Found, lookup_tables, lookup}
use cachedb.Store.Flushed.{Kept}
use cachedb.Store.View.{of_visible, lookup-of_visible, lookup_tables-Holds, live}
use cachedb.Store.Room.{Roomy}
use cachedb.Store.Calls.{AllHold, IsSound}

-- A store with another memtable over the same tables.
lookup_over :
    (now : ℤ) (s t : Store) (m : Memtable) (j : Bytes)
    → t.memtable ≡ m
    → t.sstables ≡ s.sstables
    → lookup now t j ≡ of_visible (judge now (Memtable.find m j)) (lookup_tables now s.sstables j)
lookup_over now s t m j p q =
    lookup-of_visible now t j
    ∙ ap₂ (λ m ts. of_visible (judge now (Memtable.find m j)) (lookup_tables now ts j)) p q

module _ (now : ℤ) (s t : Store) (k : Bytes) (tables : t.sstables ≡ s.sstables) where
  pub lookup-set :
      (value : Bytes) (x : ℤ) (j : Bytes)
      → t.memtable ≡ Memtable.set s.memtable k value x
      → lookup now t j ≡ (
          if key_eq k j
          then live now (some (record { value = value; expires_at_ms = x }))
          else lookup now s j)
  unfolding is_expired
  lookup-set value x j p =
      lookup_over now s t (Memtable.set s.memtable k value x) j p tables
      ∙ ap (λ o. of_visible (judge now o) (lookup_tables now s.sstables j))
          (find-set s.memtable k j value x)
      ∙ by (key_eq k j) (lookup_tables now s.sstables j)
      ∙ ap
          (λ o.
            if key_eq k j then live now (some (record { value = value; expires_at_ms = x })) else o)
          (sym (lookup-of_visible now s j))
    where
      by :
          (b : Bool) (older : Option Found)
          → of_visible
              (judge now (if b then some (written value x) else Memtable.find s.memtable j))
              older
            ≡ (if b
                then live now (some (record { value = value; expires_at_ms = x }))
                else of_visible (judge now (Memtable.find s.memtable j)) older)
      by true older = ground arith
      by false older = refl

  pub lookup-del :
      (j : Bytes)
      → t.memtable ≡ (Memtable.del s.memtable k).0
      → lookup now t j ≡ (if key_eq k j then none else lookup now s j)
  lookup-del j p =
      lookup_over now s t (Memtable.del s.memtable k).0 j p tables
      ∙ ap (λ o. of_visible (judge now o) (lookup_tables now s.sstables j))
          (find-del s.memtable k j)
      ∙ by (key_eq k j) (lookup_tables now s.sstables j)
      ∙ ap (λ o. if key_eq k j then none else o) (sym (lookup-of_visible now s j))
    where
      by :
          (b : Bool) (older : Option Found)
          → of_visible (judge now (if b then some deleted else Memtable.find s.memtable j)) older
            ≡ (if b then none else of_visible (judge now (Memtable.find s.memtable j)) older)
      by true older = refl
      by false older = refl

pub lookup-sweep :
    (now later : ℤ) (s t : Store) (budget : ℕ) (j : Bytes)
    → t.memtable ≡ (Memtable.sweep_expired s.memtable now budget).0
    → t.sstables ≡ s.sstables
    → now ≤ℤ later
    → lookup later t j ≡ lookup later s j
lookup-sweep now later s t budget j p q order =
    lookup_over later s t (Memtable.sweep_expired s.memtable now budget).0 j p q
    ∙ ap (λ v. of_visible v (lookup_tables later s.sstables j))
        (judge-sweep_expired s.memtable now later budget j order)
    ∙ sym (lookup-of_visible later s j)

-- A value that a lookup finds fits its length field.
abbrev pub ValueFits : Option Found → Type 0
ValueFits none = Unit
ValueFits (some f) = length f.value < 2 ^ 32

of_visible-ValueFits :
    (now : ℤ) (o : Option Entry) (older : Option Found)
    → ((e : Entry) → o ≡ some e → length e.value < 2 ^ 32)
    → ValueFits older
    → ValueFits (of_visible (judge now o) older)
unfolding is_expired
of_visible-ValueFits now none older h g = g
of_visible-ValueFits now (some e) older h g = ground (arith, h e refl)

AllFit-find :
    (k : Bytes) (m : SortedMap Entry)
    → AllFit m
    → (e : Entry) → SortedMap.find k m ≡ some e
    → length e.value < 2 ^ 32
unfolding SortedMap.find
AllFit-find k [] h e p = absurd (not_some p)
  where
    not_some : none ≢ some e
    not_some p = cc
AllFit-find k ((j, w) ∷ m) h e p = ground (arith, AllFit-find k m h.1 e)

lookup_tables-ValueFits :
    (now : ℤ) (ts : List TableFile) (k : Bytes) → AllHold ts → ValueFits (lookup_tables now ts k)
unfolding lookup_tables
lookup_tables-ValueFits now [] k h = tt
lookup_tables-ValueFits now (t ∷ ts) k ((m, holds, sorted, fits), h) =
    subst ValueFits (sym (lookup_tables-Holds now t ts m k holds sorted fits)) (
      of_visible-ValueFits now (SortedMap.find k m) (lookup_tables now ts k) (AllFit-find k m fits)
        (lookup_tables-ValueFits now ts k h))

pub lookup-ValueFits :
    (now : ℤ) (n : ℕ) (s : Store) (k : Bytes) → IsSound n s → ValueFits (lookup now s k)
unfolding Memtable.find
lookup-ValueFits now n s k h = subst ValueFits (sym (lookup-of_visible now s k)) (
    of_visible-ValueFits now (Memtable.find s.memtable k) (lookup_tables now s.sstables k)
      (AllFit-find k s.memtable.entries h.room.fits)
      (lookup_tables-ValueFits now s.sstables k h.tables))

-- A flush keeps a store sound.
pub Kept-IsSound : (n : ℕ) (s s' : Store) → IsSound n s → Kept s s' → IsSound n s'
Kept-IsSound n s s' h (inl (m, ts)) = record {
  valid = subst IsValid (sym m) h.valid;
  room = subst (λ m. Roomy n m.entries) (sym m) h.room;
  tables = subst AllHold (sym ts) h.tables;
}
Kept-IsSound n s s' h (inr (t, holds, m, ts)) = record {
  valid = subst IsValid (sym m) init-IsValid;
  room =
      subst (λ m. Roomy n m.entries) (sym m)
        (record { fits = tt; few = omega arith; small = omega arith });
  tables =
      subst AllHold (sym ts) ((s.memtable.entries, holds, h.valid.sorted, h.room.fits), h.tables);
}
