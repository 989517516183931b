-- ===== src/Store/View.antt =====
-- src/store.cpp, `Store::lookup`: what it answers, seen from outside the layers.
use cachedb.Prelude.{
  ◌≡◌, refl, sym, ap, ap₂, ◌∙◌, inl, inr, Bool, true, false, Option, none, some, List, [], ◌∷◌,
  arith, if◌then◌else◌, Option-cases,
}
use cachedb.Prelude.Int.{ℤ, ◌≤ℤ◌}
use cachedb.Prelude.Bytes.{Bytes}
use cachedb.Prelude.SortedMap
use cachedb.Prelude.SortedMap.{SortedMap, IsSorted}
use cachedb.Memtable.{Entry, Memtable, init, is_expired}
use cachedb.Memtable
use cachedb.Memtable.Expiry.{Visible, absent, hidden, shown, judge}
use cachedb.Sstable.Block.{AllFit, answer}
use cachedb.Sstable.Answers.{Holds, get-Holds}
use cachedb.Store.{TableFile, Store}
use cachedb.Store.Layers.{Found, expired, settle, table_get, lookup_tables, lookup}
use cachedb.Store.Flushed.{Kept}

-- A layer's judgement, in front of what the older layers answer.
abbrev pub of_visible : Visible → Option Found → Option Found
of_visible absent older = older
of_visible hidden older = none
of_visible (shown value stamp) older = some (record { value = value; expires_at_ms = stamp })

settle-judge :
    (now : ℤ) (e : Entry) (older : Option Found)
    → settle now e.tombstone e.value e.expires_at_ms ≡ of_visible (judge now (some e)) older
unfolding is_expired
settle-judge now e older = ground arith

pub lookup-of_visible :
    (now : ℤ) (s : Store) (key : Bytes)
    → lookup now s key
      ≡ of_visible (judge now (Memtable.find s.memtable key)) (lookup_tables now s.sstables key)
unfolding lookup
lookup-of_visible now s key = elim (Option-cases (Memtable.find s.memtable key)) [
  | inl e ↦ rw (e, lookup) refl
  | inr (w, e) ↦ rw (e, lookup) (settle-judge now w (lookup_tables now s.sstables key))
]

answer-judge :
    (now : ℤ) (o : Option Entry) (older : Option Found)
    → (let l = answer o in
        if l.found then settle now l.tombstone l.value l.expires_at_ms else older)
      ≡ of_visible (judge now o) older
unfolding is_expired
answer-judge now none older = refl
answer-judge now (some e) older = ground arith

-- A table that holds some entries is a layer like a memtable that has them.
pub lookup_tables-Holds :
    (now : ℤ) (t : TableFile) (ts : List TableFile) (m : SortedMap Entry) (key : Bytes)
    → Holds m t.table
    → IsSorted m
    → AllFit m
    → lookup_tables now (t ∷ ts) key
      ≡ of_visible (judge now (SortedMap.find key m)) (lookup_tables now ts key)
unfolding lookup_tables
lookup_tables-Holds now t ts m key h s fits =
    let found : table_get t.table key ≡ answer (SortedMap.find key m) =
      rw (get-Holds t.table m key h s fits, table_get) refl in
    rw found (answer-judge now (SortedMap.find key m) (lookup_tables now ts key))

pub find-init : (key : Bytes) → Memtable.find init key ≡ none
unfolding Memtable.find SortedMap.find
find-init key = refl

find_lem : (t : Memtable) (key : Bytes) → Memtable.find t key ≡ SortedMap.find key t.entries
unfolding Memtable.find
find_lem t key = refl

-- A read finds the same when the layers are kept.
pub lookup-Kept :
    (now : ℤ) (s s' : Store) (key : Bytes)
    → IsSorted s.memtable.entries
    → AllFit s.memtable.entries
    → Kept s s'
    → lookup now s' key ≡ lookup now s key
lookup-Kept now s s' key sorted fits (inl (m, ts)) =
    lookup-of_visible now s' key
    ∙ ap₂ (λ m ts. of_visible (judge now (Memtable.find m key)) (lookup_tables now ts key)) m ts
    ∙ sym (lookup-of_visible now s key)
lookup-Kept now s s' key sorted fits (inr (t, holds, m, ts)) =
    lookup-of_visible now s' key
    ∙ ap₂ (λ m ts. of_visible (judge now (Memtable.find m key)) (lookup_tables now ts key)) m ts
    ∙ ap (λ o. of_visible (judge now o) (lookup_tables now (t ∷ s.sstables) key)) (find-init key)
    ∙ lookup_tables-Holds now t s.sstables s.memtable.entries key holds sorted fits
    ∙ ap (λ o. of_visible (judge now o) (lookup_tables now s.sstables key))
        (sym (find_lem s.memtable key))
    ∙ sym (lookup-of_visible now s key)

-- What a client may see of a value at a time.
abbrev pub live : ℤ → Option Found → Option Found
live now none = none
live now (some f) = if expired now f.expires_at_ms then none else some f

of_visible-later :
    (now later : ℤ) (o : Option Entry) (older older' : Option Found)
    → now ≤ℤ later
    → older' ≡ live later older
    → of_visible (judge later o) older' ≡ live later (of_visible (judge now o) older)
unfolding is_expired
of_visible-later now later none older older' order same = same
of_visible-later now later (some e) older older' order same = ground arith

settle-later :
    (now later : ℤ) (tombstone : Bool) (value : Bytes) (stamp : ℤ)
    → now ≤ℤ later
    → settle later tombstone value stamp ≡ live later (settle now tombstone value stamp)
settle-later now later tombstone value stamp order = ground arith

lookup_tables-later :
    (now later : ℤ) (ts : List TableFile) (key : Bytes)
    → now ≤ℤ later
    → lookup_tables later ts key ≡ live later (lookup_tables now ts key)
unfolding lookup_tables
lookup_tables-later now later [] key order = refl
lookup_tables-later now later (t ∷ ts) key order =
    which (table_get t.table key).found _ _ _ _
      (settle-later now later (table_get t.table key).tombstone (table_get t.table key).value
        (table_get t.table key).expires_at_ms order)
      (lookup_tables-later now later ts key order)
  where
    which :
        (b : Bool) (x x' y y' : Option Found)
        → x ≡ live later x'
        → y ≡ live later y'
        → (if b then x else y) ≡ live later (if b then x' else y')
    which true x x' y y' p q = p
    which false x x' y y' p q = q

-- What a key answers later is what it answers now, unless its stamp has passed by then: nothing
-- that has run out or been deleted comes back by itself, from whatever layer.
pub lookup-live :
    (now later : ℤ) (s : Store) (key : Bytes)
    → now ≤ℤ later
    → lookup later s key ≡ live later (lookup now s key)
lookup-live now later s key order =
    lookup-of_visible later s key
    ∙ of_visible-later now later (Memtable.find s.memtable key) (lookup_tables now s.sstables key)
        (lookup_tables later s.sstables key) order
        (lookup_tables-later now later s.sstables key order)
    ∙ ap (live later) (sym (lookup-of_visible now s key))
