-- ===== src/Store/Recovery.antt =====
-- src/store.cpp, `Store::apply`, as the callback of `replay` of src/wal.cpp: the store that a restart
-- builds from its directory and the log.
use mathlib.Core.List.{foldl}
use mathlib.Core.Path.{subst}
use cachedb.Prelude.{
  ◌∙◌, ℕ, ◌+◌, ◌^◌, ◌<◌, ◌≡◌, refl, sym, ap, not, ◌&&◌, Bool, true, false, Option, none, some, List,
  [], ◌∷◌, map, arith, if◌then◌else◌, length, take,
}
use cachedb.Prelude.Int.{ℤ, pos, is_zero, is_zero-eq, IsI64}
use cachedb.Prelude.Bytes.{Bytes}
use cachedb.Memtable.{init}
use cachedb.Memtable
use cachedb.Memtable.Invariant.{IsValid, init-IsValid}
use cachedb.Wal.Record.{Op, k_set, k_delete, is_set, Record, carries_expiry}
use cachedb.Wal.Record.RoundTrip.{canonical}
use cachedb.Wal.Replay
use cachedb.Wal.Replay.{ReplayResult, replay}
use cachedb.Wal.Replay.Recovery.{
  log_bytes, AllEncodable, kept, kept-AllEncodable, io_of, replay-take,
}
use cachedb.Store.{StoreOptions, Directory, TableFile, Store, returned}
use cachedb.Store.Start.{StartIo, open_store}
use cachedb.Store.Start.Above.{open_store-memtable}
use cachedb.Store.View.{live, of_visible, lookup-of_visible, find-init}
use cachedb.Store.Room.{Roomy}
use cachedb.Memtable.Expiry.{judge}
use cachedb.Store.Layers.{Found, settle, table_get, lookup_tables}
use cachedb.Store.Write.{apply}
use cachedb.Store.Calls.{Map, put, Refines, IsSound, AllHold}
use cachedb.Store.Refine.{Done, set_memtable-Done, del_memtable-Done}

-- What a record does to the map.
abbrev pub record_meaning : Record → Map → Map
record_meaning r f = put f r.key (elim r.op [
  | k_set ↦ some (record { value = r.value; expires_at_ms = r.expires_at_ms })
  | k_delete ↦ none
])

abbrev pub records_map : List Record → Map → Map
records_map [] f = f
records_map (r ∷ rs) f = records_map rs (record_meaning r f)

record_meaning-canonical :
    (r : Record) (f : Map) → record_meaning (canonical r) f ≡ record_meaning r f
unfolding carries_expiry
record_meaning-canonical r f = ap (put f r.key) (by r.op (is_zero r.expires_at_ms) refl)
  where
    by :
        (op : Op) (b : Bool)
        → is_zero r.expires_at_ms ≡ b
        → ◌≡◌ {A = Option Found}
            (elim op as (λ o. Option Found) [
              | k_set ↦ some (record {
                value = r.value;
                expires_at_ms = if is_set op && not b then r.expires_at_ms else pos 0;
              })
              | k_delete ↦ none
            ])
            (elim op [
              | k_set ↦ some (record { value = r.value; expires_at_ms = r.expires_at_ms })
              | k_delete ↦ none
            ])
    by k_set true e =
        ap (λ x. some (record { value = r.value; expires_at_ms = x }))
          (sym (is_zero-eq r.expires_at_ms e))
    by k_set false e = refl
    by k_delete b e = refl

canonical-range : (b : Bool) (x : ℤ) → IsI64 x → IsI64 (if b then x else pos 0)
canonical-range true x h = h
canonical-range false x h = omega arith

apply-Done :
    (n : ℕ) (now : ℤ) (f : Map) (s : Store) (r : Record)
    → (length r.key < 2 ^ 32) × (length r.value < 2 ^ 32) × IsI64 r.expires_at_ms
    → Done n now f s
    → Done (n + 1) now (record_meaning r f) (apply s r)
unfolding apply
apply-Done n now f s r fits d = by r.op
  where
    by :
        (op : Op)
        → Done
            (n + 1)
            now
            (put f r.key (elim op [
              | k_set ↦ some (record { value = r.value; expires_at_ms = r.expires_at_ms })
              | k_delete ↦ none
            ]))
            (elim op [
              | k_set ↦ record s {
                memtable = Memtable.set s.memtable r.key r.value r.expires_at_ms;
              }
              | k_delete ↦ record s { memtable = (Memtable.del s.memtable r.key).0 }
            ])
    by k_set = set_memtable-Done n now f s _ r.key r.value r.expires_at_ms refl refl fits d
    by k_delete = del_memtable-Done n now f s _ r.key refl refl fits.0 d

apply_all-Done :
    (rs : List Record) (n : ℕ) (now : ℤ) (f : Map) (s : Store)
    → AllEncodable rs
    → Done n now f s
    → Done (n + length rs) now (records_map rs f) (foldl apply s (map canonical rs))
apply_all-Done [] n now f s h d = subst (λ m. Done m now f s) (omega arith) d
apply_all-Done (r ∷ rs) n now f s (h, hs) d =
    let one =
      apply-Done n now f s (canonical r)
        (
          h.klen,
          h.vlen,
          canonical-range (carries_expiry r.op r.expires_at_ms) r.expires_at_ms h.expiry,
        )
        d in
    let rest = apply_all-Done rs (n + 1) now (record_meaning r f) (apply s (canonical r)) hs (
      subst (λ g. Done (n + 1) now g (apply s (canonical r))) (record_meaning-canonical r f) one) in
    subst
      (λ m.
        Done m now (records_map rs (record_meaning r f))
          (foldl apply (apply s (canonical r)) (map canonical rs)))
      (omega arith) rest

-- A store with nothing in it.
abbrev pub nothing : Map
nothing key = none

-- What the tables say of each key, the newest first.
abbrev pub tables_map : List TableFile → Map
tables_map [] key = none
tables_map (t ∷ ts) key =
    let l = table_get t.table key in
    let older = tables_map ts key in
    if not l.found
    then older
    else if l.tombstone
    then none
    else some (record { value = l.value; expires_at_ms = l.expires_at_ms })

lookup_tables-live :
    (now : ℤ) (ts : List TableFile) (key : Bytes)
    → lookup_tables now ts key ≡ live now (tables_map ts key)
unfolding lookup_tables
lookup_tables-live now [] key = refl
lookup_tables-live now (t ∷ ts) key =
    by (table_get t.table key).found (table_get t.table key).tombstone (table_get t.table key).value
      (table_get t.table key).expires_at_ms (lookup_tables now ts key) (tables_map ts key)
      (lookup_tables-live now ts key)
  where
    by :
        (found tombstone : Bool) (value : Bytes) (x : ℤ) (older : Option Found)
        (said : Option Found)
        → older ≡ live now said
        → (if found then settle now tombstone value x else older)
          ≡ live now (
              if not found
              then said
              else if tombstone
              then none
              else some (record { value = value; expires_at_ms = x }))
    by false tombstone value x older said e = e
    by true true value x older said e = refl
    by true false value x older said e = refl

-- A store that was opened over a directory reads as its tables say.
opened-Done :
    (now : ℤ) (io : StartIo) (options : StoreOptions) (d : Directory) (s : Store)
    → open_store io options d ≡ returned s
    → AllHold s.sstables
    → Done 0 now (tables_map s.sstables) s
opened-Done now io options d s h tables =
    let empty = open_store-memtable io options d s h in
    (
      record {
        valid = subst IsValid (sym empty) init-IsValid;
        room =
            subst (λ m. Roomy 0 m.entries) (sym empty)
              (record { fits = tt; few = omega arith; small = omega arith });
        tables = tables;
      },
      λ key.
          lookup-of_visible now s key
          ∙ ap
              (λ m. of_visible (judge now (Memtable.find m key)) (lookup_tables now s.sstables key))
              empty
          ∙ ap (λ o. of_visible (judge now o) (lookup_tables now s.sstables key)) (find-init key)
          ∙ lookup_tables-live now s.sstables key,
    )

-- A restart: the store is opened over its directory, and the log, which was cut after any number of
-- bytes, is replayed into it. The replay returns, and builds a sound store in which each key reads,
-- at every time, as the records that lie whole in the log leave it on the map that the tables
-- were: sets and deletes in their order, with the stamps that were written. The tables are ones
-- that the writer wrote, and the records fit the log's format.
pub restart-Refines :
    (rs : List Record) (n : ℕ) (io : StartIo) (options : StoreOptions) (d : Directory)
    (opened : Store)
    → AllEncodable rs
    → open_store io options d ≡ returned opened
    → AllHold opened.sstables
    → (s : Store) × (result : ReplayResult) × (replay apply opened (io_of (take n (log_bytes rs)))
        ≡ Replay.returned s result (some (log_bytes (kept n rs))))
      × IsSound (length (kept n rs)) s
      × ((now : ℤ) → Refines now s (records_map (kept n rs) (tables_map opened.sstables)))
restart-Refines rs n io options d opened h start tables =
    (_, _, replay-take apply opened rs n h, (applied (pos 0)).0, λ now. (applied now).1)
  where
    applied :
        (now : ℤ)
        → Done
            (length (kept n rs))
            now
            (records_map (kept n rs) (tables_map opened.sstables))
            (foldl apply opened (map canonical (kept n rs)))
    applied now =
        subst
          (λ m.
            Done m now (records_map (kept n rs) (tables_map opened.sstables))
              (foldl apply opened (map canonical (kept n rs))))
          (omega arith)
          (apply_all-Done (kept n rs) 0 now (tables_map opened.sstables) opened
            (kept-AllEncodable n rs h) (opened-Done now io options d opened start tables))
