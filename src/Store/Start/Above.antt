-- ===== src/Store/Start/Above.antt =====
-- src/store.cpp, the constructor over a directory: the number of the next table.
use cachedb.Prelude.{
  ◌∙◌, ℕ, ◌+◌, ◌-◌, ◌^◌, ◌<◌, ◌≡◌, refl, sym, ap, inl, inr, max, Option, none, some, List, [], ◌∷◌,
  arith, not, Bool, true, false, if◌then◌else◌, length, drop, Option-cases,
}
use mathlib.Core.Bool.{false≢true}
use mathlib.Core.Path.{subst}
use mathlib.Core.Option.{some-injective, none-ne-some}
use cachedb.Prelude.Bytes.{Bytes, key_eq}
use cachedb.Store.{StoreOptions, Directory, TableFile, Store, Result, returned, threw}
use cachedb.Sstable.{FileData}
use cachedb.Memtable.{init}
use cachedb.Store.{store_over, k_flush_temp}
use cachedb.Store.Compact.{k_compact_temp}
use cachedb.Store.Names.{sequence_of}
use cachedb.Store.Start.{
  without_temp, StartIo, scan_names, insert_desc, sort_desc, next_after, open_store,
}

-- The tables among the files have numbers below `bound`.
abbrev pub Below : ℕ → ℕ → List (Bytes × FileData) → Type 0
Below bound prefix [] = Unit
Below bound prefix ((path, file) ∷ files) =
    ((n : ℕ) → sequence_of (drop prefix path) ≡ some n → n < bound) × Below bound prefix files

abbrev top : List ℕ → ℕ
top [] = 0
top (n ∷ ns) = n

abbrev largest : List ℕ → ℕ
largest [] = 0
largest (n ∷ ns) = max n (largest ns)

top-insert_desc : (n : ℕ) (ns : List ℕ) → top (insert_desc n ns) ≡ max n (top ns)
unfolding insert_desc
top-insert_desc n [] = omega arith
top-insert_desc n (m ∷ ms) = ground arith

top-sort_desc : (ns : List ℕ) → top (sort_desc ns) ≡ largest ns
unfolding sort_desc
top-sort_desc [] = refl
top-sort_desc (n ∷ ns) = omega (arith, top-insert_desc n (sort_desc ns), top-sort_desc ns)

-- What one name adds to the scan.
one_name :
    (bound : ℕ) (o : Option ℕ) (later : List ℕ)
    → largest (elim o [ none ↦ later | some n ↦ n ∷ later ]) < bound
    → ((n : ℕ) → o ≡ some n → n < bound) × (largest later < bound)
one_name bound none later h = (λ n is. absurd (none-ne-some n is), h)
one_name bound (some m) later h =
    (λ n is. omega (arith, some-injective m n is, h), omega (arith, h))

scan_names-Below :
    (bound prefix : ℕ) (files : List (Bytes × FileData))
    → largest (scan_names prefix files) < bound
    → Below bound prefix files
unfolding scan_names
scan_names-Below bound prefix [] h = tt
scan_names-Below bound prefix ((path, file) ∷ files) h =
    let (first, later) =
      one_name bound (sequence_of (drop prefix path)) (scan_names prefix files) h in
    (first, scan_names-Below bound prefix files later)

Below-scan_names :
    (bound prefix : ℕ) (files : List (Bytes × FileData))
    → 0 < bound
    → Below bound prefix files
    → largest (scan_names prefix files) < bound
unfolding scan_names
Below-scan_names bound prefix [] more h = more
Below-scan_names bound prefix ((path, file) ∷ files) more (first, rest) =
    elim (Option-cases (sequence_of (drop prefix path))) [
      | inl other ↦ rw (other, scan_names) (Below-scan_names bound prefix files more rest)
      | inr (n, is_table) ↦
          rw (is_table, scan_names)
            (omega (arith, first n is_table, Below-scan_names bound prefix files more rest))
    ]

next_after-above : (ns : List ℕ) → top ns < 2 ^ 64 - 1 → top ns < next_after ns
next_after-above [] h = omega arith
next_after-above (n ∷ ns) h = omega (arith, h)

abbrev store_of : Result Store → Option Store
store_of (returned s) = some s
store_of threw = none

returned_of :
    (P : Store → Type 0) (a b : Bool) (o : Option (List TableFile)) (s t : Store)
    (build : List TableFile → Store)
    → (a ≡ true → P s)
    → ((tables : List TableFile) → P (build tables))
    → ◌≡◌ {A = Result Store}
        (if a
          then returned s
          else if b
          then threw
          else elim o [ none ↦ threw | some tables ↦ returned (build tables) ])
        (returned t)
    → P t
returned_of P true b o s t build off p h = subst P (some-injective s t (ap store_of h)) (off refl)
returned_of P false true o s t build off p h = absurd (none-ne-some t (ap store_of h))
returned_of P false false none s t build off p h = absurd (none-ne-some t (ap store_of h))
returned_of P false false (some tables) s t build off p h =
    subst P (some-injective (build tables) t (ap store_of h)) (p tables)

without_temp-memtable :
    (unlinks : Bool) (name : Bytes) (s : Store)
    → (without_temp unlinks name s).memtable ≡ s.memtable
without_temp-memtable true name s = refl
without_temp-memtable false name s = refl

-- A store that was opened has nothing in its memtable.
pub open_store-memtable :
    (io : StartIo) (options : StoreOptions) (d : Directory) (s : Store)
    → open_store io options d ≡ returned s
    → s.memtable ≡ init
unfolding open_store store_over
open_store-memtable io options d s h =
    let start = record (store_over none d) { options = options } in
    returned_of (λ t. t.memtable ≡ init) (key_eq options.dir []) (not io.opens_dir) _ _ s _
      (λ no_dir. refl)
      (λ tables.
        without_temp-memtable io.unlinks_flush k_flush_temp
          (without_temp io.unlinks_compact k_compact_temp start)
        ∙ without_temp-memtable io.unlinks_compact k_compact_temp start)
      h

-- A store that was opened gives the next table a number above that of every table in its directory,
-- so a flush takes no name that is there. The numbers that are there are below the largest uint64_t.
pub open_store-Below :
    (io : StartIo) (options : StoreOptions) (d : Directory) (s : Store)
    → key_eq options.dir [] ≡ false
    → Below (2 ^ 64 - 1) (length options.dir + 1) d.files
    → open_store io options d ≡ returned s
    → Below s.next_sequence (length options.dir + 1) d.files
unfolding open_store
open_store-Below io options d s dir small h =
    let prefix = length options.dir + 1 in
    let found = scan_names prefix d.files in
    let few : top (sort_desc found) < 2 ^ 64 - 1 = omega (
      arith,
      top-sort_desc found,
      Below-scan_names (2 ^ 64 - 1) prefix d.files (omega arith) small,
    ) in
    returned_of (λ t. Below t.next_sequence prefix d.files) (key_eq options.dir [])
      (not io.opens_dir) _ _ s _ (λ no_dir. absurd (false≢true (sym dir ∙ no_dir)))
      (λ tables.
        scan_names-Below (next_after (sort_desc found)) prefix d.files
          (omega (arith, top-sort_desc found, next_after-above (sort_desc found) few)))
      h
