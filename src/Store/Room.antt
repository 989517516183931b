-- ===== src/Store/Room.antt =====
-- How much a memtable of src/memtable.cpp asks of the table that src/store.cpp flushes it into.
use cachedb.Prelude.{
  ℕ, zero, suc, ◌+◌, ◌*◌, ◌^◌, ◌≤◌, ◌<◌, ◌≡◌, refl, sym, ap, Bool, true, false, Option, none, some,
  [], ◌∷◌, ◌++◌, arith, if◌then◌else◌, length, length-append,
}
use Prim.Native.Nat.{Ordering}
use mathlib.Core.Path.{subst}
use cachedb.Prelude.Int.{ℤ, IsI64}
use cachedb.Prelude.Words.{sub_u64}
use cachedb.Prelude.Bytes.{Bytes, cmp, key_lt, key_eq, key_eq_iff}
use cachedb.Prelude.SortedMap
use cachedb.Prelude.SortedMap.{SortedMap, emplace, assign}
use cachedb.Memtable.{
  Entry, Memtable, Sweep, set, del, deleted, sweep_loop, sweep_from, is_expired, sweep_expired,
}
use cachedb.Memtable.Lookup.{written, upsert, set-upsert, del-upsert}
use cachedb.Memtable.Invariant.{IsValid, sweep_expired-walk}
use cachedb.Sstable.Entry.{Fits, bytes_of, length-bytes_of, bytes_of_min, bytes_of_max}
use cachedb.Sstable.Block.{AllFit, entries_block}
use cachedb.Sstable.RoundTrip.{IsTable}

-- Room for `n` entries of at most 2 ^ 34 bytes.
pub record Roomy (n : ℕ) (m : SortedMap Entry) : Type 0 where
  pub fits : AllFit m
  pub few : length m ≤ n
  pub small : length (entries_block m) ≤ n * 2 ^ 34

pub Roomy-IsTable :
    (n : ℕ) (t : Memtable) → IsValid t → Roomy n t.entries → n ≤ 2 ^ 27 → IsTable t.entries
Roomy-IsTable n t v r h = record {
  sorted = v.sorted;
  fits = r.fits;
  few = omega (arith, r.few);
  small = omega (arith, r.small);
}

AllFit-emplace :
    (k : Bytes) (e : Entry) (m : SortedMap Entry) → Fits k e → AllFit m → AllFit (emplace k e m)
unfolding emplace
AllFit-emplace k e [] f h = (f, tt)
AllFit-emplace k e ((j, w) ∷ m) f h = ground (arith, AllFit-emplace k e m)

AllFit-assign :
    (k : Bytes) (e : Entry) (m : SortedMap Entry)
    → IsI64 e.expires_at_ms
    → length e.value < 2 ^ 32
    → AllFit m
    → AllFit (assign k e m)
unfolding assign
AllFit-assign k e [] f g h = tt
AllFit-assign k e ((j, w) ∷ m) f g h = ground (arith, AllFit-assign k e m)

size-emplace :
    (k : Bytes) (e : Entry) (m : SortedMap Entry)
    → (length (emplace k e m) ≤ suc (length m))
      × (length (entries_block (emplace k e m)) ≤ length (bytes_of k e) + length (entries_block m))
unfolding emplace
size-emplace k e [] = (omega arith, omega (arith, length-append (bytes_of k e) []))
size-emplace k e ((j, w) ∷ m) =
    let (one, two) = size-emplace k e m in
    by (cmp k j) (length-append (bytes_of k e) (bytes_of j w ++ entries_block m))
      (length-append (bytes_of j w) (entries_block m))
      (length-append (bytes_of j w) (entries_block (emplace k e m))) one two
  where
    by :
        (c : Ordering)
        → length (bytes_of k e ++ (bytes_of j w ++ entries_block m))
          ≡ length (bytes_of k e) + length (bytes_of j w ++ entries_block m)
        → length (bytes_of j w ++ entries_block m)
          ≡ length (bytes_of j w) + length (entries_block m)
        → length (bytes_of j w ++ entries_block (emplace k e m))
          ≡ length (bytes_of j w) + length (entries_block (emplace k e m))
        → length (emplace k e m) ≤ suc (length m)
        → length (entries_block (emplace k e m)) ≤ length (bytes_of k e) + length (entries_block m)
        → let m' : SortedMap Entry = elim c [
          | Ordering.lt ↦ (k, e) ∷ (j, w) ∷ m
          | Ordering.eq ↦ (j, w) ∷ m
          | Ordering.gt ↦ (j, w) ∷ emplace k e m
        ] in
          (length m' ≤ suc (suc (length m)))
          × (length (entries_block m')
              ≤ length (bytes_of k e) + length (bytes_of j w ++ entries_block m))
    by Ordering.lt p q r one two = (omega arith, omega (arith, p))
    by Ordering.eq p q r one two = (omega arith, omega arith)
    by Ordering.gt p q r one two = (omega (arith, one), omega (arith, two, q, r))

-- A key that is there is written over once.
size-assign :
    (k : Bytes) (e : Entry) (m : SortedMap Entry)
    → (length (assign k e m) ≡ length m)
      × (length (entries_block (assign k e m)) ≤ length (bytes_of k e) + length (entries_block m))
unfolding assign
size-assign k e [] = (refl, omega arith)
size-assign k e ((j, w) ∷ m) =
    by (key_eq j k) (λ same. (key_eq_iff j k).0 same)
      (length-append (bytes_of j e) (entries_block m))
      (length-append (bytes_of j w) (entries_block m))
      (length-append (bytes_of j w) (entries_block (assign k e m))) (size-assign k e m)
  where
    by :
        (b : Bool)
        → (b ≡ true → j ≡ k)
        → length (bytes_of j e ++ entries_block m)
          ≡ length (bytes_of j e) + length (entries_block m)
        → length (bytes_of j w ++ entries_block m)
          ≡ length (bytes_of j w) + length (entries_block m)
        → length (bytes_of j w ++ entries_block (assign k e m))
          ≡ length (bytes_of j w) + length (entries_block (assign k e m))
        → (length (assign k e m) ≡ length m)
          × (length (entries_block (assign k e m))
              ≤ length (bytes_of k e) + length (entries_block m))
        → let m' = if b then (j, e) ∷ m else (j, w) ∷ assign k e m in
          (length m' ≡ suc (length m))
          × (length (entries_block m')
              ≤ length (bytes_of k e) + length (bytes_of j w ++ entries_block m))
    by true same p q r (one, two) =
        (refl, omega (arith, p, q, ap (λ i. length (bytes_of i e)) (same refl)))
    by false same p q r (one, two) = (ap suc one, omega (arith, q, r, two))

Roomy-upsert :
    (n : ℕ) (k : Bytes) (e : Entry) (m : SortedMap Entry)
    → Fits k e
    → Roomy n m
    → Roomy (suc n) (upsert k e m)
Roomy-upsert n k e m f r = by (SortedMap.find k m)
  where
    put : Roomy (suc n) (emplace k e m)
    put =
        let (one, two) = size-emplace k e m in
        record {
          fits = AllFit-emplace k e m f r.fits;
          few = omega (arith, one, r.few);
          small = omega (arith, two, r.small, bytes_of_max k e f);
        }

    over : Roomy (suc n) (assign k e m)
    over =
        let (one, two) = size-assign k e m in
        record {
          fits = AllFit-assign k e m f.2 f.1 r.fits;
          few = omega (arith, one, r.few);
          small = omega (arith, two, r.small, bytes_of_max k e f);
        }

    by :
        (o : Option Entry) → Roomy (suc n) (elim o [ none ↦ emplace k e m | some _ ↦ assign k e m ])
    by none = put
    by (some w) = over

pub set-Roomy :
    (n : ℕ) (t : Memtable) (key value : Bytes) (expires_at_ms : ℤ)
    → length key < 2 ^ 32
    → length value < 2 ^ 32
    → IsI64 expires_at_ms
    → Roomy n t.entries
    → Roomy (suc n) (set t key value expires_at_ms).entries
set-Roomy n t key value x short small range r =
    subst (Roomy (suc n)) (sym (set-upsert t key value x))
      (Roomy-upsert n key (written value x) t.entries (short, small, range) r)

pub del-Roomy :
    (n : ℕ) (t : Memtable) (key : Bytes)
    → length key < 2 ^ 32
    → Roomy n t.entries
    → Roomy (suc n) (del t key).0.entries
del-Roomy n t key short r =
    subst (Roomy (suc n)) (sym (del-upsert t key))
      (Roomy-upsert n key deleted t.entries (short, omega arith, omega arith) r)

-- A sweep keeps the keys, and its tombstones are no larger than what they replace.
record Shrunk (m m' : SortedMap Entry) : Type 0 where
  fits : AllFit m → AllFit m'
  few : length m' ≡ length m
  small : AllFit m → length (entries_block m') ≤ length (entries_block m)

same-Shrunk : (m : SortedMap Entry) → Shrunk m m
same-Shrunk m = record { fits = λ h. h; few = refl; small = λ h. omega arith }

deleted-Fits : (k : Bytes) (e : Entry) → Fits k e → Fits k deleted
deleted-Fits k e (short, small, range) = (short, omega arith, omega arith)

cons-Shrunk :
    (k : Bytes) (e : Entry) (b : Bool) (m m' : SortedMap Entry)
    → Shrunk m m'
    → Shrunk ((k, e) ∷ m) (if b then (k, deleted) ∷ m' else (k, e) ∷ m')
cons-Shrunk k e true m m' h = record {
  fits = λ f. (deleted-Fits k e f.0, h.fits f.1);
  few = omega (arith, h.few);
  small = λ f. omega (
    arith,
    h.small f.1,
    length-append (bytes_of k deleted) (entries_block m'),
    length-append (bytes_of k e) (entries_block m),
    deleted_size k (deleted-Fits k e f.0),
    bytes_of_min k e f.0,
  );
}
  where
    deleted_size : (k : Bytes) → Fits k deleted → length (bytes_of k deleted) ≤ 9 + length k
    deleted_size k f = omega (arith, length-bytes_of k deleted f)
cons-Shrunk k e false m m' h = record {
  fits = λ f. (f.0, h.fits f.1);
  few = omega (arith, h.few);
  small = λ f. omega (
    arith,
    h.small f.1,
    length-append (bytes_of k e) (entries_block m'),
    length-append (bytes_of k e) (entries_block m),
  );
}

sweep_loop-Shrunk :
    (budget : ℕ) (now : ℤ) (live : ℕ) (m : SortedMap Entry)
    → Shrunk m (sweep_loop budget now live m).entries
unfolding sweep_loop
sweep_loop-Shrunk budget now live [] = same-Shrunk []
sweep_loop-Shrunk zero now live ((k, e) ∷ m) = same-Shrunk ((k, e) ∷ m)
sweep_loop-Shrunk (suc budget) now live ((k, e) ∷ m) =
    by (is_expired now e)
      (sweep_loop budget now (if is_expired now e then sub_u64 live 1 else live) m)
      (sweep_loop-Shrunk budget now (if is_expired now e then sub_u64 live 1 else live) m)
  where
    by :
        (b : Bool) (r : Sweep)
        → Shrunk m r.entries
        → Shrunk ((k, e) ∷ m) (
            let r' : Sweep =
              if b
              then record r { entries = (k, deleted) ∷ r.entries; swept = r.swept + 1 }
              else record r { entries = (k, e) ∷ r.entries } in
            r'.entries)
    by true r h = cons-Shrunk k e true m r.entries h
    by false r h = cons-Shrunk k e false m r.entries h

sweep_from-Shrunk :
    (cursor : Bytes) (budget : ℕ) (now : ℤ) (live : ℕ) (m : SortedMap Entry)
    → Shrunk m (sweep_from cursor budget now live m).entries
unfolding sweep_from
sweep_from-Shrunk cursor budget now live [] = same-Shrunk []
sweep_from-Shrunk cursor budget now live ((k, e) ∷ m) =
    by (key_lt k cursor) (sweep_from cursor budget now live m)
      (sweep_loop budget now live ((k, e) ∷ m)) (sweep_from-Shrunk cursor budget now live m)
      (sweep_loop-Shrunk budget now live ((k, e) ∷ m))
  where
    by :
        (b : Bool) (r here : Sweep)
        → Shrunk m r.entries
        → Shrunk ((k, e) ∷ m) here.entries
        → Shrunk ((k, e) ∷ m) (
            let r' : Sweep = if b then record r { entries = (k, e) ∷ r.entries } else here in
            r'.entries)
    by true r here h g = cons-Shrunk k e false m r.entries h
    by false r here h g = g

pub sweep_expired-Roomy :
    (n : ℕ) (t : Memtable) (now : ℤ) (budget : ℕ)
    → Roomy n t.entries
    → Roomy n (sweep_expired t now budget).0.entries
sweep_expired-Roomy n t now budget r =
    let h = sweep_from-Shrunk t.sweep_cursor budget now t.live_count t.entries in
    subst (Roomy n) (sym ((sweep_expired-walk t now budget).0)) (record {
      fits = h.fits r.fits;
      few = omega (arith, h.few, r.few);
      small = omega (arith, h.small r.fits, r.small);
    })
