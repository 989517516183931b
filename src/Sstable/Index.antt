-- ===== src/Sstable/Index.antt =====
-- The sparse index that `SstableWriter::add` of src/sstable.cpp builds over entries in key order.
use cachedb.Prelude.{
  ℕ, ◌+◌, ◌^◌, ◌≤◌, ◌<◌, ◌≡◌, refl, sym, ap, ap₂, ◌∙◌, Bool, true, false, ◌||◌, List, [], ◌∷◌, ◌++◌,
  map, leb, arith, if◌then◌else◌, length, length-append, append-nil, append_assoc,
}
use mathlib.Core.Path.{subst}
use cachedb.Prelude.Words.{add_u64}
use cachedb.Prelude.Bytes.{Bytes}
use cachedb.Prelude.SortedMap.{SortedMap}
use cachedb.Memtable.{Entry}
use cachedb.Wal.Kernel.{WriteReturn, write_all}
use cachedb.Sstable.{IndexEntry, SstableWriter, k_index_interval, is_empty, push_index, add}
use cachedb.Sstable.Growth.{Item, adds, data_block, after_write, add-after_write, went_well}
use cachedb.Sstable.Entry.{bytes_of}
use cachedb.Sstable.Block.{entries_block}

-- The kernel's answers to the writes of the first entry, and to the later ones.
abbrev pub first_answers : List (List WriteReturn) → List WriteReturn
first_answers [] = []
first_answers (a ∷ writes) = a

abbrev pub later_answers : List (List WriteReturn) → List (List WriteReturn)
later_answers [] = []
later_answers (a ∷ writes) = writes

-- The calls of `add` for the entries of a map.
abbrev pub item_of : List WriteReturn → Bytes → Entry → Item
item_of writes k e = record {
  writes = writes;
  key = k;
  value = e.value;
  tombstone = e.tombstone;
  expires_at_ms = e.expires_at_ms;
}

abbrev pub items_of : List (List WriteReturn) → SortedMap Entry → List Item
items_of writes [] = []
items_of writes ((k, e) ∷ m) =
    item_of (first_answers writes) k e ∷ items_of (later_answers writes) m

abbrev pub keys_of : SortedMap Entry → List Bytes
keys_of [] = []
keys_of ((k, e) ∷ m) = k ∷ keys_of m

pub data_block-items_of :
    (writes : List (List WriteReturn)) (m : SortedMap Entry)
    → data_block (items_of writes m) ≡ entries_block m
data_block-items_of writes [] = refl
data_block-items_of writes ((k, e) ∷ m) =
    ap (◌++◌ (bytes_of k e)) (data_block-items_of (later_answers writes) m)

pub keys-items_of :
    (writes : List (List WriteReturn)) (m : SortedMap Entry)
    → map (λ i. i.key) (items_of writes m) ≡ keys_of m
keys-items_of writes [] = refl
keys-items_of writes ((k, e) ∷ m) = ap (◌∷◌ k) (keys-items_of (later_answers writes) m)

abbrev pub is_due : Bool → ℕ → Bool
is_due first since = first || leb k_index_interval since

-- The index over entries that begin at the offset `off`, with `since` bytes behind the last
-- index entry; `first` says that there is none before.
unfoldable pub index_from : Bool → ℕ → ℕ → SortedMap Entry → List IndexEntry
index_from first off since [] = []
index_from first off since ((k, e) ∷ m) =
    let n = length (bytes_of k e) in
    let rest = index_from false (off + n) (if is_due first since then n else since + n) m in
    if is_due first since then (record { key = k; offset = off }) ∷ rest else rest

-- What `add` does to the fields that place entries, when it does not fail.
record Placed (due : Bool) (w w' : SstableWriter) (k : Bytes) (n : ℕ) : Type 0 where
  index : w'.index ≡ w.index ++ (if due then (record { key = k; offset = w.offset }) ∷ [] else [])
  offset : w'.offset ≡ add_u64 w.offset n
  since : w'.bytes_since_index ≡ add_u64 (if due then 0 else w.bytes_since_index) n

after_write-Placed :
    (w : SstableWriter) (k buf : Bytes) (r : Bytes × Bool)
    → (after_write (push_index w k) k buf r).failed ≡ false
    → Placed
        (is_due (is_empty w.index) w.bytes_since_index)
        w
        (after_write (push_index w k) k buf r)
        k
        (length buf)
unfolding push_index
after_write-Placed w k buf (file, false) still = let wrong : true ≡ false = still in cc
after_write-Placed w k buf (file, true) still = by (is_due (is_empty w.index) w.bytes_since_index)
  where
    by :
        (b : Bool)
        → Placed b w
            (after_write
              (if b
                then record w {
                  index = w.index ++ (record { key = k; offset = w.offset }) ∷ [];
                  bytes_since_index = 0;
                }
                else w)
              k
              buf
              (file, true))
            k
            (length buf)
    by true = record { index = refl; offset = refl; since = refl }
    by false = record { index = sym (append-nil w.index); offset = refl; since = refl }

add-Placed :
    (writes : List WriteReturn) (w : SstableWriter) (k : Bytes) (e : Entry)
    → w.failed ≡ false
    → (add writes w k e.value e.tombstone e.expires_at_ms).failed ≡ false
    → Placed
        (is_due (is_empty w.index) w.bytes_since_index)
        w
        (add writes w k e.value e.tombstone e.expires_at_ms)
        k
        (length (bytes_of k e))
add-Placed writes w k e fine still =
    let same = add-after_write w (item_of writes k e) fine in
    subst
      (λ x. Placed (is_due (is_empty w.index) w.bytes_since_index) w x k (length (bytes_of k e)))
      (sym same)
      (after_write-Placed w k (bytes_of k e) (write_all writes (push_index w k).file (bytes_of k e))
        (sym (ap (λ x. x.failed) same) ∙ still))

is_empty-snoc : (xs : List IndexEntry) (x : IndexEntry) → is_empty (xs ++ x ∷ []) ≡ false
is_empty-snoc [] x = refl
is_empty-snoc (y ∷ ys) x = refl

due_first : (first : Bool) (since : ℕ) → is_due first since ≡ false → first ≡ false
due_first true since h = h
due_first false since h = refl

-- The index behind an entry, in front of the index of the rest.
joined :
    (b : Bool) (xs ys : List IndexEntry) (x : IndexEntry) (rest : Bool → List IndexEntry)
    → (b ≡ false → is_empty xs ≡ false)
    → ys ≡ xs ++ (if b then x ∷ [] else [])
    → ys ++ rest (is_empty ys) ≡ xs ++ (if b then x ∷ rest false else rest false)
joined true xs ys x rest old same =
    ap (λ zs. zs ++ rest (is_empty zs)) same
    ∙ ap (λ f. (xs ++ x ∷ []) ++ rest f) (is_empty-snoc xs x)
    ∙ append_assoc xs (x ∷ []) (rest false)
joined false xs ys x rest old same =
    ap (λ zs. zs ++ rest (is_empty zs)) (same ∙ append-nil xs) ∙ ap (λ f. xs ++ rest f) (old refl)

-- The index of a writer grows by the entries that are due one: the first, and each that comes
-- after an interval of bytes.
pub index-adds :
    (m : SortedMap Entry) (writes : List (List WriteReturn)) (w : SstableWriter)
    → (adds w (items_of writes m)).failed ≡ false
    → w.offset + length (entries_block m) < 2 ^ 64
    → w.bytes_since_index ≤ w.offset
    → (adds w (items_of writes m)).index
      ≡ w.index ++ index_from (is_empty w.index) w.offset w.bytes_since_index m
unfolding adds index_from
index-adds [] writes w still small below = sym (append-nil w.index)
index-adds ((k, e) ∷ m) writes w still small below =
    let w' = add (first_answers writes) w k e.value e.tombstone e.expires_at_ms in
    let due = is_due (is_empty w.index) w.bytes_since_index in
    let fine = went_well w (items_of writes ((k, e) ∷ m)) still in
    let p =
      add-Placed (first_answers writes) w k e fine
        (went_well w' (items_of (later_answers writes) m) still) in
    let size = length-append (bytes_of k e) (entries_block m) in
    let offset : w'.offset ≡ w.offset + length (bytes_of k e) = omega (arith, p.offset, size) in
    let since : w'.bytes_since_index
        ≡ (if due then length (bytes_of k e) else w.bytes_since_index + length (bytes_of k e)) =
      since_lem due w.bytes_since_index (length (bytes_of k e)) w'.bytes_since_index p.since
        (omega (arith, size)) in
    index-adds m (later_answers writes) w' still (omega (arith, offset, size)) (
      since_below due w.bytes_since_index (length (bytes_of k e)) w.offset w'.bytes_since_index
        w'.offset since offset below)
    ∙ ap₂ (λ o s. w'.index ++ index_from (is_empty w'.index) o s m) offset since
    ∙ joined due w.index w'.index (record { key = k; offset = w.offset })
        (λ f.
          index_from f (w.offset + length (bytes_of k e))
            (if due then length (bytes_of k e) else w.bytes_since_index + length (bytes_of k e)) m)
        (due_first (is_empty w.index) w.bytes_since_index) p.index
  where
    since_lem :
        (b : Bool) (s n t : ℕ)
        → t ≡ add_u64 (if b then 0 else s) n
        → s + n < 2 ^ 64
        → t ≡ (if b then n else s + n)
    since_lem true s n t h small = omega (arith, h)
    since_lem false s n t h small = omega (arith, h)

    since_below :
        (b : Bool) (s n o t p : ℕ) → t ≡ (if b then n else s + n) → p ≡ o + n → s ≤ o → t ≤ p
    since_below true s n o t p h q below = omega (arith, h)
    since_below false s n o t p h q below = omega (arith, h)
