-- ===== src/Sstable/Block.antt =====
-- `Sstable::get` of src/sstable.cpp over a block of entries that the writer laid down in key order.
use cachedb.Prelude.{
  ℕ, zero, suc, ◌≤◌, ◌<◌, ◌≡◌, refl, sym, ap, ◌∙◌, ◌⊎◌, inl, inr, Bool, true, false, Bool-cases,
  Option, none, some, [], ◌∷◌, ◌++◌, arith, if◌then◌else◌, ltb, length, length-append, append_assoc,
  drop-append_seam,
}
use cachedb.Prelude.Bytes.{Bytes, key_lt, key_eq, key_lt_trans, key_lt_irrefl}
use cachedb.Prelude.SortedMap.{SortedMap, find, IsSorted, Above-IsSorted, find-Above}
use cachedb.Memtable.{Entry}
use cachedb.Sstable.Reader.{Lookup, absent, total_of, scan}
use cachedb.Sstable.Entry.{Fits, bytes_of, answer_of, bytes_of-Reads, bytes_of_min}

-- What a table of these entries is to answer.
abbrev pub answer : Option Entry → Lookup
answer none = absent
answer (some e) = answer_of e

abbrev pub entries_block : SortedMap Entry → Bytes
entries_block [] = []
entries_block ((k, e) ∷ m) = bytes_of k e ++ entries_block m

abbrev pub AllFit : SortedMap Entry → Type 0
AllFit [] = Unit
AllFit ((k, e) ∷ m) = Fits k e × AllFit m

pub entries_block-append :
    (m n : SortedMap Entry) → entries_block (m ++ n) ≡ entries_block m ++ entries_block n
entries_block-append [] n = refl
entries_block-append ((k, e) ∷ m) n =
    ap (◌++◌ (bytes_of k e)) (entries_block-append m n)
    ∙ sym (append_assoc (bytes_of k e) (entries_block m) (entries_block n))

-- One round of the scan at an entry that was written.
scan-entry :
    (f : ℕ) (k key : Bytes) (e : Entry) (rest : Bytes)
    → Fits k e
    → scan (suc f) (bytes_of k e ++ rest) key ≡ (
        if key_eq k key
        then some (answer_of e)
        else if key_lt key k
        then some absent
        else scan f rest key)
unfolding scan
scan-entry f k key e rest fits =
    let block = bytes_of k e ++ rest in
    let r = bytes_of-Reads k e rest fits in
    let size = length-append (bytes_of k e) rest in
    round _ _ (ltb (length block) 9) (ltb (length block) (total_of block))
      (long (length block) (omega (arith, size, bytes_of_min k e fits)))
      (inside (length block) (total_of block) (omega (arith, size, r.total)))
    ∙ rw (r.key_same, r.answer, r.total)
        (rw (drop-append_seam (length (bytes_of k e)) (bytes_of k e) rest refl) refl)
  where
    long : (n : ℕ) → 9 ≤ n → ltb n 9 ≡ false
    long n h = ground arith

    inside : (n t : ℕ) → t ≤ n → ltb n t ≡ false
    inside n t h = ground arith

    round :
        (x y : Option Lookup) (a b : Bool)
        → a ≡ false
        → b ≡ false
        → (if a then x else if b then x else y) ≡ y
    round x y a b p q = rw (p, q) refl

pub scan-entries :
    (f : ℕ) (m : SortedMap Entry) (key : Bytes)
    → length (entries_block m) < f
    → IsSorted m
    → AllFit m
    → scan f (entries_block m) key ≡ some (answer (find key m))
unfolding scan find
scan-entries zero m key enough s fits = absurd (omega arith)
scan-entries (suc f) [] key enough s fits = refl
scan-entries (suc f) ((k, e) ∷ m) key enough s fits =
    let size = length-append (bytes_of k e) (entries_block m) in
    let rest =
      scan-entries f m key (omega (arith, size, bytes_of_min k e fits.0)) (Above-IsSorted k m s)
        fits.1 in
    scan-entry f k key e (entries_block m) fits.0
    ∙ cases (key_eq k key) (Bool-cases (key_lt key k)) rest
  where
    none_below : (b : Bool) → key_lt key k ≡ true → some absent ≡ some (answer (find key m))
    none_below b below =
        ap (λ o. some (answer o))
          (sym (find-Above k key m s (ground (arith, key_lt_trans key k key, key_lt_irrefl key))))

    cases :
        (a : Bool)
        → (key_lt key k ≡ true) ⊎ (key_lt key k ≡ false)
        → scan f (entries_block m) key ≡ some (answer (find key m))
        → (if a
            then some (answer_of e)
            else if key_lt key k
            then some absent
            else scan f (entries_block m) key)
          ≡ some (answer (if a then some e else find key m))
    cases true b ih = refl
    cases false (inl below) ih = rw below (none_below true below)
    cases false (inr above) ih = rw above ih
