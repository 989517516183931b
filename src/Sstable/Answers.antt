-- ===== src/Sstable/Answers.antt =====
-- `Sstable::get` of src/sstable.cpp on a table that the writer laid down.
use cachedb.Prelude.{
  ℕ, suc, ◌+◌, ◌-◌, ◌≤◌, ◌<◌, ◌≡◌, ◌≢◌, refl, sym, ap, ◌∙◌, ◌⊎◌, inl, inr, Bool, true, false, not,
  ◌&&◌, Bool-cases, Option, none, some, Option-cases, List, [], ◌∷◌, ◌++◌, arith, if◌then◌else◌,
  leb, length, take, drop,
}
use mathlib.Core.Path.{subst}
use cachedb.Prelude.Int.{ℤ}
use cachedb.Prelude.Bytes.{Bytes, key_eq, key_eq_iff}
use cachedb.Prelude.SortedMap.{SortedMap, find, IsSorted}
use cachedb.Memtable.{Entry}
use cachedb.Bloom.{build, may_contain}
use cachedb.Bloom.Member.{may_contain-build}
use cachedb.Sstable.Reader.{absent, Sstable, read_exact, scan, block_range, get_block, get}
use cachedb.Sstable.Block.{answer, AllFit, entries_block, scan-entries}
use cachedb.Sstable.Index.{keys_of, index_from}
use cachedb.Sstable.Locate.{Located, locate_first}

-- A table that holds these entries: its data, its index and its filter are theirs.
pub record Holds (m : SortedMap Entry) (t : Sstable) : Type 0 where
  pub post : Bytes
  pub bits_per_key : ℤ
  pub file : t.file ≡ entries_block m ++ post
  pub data_end : t.data_end ≡ length (entries_block m)
  pub index : t.index ≡ index_from true 0 0 m
  pub bloom : t.bloom ≡ build (keys_of m) bits_per_key
  pub readable : t.readable ≡ true

-- A key that is found stands among the keys.
keys_of-find :
    (key : Bytes) (e : Entry) (m : SortedMap Entry)
    → find key m ≡ some e
    → (before : List Bytes) × (after : List Bytes) × (keys_of m ≡ before ++ key ∷ after)
unfolding find
keys_of-find key e [] h = absurd (not_some h)
  where
    not_some : none ≢ some e
    not_some p = cc
keys_of-find key e ((j, w) ∷ m) h = elim (Bool-cases (key_eq j key)) [
  | inl same ↦ ([], keys_of m, ap (λ k. k ∷ keys_of m) ((key_eq_iff j key).0 same))
  | inr other ↦
      let (before, after, at) = keys_of-find key e m (rw (other, find) at h) in
      (j ∷ before, after, ap (◌∷◌ j) at)
]

get_block-entries :
    (t : Sstable) (key : Bytes) (m : SortedMap Entry) (r : Option (ℕ × ℕ))
    → t.readable ≡ true
    → Located t.file key m r
    → get_block t key r ≡ some (answer (find key m))
unfolding get_block read_exact
get_block-entries t key m none readable absent_key = ap (λ o. some (answer o)) (sym absent_key)
get_block-entries t key m (some (from, to)) readable (c, some_bytes, inside, bytes, s, fits, same) =
    blocks (leb to from) (leb (from + (to - from)) (length t.file)) t.readable
      (later to from some_bytes) (within from to (length t.file) some_bytes inside) readable
    ∙ ap (λ b. scan (suc (length b)) b key) bytes
    ∙ scan-entries (suc (length (entries_block c))) c key (omega arith) s fits
    ∙ ap (λ o. some (answer o)) (sym same)
  where
    later : (to from : ℕ) → from < to → leb to from ≡ false
    later to from h = ground arith

    within : (from to n : ℕ) → from < to → to ≤ n → leb (from + (to - from)) n ≡ true
    within from to n h k = ground arith

    blocks :
        (a b c : Bool)
        → a ≡ false
        → b ≡ true
        → c ≡ true
        → (if a
            then some absent
            else elim (if c && b then some (take (to - from) (drop from t.file)) else none) [
              | none ↦ some absent
              | some block ↦ scan (suc (length block)) block key
            ])
          ≡ scan
              (suc (length (take (to - from) (drop from t.file))))
              (take (to - from) (drop from t.file))
              key
    blocks a b c p q r = rw (p, q, r) refl

-- A lookup in a table that holds some entries in key order finds what the entries say: the value
-- and the stamp, the tombstone, or that the key is absent.
pub get-Holds :
    (t : Sstable) (m : SortedMap Entry) (key : Bytes)
    → Holds m t
    → IsSorted m
    → AllFit m
    → get t key ≡ some (answer (find key m))
unfolding get
get-Holds t m key h s fits =
    let located : Located t.file key m (block_range key t.data_end t.index) =
      subst (λ idx. Located t.file key m (block_range key t.data_end idx)) (sym h.index)
        (locate_first t.file h.post key t.data_end m h.file h.data_end s fits) in
    let read = get_block-entries t key m (block_range key t.data_end t.index) h.readable located in
    filtered t.use_bloom (Bool-cases (may_contain t.bloom key)) read
  where
    conflict : true ≢ false
    conflict e = cc

    refused : may_contain t.bloom key ≡ false → find key m ≡ none
    refused no_bit = elim (Option-cases (find key m)) [
      | inl none_there ↦ none_there
      | inr (e, there) ↦
          let (before, after, at) = keys_of-find key e m there in
          let member : may_contain t.bloom key ≡ true =
            ap (λ b. may_contain b key) (h.bloom ∙ ap (λ ks. build ks h.bits_per_key) at)
            ∙ may_contain-build before after key h.bits_per_key in
          absurd (conflict (sym member ∙ no_bit))
    ]

    filtered :
        (use_bloom : Bool)
        → (may_contain t.bloom key ≡ true) ⊎ (may_contain t.bloom key ≡ false)
        → get_block t key (block_range key t.data_end t.index) ≡ some (answer (find key m))
        → (if use_bloom && not (may_contain t.bloom key)
            then some absent
            else get_block t key (block_range key t.data_end t.index))
          ≡ some (answer (find key m))
    filtered false c read = read
    filtered true (inl yes_bit) read = rw yes_bit read
    filtered true (inr no_bit) read = rw no_bit (ap (λ o. some (answer o)) (sym (refused no_bit)))
