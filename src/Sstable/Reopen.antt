-- ===== src/Sstable/Reopen.antt =====
-- The constructor of `Sstable` in src/sstable.cpp on a file that `SstableWriter::finish` left.
use cachedb.Prelude.{
  ℕ, suc, ◌+◌, ◌*◌, ◌^◌, ◌≤◌, ◌<◌, ◌≡◌, refl, sym, ap, ap₂, ◌∙◌, Bool, true, false, none, some,
  List, [], ◌∷◌, ◌++◌, arith, if◌then◌else◌, ltb, length, take, drop, length-append, append_assoc,
  take-append_seam, drop-append_seam, drop-append_past, drop-drop, append-nil,
}
use mathlib.Core.Path.{subst}
use cachedb.Prelude.Words.{u32}
use cachedb.Prelude.Bytes.{Bytes}
use cachedb.Prelude.SortedMap.{SortedMap}
use cachedb.Prelude.Endian.{
  put_le, put_u32, put_u64, load_u32, load_u64, length-put_le, load_u32-put_le, load_u64-put_le,
}
use cachedb.Memtable.{Entry}
use cachedb.Sstable.{IndexEntry, SstableWriter, put_index, index_block}
use cachedb.Sstable.Open.{load_index}
use cachedb.Sstable.Entry.{bytes_of, bytes_of_min}
use cachedb.Sstable.Block.{AllFit, entries_block}
use cachedb.Sstable.Index.{is_due, index_from}

-- The index as it is written.
abbrev flat_index : List IndexEntry → Bytes
flat_index [] = []
flat_index (e ∷ es) =
    put_le 4 (u32 (length e.key)) ++ (e.key ++ (put_le 8 e.offset ++ flat_index es))

put_index-flat :
    (block : Bytes) (es : List IndexEntry) → put_index block es ≡ block ++ flat_index es
unfolding put_index put_u32 put_u64
put_index-flat block [] = sym (append-nil block)
put_index-flat block (e ∷ es) =
    put_index-flat (((block ++ put_le 4 (u32 (length e.key))) ++ e.key) ++ put_le 8 e.offset) es
    ∙ simp append_assoc

-- Keys that fit their length field, and offsets inside the data.
abbrev pub IndexFits : ℕ → List IndexEntry → Type 0
IndexFits data_end [] = Unit
IndexFits data_end (e ∷ es) =
    (length e.key < 2 ^ 32) × (e.offset ≤ data_end) × IndexFits data_end es

-- One round of the loop over an index, by what its loads find.
load_index-suc :
    (n data_end klen offset : ℕ) (key block rest : Bytes) (es : List IndexEntry)
    → load_u32 block ≡ klen
    → take klen (drop 4 block) ≡ key
    → load_u64 (drop (4 + klen) block) ≡ offset
    → drop (4 + klen + 8) block ≡ rest
    → 4 + klen + 8 ≤ length block
    → offset ≤ data_end
    → load_index n data_end rest ≡ some es
    → load_index (suc n) data_end block ≡ some ((record { key = key; offset = offset }) ∷ es)
unfolding load_index
load_index-suc n data_end klen offset key block rest es a b c d long inside later =
    rw (a, c, d, later)
      (rw (a, b, c)
        (round (ltb (length block) 4) (ltb (length block) (4 + klen + 8)) (ltb data_end offset)
          (no_lt (length block) 4 (omega (arith, long))) (no_lt (length block) (4 + klen + 8) long)
          (no_lt data_end offset inside)))
  where
    no_lt : (n m : ℕ) → m ≤ n → ltb n m ≡ false
    no_lt n m h = ground arith

    round :
        (x y z : Bool)
        → x ≡ false
        → y ≡ false
        → z ≡ false
        → (if x
            then none
            else if y
            then none
            else if z
            then none
            else some ((record { key = key; offset = offset }) ∷ es))
          ≡ some ((record { key = key; offset = offset }) ∷ es)
    round x y z p q r = rw (p, q, r) refl

load_index-flat :
    (data_end : ℕ) (es : List IndexEntry)
    → data_end < 2 ^ 64
    → IndexFits data_end es
    → load_index (length es) data_end (flat_index es) ≡ some es
unfolding load_index
load_index-flat data_end [] small h = refl
load_index-flat data_end (e ∷ es) small (short, inside, later) =
    let rest = flat_index es in
    let block = put_le 4 (length e.key) ++ (e.key ++ (put_le 8 e.offset ++ rest)) in
    let same : flat_index (e ∷ es) ≡ block =
      ap (λ n. put_le 4 n ++ (e.key ++ (put_le 8 e.offset ++ rest))) (omega arith) in
    let klen : load_u32 block ≡ length e.key = load_u32-put_le (length e.key) _ short in
    let behind_len : drop 4 block ≡ e.key ++ (put_le 8 e.offset ++ rest) =
      drop-append_seam 4 (put_le 4 (length e.key)) _ (length-put_le 4 (length e.key)) in
    let behind_key : drop (4 + length e.key) block ≡ put_le 8 e.offset ++ rest =
      drop-append_past 4 (length e.key) (4 + length e.key) (put_le 4 (length e.key)) _
        (length-put_le 4 (length e.key)) refl
      ∙ drop-append_seam (length e.key) e.key _ refl in
    subst (λ b. load_index (suc (length es)) data_end b ≡ some (e ∷ es)) (sym same)
      (load_index-suc (length es) data_end (length e.key) e.offset e.key block rest es klen
        (ap (take (length e.key)) behind_len ∙ take-append_seam (length e.key) e.key _ refl)
        (ap load_u64 behind_key ∙ load_u64-put_le e.offset rest (omega arith))
        (sym (drop-drop (4 + length e.key) 8 (4 + length e.key + 8) block refl)
          ∙ ap (drop 8) behind_key
          ∙ drop-append_seam 8 (put_le 8 e.offset) rest (length-put_le 8 e.offset))
        (omega (
          arith,
          length-append (put_le 4 (length e.key)) (e.key ++ (put_le 8 e.offset ++ rest)),
          length-append e.key (put_le 8 e.offset ++ rest),
          length-append (put_le 8 e.offset) rest,
          length-put_le 4 (length e.key),
          length-put_le 8 e.offset,
        ))
        inside (load_index-flat data_end es small later))

pub index_from-IndexFits :
    (m : SortedMap Entry) (first : Bool) (off since data_end : ℕ)
    → off + length (entries_block m) ≤ data_end
    → AllFit m
    → IndexFits data_end (index_from first off since m)
unfolding index_from
index_from-IndexFits [] first off since data_end h fits = tt
index_from-IndexFits ((k, e) ∷ m) first off since data_end h fits =
    let size = length-append (bytes_of k e) (entries_block m) in
    by (is_due first since) (λ s.
      index_from-IndexFits m false (off + length (bytes_of k e)) s data_end (omega (arith, size))
        fits.1)
  where
    by :
        (b : Bool)
        → ((s : ℕ) → IndexFits data_end (index_from false (off + length (bytes_of k e)) s m))
        → let n = length (bytes_of k e) in
          let rest = index_from false (off + n) (if b then n else since + n) m in
          IndexFits data_end (if b then (record { key = k; offset = off }) ∷ rest else rest)
    by true rest = (fits.0.0, omega arith, rest (length (bytes_of k e)))
    by false rest = rest (since + length (bytes_of k e))

pub length-index_from :
    (m : SortedMap Entry) (first : Bool) (off since : ℕ)
    → length (index_from first off since m) ≤ length m
unfolding index_from
length-index_from [] first off since = omega arith
length-index_from ((k, e) ∷ m) first off since =
    by (is_due first since) (λ s. length-index_from m false (off + length (bytes_of k e)) s)
  where
    by :
        (b : Bool)
        → ((s : ℕ) → length (index_from false (off + length (bytes_of k e)) s m) ≤ length m)
        → let n = length (bytes_of k e) in
          let rest = index_from false (off + n) (if b then n else since + n) m in
          length (if b then (record { key = k; offset = off }) ∷ rest else rest) ≤ suc (length m)
    by true rest = omega (arith, rest (length (bytes_of k e)))
    by false rest = omega (arith, rest (since + length (bytes_of k e)))

length-flat_index :
    (m : SortedMap Entry) (first : Bool) (off since : ℕ)
    → AllFit m
    → length (flat_index (index_from first off since m)) ≤ 2 * length (entries_block m)
unfolding index_from
length-flat_index [] first off since fits = omega arith
length-flat_index ((k, e) ∷ m) first off since fits =
    let size = length-append (bytes_of k e) (entries_block m) in
    by (is_due first since) (λ s. length-flat_index m false (off + length (bytes_of k e)) s fits.1)
  where
    by :
        (b : Bool)
        → ((s : ℕ)
            → length (flat_index (index_from false (off + length (bytes_of k e)) s m))
              ≤ 2 * length (entries_block m))
        → let n = length (bytes_of k e) in
          let rest = index_from false (off + n) (if b then n else since + n) m in
          length (flat_index (if b then (record { key = k; offset = off }) ∷ rest else rest))
          ≤ 2 * length (bytes_of k e ++ entries_block m)
    by true rest =
        let n = length (bytes_of k e) in
        let later = flat_index (index_from false (off + n) n m) in
        omega (
          arith,
          rest n,
          bytes_of_min k e fits.0,
          length-append (bytes_of k e) (entries_block m),
          length-append (put_le 4 (u32 (length k))) (k ++ (put_le 8 off ++ later)),
          length-append k (put_le 8 off ++ later),
          length-append (put_le 8 off) later,
          length-put_le 4 (u32 (length k)),
          length-put_le 8 off,
        )
    by false rest = omega (
      arith,
      rest (since + length (bytes_of k e)),
      length-append (bytes_of k e) (entries_block m),
    )

pub length-index_block :
    (w : SstableWriter) (m : SortedMap Entry)
    → AllFit m
    → w.index ≡ index_from true 0 0 m
    → length (index_block w) ≤ 4 + 2 * length (entries_block m)
unfolding index_block put_u32
length-index_block w m fits same =
    let whole = put_index-flat ([] ++ put_le 4 (u32 (length w.index))) w.index in
    omega (
      arith,
      ap length whole,
      length-append (put_le 4 (u32 (length w.index))) (flat_index w.index),
      length-put_le 4 (u32 (length w.index)),
      ap (λ idx. length (flat_index idx)) same,
      length-flat_index m true 0 0 fits,
    )

-- The index is read back as it was.
pub load_index-index_block :
    (w : SstableWriter) (data_end : ℕ)
    → data_end < 2 ^ 64
    → length w.index < 2 ^ 32
    → IndexFits data_end w.index
    → (4 ≤ length (index_block w))
      × (load_index (load_u32 (index_block w)) data_end (drop 4 (index_block w)) ≡ some w.index)
unfolding index_block put_u32
load_index-index_block w data_end small few fits =
    let block = put_le 4 (length w.index) ++ flat_index w.index in
    let whole : index_block w ≡ block =
      put_index-flat ([] ++ put_le 4 (u32 (length w.index))) w.index
      ∙ ap (λ n. put_le 4 n ++ flat_index w.index) (omega arith) in
    subst (λ b. (4 ≤ length b) × (load_index (load_u32 b) data_end (drop 4 b) ≡ some w.index))
      (sym whole)
      (
        omega (
          arith,
          length-append (put_le 4 (length w.index)) (flat_index w.index),
          length-put_le 4 (length w.index),
        ),
        ap₂ (λ n b. load_index n data_end b)
              (load_u32-put_le (length w.index) (flat_index w.index) few)
              (drop-append_seam 4 (put_le 4 (length w.index)) (flat_index w.index)
                (length-put_le 4 (length w.index)))
            ∙ load_index-flat data_end w.index small fits,
      )
