-- ===== src/Sstable/Growth.antt =====
-- What `SstableWriter::add` of src/sstable.cpp keeps true of the file it builds.
use cachedb.Prelude.{
  ℕ, ◌+◌, ◌<◌, ◌≤◌, ◌≡◌, ◌^◌, refl, sym, ap, ◌∙◌, inl, inr, Bool, true, false, not, ◌&&◌, ◌||◌, leb,
  List, [], ◌∷◌, ◌++◌, arith, length, length-append, map, append-nil, append_assoc, ◌≢◌,
  if◌then◌else◌, Bool-cases,
}
use mathlib.Core.Path.{subst}
use cachedb.Prelude.Int.{ℤ, is_zero, to_u64}
use cachedb.Prelude.Words.{u32, add_u64}
use cachedb.Prelude.Bytes.{Bytes}
use cachedb.Prelude.Endian.{put_le, put_u32, put_u64}
use cachedb.Wal.Kernel.{WriteReturn, write_all, Appends, write_all-Appends}
use cachedb.Sstable.{
  is_empty, k_index_interval, k_tombstone_flag, k_expiry_flag, SstableWriter, create, encode_entry,
  push_index, add,
}

-- One call of `add`, with the kernel's answers that it meets.
pub record Item : Type 0 where
  pub writes : List WriteReturn
  pub key : Bytes
  pub value : Bytes
  pub tombstone : Bool
  pub expires_at_ms : ℤ

abbrev pub entry_bytes : Item → Bytes
entry_bytes i = encode_entry i.key i.value i.tombstone i.expires_at_ms

unfoldable pub adds : SstableWriter → List Item → SstableWriter
adds w [] = w
adds w (i ∷ is) = adds (add i.writes w i.key i.value i.tombstone i.expires_at_ms) is

abbrev pub data_block : List Item → Bytes
data_block [] = []
data_block (i ∷ is) = entry_bytes i ++ data_block is

-- The file holds exactly `block`, and the counters and the filter's keys agree with it.
pub record Grown (w : SstableWriter) (block : Bytes) (keys : List Bytes) : Type 0 where
  pub file : w.file ≡ block
  pub offset : w.offset ≡ length block
  pub bloom_keys : w.bloom_keys ≡ keys
  pub entry_count : w.entry_count ≡ length keys
  pub few : length keys ≤ length block

-- An entry has a header.
encode_entry-lt :
    (key value : Bytes) (tombstone : Bool) (expires_at_ms : ℤ)
    → 1 ≤ length (encode_entry key value tombstone expires_at_ms)
unfolding encode_entry put_u32 put_u64
encode_entry-lt key value tombstone x =
    let carries = not tombstone && not (is_zero x) in
    let sized = put_u32 (put_u32 [] (u32 (length key))) (u32 (length value)) in
    let flags =
      (if tombstone then k_tombstone_flag else 0) + (if carries then k_expiry_flag else 0) in
    header carries sized flags (put_le 8 (to_u64 x)) key value
  where
    header :
        (b : Bool) (sized : Bytes) (flags : ℕ) (stamp key value : Bytes)
        → 1
          ≤ length (
              ((if b then (sized ++ flags ∷ []) ++ stamp else sized ++ flags ∷ []) ++ key) ++ value)
    header true sized flags stamp key value = omega (
      arith,
      length-append (((sized ++ flags ∷ []) ++ stamp) ++ key) value,
      length-append ((sized ++ flags ∷ []) ++ stamp) key,
      length-append (sized ++ flags ∷ []) stamp,
      length-append sized (flags ∷ []),
    )
    header false sized flags stamp key value = omega (
      arith,
      length-append ((sized ++ flags ∷ []) ++ key) value,
      length-append (sized ++ flags ∷ []) key,
      length-append sized (flags ∷ []),
    )

push_index-Grown :
    (w : SstableWriter) (key block : Bytes) (keys : List Bytes)
    → Grown w block keys
    → Grown (push_index w key) block keys
unfolding push_index
push_index-Grown w key block keys h =
    by (is_empty w.index || leb k_index_interval w.bytes_since_index)
  where
    by :
        (b : Bool)
        → Grown
            (if b
              then record w {
                index = w.index ++ (record { key = key; offset = w.offset }) ∷ [];
                bytes_since_index = 0;
              }
              else w)
            block
            keys
    by true = record {
      file = h.file;
      offset = h.offset;
      bloom_keys = h.bloom_keys;
      entry_count = h.entry_count;
      few = h.few;
    }
    by false = h

-- `add` from where the write has returned.
abbrev pub after_write : SstableWriter → Bytes → Bytes → Bytes × Bool → SstableWriter
after_write w key buf (file, written) =
    if written
    then record w {
      file = file;
      offset = add_u64 w.offset (length buf);
      bytes_since_index = add_u64 w.bytes_since_index (length buf);
      entry_count = add_u64 w.entry_count 1;
      bloom_keys = w.bloom_keys ++ key ∷ [];
    }
    else record w { file = file; failed = true }

pub add-after_write :
    (w : SstableWriter) (i : Item)
    → w.failed ≡ false
    → add i.writes w i.key i.value i.tombstone i.expires_at_ms
      ≡ after_write
          (push_index w i.key)
          i.key
          (entry_bytes i)
          (write_all i.writes (push_index w i.key).file (entry_bytes i))
unfolding add
add-after_write w i fine = rw fine refl

after_write-Grown :
    (w : SstableWriter) (key buf block : Bytes) (keys : List Bytes) (r : Bytes × Bool)
    → Appends w.file buf r
    → (after_write w key buf r).failed ≡ false
    → length block + length buf < 2 ^ 64
    → 1 ≤ length buf
    → Grown w block keys
    → Grown (after_write w key buf r) (block ++ buf) (keys ++ key ∷ [])
after_write-Grown w key buf block keys (file, true) (inl (ok, e)) still small some_bytes h =
    record {
      file = e ∙ ap (λ b. b ++ buf) h.file;
      offset = omega (arith, h.offset, length-append block buf);
      bloom_keys = ap (λ ks. ks ++ key ∷ []) h.bloom_keys;
      entry_count = omega (arith, h.entry_count, h.few, length-append keys (key ∷ []));
      few = omega (arith, h.few, length-append keys (key ∷ []), length-append block buf);
    }
after_write-Grown w key buf block keys (file, false) a still small some_bytes h =
    let wrong : true ≡ false = still in cc
after_write-Grown w key buf block keys (file, true) (inr (d, l, bad, a, b, c)) still small
      some_bytes h =
    cc

add-Grown :
    (w : SstableWriter) (i : Item) (block : Bytes) (keys : List Bytes)
    → w.failed ≡ false
    → (add i.writes w i.key i.value i.tombstone i.expires_at_ms).failed ≡ false
    → length block + length (entry_bytes i) < 2 ^ 64
    → Grown w block keys
    → Grown
        (add i.writes w i.key i.value i.tombstone i.expires_at_ms)
        (block ++ entry_bytes i)
        (keys ++ i.key ∷ [])
add-Grown w i block keys fine still small h =
    let same = add-after_write w i fine in
    subst (λ x. Grown x (block ++ entry_bytes i) (keys ++ i.key ∷ [])) (sym same)
      (after_write-Grown (push_index w i.key) i.key (entry_bytes i) block keys
        (write_all i.writes (push_index w i.key).file (entry_bytes i))
        (write_all-Appends i.writes (push_index w i.key).file (entry_bytes i))
        (sym (ap (λ x. x.failed) same) ∙ still) small
        (encode_entry-lt i.key i.value i.tombstone i.expires_at_ms)
        (push_index-Grown w i.key block keys h))

add_failed :
    (w : SstableWriter) (i : Item)
    → w.failed ≡ true
    → add i.writes w i.key i.value i.tombstone i.expires_at_ms ≡ w
unfolding add
add_failed w i bad = rw bad refl

adds_failed :
    (w : SstableWriter) (items : List Item) → w.failed ≡ true → (adds w items).failed ≡ true
unfolding adds
adds_failed w [] bad = bad
adds_failed w (i ∷ is) bad =
    ap (λ x. (adds x is).failed) (add_failed w i bad) ∙ adds_failed w is bad

pub went_well :
    (w : SstableWriter) (items : List Item) → (adds w items).failed ≡ false → w.failed ≡ false
went_well w items still = elim (Bool-cases w.failed) [
  | inr fine ↦ fine
  | inl bad ↦
      let wrong : true ≡ false = sym (adds_failed w items bad) ∙ still in absurd (conflict wrong)
]
  where
    conflict : true ≢ false
    conflict e = cc

adds-Grown :
    (items : List Item) (w : SstableWriter) (block : Bytes) (keys : List Bytes)
    → (adds w items).failed ≡ false
    → length block + length (data_block items) < 2 ^ 64
    → Grown w block keys
    → Grown (adds w items) (block ++ data_block items) (keys ++ map (λ i. i.key) items)
unfolding adds
adds-Grown [] w block keys still small h =
    subst (λ b. Grown w b (keys ++ [])) (sym (append-nil block))
      (subst (λ k. Grown w block k) (sym (append-nil keys)) h)
adds-Grown (i ∷ is) w block keys still small h =
    let w' = add i.writes w i.key i.value i.tombstone i.expires_at_ms in
    let both = length-append (entry_bytes i) (data_block is) in
    let one =
      add-Grown w i block keys (went_well w (i ∷ is) still) (went_well w' is still)
        (omega (arith, both)) h in
    subst (λ b. Grown (adds w' is) b (keys ++ map (λ j. j.key) (i ∷ is)))
      (append_assoc block (entry_bytes i) (data_block is))
      (subst (λ k. Grown (adds w' is) ((block ++ entry_bytes i) ++ data_block is) k)
        (append_assoc keys (i.key ∷ []) (map (λ j. j.key) is))
        (adds-Grown is w' (block ++ entry_bytes i) (keys ++ i.key ∷ []) still
          (omega (arith, both, length-append block (entry_bytes i))) one))

-- A table that was built by calls of `add` without a failure, whatever the kernel answered to the
-- single writes, holds exactly the encoded entries in their order; its offset is the length of the
-- file, it counts the entries, and the filter's keys are theirs. The file is below 2 ^ 64 bytes.
pub create-Grown :
    (bits_per_key : ℤ) (items : List Item)
    → (adds (create bits_per_key) items).failed ≡ false
    → length (data_block items) < 2 ^ 64
    → Grown (adds (create bits_per_key) items) (data_block items) (map (λ i. i.key) items)
create-Grown bits_per_key items still small =
    adds-Grown items (create bits_per_key) [] [] still (omega arith) (record {
      file = refl;
      offset = refl;
      bloom_keys = refl;
      entry_count = refl;
      few = omega arith;
    })
