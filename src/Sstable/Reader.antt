-- ===== src/Sstable/Reader.antt =====
-- src/sstable.h and src/sstable.cpp, `Sstable::get`: the lookup in an open table. The index is
-- sorted, so std::upper_bound finds the first entry above the key. A read that fails and a file
-- that is too short both end as an absent key, so `read_exact` has one answer for them.
use cachedb.Prelude.{
  ℕ, zero, suc, ◌+◌, ◌-◌, Bool, true, false, not, ◌&&◌, Option, none, some, List, [], ◌∷◌, ltb, leb,
  if◌then◌else◌, length, get_or, take, drop,
}
use cachedb.Prelude.Int.{ℤ, pos, to_i64}
use cachedb.Prelude.Bits.{test_bit}
use cachedb.Prelude.Bytes.{Bytes, key_lt, key_eq}
use cachedb.Prelude.Endian.{load_u32, load_u64}
use cachedb.Bloom.{may_contain}
use cachedb.Sstable.{IndexEntry}

pub record Lookup : Type 0 where
  pub found : Bool
  pub tombstone : Bool
  pub value : Bytes
  pub expires_at_ms : ℤ

abbrev pub absent : Lookup
absent = record { found = false; tombstone = false; value = []; expires_at_ms = pos 0 }

pub record Sstable : Type 0 where
  pub file : Bytes
  pub readable : Bool
  pub bloom : Bytes
  pub index : List IndexEntry
  pub data_end : ℕ
  pub use_bloom : Bool

unfoldable pub read_exact : Sstable → ℕ → ℕ → Option Bytes
read_exact t offset size =
    if t.readable && leb (offset + size) (length t.file)
    then some (take size (drop offset t.file))
    else none

-- Where the key begins, behind the flags byte and the expiry when there is one.
abbrev pub body_of : Bytes → ℕ
body_of block = 9 + (if test_bit (get_or block 8 0) 1 then 8 else 0)

abbrev pub total_of : Bytes → ℕ
total_of block = body_of block + load_u32 block + load_u32 (drop 4 block)

abbrev pub key_of : Bytes → Bytes
key_of block = take (load_u32 block) (drop (body_of block) block)

-- What the entry at the front of a block says.
abbrev pub entry_of : Bytes → Lookup
entry_of block =
    let tombstone = test_bit (get_or block 8 0) 0 in
    record {
      found = true;
      tombstone = tombstone;
      value =
          if tombstone
          then []
          else take (load_u32 (drop 4 block)) (drop (body_of block + load_u32 block) block);
      expires_at_ms =
          if test_bit (get_or block 8 0) 1 then to_i64 (load_u64 (drop 9 block)) else pos 0;
    }

-- while (pos + 9 <= block.size()), over the block from `pos` on. It leaves nothing when the fuel
-- runs out.
unfoldable pub scan : ℕ → Bytes → Bytes → Option Lookup
scan zero block key = none
scan (suc fuel) block key =
    let rest = scan fuel (drop (total_of block) block) key in
    if ltb (length block) 9
    then some absent
    else if ltb (length block) (total_of block)
    then some absent
    else if key_eq (key_of block) key
    then some (entry_of block)
    else if key_lt key (key_of block)
    then some absent
    else rest

abbrev pub block_end : ℕ → List IndexEntry → ℕ
block_end data_end [] = data_end
block_end data_end (e ∷ es) = e.offset

-- The offsets of the last block whose first key is not above the key.
unfoldable pub block_range : Bytes → ℕ → List IndexEntry → Option (ℕ × ℕ)
block_range key data_end [] = none
block_range key data_end (e ∷ es) =
    let later = block_range key data_end es in
    if key_lt key e.key
    then none
    else elim later [ none ↦ some (e.offset, block_end data_end es) | some range ↦ some range ]

unfoldable pub get_block : Sstable → Bytes → Option (ℕ × ℕ) → Option Lookup
unfolding read_exact scan
get_block t key none = some absent
get_block t key (some (from, to)) =
    if leb to from then some absent else elim (read_exact t from (to - from)) [
      | none ↦ some absent
      | some block ↦ scan (suc (length block)) block key
    ]

unfoldable pub get : Sstable → Bytes → Option Lookup
unfolding get_block block_range
get t key =
    if t.use_bloom && not (may_contain t.bloom key)
    then some absent
    else get_block t key (block_range key t.data_end t.index)
