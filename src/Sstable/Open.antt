-- ===== src/Sstable/Open.antt =====
-- src/sstable.h and src/sstable.cpp, the constructor of `Sstable`: a table is opened by its footer,
-- its index and its filter. Each std::runtime_error or std::system_error that it throws is `none`.
use cachedb.Prelude.{
  ℕ, zero, suc, ◌+◌, ◌-◌, Bool, true, not, ◌||◌, Option, none, some, List, [], ◌∷◌, ltb,
  if◌then◌else◌, length, take, drop,
}
use cachedb.Prelude.Bytes.{Bytes, key_eq}
use cachedb.Prelude.Text.{codes}
use cachedb.Prelude.Endian.{load_u32, load_u64}
use cachedb.Sstable.{IndexEntry, k_magic}
use cachedb.Sstable.Reader.{Sstable}

abbrev pub k_footer_size : ℕ
k_footer_size = 32

abbrev k_magic_v1 : Bytes
k_magic_v1 = codes "CDBSSTv1"

-- What the calls of the constructor meet: open(2), lseek(2), and the three reads.
pub record OpenIo : Type 0 where
  pub opens : Bool
  pub seeks : Bool
  pub reads_footer : Bool
  pub reads_index : Bool
  pub reads_bloom : Bool

-- The loop over the index, from `pos` on.
unfoldable pub load_index : ℕ → ℕ → Bytes → Option (List IndexEntry)
load_index zero data_end block = some []
load_index (suc count) data_end block =
    let klen = load_u32 block in
    let offset = load_u64 (drop (4 + klen) block) in
    let later = load_index count data_end (drop (4 + klen + 8) block) in
    if ltb (length block) 4
    then none
    else if ltb (length block) (4 + klen + 8)
    then none
    else if ltb data_end offset
    then none
    else elim later [
      | none ↦ none
      | some es ↦ some ((record { key = take klen (drop 4 block); offset = offset }) ∷ es)
    ]

unfoldable pub has_magic : Bytes → Bool
has_magic footer =
    key_eq (take 8 (drop 24 footer)) k_magic || key_eq (take 8 (drop 24 footer)) k_magic_v1

-- From where the footer has been read on.
unfoldable pub load_table : OpenIo → Bytes → Bool → Bytes → Option Sstable
unfolding has_magic
load_table io file use_bloom footer =
    let footer_offset = length file - k_footer_size in
    let index_offset = load_u64 footer in
    let bloom_offset = load_u64 (drop 8 footer) in
    let block = take (bloom_offset - index_offset) (drop index_offset file) in
    if not (has_magic footer)
    then none
    else if ltb bloom_offset index_offset || ltb footer_offset bloom_offset
    then none
    else if not io.reads_index || ltb (length block) 4
    then none
    else elim (load_index (load_u32 block) index_offset (drop 4 block)) [
      | none ↦ none
      | some index ↦
          if io.reads_bloom
          then some (record {
            file = file;
            readable = true;
            bloom = take (footer_offset - bloom_offset) (drop bloom_offset file);
            index = index;
            data_end = index_offset;
            use_bloom = use_bloom;
          })
          else none
    ]

unfoldable pub open_table : OpenIo → Bytes → Bool → Option Sstable
unfolding load_table load_index
open_table io file use_bloom =
    if not io.opens || not io.seeks
    then none
    else if ltb (length file) k_footer_size || not io.reads_footer
    then none
    else load_table io file use_bloom (drop (length file - k_footer_size) file)
