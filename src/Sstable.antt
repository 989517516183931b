-- ===== src/Sstable.antt =====
-- src/sstable.h and src/sstable.cpp, `SstableWriter`: the file of a table as it is built. `file` is
-- what the kernel holds, and `disk` what a successful fsync of the file has forced down.
pub mod Growth
pub mod Finish
pub mod Reader
pub mod Scan
pub mod Open
pub mod Entry
pub mod Block
pub mod Index
pub mod Locate
pub mod Answers
pub mod Reopen
pub mod ReadBack
pub mod RoundTrip
pub mod Cursor
use cachedb.Prelude.{
  ℕ, zero, suc, ◌+◌, ◌-◌, ◌<◌, Bool, true, false, not, ◌&&◌, ◌||◌, List, [], ◌∷◌, ◌++◌, leb, ◌==◌,
  if◌then◌else◌, length,
}
use cachedb.Prelude.Int.{ℤ, is_zero, to_u64}
use cachedb.Prelude.Text.{codes}
use cachedb.Prelude.Words.{u32, add_u64}
use cachedb.Prelude.Bytes.{Bytes}
use cachedb.Prelude.Endian.{put_u32, put_u64}
use cachedb.Wal.Kernel.{WriteReturn, SyncReturn, write_all, fsync_loop}
use cachedb.Bloom.{build}

abbrev pub k_magic : Bytes
k_magic = codes "CDBSSTv2"

abbrev pub k_index_interval : ℕ
k_index_interval = 4096

abbrev k_tombstone_flag : ℕ
k_tombstone_flag = 1

abbrev k_expiry_flag : ℕ
k_expiry_flag = 2

pub record IndexEntry : Type 0 where
  pub key : Bytes
  pub offset : ℕ

-- A file's bytes in the kernel, and those that an fsync of the file has forced down.
pub record FileData : Type 0 where
  pub contents : Bytes
  pub disk : Bytes

pub record SstableWriter : Type 0 where
  pub file : Bytes
  pub disk : Bytes
  pub offset : ℕ
  pub entry_count : ℕ
  pub failed : Bool
  pub finished : Bool
  pub bits_per_key : ℤ
  pub bloom_keys : List Bytes
  pub index : List IndexEntry
  pub bytes_since_index : ℕ

-- The constructor, over the file that open(O_CREAT | O_TRUNC) made.
abbrev pub create : ℤ → SstableWriter
create bits_per_key = record {
  file = [];
  disk = [];
  offset = 0;
  entry_count = 0;
  failed = false;
  finished = false;
  bits_per_key = bits_per_key;
  bloom_keys = [];
  index = [];
  bytes_since_index = 0;
}

-- What `add` puts into `buf_`. The flags are disjoint bits.
unfoldable pub encode_entry : Bytes → Bytes → Bool → ℤ → Bytes
encode_entry key value tombstone expires_at_ms =
    let carries_expiry = not tombstone && not (is_zero expires_at_ms) in
    let sized = put_u32 (put_u32 [] (u32 (length key))) (u32 (length value)) in
    let flags =
      (if tombstone then k_tombstone_flag else 0) + (if carries_expiry then k_expiry_flag else 0) in
    let flagged = sized ++ flags ∷ [] in
    let stamped = if carries_expiry then put_u64 flagged (to_u64 expires_at_ms) else flagged in
    (stamped ++ key) ++ value

abbrev is_empty {ℓ} : {A : Type ℓ} → List A → Bool
is_empty [] = true
is_empty (x ∷ xs) = false

-- index_.push_back, when the next entry is due one.
unfoldable pub push_index : SstableWriter → Bytes → SstableWriter
push_index w key =
    if is_empty w.index || leb k_index_interval w.bytes_since_index
    then record w {
      index = w.index ++ (record { key = key; offset = w.offset }) ∷ [];
      bytes_since_index = 0;
    }
    else w

unfoldable pub add : List WriteReturn → SstableWriter → Bytes → Bytes → Bool → ℤ → SstableWriter
unfolding encode_entry push_index
add writes w key value tombstone expires_at_ms =
    let buf = encode_entry key value tombstone expires_at_ms in
    let w' = push_index w key in
    let (file, written) = write_all writes w'.file buf in
    if w.failed
    then w
    else if written
    then record w' {
      file = file;
      offset = add_u64 w'.offset (length buf);
      bytes_since_index = add_u64 w'.bytes_since_index (length buf);
      entry_count = add_u64 w'.entry_count 1;
      bloom_keys = w'.bloom_keys ++ key ∷ [];
    }
    else record w' { file = file; failed = true }

-- The loop of `finish` over the index.
unfoldable pub put_index : Bytes → List IndexEntry → Bytes
put_index block [] = block
put_index block (e ∷ es) =
    put_index (put_u64 (put_u32 block (u32 (length e.key)) ++ e.key) e.offset) es

unfoldable pub index_block : SstableWriter → Bytes
unfolding put_index
index_block w = put_index (put_u32 [] (u32 (length w.index))) w.index

unfoldable pub footer : SstableWriter → ℕ → Bytes
footer w bloom_offset =
    put_u64 (put_u64 (put_u64 [] w.offset) bloom_offset) w.entry_count ++ k_magic

-- What the kernel answers to each of the writes of `finish`, and to its fsync calls.
pub record FinishIo : Type 0 where
  pub index_writes : List WriteReturn
  pub filter_writes : List WriteReturn
  pub footer_writes : List WriteReturn
  pub fsyncs : List SyncReturn

unfoldable pub finish : FinishIo → SstableWriter → SstableWriter × Bool
unfolding index_block footer
finish io w =
    let block = index_block w in
    let (indexed, index_written) = write_all io.index_writes w.file block in
    let filter = build w.bloom_keys w.bits_per_key in
    let (filtered, filter_written) = write_all io.filter_writes indexed filter in
    let (footed, footer_written) =
      write_all io.footer_writes filtered (footer w (add_u64 w.offset (length block))) in
    let w' = record w { finished = true } in
    if w.failed || w.finished
    then (w, false)
    else if not index_written
    then (record w' { file = indexed }, false)
    else if not filter_written
    then (record w' { file = filtered }, false)
    else if footer_written && fsync_loop io.fsyncs
    then (record w' { file = footed; disk = footed }, true)
    else (record w' { file = footed }, false)

-- The file that the writer has written.
abbrev pub data_of : SstableWriter → FileData
data_of w = record { contents = w.file; disk = w.disk }
