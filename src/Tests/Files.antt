-- ===== src/Tests/Files.antt =====
-- The writer of tables at concrete inputs.
use cachedb.Prelude.{◌<◌, ◌≡◌, some, ◌^◌, refl, true, false, List, [], ◌∷◌, arith, length}
use cachedb.Prelude.Int.{pos}
use cachedb.Prelude.Bytes.{Bytes, cmp}
use cachedb.Prelude.Endian.{put_le, load_le, put_u32, put_u64}
use cachedb.Wal.Kernel.{wrote, write_interrupted, write_all, fsync_loop}
use cachedb.Bloom.{build}
use cachedb.Sstable.{FinishIo, create, encode_entry, push_index, add, finish}
use cachedb.Sstable.Growth.{Item, adds, data_block}
use cachedb.Sstable.Reader.{Lookup, Sstable, scan}
use cachedb.Sstable.Scan.{Stands, scan-Stands}

-- An entry that the kernel takes in three calls, and a tombstone.
abbrev items : List Item
items =
    (record {
      writes = wrote 5 ∷ write_interrupted ∷ wrote 3 ∷ [];
      key = 0x61 ∷ [];
      value = 0x31 ∷ [];
      tombstone = false;
      expires_at_ms = pos 0;
    })
    ∷ (record { writes = []; key = 0x62 ∷ []; value = []; tombstone = true; expires_at_ms = pos 9 })
    ∷ []

no_failure : (adds (create (pos 10)) items).failed ≡ false
unfolding adds add write_all push_index put_u32 put_le
no_failure = refl

small_block : length (data_block items) < 2 ^ 64
unfolding encode_entry put_u32 put_le
small_block = omega arith

abbrev io : FinishIo
io = record {
  index_writes = wrote 2 ∷ [];
  filter_writes = [];
  footer_writes = write_interrupted ∷ [];
  fsyncs = [];
}

finishes : (finish io (create (pos 10))).1 ≡ true
unfolding finish write_all fsync_loop build put_u32 put_u64 put_le
finishes = refl

-- A block with the entry a = 1, and a lookup in a table over it.
abbrev one_entry : Bytes
one_entry = 1 ∷ 0 ∷ 0 ∷ 0 ∷ 1 ∷ 0 ∷ 0 ∷ 0 ∷ 0 ∷ 0x61 ∷ 0x31 ∷ []

abbrev answer : Lookup
answer = record { found = true; tombstone = false; value = 0x31 ∷ []; expires_at_ms = pos 0 }

finds : scan 12 one_entry (0x61 ∷ []) ≡ some answer
unfolding scan load_le cmp
finds = refl

scan-Stands_example : Stands one_entry (0x61 ∷ []) answer
scan-Stands_example = scan-Stands 12 one_entry (0x61 ∷ []) answer finds refl

abbrev table : Sstable
table = record {
  file = one_entry;
  readable = true;
  bloom = [];
  index = (record { key = 0x61 ∷ []; offset = 0 }) ∷ [];
  data_end = 11;
  use_bloom = true;
}
