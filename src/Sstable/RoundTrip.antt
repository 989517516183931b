-- ===== src/Sstable/RoundTrip.antt =====
-- A table of src/sstable.cpp from the writer's first `add` to a lookup in the file that it left.
use cachedb.Prelude.{
  ◌^◌, ◌<◌, ◌≡◌, ◌≢◌, refl, sym, ap, ◌∙◌, Bool, true, false, ◌&&◌, Option, none, some, List, ◌++◌,
  arith, if◌then◌else◌, length, append_assoc,
}
use mathlib.Core.Path.{subst}
use mathlib.Core.Option.{some-injective}
use cachedb.Prelude.Int.{ℤ}
use cachedb.Prelude.Words.{add_u64}
use cachedb.Prelude.Bytes.{Bytes}
use cachedb.Prelude.SortedMap.{SortedMap, find, IsSorted}
use cachedb.Memtable.{Entry}
use cachedb.Wal.Kernel.{WriteReturn}
use cachedb.Bloom.{build}
use cachedb.Sstable.{SstableWriter, FinishIo, create, index_block, footer, finish}
use cachedb.Sstable.Growth.{adds, create-Grown}
use cachedb.Sstable.Finish.{finish_lem}
use cachedb.Sstable.Reader.{Sstable, get}
use cachedb.Sstable.Open.{OpenIo, open_table}
use cachedb.Sstable.Block.{AllFit, entries_block, answer}
use cachedb.Sstable.Index.{
  items_of, keys_of, index_from, data_block-items_of, keys-items_of, index-adds,
}
use cachedb.Sstable.Answers.{Holds, get-Holds}
use cachedb.Sstable.Reopen.{IndexFits, index_from-IndexFits, length-index_from, length-index_block}
use cachedb.Sstable.ReadBack.{opened, load_table-Laid, open_table-Laid, written-Laid}

-- The entries fit the file format: they rise in key order, their lengths and their number fit in
-- 32 bits, and the offsets in 64.
pub record IsTable (m : SortedMap Entry) : Type 0 where
  pub sorted : IsSorted m
  pub fits : AllFit m
  pub few : length m < 2 ^ 32
  pub small : length (entries_block m) < 2 ^ 62

-- The kernel grants every call of the constructor.
abbrev pub all_read : OpenIo → Bool
all_read io = io.opens && (io.seeks && (io.reads_footer && (io.reads_index && io.reads_bloom)))

module _ (bits_per_key : ℤ) (m : SortedMap Entry) (writes : List (List WriteReturn))
    (io : FinishIo) where
  -- The writer behind the last `add`.
  abbrev pub writer : SstableWriter
  writer = adds (create bits_per_key) (items_of writes m)

  -- The file when `finish` reports success, and where the index says that entries are.
  record Written : Type 0 where
    file :
        (finish io writer).0.file
        ≡ ((entries_block m ++ index_block writer) ++ build (keys_of m) writer.bits_per_key)
          ++ footer writer (add_u64 writer.offset (length (index_block writer)))
    offset : writer.offset ≡ length (entries_block m)
    index : writer.index ≡ index_from true 0 0 m

  finish-Written : (finish io writer).1 ≡ true → IsTable m → Written
  finish-Written well h =
      let (fine, first, file, synced) = finish_lem io writer well in
      let same = data_block-items_of writes m in
      let grown =
        create-Grown bits_per_key (items_of writes m) fine
          (omega (arith, ap length same, h.small)) in
      record {
        file =
            file
            ∙ ap
                (λ b.
                  ((b ++ index_block writer) ++ build writer.bloom_keys writer.bits_per_key)
                  ++ footer writer (add_u64 writer.offset (length (index_block writer))))
                (grown.file ∙ same)
            ∙ ap
                (λ ks.
                  ((entries_block m ++ index_block writer) ++ build ks writer.bits_per_key)
                  ++ footer writer (add_u64 writer.offset (length (index_block writer))))
                (grown.bloom_keys ∙ keys-items_of writes m);
        offset = grown.offset ∙ ap length same;
        index =
            index-adds m writes (create bits_per_key) fine (omega (arith, h.small)) (omega arith);
      }

  -- The table that opens.
  abbrev reopened : Bool → Sstable
  reopened use_bloom =
      opened (entries_block m) (index_block writer) (build (keys_of m) writer.bits_per_key)
        (footer writer (add_u64 writer.offset (length (index_block writer)))) writer.index use_bloom

  written_opens :
      (open_io : OpenIo) (use_bloom : Bool)
      → (finish io writer).1 ≡ true
      → IsTable m
      → Holds m (reopened use_bloom)
        × (open_table open_io (finish io writer).0.file use_bloom
            ≡ (if all_read open_io then some (reopened use_bloom) else none))
  written_opens open_io use_bloom well h =
      let w = finish-Written well h in
      let filter = build (keys_of m) writer.bits_per_key in
      let foot = footer writer (add_u64 writer.offset (length (index_block writer))) in
      let laid =
        written-Laid writer (entries_block m) filter w.offset
          (omega (arith, length-index_block writer m h.fits w.index, h.small))
          (omega (arith, ap length w.index, length-index_from m true 0 0, h.few))
          (subst (IndexFits (length (entries_block m))) (sym w.index)
            (index_from-IndexFits m true 0 0 (length (entries_block m)) (omega arith) h.fits)) in
      (
        record {
          post = (index_block writer ++ filter) ++ foot;
          bits_per_key = writer.bits_per_key;
          file =
              append_assoc (entries_block m ++ index_block writer) filter foot
              ∙ append_assoc (entries_block m) (index_block writer) (filter ++ foot)
              ∙ ap (◌++◌ (entries_block m)) (sym (append_assoc (index_block writer) filter foot));
          data_end = refl;
          index = w.index;
          bloom = refl;
          readable = refl;
        },
        ap (λ f. open_table open_io f use_bloom) w.file
            ∙ open_table-Laid open_io (entries_block m) (index_block writer) filter foot
                writer.index use_bloom laid
            ∙ ap (λ o. if open_io.opens && (open_io.seeks && open_io.reads_footer) then o else none)
                (load_table-Laid open_io (entries_block m) (index_block writer) filter foot
                  writer.index use_bloom laid)
            ∙ gates _ open_io.opens open_io.seeks open_io.reads_footer open_io.reads_index
                open_io.reads_bloom,
      )
    where
      gates :
          (x : Option Sstable) (a b c d e : Bool)
          → (if a && (b && c) then (if d then (if e then x else none) else none) else none)
            ≡ (if a && (b && (c && (d && e))) then x else none)
      gates x true true true true true = refl
      gates x true true true true false = refl
      gates x true true true false e = refl
      gates x true true false d e = refl
      gates x true false c d e = refl
      gates x false b c d e = refl

  -- A table that the writer reported as finished opens again, unless a call of the kernel fails,
  -- and each lookup in it finds what the entries say of the key: its value and stamp, its
  -- tombstone, or that it is absent. The entries rise in key order and fit the file format; the
  -- kernel may have taken the writes in pieces.
  pub table_round_trip :
      (open_io : OpenIo) (use_bloom : Bool) (key : Bytes)
      → (finish io writer).1 ≡ true
      → IsTable m
      → all_read open_io ≡ true
      → (t : Sstable) × (open_table open_io (finish io writer).0.file use_bloom ≡ some t)
        × (get t key ≡ some (answer (find key m)))
  table_round_trip open_io use_bloom key well h reads =
      let (holds, opens) = written_opens open_io use_bloom well h in
      (
        reopened use_bloom,
        opens ∙ ap (λ (b : Bool). if b then some (reopened use_bloom) else none) reads,
        get-Holds (reopened use_bloom) m key holds h.sorted h.fits,
      )

  -- Whatever table is opened from the file holds the entries.
  pub reopened-Holds :
      (open_io : OpenIo) (use_bloom : Bool) (t : Sstable)
      → (finish io writer).1 ≡ true
      → IsTable m
      → open_table open_io (finish io writer).0.file use_bloom ≡ some t
      → Holds m t
  reopened-Holds open_io use_bloom t well h same =
      let (holds, opens) = written_opens open_io use_bloom well h in
      which _ (all_read open_io) (sym opens ∙ same) holds
    where
      not_some : (x : Sstable) → none ≢ some x
      not_some p = cc

      which :
          (x : Sstable) (b : Bool) → (if b then some x else none) ≡ some t → Holds m x → Holds m t
      which x true e holds = subst (Holds m) (some-injective x t e) holds
      which x false e holds = absurd (not_some t e)
