-- ===== src/Sstable/Finish.antt =====
-- What `SstableWriter::finish` of src/sstable.cpp leaves when it reports success.
use cachedb.Prelude.{
  ◌≡◌, ◌≢◌, refl, sym, ap, ◌∙◌, inl, inr, Bool, true, false, not, ◌&&◌, ◌||◌, List, ◌++◌, length,
  if◌then◌else◌,
}
use cachedb.Prelude.Words.{add_u64}
use cachedb.Prelude.Bytes.{Bytes}
use cachedb.Wal.Kernel.{WriteReturn, write_all, fsync_loop, Appends, write_all-Appends}
use cachedb.Bloom.{build}
use cachedb.Sstable.{SstableWriter, FinishIo, index_block, footer, finish}

write_all-whole :
    (writes : List WriteReturn) (file input : Bytes)
    → (write_all writes file input).1 ≡ true
    → (write_all writes file input).0 ≡ file ++ input
write_all-whole writes file input h =
    whole (write_all writes file input) (write_all-Appends writes file input) h
  where
    whole : (r : Bytes × Bool) → Appends file input r → r.1 ≡ true → r.0 ≡ file ++ input
    whole r (inl (ok, e)) good = e
    whole r (inr (d, l, bad, a, b, c)) good =
        let wrong : true ≡ false = sym good ∙ bad in absurd (conflict wrong)
      where
        conflict : true ≢ false
        conflict e = cc

branches :
    (failed finished b1 b2 b3 b4 : Bool) (w w1 w2 w3 w4 : SstableWriter)
    → let r : SstableWriter × Bool =
        if failed || finished
        then (w, false)
        else if not b1
        then (w1, false)
        else if not b2
        then (w2, false)
        else if b3 && b4
        then (w3, true)
        else (w4, false) in
      r.1 ≡ true
      → (failed ≡ false)
        × (finished ≡ false)
        × (b1 ≡ true)
        × (b2 ≡ true)
        × (b3 ≡ true)
        × (b4 ≡ true)
        × (r.0 ≡ w3)
branches true finished b1 b2 b3 b4 w w1 w2 w3 w4 h = cc
branches false true b1 b2 b3 b4 w w1 w2 w3 w4 h = cc
branches false false false b2 b3 b4 w w1 w2 w3 w4 h = cc
branches false false true false b3 b4 w w1 w2 w3 w4 h = cc
branches false false true true false b4 w w1 w2 w3 w4 h = cc
branches false false true true true false w w1 w2 w3 w4 h = cc
branches false false true true true true w w1 w2 w3 w4 h =
    (refl, refl, refl, refl, refl, refl, refl)

-- When `finish` reports success, no write had failed, the table was not finished before, and the
-- file is the data with the index, the filter over the keys and the footer behind it, all of which
-- an fsync of the file has forced down.
pub finish_lem :
    (io : FinishIo) (w : SstableWriter)
    → (finish io w).1 ≡ true
    → (w.failed ≡ false)
      × (w.finished ≡ false)
      × ((finish io w).0.file
          ≡ ((w.file ++ index_block w) ++ build w.bloom_keys w.bits_per_key)
            ++ footer w (add_u64 w.offset (length (index_block w))))
      × ((finish io w).0.disk ≡ (finish io w).0.file)
unfolding finish
finish_lem io w h =
    let block = index_block w in
    let filter = build w.bloom_keys w.bits_per_key in
    let foot = footer w (add_u64 w.offset (length block)) in
    let (fine, first, b1, b2, b3, b4, same) =
      branches w.failed w.finished _ _ _ (fsync_loop io.fsyncs) w _ _ _ _ h in
    let indexed = write_all-whole io.index_writes w.file block b1 in
    let filtered =
      write_all-whole io.filter_writes (write_all io.index_writes w.file block).0 filter b2 in
    let footed =
      write_all-whole io.footer_writes
        (write_all io.filter_writes (write_all io.index_writes w.file block).0 filter).0 foot b3 in
    (
      fine,
      first,
      ap (λ x. x.file) same
          ∙ footed
          ∙ ap (λ b. b ++ foot) (filtered ∙ ap (λ b. b ++ filter) indexed),
      ap (λ x. x.disk) same ∙ sym (ap (λ x. x.file) same),
    )
