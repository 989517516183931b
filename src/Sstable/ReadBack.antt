-- ===== src/Sstable/ReadBack.antt =====
-- A table of src/sstable.cpp, from the writer's first `add` to a lookup in the file it left.
use cachedb.Prelude.{
  ℕ, ◌+◌, ◌-◌, ◌^◌, ◌≤◌, ◌<◌, ◌≡◌, refl, sym, ap, ap₂, ◌∙◌, Bool, true, false, not, ◌&&◌, ◌||◌,
  Option, none, some, List, ◌++◌, arith, if◌then◌else◌, ltb, length, take, drop, length-append,
  append_assoc, take-append_seam, drop-append_seam,
}
use mathlib.Core.Path.{subst}
use cachedb.Prelude.Words.{add_u64}
use cachedb.Prelude.Bytes.{Bytes, cmp}
use cachedb.Prelude.Endian.{put_le, put_u64, load_u32, load_u64, load_u64-put_le}
use cachedb.Sstable.{IndexEntry, SstableWriter, k_magic, index_block, footer}
use cachedb.Sstable.Reader.{Sstable}
use cachedb.Sstable.Open.{OpenIo, k_footer_size, has_magic, load_index, load_table, open_table}
use cachedb.Sstable.Reopen.{IndexFits, load_index-index_block}

-- The open table over a file with these parts.
abbrev pub opened : Bytes → Bytes → Bytes → Bytes → List IndexEntry → Bool → Sstable
opened body block filter foot index use_bloom = record {
  file = ((body ++ block) ++ filter) ++ foot;
  readable = true;
  bloom = filter;
  index = index;
  data_end = length body;
  use_bloom = use_bloom;
}

-- What the footer says and what the index block holds.
pub record Laid (body block filter foot : Bytes) (index : List IndexEntry) : Type 0 where
  pub foot_size : length foot ≡ k_footer_size
  pub magic : has_magic foot ≡ true
  pub index_at : load_u64 foot ≡ length body
  pub bloom_at : load_u64 (drop 8 foot) ≡ length body + length block
  pub count_fits : 4 ≤ length block
  pub entries : load_index (load_u32 block) (length body) (drop 4 block) ≡ some index

pub load_table-Laid :
    (io : OpenIo) (body block filter foot : Bytes) (index : List IndexEntry) (use_bloom : Bool)
    → Laid body block filter foot index
    → load_table io (((body ++ block) ++ filter) ++ foot) use_bloom foot ≡ (
        if io.reads_index
        then (if io.reads_bloom then some (opened body block filter foot index use_bloom) else none)
        else none)
unfolding load_table
load_table-Laid io body block filter foot index use_bloom h =
    let file = ((body ++ block) ++ filter) ++ foot in
    let size : length file ≡ length body + length block + length filter + k_footer_size = omega (
      arith,
      length-append ((body ++ block) ++ filter) foot,
      length-append (body ++ block) filter,
      length-append body block,
      h.foot_size,
    ) in
    let from_index : drop (length body) file ≡ block ++ (filter ++ foot) =
      ap (drop (length body))
        (append_assoc (body ++ block) filter foot ∙ append_assoc body block (filter ++ foot))
      ∙ drop-append_seam (length body) body (block ++ (filter ++ foot)) refl in
    let from_bloom : drop (length body + length block) file ≡ filter ++ foot =
      ap (drop (length body + length block)) (append_assoc (body ++ block) filter foot)
      ∙ drop-append_seam (length body + length block) (body ++ block) (filter ++ foot)
          (length-append body block) in
    let block_part : take (length body + length block - length body) (drop (length body) file)
        ≡ block =
      ap₂ take (span (length body) (length block)) from_index
      ∙ take-append_seam (length block) block (filter ++ foot) refl in
    let filter_part : take (length file - k_footer_size - (length body + length block))
          (drop (length body + length block) file)
        ≡ filter =
      ap₂ take (omega (arith, size)) from_bloom
      ∙ take-append_seam (length filter) filter foot refl in
    round _ (has_magic foot) (ltb (load_u64 (drop 8 foot)) (load_u64 foot))
      (ltb (length file - k_footer_size) (load_u64 (drop 8 foot))) h.magic
      (no_lt (load_u64 (drop 8 foot)) (load_u64 foot) (omega (arith, h.index_at, h.bloom_at)))
      (no_lt (length file - k_footer_size) (load_u64 (drop 8 foot))
        (omega (arith, size, h.bloom_at)))
    ∙ rw (h.index_at, h.bloom_at, block_part, h.entries)
        (rw (h.index_at, h.bloom_at, filter_part)
          (last _ (ltb (length block) 4) io.reads_index io.reads_bloom
            (no_lt (length block) 4 h.count_fits)))
  where
    no_lt : (n m : ℕ) → m ≤ n → ltb n m ≡ false
    no_lt n m h = ground arith

    round :
        (x : Option Sstable) (a b c : Bool)
        → a ≡ true
        → b ≡ false
        → c ≡ false
        → (if not a then none else if b || c then none else x) ≡ x
    round x a b c p q r = rw (p, q, r) refl

    last :
        (x : Option Sstable) (a b c : Bool)
        → a ≡ false
        → (if not b || a then none else if c then x else none)
          ≡ (if b then (if c then x else none) else none)
    last x a true c p = rw p refl
    last x a false c p = refl

    span : (a b : ℕ) → a + b - a ≡ b
    span a b = omega arith

pub open_table-Laid :
    (io : OpenIo) (body block filter foot : Bytes) (index : List IndexEntry) (use_bloom : Bool)
    → Laid body block filter foot index
    → open_table io (((body ++ block) ++ filter) ++ foot) use_bloom ≡ (
        if io.opens && (io.seeks && io.reads_footer)
        then load_table io (((body ++ block) ++ filter) ++ foot) use_bloom foot
        else none)
unfolding open_table
open_table-Laid io body block filter foot index use_bloom h =
    let file = ((body ++ block) ++ filter) ++ foot in
    let size = length-append ((body ++ block) ++ filter) foot in
    let from_footer : drop (length file - k_footer_size) file ≡ foot =
      drop-append_seam (length file - k_footer_size) ((body ++ block) ++ filter) foot
        (omega (arith, size, h.foot_size)) in
    gates io.opens io.seeks io.reads_footer (ltb (length file) k_footer_size)
      (no_lt (length file) k_footer_size (omega (arith, size, h.foot_size)))
      (load_table io file use_bloom (drop (length file - k_footer_size) file))
    ∙ ap
        (λ b.
          if io.opens && (io.seeks && io.reads_footer)
          then load_table io file use_bloom b
          else none)
        from_footer
  where
    no_lt : (n m : ℕ) → m ≤ n → ltb n m ≡ false
    no_lt n m h = ground arith

    gates :
        (a b c d : Bool)
        → d ≡ false
        → (x : Option Sstable)
        → (if not a || not b then none else if d || not c then none else x)
          ≡ (if a && (b && c) then x else none)
    gates true true true d p x = rw p refl
    gates true true false d p x = rw p refl
    gates true false c d p x = refl
    gates false b c d p x = refl

abbrev flat_footer : ℕ → ℕ → ℕ → Bytes
flat_footer index_offset bloom_offset count =
    put_le 8 index_offset ++ (put_le 8 bloom_offset ++ (put_le 8 count ++ k_magic))

footer-flat :
    (w : SstableWriter) (bloom_offset : ℕ)
    → footer w bloom_offset ≡ flat_footer w.offset bloom_offset w.entry_count
unfolding footer put_u64
footer-flat w bloom_offset = simp append_assoc

module _ (index_offset bloom_offset count : ℕ) where
  length-flat_footer : length (flat_footer index_offset bloom_offset count) ≡ k_footer_size
  unfolding put_le
  length-flat_footer = refl

  flat_footer-has_magic : has_magic (flat_footer index_offset bloom_offset count) ≡ true
  unfolding put_le has_magic cmp
  flat_footer-has_magic = refl

  flat_footer-behind :
      drop 8 (flat_footer index_offset bloom_offset count)
      ≡ put_le 8 bloom_offset ++ (put_le 8 count ++ k_magic)
  unfolding put_le
  flat_footer-behind = refl

-- The file that `finish` leaves, by its parts.
pub written-Laid :
    (w : SstableWriter) (body filter : Bytes)
    → w.offset ≡ length body
    → length body + length (index_block w) < 2 ^ 64
    → length w.index < 2 ^ 32
    → IndexFits (length body) w.index
    → Laid body
        (index_block w)
        filter
        (footer w (add_u64 w.offset (length (index_block w))))
        w.index
written-Laid w body filter offset small few fits =
    let bloom_offset = add_u64 w.offset (length (index_block w)) in
    let at : bloom_offset ≡ length body + length (index_block w) = omega (arith, offset) in
    let (long, entries) = load_index-index_block w (length body) (omega arith) few fits in
    subst (λ f. Laid body (index_block w) filter f w.index) (sym (footer-flat w bloom_offset))
      (record {
        foot_size = length-flat_footer w.offset bloom_offset w.entry_count;
        magic = flat_footer-has_magic w.offset bloom_offset w.entry_count;
        index_at = load_u64-put_le w.offset _ (omega (arith, offset)) ∙ offset;
        bloom_at =
            ap load_u64 (flat_footer-behind w.offset bloom_offset w.entry_count)
            ∙ load_u64-put_le bloom_offset _ (omega (arith, at))
            ∙ at;
        count_fits = long;
        entries = entries;
      })
