-- ===== src/Sstable/Cursor.antt =====
-- src/sstable.h and src/sstable.cpp, `Sstable::Cursor`: a table's entries in order, over a window of
-- the file that is read again when it runs out. What pread(2) answers is a list, one for each read
-- of the window; past its end each read succeeds.
pub mod Step
pub mod Window
pub mod Walk
use cachedb.Prelude.{
  ℕ, ◌+◌, ◌-◌, ◌*◌, ◌<◌, ◌≤◌, ◌≡◌, refl, sym, ◌⊎◌, inl, inr, min, max, Bool, true, false, not, ◌&&◌,
  ◌||◌, none, some, Option, List, [], ◌∷◌, arith, ltb, leb, if◌then◌else◌, length, get_or, take,
  drop, Option-cases,
}
use cachedb.Prelude.Int.{ℤ, pos, to_i64}
use cachedb.Prelude.Bits.{test_bit}
use cachedb.Prelude.Bytes.{Bytes}
use cachedb.Prelude.Endian.{load_u32, load_u64}
use cachedb.Sstable.Reader.{Sstable, read_exact, body_of, total_of, key_of}

abbrev pub k_cursor_window : ℕ
k_cursor_window = 64 * 1024

pub record Cursor : Type 0 where
  pub table : Sstable
  pub reads : List Bool
  pub pos : ℕ
  pub buf_start : ℕ
  pub buf : Bytes
  pub key : Bytes
  pub value : Bytes
  pub expires_at_ms : ℤ
  pub tombstone : Bool
  pub valid : Bool
  pub failed : Bool

-- The next read of the kernel, and the cursor with the reads behind it.
abbrev pub read_window : Cursor → ℕ → List Bool → Option Bytes
read_window c want [] = read_exact c.table c.pos want
read_window c want (answer ∷ reads) = if answer then read_exact c.table c.pos want else none

abbrev pub later_reads : List Bool → List Bool
later_reads [] = []
later_reads (answer ∷ reads) = reads

unfoldable pub ensure : ℕ → Cursor → Cursor × Bool
ensure need c =
    let want = min (c.table.data_end - c.pos) (max need k_cursor_window) in
    if leb c.buf_start c.pos && leb (c.pos - c.buf_start + need) (length c.buf)
    then (c, true)
    else if ltb c.table.data_end (c.pos + need)
    then (c, false)
    else elim (read_window c want c.reads) [
      | none ↦ (record c { reads = later_reads c.reads; failed = true }, false)
      | some block ↦
          (record c { reads = later_reads c.reads; buf = block; buf_start = c.pos }, true)
    ]

-- buf_.data() + (pos_ - buf_start_)
abbrev pub here : Cursor → Bytes
here c = drop (c.pos - c.buf_start) c.buf

-- The entry of which the window holds all.
unfoldable pub show_entry : Cursor → Cursor
show_entry c =
    let p = here c in
    let klen = load_u32 p in
    record c {
      expires_at_ms = if test_bit (get_or p 8 0) 1 then to_i64 (load_u64 (drop 9 p)) else pos 0;
      tombstone = test_bit (get_or p 8 0) 0;
      key = key_of p;
      value = take (load_u32 (drop 4 p)) (drop (body_of p + klen) p);
      pos = c.pos + total_of p;
      valid = true;
    }

-- From where the window holds the header.
unfoldable pub load_body : Cursor → Cursor
unfolding ensure show_entry
load_body c = let (c', whole) = ensure (total_of (here c)) c in if whole then show_entry c' else c'

unfoldable pub load : Cursor → Cursor
unfolding load_body
load c =
    let start = record c { valid = false } in
    let (c', header) = ensure 9 start in
    if c.failed || leb c.table.data_end c.pos then start else if header then load_body c' else c'

unfoldable pub next : Cursor → Cursor
unfolding load
next c = load c

-- A cursor before its first load.
abbrev pub unread : List Bool → Sstable → Cursor
unread reads table = record {
  table = table;
  reads = reads;
  pos = 0;
  buf_start = 0;
  buf = [];
  key = [];
  value = [];
  expires_at_ms = pos 0;
  tombstone = false;
  valid = false;
  failed = false;
}

-- Cursor(const Sstable&)
unfoldable pub cursor : List Bool → Sstable → Cursor
unfolding load
cursor reads table = load (unread reads table)
