-- ===== src/Compaction.antt =====
-- src/compaction.h and src/compaction.cpp: the merge of several tables into one. The priority queue
-- is the list of its heads in their order, the least first. `compact` answers nothing when its fuel
-- runs out.
pub mod Ends
use cachedb.Prelude.{
  ℕ, zero, suc, ◌+◌, Bool, true, false, not, ◌&&◌, ◌||◌, Option, none, some, List, [], ◌∷◌, ltb,
  if◌then◌else◌, set,
}
use cachedb.Prelude.Int.{ℤ}
use cachedb.Prelude.Bytes.{Bytes, key_lt, key_eq}
use cachedb.Wal.Kernel.{WriteReturn}
use cachedb.Sstable.{FileData, SstableWriter, data_of, FinishIo, create, add, finish}
use cachedb.Sstable.Index.{first_answers, later_answers}
use cachedb.Sstable.Reader.{Sstable}
use cachedb.Sstable.Cursor.{Cursor, cursor, next}
use cachedb.Store.{Result, returned, threw}
use cachedb.Store.Layers.{expired}

-- One input's position in the merge.
pub record Head : Type 0 where
  pub input : ℕ
  pub key : Bytes

pub record CompactionResult : Type 0 where
  pub ok : Bool
  pub written : ℕ
  pub dropped : ℕ

-- What the loop changes. `writes` is what the kernel answers to the entries that are still to be
-- written, and `previous` is none while have_previous is false.
pub record Merge : Type 0 where
  pub cursors : List Cursor
  pub heap : List Head
  pub writer : SstableWriter
  pub writes : List (List WriteReturn)
  pub previous : Option Bytes
  pub written : ℕ
  pub dropped : ℕ

-- Whether a head comes out before another: the Order of the queue, which is the other way round.
abbrev pub before : Head → Head → Bool
before a b = key_lt a.key b.key || (key_eq a.key b.key && ltb a.input b.input)

unfoldable pub push : Head → List Head → List Head
push h [] = h ∷ []
push h (g ∷ heap) = let rest = push h heap in if before g h then g ∷ rest else h ∷ g ∷ heap

abbrev pub cursor_at : List Cursor → ℕ → Option Cursor
cursor_at [] i = none
cursor_at (c ∷ cs) zero = some c
cursor_at (c ∷ cs) (suc i) = cursor_at cs i

-- The first loop: the heads of the cursors from the i-th on. It is none when one of them failed.
unfoldable pub heads : ℕ → List Cursor → List Head → Option (List Head)
unfolding push
heads i [] heap = some heap
heads i (c ∷ cs) heap =
    let skipped = heads (suc i) cs heap in
    let pushed = heads (suc i) cs (push (record { input = i; key = c.key }) heap) in
    if c.failed then none else if c.valid then pushed else skipped

abbrev pub is_superseded : Option Bytes → Bytes → Bool
is_superseded none key = false
is_superseded (some previous) key = key_eq previous key

-- What becomes of the entry at a head: dropped, or written.
unfoldable pub take_entry : Bool → ℤ → Bytes → Cursor → Merge → Merge
take_entry drop_obsolete now key c m =
    let settled = record m { previous = some key } in
    if is_superseded m.previous key
    then record m { dropped = m.dropped + 1 }
    else if drop_obsolete && (c.tombstone || expired now c.expires_at_ms)
    then record settled { dropped = m.dropped + 1 }
    else record settled {
      writer = add (first_answers m.writes) m.writer c.key c.value c.tombstone c.expires_at_ms;
      writes = later_answers m.writes;
      written = m.written + 1;
    }

-- while (!heap.empty()), and whether it ran to its end. A head's input is a cursor.
unfoldable pub merge_loop : ℕ → Bool → ℤ → Merge → Option (Merge × Bool)
unfolding take_entry push
merge_loop zero drop_obsolete now m = none
merge_loop (suc fuel) drop_obsolete now m = elim m.heap [
  | [] ↦ some (m, true)
  | head ∷ heap ↦ elim (cursor_at m.cursors head.input) [
    | none ↦ some (m, false)
    | some c ↦
        let c' = next c in
        let taken = take_entry drop_obsolete now head.key c m in
        let moved = record taken { cursors = set m.cursors head.input c'; heap = heap } in
        let pushed = push (record { input = head.input; key = c'.key }) heap in
        if c'.failed
        then some (moved, false)
        else merge_loop fuel drop_obsolete now
            (if c'.valid then record moved { heap = pushed } else moved)
  ]
]

-- What a compaction meets: the opening of its output, the reads of each input and the writes.
pub record CompactIo : Type 0 where
  pub creates : Bool
  pub reads : List (List Bool)
  pub entry_writes : List (List WriteReturn)
  pub finish_io : FinishIo

unfoldable pub open_cursors : List (List Bool) → List Sstable → List Cursor
open_cursors reads [] = []
open_cursors [] (t ∷ ts) = cursor [] t ∷ open_cursors [] ts
open_cursors (r ∷ reads) (t ∷ ts) = cursor r t ∷ open_cursors reads ts

abbrev pub size_of_inputs : List Sstable → ℕ
size_of_inputs [] = 0
size_of_inputs (t ∷ ts) = t.data_end + size_of_inputs ts

-- From the end of the loop on, with the file at out_path.
unfoldable pub end_merge : FinishIo → Merge × Bool → CompactionResult × FileData
end_merge io (m, complete) =
    let refused : CompactionResult = record {
      ok = false;
      written = m.written;
      dropped = m.dropped;
    } in
    let (w, finished) = finish io m.writer in
    if not complete
    then (refused, data_of m.writer)
    else if finished
    then (record refused { ok = true }, data_of w)
    else (refused, data_of w)

-- The result, with the file at out_path if it was created. A round for each byte of the inputs and
-- one more is enough.
unfoldable pub compact :
    CompactIo → List Sstable → ℤ → Bool → ℤ → Option (Result (CompactionResult × Option FileData))
unfolding merge_loop heads open_cursors end_merge
compact io inputs bits_per_key drop_obsolete now =
    let cursors = open_cursors io.reads inputs in
    elim (heads 0 cursors []) [
      | none ↦ some (returned (record { ok = false; written = 0; dropped = 0 }, none))
      | some heap ↦
          if not io.creates
          then some threw
          else elim (merge_loop (suc (size_of_inputs inputs)) drop_obsolete now (record {
            cursors = cursors;
            heap = heap;
            writer = create bits_per_key;
            writes = io.entry_writes;
            previous = none;
            written = 0;
            dropped = 0;
          })) [
            | none ↦ none
            | some ended ↦
                let (result, file) = end_merge io.finish_io ended in
                some (returned (result, some file))
          ]
    ]
