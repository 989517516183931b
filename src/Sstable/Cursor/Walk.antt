-- ===== src/Sstable/Cursor/Walk.antt =====
-- src/sstable.cpp, `Sstable::Cursor` over the entries that the writer laid down.
use cachedb.Prelude.{
  ℕ, ◌+◌, ◌-◌, ◌≤◌, ◌<◌, ◌≡◌, refl, sym, ap, ap₂, ◌∙◌, Bool, true, false, ◌||◌, [], ◌∷◌, ◌++◌,
  arith, leb, if◌then◌else◌, length, take, drop, append_assoc, length-append, drop-drop,
  drop-append_seam, take-append_past,
}
use mathlib.Core.Bool.{false≢true}
use mathlib.Core.Path.{subst}
use cachedb.Prelude.Bytes.{Bytes}
use cachedb.Prelude.SortedMap.{SortedMap}
use cachedb.Memtable.{Entry}
use cachedb.Sstable.Reader.{Lookup, Sstable, total_of}
use cachedb.Sstable.Entry.{
  Fits, bytes_of, answer_of, bytes_of-Reads, bytes_of_min, Reads, total_of-header,
}
use cachedb.Sstable.Block.{entries_block, AllFit}
use cachedb.Sstable.Cursor.{Cursor, ensure, show_entry, load_body, load, next, unread, cursor, here}
use cachedb.Sstable.Cursor.Window.{Ready, ensure-Holds}

-- What a cursor says of its entry, as a lookup would.
abbrev pub said : Cursor → Lookup
said c = record {
  found = true;
  tombstone = c.tombstone;
  value = if c.tombstone then [] else c.value;
  expires_at_ms = c.expires_at_ms;
}

-- A cursor that came from another past the bytes of an entry, which it shows.
pub record Shows (k : Bytes) (e : Entry) (c d : Cursor) : Type 0 where
  pub valid : d.valid ≡ true
  pub key : d.key ≡ k
  pub answer : said d ≡ answer_of e
  pub ready : Ready d
  pub same_table : d.table ≡ c.table
  pub behind : d.pos ≡ c.pos + length (bytes_of k e)

show_entry-Shows :
    (k : Bytes) (e : Entry) (more : Bytes) (c : Cursor)
    → Ready c
    → Fits k e
    → here c ≡ bytes_of k e ++ more
    → Shows k e c (show_entry c)
unfolding show_entry
show_entry-Shows k e more c r fits at =
    let reads = subst (λ b. Reads b k e) (sym at) (bytes_of-Reads k e more fits) in
    record {
      valid = refl;
      key = reads.key_same;
      answer = reads.answer;
      ready = record {
        sound = r.sound;
        readable = r.readable;
        no_faults = r.no_faults;
        window = r.window;
      };
      same_table = refl;
      behind = ap (λ n. c.pos + n) reads.total;
    }

-- The cursor it came from may have had another window.
Shows-from :
    (k : Bytes) (e : Entry) (b c d : Cursor)
    → c.table ≡ b.table
    → c.pos ≡ b.pos
    → Shows k e c d
    → Shows k e b d
Shows-from k e b c d table at s = record {
  valid = s.valid;
  key = s.key;
  answer = s.answer;
  ready = s.ready;
  same_table = s.same_table ∙ table;
  behind = s.behind ∙ ap (λ n. n + length (bytes_of k e)) at;
}

branch : (P : Cursor → Type 0) (b : Bool) (x y : Cursor) → b ≡ true → P x → P (if b then x else y)
branch P true x y h p = p
branch P false x y h p = absurd (false≢true h)

load_body-Shows :
    (k : Bytes) (e : Entry) (more : Bytes) (c : Cursor)
    → Ready c
    → Fits k e
    → drop c.pos c.table.file ≡ bytes_of k e ++ more
    → c.pos + length (bytes_of k e) ≤ c.table.data_end
    → c.table.data_end ≤ length c.table.file
    → total_of (here c) ≡ length (bytes_of k e)
    → Shows k e c (load_body c)
unfolding load_body
load_body-Shows k e more c r fits at inside size total =
    let n = total_of (here c) in
    let len = length (bytes_of k e) in
    let h = ensure-Holds n c r (omega (arith, inside, total)) size in
    let c' = (ensure n c).0 in
    let seen : here c' ≡ bytes_of k e ++ take (h.seen - len) more =
      h.bytes
      ∙ ap (take h.seen) at
      ∙ take-append_past len (h.seen - len) h.seen (bytes_of k e) more refl
          (omega (arith, h.enough, total)) in
    branch (Shows k e c) (ensure n c).1 (show_entry c') c' h.whole (
      Shows-from k e c c' (show_entry c') h.same_table h.same_pos
        (show_entry-Shows k e (take (h.seen - len) more) c' h.ready fits seen))

other : (P : Cursor → Type 0) (b : Bool) (x y : Cursor) → b ≡ false → P y → P (if b then x else y)
other P true x y h p = absurd (false≢true (sym h))
other P false x y h p = p

-- A table whose data block is there.
abbrev pub HasData : Sstable → Type 0
HasData t = t.data_end ≤ length t.file

load-Shows :
    (k : Bytes) (e : Entry) (more : Bytes) (c : Cursor)
    → Ready c
    → Fits k e
    → drop c.pos c.table.file ≡ bytes_of k e ++ more
    → c.pos + length (bytes_of k e) ≤ c.table.data_end
    → HasData c.table
    → Shows k e c (load c)
unfolding load
load-Shows k e more c r fits at inside size =
    let start = record c { valid = false } in
    let ready : Ready start = record {
      sound = r.sound;
      readable = r.readable;
      no_faults = r.no_faults;
      window = r.window;
    } in
    let least = bytes_of_min k e fits in
    let h = ensure-Holds 9 start ready (omega (arith, inside, least)) size in
    let c' = (ensure 9 start).0 in
    let file_same = ap (λ t. t.file) h.same_table in
    let end_same = ap (λ t. t.data_end) h.same_table in
    let at' : drop c'.pos c'.table.file ≡ bytes_of k e ++ more =
      ap₂ drop h.same_pos file_same ∙ at in
    let total =
      ap total_of (h.bytes ∙ ap (take h.seen) at) ∙ total_of-header k e more h.seen fits h.enough in
    other (Shows k e c) (c.failed || leb c.table.data_end c.pos) start _
      (more_left c.failed c.table.data_end c.pos r.sound (omega (arith, inside, least)))
      (branch (Shows k e c) (ensure 9 start).1 (load_body c') c' h.whole (
        Shows-from k e c c' (load_body c') h.same_table h.same_pos (
          load_body-Shows k e more c' h.ready fits at' (omega (arith, inside, end_same, h.same_pos))
            (omega (arith, size, end_same, ap length file_same)) total)))
  where
    more_left : (a : Bool) (m n : ℕ) → a ≡ false → n < m → (a || leb m n) ≡ false
    more_left a m n h less = ground arith

-- A cursor that shows the entries in order, and then ends without a failure.
abbrev pub Walks : SortedMap Entry → Cursor → Type 0
Walks [] c = (c.valid ≡ false) × (c.failed ≡ false)
Walks ((k, e) ∷ m) c = (c.valid ≡ true) × (c.key ≡ k) × (said c ≡ answer_of e) × Walks m (next c)

end_of_data :
    (c : Cursor)
    → Ready c
    → c.table.data_end ≤ c.pos
    → ((load c).valid ≡ false) × ((load c).failed ≡ false)
unfolding load
end_of_data c r h =
    branch (λ d. (d.valid ≡ false) × (d.failed ≡ false)) (c.failed || leb c.table.data_end c.pos)
      (record c { valid = false }) _ (ended c.failed c.table.data_end c.pos h) (refl, r.sound)
  where
    ended : (a : Bool) (m n : ℕ) → m ≤ n → (a || leb m n) ≡ true
    ended a m n h = ground arith

load-Walks :
    (m : SortedMap Entry) (more : Bytes) (c : Cursor)
    → Ready c
    → AllFit m
    → drop c.pos c.table.file ≡ entries_block m ++ more
    → c.pos + length (entries_block m) ≡ c.table.data_end
    → HasData c.table
    → Walks m (load c)
unfolding next
load-Walks [] more c r fits at inside size = end_of_data c r (omega (arith, inside))
load-Walks ((k, e) ∷ m) more c r fits at inside size =
    let len = length (bytes_of k e) in
    let whole = length-append (bytes_of k e) (entries_block m) in
    let at_entry = at ∙ append_assoc (bytes_of k e) (entries_block m) more in
    let s =
      load-Shows k e (entries_block m ++ more) c r fits.0 at_entry (omega (arith, inside, whole))
        size in
    let d = load c in
    let file_same = ap (λ t. t.file) s.same_table in
    let end_same = ap (λ t. t.data_end) s.same_table in
    let later : drop d.pos d.table.file ≡ entries_block m ++ more =
      ap₂ drop s.behind file_same
      ∙ sym (drop-drop c.pos len (c.pos + len) c.table.file refl)
      ∙ ap (drop len) at_entry
      ∙ drop-append_seam len (bytes_of k e) (entries_block m ++ more) refl in
    (
      s.valid,
      s.key,
      s.answer,
      load-Walks m more d s.ready fits.1 later (omega (arith, inside, whole, end_same, s.behind))
          (omega (arith, size, end_same, ap length file_same)),
    )

-- A cursor over a table whose data block holds entries that the writer laid down, and whose reads
-- succeed, shows every entry in order, and then ends without a failure, wherever the ends of its
-- window fall.
pub cursor-Walks :
    (t : Sstable) (m : SortedMap Entry) (more : Bytes)
    → t.readable ≡ true
    → AllFit m
    → t.file ≡ entries_block m ++ more
    → t.data_end ≡ length (entries_block m)
    → Walks m (cursor [] t)
unfolding cursor
cursor-Walks t m more readable fits front size =
    load-Walks m more (unread [] t)
      (record { sound = refl; readable = readable; no_faults = refl; window = refl }) fits front
      (omega (arith, size))
      (omega (arith, size, ap length front, length-append (entries_block m) more))
