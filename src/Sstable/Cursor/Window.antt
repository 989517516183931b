-- ===== src/Sstable/Cursor/Window.antt =====
-- src/sstable.cpp, `Sstable::Cursor::ensure`: the window is what the file has from the cursor on.
use cachedb.Prelude.{
  ℕ, zero, suc, ◌+◌, ◌-◌, ◌≤◌, ◌≡◌, refl, sym, ap, ◌∙◌, min, max, Bool, true, false, ◌&&◌, Option,
  none, some, List, [], ◌∷◌, arith, ltb, leb, if◌then◌else◌, length, take, drop, length-take,
  length-drop, drop-drop,
}
use mathlib.Core.Path.{subst}
use mathlib.Core.Bool.{false≢true}
use mathlib.Core.Option.{some-injective, none-ne-some}
use cachedb.Prelude.Bytes.{Bytes}
use cachedb.Sstable.Reader.{read_exact}
use cachedb.Sstable.Cursor.{Cursor, k_cursor_window, read_window, later_reads, ensure, here}

-- A cursor that has met no failure and meets none, and whose window is a part of the file.
pub record Ready (c : Cursor) : Type 0 where
  pub sound : c.failed ≡ false
  pub readable : c.table.readable ≡ true
  pub no_faults : c.reads ≡ []
  pub window : c.buf ≡ take (length c.buf) (drop c.buf_start c.table.file)

-- A call of ensure that succeeded.
pub record Holds (need : ℕ) (c : Cursor) (r : Cursor × Bool) : Type 0 where
  pub whole : r.1 ≡ true
  pub ready : Ready r.0
  pub same_table : r.0.table ≡ c.table
  pub same_pos : r.0.pos ≡ c.pos
  pub seen : ℕ
  pub enough : need ≤ seen
  pub bytes : here r.0 ≡ take seen (drop c.pos c.table.file)

drop-take : {A : Type 0} (d w : ℕ) (xs : List A) → drop d (take w xs) ≡ take (w - d) (drop d xs)
drop-take zero w xs = let same : w ≡ w - 0 = omega arith in ap (λ n. take n xs) same
drop-take (suc d) zero xs = let none_left : 0 - suc d ≡ 0 = omega arith in rw none_left refl
drop-take (suc d) (suc w) [] = sym (take-nil (suc w - suc d))
  where
    take-nil : {A : Type 0} (n : ℕ) → take {A = A} n [] ≡ []
    take-nil zero = refl
    take-nil (suc n) = refl
drop-take (suc d) (suc w) (x ∷ xs) =
    let same : w - d ≡ suc w - suc d = omega arith in
    drop-take d w xs ∙ ap (λ n. take n (drop d xs)) same

ensure_cases :
    (P : Cursor × Bool → Type 0) (a b : Bool) (o : Option Bytes) (x y z : Cursor × Bool)
    (w : Bytes → Cursor × Bool)
    → b ≡ false
    → (a ≡ true → P x)
    → (block : Bytes) → o ≡ some block
    → P (w block)
    → P (if a then x else if b then y else elim o [ none ↦ z | some block ↦ w block ])
ensure_cases P true b o x y z w off p block is q = p refl
ensure_cases P false true o x y z w off p block is q = absurd (false≢true (sym off))
ensure_cases P false false none x y z w off p block is q = absurd (none-ne-some block is)
ensure_cases P false false (some other) x y z w off p block is q =
    subst (λ m. P (w m)) (sym (some-injective other block is)) q

held-Holds :
    (need : ℕ) (c : Cursor)
    → Ready c
    → (c.buf_start ≤ c.pos) × (c.pos - c.buf_start + need ≤ length c.buf)
    → Holds need c (c, true)
held-Holds need c r (from, inside) =
    let d = c.pos - c.buf_start in
    record {
      whole = refl;
      ready = r;
      same_table = refl;
      same_pos = refl;
      seen = length c.buf - d;
      enough = omega (arith, inside);
      bytes =
          ap (drop d) r.window
          ∙ drop-take d (length c.buf) (drop c.buf_start c.table.file)
          ∙ ap (take (length c.buf - d))
              (drop-drop c.buf_start d c.pos c.table.file (omega (arith, from)));
    }

-- The window of `want` bytes from the cursor on.
abbrev refilled : ℕ → Cursor → Cursor
refilled want c = record c {
  reads = later_reads c.reads;
  buf = take want (drop c.pos c.table.file);
  buf_start = c.pos;
}

refilled-Holds :
    (need want : ℕ) (c : Cursor)
    → Ready c
    → need ≤ want
    → c.pos + want ≤ length c.table.file
    → Holds need c (refilled want c, true)
refilled-Holds need want c r enough inside =
    let behind = drop c.pos c.table.file in
    let size : length (take want behind) ≡ want =
      omega (arith, length-take want behind, length-drop c.pos c.table.file, inside) in
    let start : c.pos - c.pos ≡ 0 = omega arith in
    record {
      whole = refl;
      ready = record {
        sound = r.sound;
        readable = r.readable;
        no_faults = ap later_reads r.no_faults;
        window = ap (λ n. take n behind) (sym size);
      };
      same_table = refl;
      same_pos = refl;
      seen = want;
      enough = enough;
      bytes = ap (λ n. drop n (take want behind)) start;
    }

-- The file has the bytes that a window asks for.
read_window-file :
    (c : Cursor) (want : ℕ)
    → Ready c
    → c.pos + want ≤ length c.table.file
    → read_window c want c.reads ≡ some (take want (drop c.pos c.table.file))
unfolding read_exact
read_window-file c want r inside =
    ap (read_window c want) r.no_faults
    ∙ rw r.readable (rw (fits (c.pos + want) (length c.table.file) inside) refl)
  where
    fits : (m n : ℕ) → m ≤ n → leb m n ≡ true
    fits m n h = ground arith

pub ensure-Holds :
    (need : ℕ) (c : Cursor)
    → Ready c
    → c.pos + need ≤ c.table.data_end
    → c.table.data_end ≤ length c.table.file
    → Holds need c (ensure need c)
unfolding ensure
ensure-Holds need c r inside size =
    let want = min (c.table.data_end - c.pos) (max need k_cursor_window) in
    let fits : c.pos + want ≤ length c.table.file = omega (arith, inside, size) in
    ensure_cases (Holds need c)
      (leb c.buf_start c.pos && leb (c.pos - c.buf_start + need) (length c.buf))
      (ltb c.table.data_end (c.pos + need)) (read_window c want c.reads) (c, true) (c, false)
      (record c { reads = later_reads c.reads; failed = true }, false)
      (λ block. (record c { reads = later_reads c.reads; buf = block; buf_start = c.pos }, true))
      (past c.table.data_end (c.pos + need) inside)
      (λ held. held-Holds need c r (both c.buf_start c.pos _ (length c.buf) held))
      (take want (drop c.pos c.table.file)) (read_window-file c want r fits)
      (refilled-Holds need want c r (omega (arith, inside)) fits)
  where
    past : (m n : ℕ) → n ≤ m → ltb m n ≡ false
    past m n h = ground arith

    both : (a b m n : ℕ) → (leb a b && leb m n) ≡ true → (a ≤ b) × (m ≤ n)
    both a b m n h = ground arith
