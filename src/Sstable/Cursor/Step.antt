-- ===== src/Sstable/Cursor/Step.antt =====
-- src/sstable.cpp, `Sstable::Cursor`: how far a call of load takes a cursor.
use cachedb.Prelude.{
  ◌∙◌, ℕ, ◌+◌, ◌-◌, ◌≤◌, ◌<◌, ◌≡◌, refl, sym, ap, inl, inr, min, max, Bool, true, false, ◌&&◌, ◌||◌,
  Option, none, some, arith, ltb, leb, if◌then◌else◌, length, Bool-cases,
}
use mathlib.Core.Bool.{false≢true}
use cachedb.Prelude.Bytes.{Bytes}
use cachedb.Sstable.Reader.{total_of}
use cachedb.Sstable.Cursor.{
  Cursor, k_cursor_window, read_window, ensure, show_entry, load_body, load, here,
}

-- The bytes of the data block that are still ahead of a cursor.
abbrev pub left : Cursor → ℕ
left c = c.table.data_end - c.pos

-- What a read of the window leaves alone.
abbrev pub SameEntry : Cursor → Cursor → Type 0
SameEntry c d = (d.table ≡ c.table) × (d.pos ≡ c.pos) × (d.valid ≡ c.valid)

branch : (P : Cursor → Type 0) (b : Bool) (x y : Cursor) → P x → P y → P (if b then x else y)
branch P true x y p q = p
branch P false x y p q = q

ensure_branches :
    (P : Cursor × Bool → Type 0) (a b : Bool) (o : Option Bytes) (x y z : Cursor × Bool)
    (w : Bytes → Cursor × Bool)
    → P x
    → P y
    → P z
    → ((block : Bytes) → P (w block))
    → P (if a then x else if b then y else elim o [ none ↦ z | some block ↦ w block ])
ensure_branches P true b o x y z w p q r s = p
ensure_branches P false true o x y z w p q r s = q
ensure_branches P false false none x y z w p q r s = r
ensure_branches P false false (some block) x y z w p q r s = s block

pub ensure-SameEntry : (need : ℕ) (c : Cursor) → SameEntry c (ensure need c).0
unfolding ensure
ensure-SameEntry need c =
    ensure_branches (λ r. SameEntry c r.0)
      (leb c.buf_start c.pos && leb (c.pos - c.buf_start + need) (length c.buf))
      (ltb c.table.data_end (c.pos + need))
      (read_window c (min (c.table.data_end - c.pos) (max need k_cursor_window)) c.reads) _ _ _ _
      (refl, refl, refl) (refl, refl, refl) (refl, refl, refl) (λ block. (refl, refl, refl))

-- A cursor with n bytes ahead of it, or one nearer to the end if it has an entry.
abbrev pub Shrinks : ℕ → Cursor → Type 0
Shrinks n c = (left c ≤ n) × (c.valid ≡ true → left c < n)

end_of : (c d : Cursor) → SameEntry c d → d.table.data_end ≡ c.table.data_end
end_of c d same = ap (λ t. t.data_end) same.0

pub still : (c d : Cursor) → SameEntry c d → c.valid ≡ false → Shrinks (left c) d
still c d same h =
    (omega (arith, end_of c d same, same.1), λ v. absurd (false≢true (sym h ∙ sym same.2 ∙ v)))

pub SameEntry-trans : (c d e : Cursor) → SameEntry c d → SameEntry d e → SameEntry c e
SameEntry-trans c d e (t, p, v) (t', p', v') = (t' ∙ t, p' ∙ p, v' ∙ v)

show_entry-Shrinks :
    (c d : Cursor) → SameEntry c d → c.pos < c.table.data_end → Shrinks (left c) (show_entry d)
unfolding show_entry
show_entry-Shrinks c d same h =
    let at = end_of c d same in
    let near : c.table.data_end - c.pos ≡ d.table.data_end - d.pos = omega (arith, at, same.1) in
    let more : d.pos < d.table.data_end = omega (arith, at, same.1, h) in
    (omega (arith, near, past (here d) d.pos), λ v. omega (arith, near, more, past (here d) d.pos))
  where
    past : (block : Bytes) (n : ℕ) → n < n + total_of block
    past block n = omega arith

load_body-Shrinks :
    (c d : Cursor)
    → SameEntry c d
    → c.valid ≡ false
    → c.pos < c.table.data_end
    → Shrinks (left c) (load_body d)
unfolding load_body
load_body-Shrinks c d same off h =
    let (d', whole) = ensure (total_of (here d)) d in
    let same' = SameEntry-trans c d d' same (ensure-SameEntry (total_of (here d)) d) in
    branch (Shrinks (left c)) whole (show_entry d') d' (show_entry-Shrinks c d' same' h)
      (still c d' same' off)

pub load-Shrinks : (c : Cursor) → Shrinks (left c) (load c)
unfolding load
load-Shrinks c =
    let start = record c { valid = false } in
    let same = ensure-SameEntry 9 start in
    let idle = still start start (refl, refl, refl) refl in
    elim (Bool-cases (c.failed || leb c.table.data_end c.pos)) [
      | inl done ↦ rw done idle
      | inr more ↦ rw more (
          branch (Shrinks (left c)) (ensure 9 start).1 (load_body (ensure 9 start).0)
            (ensure 9 start).0
            (load_body-Shrinks start (ensure 9 start).0 same refl (inside c.failed _ _ more))
            (still start (ensure 9 start).0 same refl))
    ]
  where
    inside : (a : Bool) (m n : ℕ) → (a || leb m n) ≡ false → n < m
    inside a m n h = ground arith
