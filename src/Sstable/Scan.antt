-- ===== src/Sstable/Scan.antt =====
-- What `Sstable::get` of src/sstable.cpp answers on a table with any bytes.
use cachedb.Prelude.{
  ℕ, zero, suc, ◌+◌, ◌-◌, ◌<◌, ◌≤◌, ◌≡◌, ◌≢◌, refl, sym, ap, ◌∙◌, Bool, true, false, not, ◌&&◌,
  Option, none, some, ltb, leb, if◌then◌else◌, length, drop, arith, length-drop, drop-drop,
}
use mathlib.Core.Option.{some-injective}
use cachedb.Prelude.Bytes.{Bytes, key_lt, key_eq, key_eq_iff}
use cachedb.Bloom.{may_contain}
use cachedb.Sstable.Reader.{
  Lookup, absent, Sstable, read_exact, total_of, key_of, entry_of, scan, block_range, get_block,
  get,
}

scan_some : (f : ℕ) (block key : Bytes) → length block < f → scan f block key ≢ none
unfolding scan
scan_some zero block key small = absurd (omega arith)
scan_some (suc f) block key small =
    chosen (ltb (length block) 9) (ltb (length block) (total_of block)) (key_eq (key_of block) key)
      (key_lt key (key_of block)) (scan f (drop (total_of block) block) key)
      (λ long.
        scan_some f (drop (total_of block) block) key
          (omega (arith, length-drop (total_of block) block, long_lem (length block) long)))
  where
    long_lem : (n : ℕ) → ltb n 9 ≡ false → 9 ≤ n
    long_lem n h = ground arith

    chosen :
        (a b c d : Bool) (rest : Option Lookup)
        → (a ≡ false → rest ≢ none)
        → (if a
            then some absent
            else if b
            then some absent
            else if c
            then some (entry_of block)
            else if d
            then some absent
            else rest)
          ≢ none
    chosen true b c d rest h = λ e. cc
    chosen false true c d rest h = λ e. cc
    chosen false false true d rest h = λ e. cc
    chosen false false false true rest h = λ e. cc
    chosen false false false false rest h = h refl

get_block-ne-none :
    (t : Sstable) (key : Bytes) (range : Option (ℕ × ℕ)) → get_block t key range ≢ none
unfolding get_block
get_block-ne-none t key none = λ e. cc
get_block-ne-none t key (some (from, to)) =
    either (leb to from) (some absent) _ (λ e. cc) (read (read_exact t from (to - from)))
  where
    either : (b : Bool) (x y : Option Lookup) → x ≢ none → y ≢ none → (if b then x else y) ≢ none
    either true x y h k = h
    either false x y h k = k

    read :
        (o : Option Bytes)
        → elim o as (λ o. Option Lookup) [
          | none ↦ some absent
          | some block ↦ scan (suc (length block)) block key
        ]
          ≢ none
    read none = λ e. cc
    read (some block) = scan_some (suc (length block)) block key (omega arith)

-- Every lookup ends, on whatever bytes the table has.
pub get-ne-none : (t : Sstable) (key : Bytes) → get t key ≢ none
unfolding get
get-ne-none t key =
    either (t.use_bloom && not (may_contain t.bloom key))
      (get_block-ne-none t key (block_range key t.data_end t.index))
  where
    either : (b : Bool) {y : Option Lookup} → y ≢ none → (if b then some absent else y) ≢ none
    either true k = λ e. cc
    either false k = k

-- The answer stands in the block: an entry that lies in it whole, with this key.
abbrev pub Stands : Bytes → Bytes → Lookup → Type 0
Stands block key l =
    (at : ℕ) × (at + total_of (drop at block) ≤ length block)
    × (key_of (drop at block) ≡ key)
    × (l ≡ entry_of (drop at block))

-- Whatever bytes a block has, a key that the scan finds stands in it.
pub scan-Stands :
    (f : ℕ) (block key : Bytes) (l : Lookup)
    → scan f block key ≡ some l
    → l.found ≡ true
    → Stands block key l
unfolding scan
scan-Stands zero block key l h found = cc
scan-Stands (suc f) block key l h found =
    chosen (ltb (length block) 9) (ltb (length block) (total_of block)) (key_eq (key_of block) key)
      (key_lt key (key_of block)) (scan f (drop (total_of block) block) key) refl refl
      (λ h'. scan-Stands f (drop (total_of block) block) key l h' found) h
  where
    not_absent : some absent ≢ some l
    not_absent e =
        let wrong : false ≡ true = ap (λ x. x.found) (some-injective absent l e) ∙ found in cc

    fits_lem : (n m : ℕ) → ltb n m ≡ false → m ≤ n
    fits_lem n m h = ground arith

    inside_lem :
        (n at x y len m : ℕ) → at + x ≤ m → m ≡ len - n → x ≡ y → n ≤ len → n + at + y ≤ len
    inside_lem n at x y len m h e same fits = omega arith

    from_start : (x len : ℕ) → x ≤ len → 0 + x ≤ len
    from_start x len h = omega arith

    behind : (n : ℕ) → n ≤ length block → Stands (drop n block) key l → Stands block key l
    behind n fits (at, inside, key_same, l_same) =
        let place : drop at (drop n block) ≡ drop (n + at) block =
          drop-drop n at (n + at) block refl in
        (
          n + at,
          inside_lem n at (total_of (drop at (drop n block))) (total_of (drop (n + at) block))
              (length block) (length (drop n block)) inside (length-drop n block)
              (ap total_of place) fits,
          sym (ap key_of place) ∙ key_same,
          l_same ∙ ap entry_of place,
        )

    chosen :
        (a b c d : Bool) (rest : Option Lookup)
        → ltb (length block) (total_of block) ≡ b
        → key_eq (key_of block) key ≡ c
        → (rest ≡ some l → Stands (drop (total_of block) block) key l)
        → (if a
            then some absent
            else if b
            then some absent
            else if c
            then some (entry_of block)
            else if d
            then some absent
            else rest)
          ≡ some l
        → Stands block key l
    chosen true b c d rest eb ec later h = absurd (not_absent h)
    chosen false true c d rest eb ec later h = absurd (not_absent h)
    chosen false false true d rest eb ec later h = (
      0,
      from_start (total_of block) (length block) (fits_lem (length block) (total_of block) eb),
      (key_eq_iff (key_of block) key).0 ec,
      sym (some-injective (entry_of block) l h),
    )
    chosen false false false true rest eb ec later h = absurd (not_absent h)
    chosen false false false false rest eb ec later h =
        behind (total_of block) (fits_lem (length block) (total_of block) eb) (later h)
