-- ===== src/Store/Names.antt =====
-- src/store.cpp, `sequence_of` and `table_path`: the file names of tables.
use cachedb.Prelude.{
  ℕ, zero, suc, ◌+◌, ◌-◌, ◌*◌, ◌^◌, ◌≤◌, ◌<◌, ◌≡◌, min, Bool, true, false, not, Option, none, some,
  [], ◌∷◌, ◌++◌, leb, if◌then◌else◌, length, take, drop, replicate, refl, ap, ◌∙◌, arith,
  length-append, length-replicate, take-append_seam, drop-append_seam,
}
use mathlib.Core.Option.{some-injective}
use cachedb.Prelude.Bytes.{Bytes, key_eq, cmp_refl}
use cachedb.Prelude.Text.{codes}
use cachedb.Prelude.Chars.{is_digit, digits_value, decimal, digits_value-decimal, nil_value}
use cachedb.Store.{Store, temp_path}

abbrev pub k_table_suffix : Bytes
k_table_suffix = codes ".sst"

abbrev pub k_sequence_digits : ℕ
k_sequence_digits = 6

-- for (const char c : digits), the test
abbrev pub all_digits : Bytes → Bool
all_digits [] = true
all_digits (c ∷ cs) = if is_digit c then all_digits cs else false

-- strtoull in base 10 on digits, which stops at ULLONG_MAX.
unfoldable pub strtoull : ℕ → Bytes → ℕ
strtoull value [] = min value (2 ^ 64 - 1)
strtoull value (c ∷ cs) = strtoull (value * 10 + (c - 48)) cs

unfoldable pub sequence_of : Bytes → Option ℕ
unfolding strtoull
sequence_of name =
    let suffix = length k_table_suffix in
    let digits = take (length name - suffix) name in
    if leb (length name) suffix
    then none
    else if not (key_eq (drop (length name - suffix) name) k_table_suffix)
    then none
    else if not (all_digits digits)
    then none
    else some (strtoull 0 digits)

-- snprintf's %0*llu, with the zeros in front.
unfoldable pub padded : ℕ → Bytes
padded n =
    let digits = decimal 20 n [] in replicate (k_sequence_digits - length digits) 48 ++ digits

unfoldable pub table_name : ℕ → Bytes
unfolding padded
table_name sequence = padded sequence ++ k_table_suffix

unfoldable pub table_path : Store → ℕ → Bytes
unfolding table_name
table_path s sequence = temp_path s (table_name sequence)

digits-strtoull :
    (v n : ℕ) (ds : Bytes)
    → digits_value v ds ≡ some n
    → (all_digits ds ≡ true) × (strtoull v ds ≡ min n (2 ^ 64 - 1))
unfolding digits_value strtoull
digits-strtoull v n [] h = (refl, ap (λ m. min m (2 ^ 64 - 1)) (some-injective v n h))
digits-strtoull v n (c ∷ cs) h = ground (arith, digits-strtoull (v * 10 + (c - 48)) n cs)

digits_value-zeros :
    (k : ℕ) (ds : Bytes) → digits_value 0 (replicate k 48 ++ ds) ≡ digits_value 0 ds
unfolding digits_value
digits_value-zeros zero ds = refl
digits_value-zeros (suc k) ds = digits_value-zeros k ds

-- A table's file name gives back its sequence number, which fits in 64 bits, so that a restart
-- finds each table that was published and its place in the order.
pub sequence_of-table_name : (n : ℕ) → n < 2 ^ 64 → sequence_of (table_name n) ≡ some n
unfolding sequence_of table_name padded
sequence_of-table_name n small =
    let digits = decimal 20 n [] in
    let zeros : Bytes = replicate (k_sequence_digits - length digits) 48 in
    let front = zeros ++ digits in
    let name = front ++ k_table_suffix in
    let long : 6 ≤ length front = omega (
      arith,
      length-append zeros digits,
      length-replicate {A = ℕ} (k_sequence_digits - length digits) 48,
    ) in
    let size = length-append front k_table_suffix in
    let at : length name - 4 ≡ length front = omega (arith, size) in
    let front_part : take (length name - 4) name ≡ front =
      ap (λ m. take m name) at ∙ take-append_seam (length front) front k_table_suffix refl in
    let suffix_part : drop (length name - 4) name ≡ k_table_suffix =
      ap (λ m. drop m name) at ∙ drop-append_seam (length front) front k_table_suffix refl in
    let (all, value) = digits-strtoull 0 n front (
      digits_value-zeros (k_sequence_digits - length digits) digits
      ∙ digits_value-decimal 20 n [] (omega arith)
      ∙ nil_value n) in
    rw (suffix_part, front_part)
      (by (leb (length name) 4) (key_eq k_table_suffix k_table_suffix) (all_digits front)
        (strtoull 0 front) (longer (length name) (omega (arith, long, size)))
        (rw (key_eq, cmp_refl k_table_suffix) refl) all (value ∙ (omega arith)))
  where
    longer : (n : ℕ) → 5 ≤ n → leb n 4 ≡ false
    longer n h = ground arith

    by :
        (a b c : Bool) (m : ℕ)
        → a ≡ false
        → b ≡ true
        → c ≡ true
        → m ≡ n
        → (if a then none else if not b then none else if not c then none else some m) ≡ some n
    by a b c m p q r e = rw (p, q, r) (ap some e)
