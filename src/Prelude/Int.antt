-- ===== src/Prelude/Int.antt =====
-- int64_t values as integers over the native numbers, under the library's names (its ℤ stands on
-- the unary ℕ), with the casts to and from uint64_t that the file formats make.
use Prim.Native.Nat.{ℕ, suc, ◌+◌, ◌-◌, ◌%◌, ◌^◌, ◌≤◌, ◌<◌}
use mathlib.Core.Path.{◌≡◌}
use mathlib.Core.Bool.{Bool, true, false}
use native.Mathlib.Omega.{arith}
use cachedb.Prelude.Tests.{ltb, leb, ◌==◌, if◌then◌else◌}

-- `negsuc n` is -(n + 1).
pub data ℤ : Type 0 where
  pos : ℕ → ℤ
  negsuc : ℕ → ℤ

abbrev pub pos_part : ℤ → ℕ
pos_part (pos n) = n
pos_part (negsuc n) = 0

abbrev pub neg_part : ℤ → ℕ
neg_part (pos n) = 0
neg_part (negsuc n) = suc n

-- a - b, as an integer.
abbrev pub sub_ℕ : ℕ → ℕ → ℤ
sub_ℕ a b = if leb b a then pos (a - b) else negsuc (b - a - 1)

infix 50 ◌≤ℤ◌
abbrev pub ◌≤ℤ◌ : ℤ → ℤ → Type 0
a ≤ℤ b = pos_part a + neg_part b ≤ pos_part b + neg_part a

abbrev pub leb_ℤ : ℤ → ℤ → Bool
leb_ℤ a b = leb (pos_part a + neg_part b) (pos_part b + neg_part a)

abbrev pub is_zero : ℤ → Bool
is_zero (pos n) = n == 0
is_zero (negsuc n) = false

-- The range of int64_t.
abbrev pub IsI64 : ℤ → Type 0
IsI64 (pos n) = n < 2 ^ 63
IsI64 (negsuc n) = n < 2 ^ 63

-- static_cast<uint64_t> and static_cast<int64_t>.
unfoldable pub to_u64 : ℤ → ℕ
to_u64 (pos n) = n
to_u64 (negsuc n) = 2 ^ 64 - 1 - n

unfoldable pub to_i64 : ℕ → ℤ
to_i64 w = if ltb w (2 ^ 63) then pos w else negsuc (2 ^ 64 - 1 - w)

pub to_i64-to_u64 : (z : ℤ) → IsI64 z → to_i64 (to_u64 z) ≡ z
unfolding to_i64 to_u64
to_i64-to_u64 (pos n) h = ground arith
to_i64-to_u64 (negsuc n) h = ground arith

pub to_u64-lt : (z : ℤ) → IsI64 z → to_u64 z < 2 ^ 64
unfolding to_u64
to_u64-lt (pos n) h = omega arith
to_u64-lt (negsuc n) h = omega arith

pub is_zero-eq : (z : ℤ) → is_zero z ≡ true → z ≡ pos 0
is_zero-eq (pos n) h = ground arith
is_zero-eq (negsuc n) h = ground arith

-- The int64_t that a result out of range wraps round to, in two's complement.
unfoldable pub wrap_i64 : ℤ → ℤ
unfolding to_i64
wrap_i64 (pos n) = to_i64 (n % 2 ^ 64)
wrap_i64 (negsuc n) = to_i64 (2 ^ 64 - 1 - n % 2 ^ 64)

pub wrap_i64-IsI64 : (z : ℤ) → IsI64 z → wrap_i64 z ≡ z
unfolding wrap_i64 to_i64
wrap_i64-IsI64 (pos n) h = rw (inside n h) (first n h)
  where
    inside : (n : ℕ) → n < 2 ^ 63 → n % 2 ^ 64 ≡ n
    inside n h = omega arith

    first :
        (n : ℕ) → n < 2 ^ 63 → (if ltb n (2 ^ 63) then pos n else negsuc (2 ^ 64 - 1 - n)) ≡ pos n
    first n h = ground arith
wrap_i64-IsI64 (negsuc n) h = rw (inside n h) (second n h)
  where
    inside : (n : ℕ) → n < 2 ^ 63 → n % 2 ^ 64 ≡ n
    inside n h = omega arith

    second :
        (n : ℕ)
        → n < 2 ^ 63
        → (let w = 2 ^ 64 - 1 - n in if ltb w (2 ^ 63) then pos w else negsuc (2 ^ 64 - 1 - w))
          ≡ negsuc n
    second n h = ground arith
