-- ===== src/Prelude/Bits.antt =====
-- Laws of ^, | and & on the words of the program.
use Prim.Native.Nat.{
  ℕ, zero, suc, ◌/◌, ◌%◌, ◌^◌, ◌≤◌, ◌<◌, bit_and, bit_or, bit_xor, digits, bit_xor-bitwise, differ,
}
use mathlib.Core.Path.{◌≡◌, refl}
use mathlib.Core.Bool.{Bool, false, true, not, ◌&&◌, ◌||◌}
use native.Mathlib.Nat.{le_refl, pow-suc}
use native.Mathlib.Omega.{arith}
use cachedb.Prelude.Tests.{ltb, ◌==◌, if◌then◌else◌}

differ-lt : (a b : ℕ) → a < 2 → b < 2 → differ a b < 2
differ-lt zero b p q = q
differ-lt (suc a) zero p q = p
differ-lt (suc a) (suc b) p q = omega (arith, differ-lt a b (omega arith) (omega arith))

-- `a` below 2 ^ k and `b` below 2 ^ k have an exclusive or below 2 ^ k.
digits_xor-lt : (k n a b : ℕ) → a ≤ n → a < 2 ^ k → b < 2 ^ k → digits (λ b. b) differ n a b < 2 ^ k
digits_xor-lt k zero a b h p q = q
digits_xor-lt k (suc n) zero b h p q = q
digits_xor-lt zero (suc n) (suc a) b h p q = absurd (omega arith)
digits_xor-lt (suc k) (suc n) (suc a) b h p q =
    ground
      (arith, pow-suc 2 k, digits_xor-lt k n (suc a / 2) (b / 2), differ-lt (suc a % 2) (b % 2))

pub bit_xor-lt : (k a b : ℕ) → a < 2 ^ k → b < 2 ^ k → bit_xor a b < 2 ^ k
bit_xor-lt k a b p q = rw (bit_xor-bitwise a b) (digits_xor-lt k a a b (le_refl a) p q)

-- A test that passes for `bound - 1`, ..., 1 and 0.
passes : (ℕ → Bool) → ℕ → Bool
passes test zero = true
passes test (suc bound) = let below = passes test bound in if test bound then below else false

passes-at : (test : ℕ → Bool) (bound n : ℕ) → n < bound → passes test bound ≡ true → test n ≡ true
unfolding passes
passes-at test zero n small h = absurd (omega arith)
passes-at test (suc bound) n small h = ground (arith, passes-at test bound n)

-- byte | (1u << i), and (byte & (1u << i)) != 0.
abbrev pub set_bit : ℕ → ℕ → ℕ
set_bit byte i = bit_or byte (2 ^ i)

abbrev pub test_bit : ℕ → ℕ → Bool
test_bit byte i = not (bit_and byte (2 ^ i) == 0)

-- One bit of a byte is set, the others stay, and the byte stays a byte.
abbrev set_bit_row : ℕ → ℕ → ℕ → Bool
set_bit_row byte i j =
    ltb (set_bit byte i) 256
    && (if test_bit (set_bit byte i) j
        then i == j || test_bit byte j
        else not (i == j || test_bit byte j))

set_bit_table : passes (λ byte. passes (λ i. passes (λ j. set_bit_row byte i j) 8) 8) 256 ≡ true
unfolding passes
set_bit_table = refl

row_lem : (byte i j : ℕ) → byte < 256 → i < 8 → j < 8 → set_bit_row byte i j ≡ true
row_lem byte i j p q r =
    passes-at _ 8 j r (passes-at _ 8 i q (passes-at _ 256 byte p set_bit_table))

zero_table : passes (λ i. not (test_bit 0 i)) 8 ≡ true
unfolding passes
zero_table = refl

pub test_bit-zero : (i : ℕ) → i < 8 → test_bit 0 i ≡ false
test_bit-zero i p = ground (arith, passes-at (λ i. not (test_bit 0 i)) 8 i p zero_table)

pub set_bit-lt : (byte i : ℕ) → byte < 256 → i < 8 → set_bit byte i < 256
set_bit-lt byte i p q = ground (arith, row_lem byte i 0)

pub test_bit-set_bit_self : (byte i : ℕ) → byte < 256 → i < 8 → test_bit (set_bit byte i) i ≡ true
test_bit-set_bit_self byte i p q = ground (arith, row_lem byte i i)

-- Setting a bit clears none.
pub test_bit-set_bit :
    (byte i j : ℕ)
    → byte < 256
    → i < 8
    → j < 8
    → test_bit byte j ≡ true
    → test_bit (set_bit byte i) j ≡ true
test_bit-set_bit byte i j p q r h = ground (arith, row_lem byte i j)
