-- ===== src/Prelude/Words.antt =====
-- size_t and uint64_t arithmetic, which wraps.
use Prim.Native.Nat.{ℕ, ◌+◌, ◌-◌, ◌%◌, ◌^◌}

abbrev pub u32 : ℕ → ℕ
u32 n = n % 2 ^ 32

abbrev pub u64 : ℕ → ℕ
u64 n = n % 2 ^ 64

-- a + b, and a - b without a borrow past zero.
abbrev pub add_u64 : ℕ → ℕ → ℕ
add_u64 a b = u64 (a + b)

abbrev pub sub_u64 : ℕ → ℕ → ℕ
sub_u64 a b = u64 (a + 2 ^ 64 - b)
