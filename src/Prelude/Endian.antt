-- ===== src/Prelude/Endian.antt =====
-- The little-endian fields of the log and of the tables: `put_u32`, `put_u64`, `load_u32` and
-- `load_u64`, which src/wal.cpp and src/sstable.cpp each define.
use Prim.Native.Nat.{ℕ, zero, suc, ◌+◌, ◌*◌, ◌/◌, ◌%◌, ◌^◌, ◌<◌}
use mathlib.Core.Path.{◌≡◌, refl, ap}
use mathlib.Core.List.{[], ◌∷◌, ◌++◌}
use native.Mathlib.Nat.{pow-suc}
use native.Mathlib.Omega.{arith}
use cachedb.Prelude.Lists.{length, get_or, drop}
use cachedb.Prelude.Bytes.{Bytes}

-- The `n` low bytes of `v`, lowest first: (v >> shift) & 0xFF for shift = 0, 8, ...
unfoldable pub put_le : ℕ → ℕ → Bytes
put_le zero v = []
put_le (suc n) v = v % 256 ∷ put_le n (v / 256)

-- v = (v << 8) | b[i] from the highest byte down; the byte has no bit in common with v << 8.
unfoldable pub load_le : ℕ → Bytes → ℕ
load_le zero p = 0
load_le (suc n) p = load_le n (drop 1 p) * 256 + get_or p 0 0

unfoldable pub put_u32 : Bytes → ℕ → Bytes
put_u32 out v = out ++ put_le 4 v

unfoldable pub put_u64 : Bytes → ℕ → Bytes
put_u64 out v = out ++ put_le 8 v

abbrev pub load_u32 : Bytes → ℕ
load_u32 p = load_le 4 p

abbrev pub load_u64 : Bytes → ℕ
load_u64 p = load_le 8 p

pub length-put_le : (n v : ℕ) → length (put_le n v) ≡ n
unfolding put_le
length-put_le zero v = refl
length-put_le (suc n) v = ap suc (length-put_le n (v / 256))

pub load_le-put_le : (n v : ℕ) (rest : Bytes) → v < 256 ^ n → load_le n (put_le n v ++ rest) ≡ v
unfolding put_le load_le
load_le-put_le zero v rest h = omega arith
load_le-put_le (suc n) v rest h =
    omega (arith, pow-suc 256 n, load_le-put_le n (v / 256) rest (omega (arith, pow-suc 256 n)))

pub load_u32-put_le : (v : ℕ) (rest : Bytes) → v < 2 ^ 32 → load_u32 (put_le 4 v ++ rest) ≡ v
load_u32-put_le v rest h = load_le-put_le 4 v rest h

pub load_u64-put_le : (v : ℕ) (rest : Bytes) → v < 2 ^ 64 → load_u64 (put_le 8 v ++ rest) ≡ v
load_u64-put_le v rest h = load_le-put_le 8 v rest h
