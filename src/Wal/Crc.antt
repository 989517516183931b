-- ===== src/Wal/Crc.antt =====
-- src/wal.cpp, `make_crc_table`, `crc_table` and `crc32`.
use Prim.Native.Nat.{bit_xor}
use cachedb.Prelude.{
  ℕ, zero, suc, ◌+◌, ◌/◌, ◌%◌, ◌^◌, ◌<◌, ◌≡◌, refl, List, [], ◌∷◌, arith, ◌==◌, if◌then◌else◌,
  get_or,
}
use cachedb.Prelude.Bytes.{Bytes}
use cachedb.Prelude.Bits.{bit_xor-lt}

-- c = (c & 1u) ? (0xEDB88320u ^ (c >> 1)) : (c >> 1)
unfoldable pub crc_bit : ℕ → ℕ
crc_bit c = if c % 2 == 1 then bit_xor 0xEDB88320 (c / 2) else c / 2

unfoldable pub crc_bits : ℕ → ℕ → ℕ
unfolding crc_bit
crc_bits zero c = c
crc_bits (suc n) c = crc_bits n (crc_bit c)

-- The entries for i, i + 1, ..., i + n - 1.
unfoldable pub crc_rows : ℕ → ℕ → List ℕ
unfolding crc_bits
crc_rows zero i = []
crc_rows (suc n) i = crc_bits 8 i ∷ crc_rows n (i + 1)

unfoldable pub crc_table : List ℕ
unfolding crc_rows
crc_table = crc_rows 256 0

-- c = table[(c ^ byte) & 0xFFu] ^ (c >> 8)
unfoldable pub crc_byte : ℕ → ℕ → ℕ
unfolding crc_table
crc_byte c byte = bit_xor (get_or crc_table (bit_xor c byte % 256) 0) (c / 2 ^ 8)

unfoldable pub crc_loop : ℕ → Bytes → ℕ
unfolding crc_byte
crc_loop c [] = c
crc_loop c (byte ∷ bytes) = crc_loop (crc_byte c byte) bytes

unfoldable pub crc32 : Bytes → ℕ
unfolding crc_loop
crc32 input = bit_xor (crc_loop 0xFFFFFFFF input) 0xFFFFFFFF

crc_bit-lt : (c : ℕ) → c < 2 ^ 32 → crc_bit c < 2 ^ 32
unfolding crc_bit
crc_bit-lt c h = ground (arith, bit_xor-lt 32 0xEDB88320 (c / 2))

crc_bits-lt : (n c : ℕ) → c < 2 ^ 32 → crc_bits n c < 2 ^ 32
unfolding crc_bits
crc_bits-lt zero c h = h
crc_bits-lt (suc n) c h = crc_bits-lt n (crc_bit c) (crc_bit-lt c h)

crc_rows-lt : (n i j : ℕ) → n + i < 2 ^ 32 → get_or (crc_rows n i) j 0 < 2 ^ 32
unfolding crc_rows
crc_rows-lt zero i j h = omega arith
crc_rows-lt (suc n) i zero h = crc_bits-lt 8 i (omega arith)
crc_rows-lt (suc n) i (suc j) h = crc_rows-lt n (i + 1) j (omega arith)

crc_table-lt : (j : ℕ) → get_or crc_table j 0 < 2 ^ 32
crc_table-lt j = unfold crc_table in crc_rows-lt 256 0 j (omega arith)

crc_byte-lt : (c byte : ℕ) → c < 2 ^ 32 → crc_byte c byte < 2 ^ 32
crc_byte-lt c byte h =
    unfold crc_byte in bit_xor-lt 32 _ _ (crc_table-lt (bit_xor c byte % 256)) (omega arith)

crc_loop-cons :
    (c byte : ℕ) (bytes : Bytes) → crc_loop c (byte ∷ bytes) ≡ crc_loop (crc_byte c byte) bytes
crc_loop-cons c byte bytes = unfold crc_loop in refl

crc_loop-lt : (c : ℕ) (bytes : Bytes) → c < 2 ^ 32 → crc_loop c bytes < 2 ^ 32
crc_loop-lt c [] h = unfold crc_loop in h
crc_loop-lt c (byte ∷ bytes) h =
    rw crc_loop-cons (crc_loop-lt (crc_byte c byte) bytes (crc_byte-lt c byte h))

-- The checksum fits the four bytes that the record has for it.
pub crc32-lt : (input : Bytes) → crc32 input < 2 ^ 32
crc32-lt input =
    unfold crc32 in bit_xor-lt 32 _ _ (crc_loop-lt 0xFFFFFFFF input (omega arith)) (omega arith)

-- The check value that is published for this CRC, of the text "123456789".
crc32_check : crc32 (0x31 ∷ 0x32 ∷ 0x33 ∷ 0x34 ∷ 0x35 ∷ 0x36 ∷ 0x37 ∷ 0x38 ∷ 0x39 ∷ []) ≡ 0xCBF43926
unfolding crc32
crc32_check = refl
