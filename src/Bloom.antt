-- ===== src/Bloom.antt =====
-- src/bloom.h and src/bloom.cpp: the bloom filter of an SSTable, a flat block of bytes. A double of
-- the source is an exact fraction here, and memory does not run out.
pub mod Probes
pub mod Member
pub mod Shape
use Prim.Native.Nat.{bit_xor, bit_or}
use cachedb.Prelude.{
  ℕ, zero, suc, ◌+◌, ◌-◌, ◌*◌, ◌/◌, ◌%◌, ◌^◌, min, max, Bool, true, false, ◌||◌, List, [], ◌∷◌,
  ◌++◌, ltb, if◌then◌else◌, length, get_or, set, replicate,
}
use cachedb.Prelude.Int.{ℤ, pos_part}
use cachedb.Prelude.Words.{u32, u64}
use cachedb.Prelude.Bytes.{Bytes}
use cachedb.Prelude.Bits.{set_bit, test_bit}

-- The loop of `fnv1a` over the bytes that are left.
unfoldable pub fnv1a_loop : ℕ → Bytes → ℕ
fnv1a_loop h [] = h
fnv1a_loop h (c ∷ data_left) = fnv1a_loop (u64 (bit_xor h c * 0x100000001b3)) data_left

unfoldable pub fnv1a : Bytes → ℕ
unfolding fnv1a_loop
fnv1a bytes = fnv1a_loop 0xcbf29ce484222325 bytes

unfoldable pub mix : ℕ → ℕ
mix z =
    let first = u64 (bit_xor z (z / 2 ^ 30) * 0xbf58476d1ce4e5b9) in
    let second = u64 (bit_xor first (first / 2 ^ 27) * 0x94d049bb133111eb) in
    bit_xor second (second / 2 ^ 31)

pub record Probe : Type 0 where
  pub h1 : ℕ
  pub h2 : ℕ

unfoldable pub probe_for : Bytes → Probe
unfolding fnv1a mix
probe_for key = let h = mix (fnv1a key) in record { h1 = u32 h; h2 = bit_or (u32 (h / 2 ^ 32)) 1 }

-- static_cast<int>(b * 0.69 + 0.5), which is below 1 for a negative b. The fraction is a whole
-- number for no b whose result is below 30, so rounding does not change the result.
unfoldable pub optimal_probes : ℤ → ℕ
optimal_probes bits_per_key = let k = (pos_part bits_per_key * 69 + 50) / 100 in min 30 (max 1 k)

unfoldable pub bits_for : ℕ → ℤ → ℕ
bits_for key_count bits_per_key =
    let bits = u64 (key_count * max 1 (pos_part bits_per_key)) in max 64 (u64 (bits + 7) / 8 * 8)

-- block[bit / 8] |= 1u << (bit % 8), and the test of that bit.
unfoldable pub set_bit_at : Bytes → ℕ → Bytes
set_bit_at block bit = set block (bit / 8) (set_bit (get_or block (bit / 8) 0) (bit % 8))

unfoldable pub test_bit_at : Bytes → ℕ → Bool
test_bit_at block bit = test_bit (get_or block (bit / 8) 0) (bit % 8)

-- The loop for (int i = 0; i < k; ++i) of `build`, over the probes of one key.
unfoldable pub set_probes : ℕ → ℕ → ℕ → ℕ → Bytes → Bytes
unfolding set_bit_at
set_probes zero bits h2 pos block = block
set_probes (suc k) bits h2 pos block =
    set_probes k bits h2 (u32 (pos + h2)) (set_bit_at block (pos % bits))

unfoldable pub add_keys : ℕ → ℕ → List Bytes → Bytes → Bytes
unfolding set_probes probe_for
add_keys k bits [] block = block
add_keys k bits (key ∷ keys) block =
    let p = probe_for key in add_keys k bits keys (set_probes k bits p.h2 p.h1 block)

unfoldable pub build : List Bytes → ℤ → Bytes
unfolding add_keys bits_for optimal_probes
build keys bits_per_key =
    let bits = bits_for (length keys) bits_per_key in
    let k = optimal_probes bits_per_key in add_keys k bits keys (replicate (bits / 8) 0) ++ k ∷ []

-- The loop of `may_contain`, from the position `pos` on.
unfoldable pub test_probes : ℕ → ℕ → ℕ → ℕ → Bytes → Bool
unfolding test_bit_at
test_probes zero bits h2 pos block = true
test_probes (suc k) bits h2 pos block =
    let rest = test_probes k bits h2 (u32 (pos + h2)) block in
    if test_bit_at block (pos % bits) then rest else false

unfoldable pub may_contain : Bytes → Bytes → Bool
unfolding test_probes probe_for
may_contain block key =
    let k = get_or block (length block - 1) 0 in
    let p = probe_for key in
    if ltb (length block) 2
    then true
    else if ltb k 1 || ltb 30 k
    then true
    else test_probes k ((length block - 1) * 8) p.h2 p.h1 block
