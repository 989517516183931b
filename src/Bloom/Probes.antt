-- ===== src/Bloom/Probes.antt =====
-- The bits of a block under the loops of src/bloom.cpp: what `set_probes` sets is set, stays set,
-- and is what `test_probes` looks at.
use cachedb.Prelude.{
  ℕ, zero, suc, ◌+◌, ◌*◌, ◌/◌, ◌%◌, ◌<◌, ◌≡◌, refl, true, [], ◌∷◌, arith, length, get_or, set,
  length-set, if◌then◌else◌, ◌==◌,
}
use cachedb.Prelude.Words.{u32}
use cachedb.Prelude.Bytes.{Bytes, IsBytes}
use cachedb.Prelude.Bits.{set_bit, test_bit, set_bit-lt, test_bit-set_bit_self, test_bit-set_bit}
use cachedb.Bloom.{set_bit_at, test_bit_at, set_probes, test_probes}

get_or-set :
    (xs : Bytes) (i j v : ℕ)
    → i < length xs
    → get_or (set xs i v) j 0 ≡ (if i == j then v else get_or xs j 0)
get_or-set [] i j v h = absurd (omega arith)
get_or-set (x ∷ xs) zero zero v h = refl
get_or-set (x ∷ xs) zero (suc j) v h = ground arith
get_or-set (x ∷ xs) (suc i) zero v h = ground arith
get_or-set (x ∷ xs) (suc i) (suc j) v h = ground (arith, get_or-set xs i j v)

set-IsBytes : (xs : Bytes) (i v : ℕ) → v < 256 → IsBytes xs → IsBytes (set xs i v)
set-IsBytes [] i v p h = h
set-IsBytes (x ∷ xs) zero v p h = (p, h.1)
set-IsBytes (x ∷ xs) (suc i) v p h = (h.0, set-IsBytes xs i v p h.1)

get_or-lt : (xs : Bytes) (i : ℕ) → IsBytes xs → get_or xs i 0 < 256
get_or-lt [] i h = omega arith
get_or-lt (x ∷ xs) zero h = h.0
get_or-lt (x ∷ xs) (suc i) h = get_or-lt xs i h.1

-- A block of whole bytes, `bits` bits long.
pub record IsBlock (bits : ℕ) (block : Bytes) : Type 0 where
  pub bytes : IsBytes block
  pub size : bits ≡ length block * 8

pub set_bit_at-IsBlock :
    (bits bit : ℕ) (block : Bytes) → IsBlock bits block → IsBlock bits (set_bit_at block bit)
unfolding set_bit_at
set_bit_at-IsBlock bits bit block h = record {
  bytes =
      set-IsBytes block (bit / 8) (set_bit (get_or block (bit / 8) 0) (bit % 8))
        (set_bit-lt (get_or block (bit / 8) 0) (bit % 8) (get_or-lt block (bit / 8) h.bytes)
          (omega arith))
        h.bytes;
  size = rw (length-set block (bit / 8) (set_bit (get_or block (bit / 8) 0) (bit % 8))) h.size;
}

kept :
    (block : Bytes) (bit j : ℕ)
    → IsBytes block
    → test_bit (get_or block (j / 8) 0) (j % 8) ≡ true
    → test_bit
        (if bit / 8 == j / 8
          then set_bit (get_or block (bit / 8) 0) (bit % 8)
          else get_or block (j / 8) 0)
        (j % 8)
      ≡ true
kept block bit j h old = ground (
  arith,
  get_or-lt block (bit / 8),
  test_bit-set_bit (get_or block (bit / 8) 0) (bit % 8) (j % 8),
)

kept_self :
    (block : Bytes) (bit : ℕ)
    → IsBytes block
    → test_bit
        (if bit / 8 == bit / 8
          then set_bit (get_or block (bit / 8) 0) (bit % 8)
          else get_or block (bit / 8) 0)
        (bit % 8)
      ≡ true
kept_self block bit h =
    ground
      (arith, get_or-lt block (bit / 8), test_bit-set_bit_self (get_or block (bit / 8) 0) (bit % 8))

pub test_bit_at-set_bit_at :
    (bits bit j : ℕ) (block : Bytes)
    → IsBlock bits block
    → bit < bits
    → test_bit_at block j ≡ true
    → test_bit_at (set_bit_at block bit) j ≡ true
unfolding set_bit_at test_bit_at
test_bit_at-set_bit_at bits bit j block h small old =
    rw
      (get_or-set block (bit / 8) (j / 8) (set_bit (get_or block (bit / 8) 0) (bit % 8))
        (omega (arith, h.size)))
      (kept block bit j h.bytes old)

pub test_bit_at-set_bit_at_self :
    (bits bit : ℕ) (block : Bytes)
    → IsBlock bits block
    → bit < bits
    → test_bit_at (set_bit_at block bit) bit ≡ true
unfolding set_bit_at test_bit_at
test_bit_at-set_bit_at_self bits bit block h small =
    rw
      (get_or-set block (bit / 8) (bit / 8) (set_bit (get_or block (bit / 8) 0) (bit % 8))
        (omega (arith, h.size)))
      (kept_self block bit h.bytes)

module _ (bits : ℕ) (positive : 0 < bits) where
  pub set_probes-IsBlock :
      (k h2 pos : ℕ) (block : Bytes)
      → IsBlock bits block
      → IsBlock bits (set_probes k bits h2 pos block)
  unfolding set_probes
  set_probes-IsBlock zero h2 pos block h = h
  set_probes-IsBlock (suc k) h2 pos block h =
      set_probes-IsBlock k h2 (u32 (pos + h2)) (set_bit_at block (pos % bits))
        (set_bit_at-IsBlock bits (pos % bits) block h)

  -- Setting probes clears no bit.
  pub test_bit_at-set_probes :
      (k h2 pos j : ℕ) (block : Bytes)
      → IsBlock bits block
      → test_bit_at block j ≡ true
      → test_bit_at (set_probes k bits h2 pos block) j ≡ true
  unfolding set_probes
  test_bit_at-set_probes zero h2 pos j block h old = old
  test_bit_at-set_probes (suc k) h2 pos j block h old =
      test_bit_at-set_probes k h2 (u32 (pos + h2)) j (set_bit_at block (pos % bits))
        (set_bit_at-IsBlock bits (pos % bits) block h)
        (test_bit_at-set_bit_at bits (pos % bits) j block h (omega arith) old)

  -- Probes that a block answers stay answered when it gains bits.
  pub test_probes_mono :
      (k h2 pos : ℕ) (block grown : Bytes)
      → ((j : ℕ) → j < bits → test_bit_at block j ≡ true → test_bit_at grown j ≡ true)
      → test_probes k bits h2 pos block ≡ true
      → test_probes k bits h2 pos grown ≡ true
  unfolding test_probes
  test_probes_mono zero h2 pos block grown more h = refl
  test_probes_mono (suc k) h2 pos block grown more h =
      ground (arith, more (pos % bits), test_probes_mono k h2 (u32 (pos + h2)) block grown more)

  pub test_probes-set_probes :
      (k h2 pos : ℕ) (block : Bytes)
      → IsBlock bits block
      → test_probes k bits h2 pos (set_probes k bits h2 pos block) ≡ true
  unfolding set_probes test_probes
  test_probes-set_probes zero h2 pos block h = refl
  test_probes-set_probes (suc k) h2 pos block h =
      let set_one = set_bit_at block (pos % bits) in
      let block-IsBlock = set_bit_at-IsBlock bits (pos % bits) block h in
      rw
        (test_bit_at-set_probes k h2 (u32 (pos + h2)) (pos % bits) set_one block-IsBlock
          (test_bit_at-set_bit_at_self bits (pos % bits) block h (omega arith)))
        (test_probes-set_probes k h2 (u32 (pos + h2)) set_one block-IsBlock)
