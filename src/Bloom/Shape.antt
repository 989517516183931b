-- ===== src/Bloom/Shape.antt =====
-- The form of what `build` of src/bloom.cpp returns, and its answers when it was built from nothing.
use cachedb.Prelude.{
  ℕ, zero, suc, ◌-◌, ◌*◌, ◌/◌, ◌%◌, ◌≤◌, ◌≡◌, refl, ◌∙◌, false, List, [], ◌∷◌, ◌++◌, arith, length,
  get_or, replicate, length-append,
}
use cachedb.Prelude.Int.{ℤ}
use cachedb.Prelude.Bytes.{Bytes, IsBytes}
use cachedb.Prelude.Bits.{test_bit-zero}
use cachedb.Bloom.{
  optimal_probes, bits_for, build, may_contain, test_bit_at, test_probes, add_keys, probe_for,
}
use cachedb.Bloom.Member.{
  zeros-IsBlock, add_keys-IsBlock, bits_for_lem, optimal_probes_lem, may_contain-append,
  test_bit_at-append, get_or_last,
}

get_or-zeros : (n i : ℕ) → get_or {A = ℕ} (replicate n 0) i 0 ≡ 0
get_or-zeros zero i = refl
get_or-zeros (suc n) zero = refl
get_or-zeros (suc n) (suc i) = get_or-zeros n i

zeros_lem : (n bit : ℕ) → test_bit_at (replicate n 0) bit ≡ false
unfolding test_bit_at
zeros_lem n bit = rw (get_or-zeros n (bit / 8)) (test_bit-zero (bit % 8) (omega arith))

test_probes-clear :
    (k bits h2 pos : ℕ) (block : Bytes)
    → 1 ≤ k
    → test_bit_at block (pos % bits) ≡ false
    → test_probes k bits h2 pos block ≡ false
unfolding test_probes
test_probes-clear zero bits h2 pos block low clear = absurd (omega arith)
test_probes-clear (suc k) bits h2 pos block low clear = rw clear refl

-- A filter that was built from no keys denies every key.
pub may_contain-build_empty :
    (key : Bytes) (bits_per_key : ℤ) → may_contain (build [] bits_per_key) key ≡ false
unfolding build add_keys
may_contain-build_empty key b =
    let bits = bits_for 0 b in
    let k = optimal_probes b in
    let (large, whole) = bits_for_lem 0 b in
    let (low, high) = optimal_probes_lem b in
    let block = replicate (bits / 8) 0 in
    let p = probe_for key in
    let at = p.h1 % bits in
    may_contain-append k bits block key large low high (zeros-IsBlock bits whole)
    ∙ test_probes-clear k bits p.h2 p.h1 (block ++ k ∷ []) low (
        test_bit_at-append bits at block (k ∷ []) (zeros-IsBlock bits whole) (omega arith)
        ∙ zeros_lem (bits / 8) at)

append-IsBytes : (xs ys : Bytes) → IsBytes xs → IsBytes ys → IsBytes (xs ++ ys)
append-IsBytes [] ys h k = k
append-IsBytes (x ∷ xs) ys h k = (h.0, append-IsBytes xs ys h.1 k)

-- `build` returns bytes: the bit array, which is at least eight bytes and holds as many bits as
-- `bits_for` counts, and behind it a number of probes from 1 to 30.
pub build_shape :
    (keys : List Bytes) (bits_per_key : ℤ)
    → let block = build keys bits_per_key in
      let bits = bits_for (length keys) bits_per_key in
      let k = get_or block (length block - 1) 0 in
      IsBytes block × ((length block - 1) * 8 ≡ bits) × (64 ≤ bits) × (1 ≤ k) × (k ≤ 30)
unfolding build
build_shape keys b =
    let bits = bits_for (length keys) b in
    let k = optimal_probes b in
    let (large, whole) = bits_for_lem (length keys) b in
    let (low, high) = optimal_probes_lem b in
    let bare = add_keys k bits keys (replicate (bits / 8) 0) in
    let h =
      add_keys-IsBlock k bits (omega arith) keys (replicate (bits / 8) 0)
        (zeros-IsBlock bits whole) in
    (
      append-IsBytes bare (k ∷ []) h.bytes (omega arith, tt),
      rw (length-append bare (k ∷ [])) (omega (arith, h.size)),
      large,
      omega (arith, get_or_last bare k),
      omega (arith, get_or_last bare k),
    )
