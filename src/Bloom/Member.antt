-- ===== src/Bloom/Member.antt =====
-- The promise of src/bloom.h: `may_contain` never denies a key that the block was built from.
use cachedb.Prelude.{
  ℕ, zero, suc, ◌-◌, ◌*◌, ◌/◌, ◌<◌, ◌≤◌, ◌≡◌, refl, sym, ap, ◌∙◌, Bool, true, ◌||◌, ltb, List, [],
  ◌∷◌, ◌++◌, arith, length, get_or, replicate, length-append, get_or-append, length-replicate,
  if◌then◌else◌,
}
use cachedb.Prelude.Int.{ℤ}
use cachedb.Prelude.Bytes.{Bytes, IsBytes}
use cachedb.Bloom.{
  optimal_probes, bits_for, build, may_contain, test_bit_at, set_probes, test_probes, add_keys,
  probe_for,
}
use cachedb.Bloom.Probes.{
  IsBlock, set_probes-IsBlock, test_bit_at-set_probes, test_probes_mono, test_probes-set_probes,
}

pub bits_for_lem : (n : ℕ) (b : ℤ) → (64 ≤ bits_for n b) × (bits_for n b / 8 * 8 ≡ bits_for n b)
unfolding bits_for
bits_for_lem n b = (omega arith, omega arith)

pub optimal_probes_lem : (b : ℤ) → (1 ≤ optimal_probes b) × (optimal_probes b ≤ 30)
unfolding optimal_probes
optimal_probes_lem b = (omega arith, omega arith)

zeros-IsBytes : (n : ℕ) → IsBytes (replicate n 0)
zeros-IsBytes zero = tt
zeros-IsBytes (suc n) = (omega arith, zeros-IsBytes n)

pub zeros-IsBlock : (bits : ℕ) → bits / 8 * 8 ≡ bits → IsBlock bits (replicate (bits / 8) 0)
zeros-IsBlock bits whole = record {
  bytes = zeros-IsBytes (bits / 8);
  size = omega (arith, length-replicate {A = ℕ} (bits / 8) 0);
}

module _ (k bits : ℕ) (positive : 0 < bits) where
  pub add_keys-IsBlock :
      (keys : List Bytes) (block : Bytes)
      → IsBlock bits block
      → IsBlock bits (add_keys k bits keys block)
  unfolding add_keys
  add_keys-IsBlock [] block h = h
  add_keys-IsBlock (key ∷ keys) block h =
      let p = probe_for key in
      add_keys-IsBlock keys (set_probes k bits p.h2 p.h1 block)
        (set_probes-IsBlock bits positive k p.h2 p.h1 block h)

  test_bit_at-add_keys :
      (keys : List Bytes) (block : Bytes) (j : ℕ)
      → IsBlock bits block
      → test_bit_at block j ≡ true
      → test_bit_at (add_keys k bits keys block) j ≡ true
  unfolding add_keys
  test_bit_at-add_keys [] block j h old = old
  test_bit_at-add_keys (key ∷ keys) block j h old =
      let p = probe_for key in
      test_bit_at-add_keys keys (set_probes k bits p.h2 p.h1 block) j
        (set_probes-IsBlock bits positive k p.h2 p.h1 block h)
        (test_bit_at-set_probes bits positive k p.h2 p.h1 j block h old)

  test_probes-add_keys :
      (before after : List Bytes) (key block : Bytes)
      → IsBlock bits block
      → test_probes k bits
          (probe_for key).h2
          (probe_for key).h1
          (add_keys k bits (before ++ key ∷ after) block)
        ≡ true
  unfolding add_keys
  test_probes-add_keys [] after key block h =
      let p = probe_for key in
      let with_key = set_probes k bits p.h2 p.h1 block in
      test_probes_mono bits positive k p.h2 p.h1 with_key (add_keys k bits after with_key)
        (λ j small old.
          test_bit_at-add_keys after with_key j
            (set_probes-IsBlock bits positive k p.h2 p.h1 block h) old)
        (test_probes-set_probes bits positive k p.h2 p.h1 block h)
  test_probes-add_keys (other ∷ before) after key block h =
      let p = probe_for other in
      test_probes-add_keys before after key (set_probes k bits p.h2 p.h1 block)
        (set_probes-IsBlock bits positive k p.h2 p.h1 block h)

get_or-append_at : (xs : Bytes) (y : ℕ) → get_or (xs ++ y ∷ []) (length xs) 0 ≡ y
get_or-append_at [] y = refl
get_or-append_at (x ∷ xs) y = get_or-append_at xs y

pub get_or_last : (xs : Bytes) (y : ℕ) → get_or (xs ++ y ∷ []) (length (xs ++ y ∷ []) - 1) 0 ≡ y
get_or_last xs y =
    ap (λ i. get_or (xs ++ y ∷ []) i 0) (omega (arith, length-append xs (y ∷ [])))
    ∙ get_or-append_at xs y

pub test_bit_at-append :
    (bits bit : ℕ) (block ys : Bytes)
    → IsBlock bits block
    → bit < bits
    → test_bit_at (block ++ ys) bit ≡ test_bit_at block bit
unfolding test_bit_at
test_bit_at-append bits bit block ys h small =
    rw (get_or-append block ys (bit / 8) 0 (omega (arith, h.size))) refl

asked :
    (k n : ℕ) (ask : ℕ → ℕ → Bool)
    → 1 ≤ n
    → 1 ≤ k
    → k ≤ 30
    → (if ltb (suc n) 2
        then true
        else if ltb k 1 || ltb 30 k
        then true
        else ask k ((suc n - 1) * 8))
      ≡ ask k (n * 8)
asked k n ask large low high = ground arith

-- A block with a k of ours at its end is asked for the k probes of the key.
may_contain_lem :
    (k n : ℕ) (block key : Bytes)
    → 1 ≤ n
    → 1 ≤ k
    → k ≤ 30
    → length block ≡ suc n
    → get_or block (suc n - 1) 0 ≡ k
    → may_contain block key ≡ test_probes k (n * 8) (probe_for key).h2 (probe_for key).h1 block
unfolding may_contain
may_contain_lem k n block key large low high size last =
    rw (size, last)
      (asked k n (λ k bits. test_probes k bits (probe_for key).h2 (probe_for key).h1 block) large
        low high)

pub may_contain-append :
    (k bits : ℕ) (block key : Bytes)
    → 64 ≤ bits
    → 1 ≤ k
    → k ≤ 30
    → IsBlock bits block
    → may_contain (block ++ k ∷ []) key
      ≡ test_probes k bits (probe_for key).h2 (probe_for key).h1 (block ++ k ∷ [])
may_contain-append k bits block key large low high h =
    may_contain_lem k (length block) (block ++ k ∷ []) key (omega (arith, h.size)) low high
      (omega (arith, length-append block (k ∷ [])))
      (ap (λ i. get_or (block ++ k ∷ []) i 0) (omega arith) ∙ get_or-append_at block k)
    ∙ ap (λ n. test_probes k n (probe_for key).h2 (probe_for key).h1 (block ++ k ∷ [])) (sym h.size)

-- A filter answers "possibly present" for every key that it was built from, wherever the key
-- stands among them and whatever the number of bits per key is.
pub may_contain-build :
    (before after : List Bytes) (key : Bytes) (bits_per_key : ℤ)
    → may_contain (build (before ++ key ∷ after) bits_per_key) key ≡ true
unfolding build
may_contain-build before after key b =
    let keys = before ++ key ∷ after in
    let bits = bits_for (length keys) b in
    let k = optimal_probes b in
    let (large, whole) = bits_for_lem (length keys) b in
    let (low, high) = optimal_probes_lem b in
    let empty = zeros-IsBlock bits whole in
    let block = add_keys k bits keys (replicate (bits / 8) 0) in
    let block-IsBlock = add_keys-IsBlock k bits (omega arith) keys (replicate (bits / 8) 0) empty in
    let p = probe_for key in
    may_contain-append k bits block key large low high block-IsBlock
    ∙ test_probes_mono bits (omega arith) k p.h2 p.h1 block (block ++ k ∷ [])
        (λ j small old. test_bit_at-append bits j block (k ∷ []) block-IsBlock small ∙ old)
        (test_probes-add_keys k bits (omega arith) before after key (replicate (bits / 8) 0) empty)
