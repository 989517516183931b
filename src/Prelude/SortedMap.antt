-- ===== src/Prelude/SortedMap.antt =====
-- std::map keyed by byte strings, as the list of its nodes in key order.
use Prim.Native.Nat.{ℕ, ◌+◌, Ordering}
use mathlib.Core.Path.{◌≡◌, refl}
use mathlib.Core.Bool.{true, false}
use mathlib.Core.Option.{Option, none, some}
use mathlib.Core.List.{List, [], ◌∷◌, ◌++◌}
use native.Mathlib.Omega.{arith}
use cachedb.Prelude.Tests.{if◌then◌else◌}
use cachedb.Prelude.Bytes.{
  Bytes, cmp, key_lt, key_eq, cmp-eq, cmp-gt, key_eq_iff, key_lt_trans, key_lt_irrefl,
}

abbrev pub SortedMap {ℓ} : Type ℓ → Type ℓ
SortedMap V = List (Bytes × V)

module _ {ℓ} {V : Type ℓ} where
  -- m.find(k), with `none` for m.end()
  unfoldable pub find : Bytes → SortedMap V → Option V
  find k [] = none
  find k ((j, v) ∷ m) = if key_eq j k then some v else find k m

  -- m.emplace(k, v), which leaves a key that is there alone
  unfoldable pub emplace : Bytes → V → SortedMap V → SortedMap V
  emplace k v [] = (k, v) ∷ []
  emplace k v ((j, w) ∷ m) = elim (cmp k j) [
    | Ordering.lt ↦ (k, v) ∷ (j, w) ∷ m
    | Ordering.eq ↦ (j, w) ∷ m
    | Ordering.gt ↦ (j, w) ∷ emplace k v m
  ]

  -- it->second = v, for the iterator `it` that `find` gave
  unfoldable pub assign : Bytes → V → SortedMap V → SortedMap V
  assign k v [] = []
  assign k v ((j, w) ∷ m) =
      let rest = assign k v m in if key_eq j k then (j, v) ∷ m else (j, w) ∷ rest

  -- The keys rise along the list, and are above `b`.
  abbrev pub Above : Bytes → SortedMap V → Type 0
  Above b [] = Unit
  Above b ((k, v) ∷ m) = (key_lt b k ≡ true) × Above k m

  abbrev pub IsSorted : SortedMap V → Type 0
  IsSorted [] = Unit
  IsSorted ((k, v) ∷ m) = Above k m

  -- A sum over the nodes.
  unfoldable pub total : (Bytes → V → ℕ) → SortedMap V → ℕ
  total f [] = 0
  total f ((k, v) ∷ m) = f k v + total f m

module _ {ℓ} {V : Type ℓ} where
  pub Above-IsSorted : (b : Bytes) (m : SortedMap V) → Above b m → IsSorted m
  Above-IsSorted b [] s = tt
  Above-IsSorted b ((k, v) ∷ m) s = s.1

  pub find-emplace :
      (k j : Bytes) (v : V) (m : SortedMap V)
      → find k m ≡ none
      → find j (emplace k v m) ≡ (if key_eq k j then some v else find j m)
  unfolding find emplace
  find-emplace k j v [] h = refl
  find-emplace k j v ((i, w) ∷ m) h =
      ground
        (arith, find-emplace k j v m, cmp-eq k i, key_eq_iff i k, key_eq_iff i j, key_eq_iff k j)

  pub find-assign :
      (k j : Bytes) (v w : V) (m : SortedMap V)
      → find k m ≡ some w
      → find j (assign k v m) ≡ (if key_eq k j then some v else find j m)
  unfolding find assign
  find-assign k j v w [] h = cc
  find-assign k j v w ((i, u) ∷ m) h =
      ground (arith, find-assign k j v w m, key_eq_iff i k, key_eq_iff i j, key_eq_iff k j)

  Above-emplace :
      (b k : Bytes) (v : V) (m : SortedMap V)
      → key_lt b k ≡ true
      → Above b m
      → Above b (emplace k v m)
  unfolding emplace
  Above-emplace b k v [] h s = (h, tt)
  Above-emplace b k v ((j, w) ∷ m) h s = ground (arith, cmp-gt k j, Above-emplace j k v m)

  pub emplace-IsSorted :
      (k : Bytes) (v : V) (m : SortedMap V) → IsSorted m → IsSorted (emplace k v m)
  unfolding emplace
  emplace-IsSorted k v [] s = tt
  emplace-IsSorted k v ((j, w) ∷ m) s = ground (arith, cmp-gt k j, Above-emplace j k v m)

  Above-assign : (b k : Bytes) (v : V) (m : SortedMap V) → Above b m → Above b (assign k v m)
  unfolding assign
  Above-assign b k v [] s = tt
  Above-assign b k v ((j, w) ∷ m) s = ground (arith, Above-assign j k v m)

  pub assign-IsSorted : (k : Bytes) (v : V) (m : SortedMap V) → IsSorted m → IsSorted (assign k v m)
  unfolding assign
  assign-IsSorted k v [] s = tt
  assign-IsSorted k v ((j, w) ∷ m) s = ground (arith, Above-assign j k v m)

  pub total-emplace :
      (f : Bytes → V → ℕ) (k : Bytes) (v : V) (m : SortedMap V)
      → find k m ≡ none
      → total f (emplace k v m) ≡ f k v + total f m
  unfolding find emplace total
  total-emplace f k v [] h = refl
  total-emplace f k v ((j, w) ∷ m) h =
      ground (arith, cmp-eq k j, key_eq_iff j k, total-emplace f k v m)

  pub total-assign :
      (f : Bytes → V → ℕ) (k : Bytes) (v w : V) (m : SortedMap V)
      → find k m ≡ some w
      → total f (assign k v m) + f k w ≡ total f m + f k v
  unfolding find assign total
  total-assign f k v w [] h = cc
  total-assign f k v w ((j, u) ∷ m) h = ground (arith, key_eq_iff j k, total-assign f k v w m)

  -- Cutting a map in two.
  pub Above-append_left : (b : Bytes) (p m : SortedMap V) → Above b (p ++ m) → Above b p
  Above-append_left b [] m s = tt
  Above-append_left b ((k, v) ∷ p) m s = (s.0, Above-append_left k p m s.1)

  pub IsSorted-append_left : (p m : SortedMap V) → IsSorted (p ++ m) → IsSorted p
  IsSorted-append_left [] m s = tt
  IsSorted-append_left ((k, v) ∷ p) m s = Above-append_left k p m s

  pub IsSorted-append_right : (p m : SortedMap V) → IsSorted (p ++ m) → IsSorted m
  IsSorted-append_right [] m s = s
  IsSorted-append_right ((k, v) ∷ p) m s = IsSorted-append_right p m (Above-IsSorted k (p ++ m) s)

  pub find-Above :
      (k key : Bytes) (m : SortedMap V) → Above k m → key_lt k key ≡ false → find key m ≡ none
  unfolding find
  find-Above k key [] s below = refl
  find-Above k key ((j, e) ∷ m) s below =
      ground (arith, key_eq_iff j key, key_lt_trans k j key, find-Above j key m)

  Above-middle :
      (b k : Bytes) (v : V) (p m : SortedMap V) → Above b (p ++ (k, v) ∷ m) → key_lt b k ≡ true
  Above-middle b k v [] m s = s.0
  Above-middle b k v ((j, w) ∷ p) m s = key_lt_trans b j k s.0 (Above-middle j k v p m s.1)

  -- A key below the second part is found in the first, and another one in the second.
  pub find-append_below :
      (k key : Bytes) (v : V) (p m : SortedMap V)
      → IsSorted (p ++ (k, v) ∷ m)
      → key_lt key k ≡ true
      → find key (p ++ (k, v) ∷ m) ≡ find key p
  unfolding find
  find-append_below k key v [] m s below = ground (
    arith,
    key_eq_iff k key,
    key_lt_irrefl key,
    key_lt_trans key k key,
    key_lt_irrefl k,
    find-Above k key m s,
  )
  find-append_below k key v ((j, w) ∷ p) m s below =
      ground (arith, find-append_below k key v p m (Above-IsSorted j (p ++ (k, v) ∷ m) s) below)

  pub find-append_above :
      (k key : Bytes) (v : V) (p m : SortedMap V)
      → IsSorted (p ++ (k, v) ∷ m)
      → key_lt key k ≡ false
      → find key (p ++ (k, v) ∷ m) ≡ find key ((k, v) ∷ m)
  unfolding find
  find-append_above k key v [] m s above = refl
  find-append_above k key v ((j, w) ∷ p) m s above = ground (
    arith,
    key_eq_iff j key,
    Above-middle j k v p m s,
    find-append_above k key v p m (Above-IsSorted j (p ++ (k, v) ∷ m) s) above,
  )
