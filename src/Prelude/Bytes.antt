-- ===== src/Prelude/Bytes.antt =====
-- A std::string or std::string_view as the list of its bytes, and the order that std::map,
-- std::upper_bound and operator< put on them: lexicographic, by unsigned value.
use Prim.Native.Nat.{ℕ, ◌<◌, compare, Ordering}
use mathlib.Core.Path.{◌≡◌, refl}
use mathlib.Core.Logic.{◌↔◌, ◌⊎◌}
use mathlib.Core.Bool.{Bool, true, false}
use mathlib.Core.List.{List, [], ◌∷◌}
use native.Mathlib.Omega.{arith}

abbrev pub Bytes : Type 0
Bytes = List ℕ

-- Every element is a byte.
abbrev pub IsBytes : Bytes → Type 0
IsBytes [] = Unit
IsBytes (b ∷ bs) = (b < 256) × IsBytes bs

unfoldable pub cmp : Bytes → Bytes → Ordering
cmp [] [] = Ordering.eq
cmp [] (y ∷ ys) = Ordering.lt
cmp (x ∷ xs) [] = Ordering.gt
cmp (x ∷ xs) (y ∷ ys) = elim (compare x y) [
  | Ordering.lt ↦ Ordering.lt
  | Ordering.gt ↦ Ordering.gt
  | _ ↦ cmp xs ys
]

abbrev pub key_lt : Bytes → Bytes → Bool
key_lt a b = elim (cmp a b) [ Ordering.lt ↦ true | _ ↦ false ]

abbrev pub key_eq : Bytes → Bytes → Bool
key_eq a b = elim (cmp a b) [ Ordering.eq ↦ true | _ ↦ false ]

pub cmp-eq : (a b : Bytes) → cmp a b ≡ Ordering.eq → a ≡ b
unfolding cmp
cmp-eq [] [] h = refl
cmp-eq [] (y ∷ ys) h = cc
cmp-eq (x ∷ xs) [] h = cc
cmp-eq (x ∷ xs) (y ∷ ys) h = ground (arith, cmp-eq xs ys)

pub cmp_refl : (a : Bytes) → cmp a a ≡ Ordering.eq
unfolding cmp
cmp_refl [] = refl
cmp_refl (x ∷ xs) = ground (arith, cmp_refl xs)

pub cmp-gt : (a b : Bytes) → cmp a b ≡ Ordering.gt → cmp b a ≡ Ordering.lt
unfolding cmp
cmp-gt [] [] h = cc
cmp-gt [] (y ∷ ys) h = cc
cmp-gt (x ∷ xs) [] h = refl
cmp-gt (x ∷ xs) (y ∷ ys) h = ground (arith, cmp-gt xs ys)

pub cmp-lt : (a b : Bytes) → cmp a b ≡ Ordering.lt → cmp b a ≡ Ordering.gt
unfolding cmp
cmp-lt [] [] h = cc
cmp-lt [] (y ∷ ys) h = refl
cmp-lt (x ∷ xs) [] h = cc
cmp-lt (x ∷ xs) (y ∷ ys) h = ground (arith, cmp-lt xs ys)

pub cmp_trans :
    (a b c : Bytes) → cmp a b ≡ Ordering.lt → cmp b c ≡ Ordering.lt → cmp a c ≡ Ordering.lt
unfolding cmp
cmp_trans [] b [] h k =
    elim b as (λ b. cmp [] b ≡ Ordering.lt → cmp b [] ≡ Ordering.lt → Ordering.eq ≡ Ordering.lt) [
      | [] ↦ λ h k. cc
      | y ∷ ys ↦ λ h k. cc
    ]
      h k
cmp_trans [] b (z ∷ zs) h k = refl
cmp_trans (x ∷ xs) [] c h k = cc
cmp_trans (x ∷ xs) (y ∷ ys) [] h k = cc
cmp_trans (x ∷ xs) (y ∷ ys) (z ∷ zs) h k = ground (arith, cmp_trans xs ys zs)

pub key_eq_iff : (a b : Bytes) → (key_eq a b ≡ true) ↔ (a ≡ b)
key_eq_iff a b = (λ h. ground (arith, cmp-eq a b), λ e. rw e (rw (key_eq, cmp_refl b)))

pub key_lt_trans : (a b c : Bytes) → key_lt a b ≡ true → key_lt b c ≡ true → key_lt a c ≡ true
key_lt_trans a b c h k = ground (arith, cmp_trans a b c)

pub key_lt_irrefl : (a : Bytes) → key_lt a a ≡ false
key_lt_irrefl a = rw (key_lt, cmp_refl a)

-- Of two keys one is below the other, or they are one key.
pub key_total : (a b : Bytes) → (key_lt a b ≡ true) ⊎ ((a ≡ b) ⊎ (key_lt b a ≡ true))
key_total a b = ground (arith, cmp-eq a b, cmp-gt a b)
