-- ===== src/Prelude/Lists.antt =====
-- Lists measured and indexed by native numbers, under the library's names.
use Prim.Native.Nat.{ℕ, zero, suc, ◌+◌, ◌-◌, ◌≤◌, ◌<◌, min}
use mathlib.Core.Path.{◌≡◌, refl, ap}
use mathlib.Core.List.{List, [], ◌∷◌, ◌++◌}
use native.Mathlib.Omega.{arith}

module _ {ℓ} {A : Type ℓ} where
  abbrev pub length : List A → ℕ
  length [] = 0
  length (x ∷ xs) = suc (length xs)

  abbrev pub get_or : List A → ℕ → A → A
  get_or [] i d = d
  get_or (x ∷ xs) zero d = x
  get_or (x ∷ xs) (suc i) d = get_or xs i d

  -- A write out of bounds changes nothing.
  abbrev pub set : List A → ℕ → A → List A
  set [] i v = []
  set (x ∷ xs) zero v = v ∷ xs
  set (x ∷ xs) (suc i) v = x ∷ set xs i v

  abbrev pub take : ℕ → List A → List A
  take zero xs = []
  take (suc n) [] = []
  take (suc n) (x ∷ xs) = x ∷ take n xs

  abbrev pub drop : ℕ → List A → List A
  drop zero xs = xs
  drop (suc n) [] = []
  drop (suc n) (x ∷ xs) = drop n xs

  abbrev pub replicate : ℕ → A → List A
  replicate zero a = []
  replicate (suc n) a = a ∷ replicate n a

  pub length-append : (xs ys : List A) → length (xs ++ ys) ≡ length xs + length ys
  length-append [] ys = omega arith
  length-append (x ∷ xs) ys = omega (arith, length-append xs ys)

  pub length-set : (xs : List A) (i : ℕ) (v : A) → length (set xs i v) ≡ length xs
  length-set [] i v = refl
  length-set (x ∷ xs) zero v = refl
  length-set (x ∷ xs) (suc i) v = ap suc (length-set xs i v)

  pub length-replicate : (n : ℕ) (a : A) → length (replicate n a) ≡ n
  length-replicate zero a = refl
  length-replicate (suc n) a = ap suc (length-replicate n a)

  pub length-take : (n : ℕ) (xs : List A) → length (take n xs) ≡ min n (length xs)
  length-take zero xs = omega arith
  length-take (suc n) [] = omega arith
  length-take (suc n) (x ∷ xs) = omega (arith, length-take n xs)

  pub length-drop : (n : ℕ) (xs : List A) → length (drop n xs) ≡ length xs - n
  length-drop zero xs = omega arith
  length-drop (suc n) [] = omega arith
  length-drop (suc n) (x ∷ xs) = omega (arith, length-drop n xs)

  pub take-append-drop : (n : ℕ) (xs : List A) → take n xs ++ drop n xs ≡ xs
  take-append-drop zero xs = refl
  take-append-drop (suc n) [] = refl
  take-append-drop (suc n) (x ∷ xs) = ap (◌∷◌ x) (take-append-drop n xs)

  -- Cutting at the seam of an append, the length given by an equation.
  pub take-append_seam : (n : ℕ) (xs ys : List A) → length xs ≡ n → take n (xs ++ ys) ≡ xs
  take-append_seam zero [] ys h = refl
  take-append_seam zero (x ∷ xs) ys h = absurd (omega arith)
  take-append_seam (suc n) [] ys h = absurd (omega arith)
  take-append_seam (suc n) (x ∷ xs) ys h = ap (◌∷◌ x) (take-append_seam n xs ys (omega arith))

  pub drop-append_seam : (n : ℕ) (xs ys : List A) → length xs ≡ n → drop n (xs ++ ys) ≡ ys
  drop-append_seam zero [] ys h = refl
  drop-append_seam zero (x ∷ xs) ys h = absurd (omega arith)
  drop-append_seam (suc n) [] ys h = absurd (omega arith)
  drop-append_seam (suc n) (x ∷ xs) ys h = drop-append_seam n xs ys (omega arith)

  pub take_all : (n : ℕ) (xs : List A) → length xs ≤ n → take n xs ≡ xs
  take_all zero [] h = refl
  take_all zero (x ∷ xs) h = absurd (omega arith)
  take_all (suc n) [] h = refl
  take_all (suc n) (x ∷ xs) h = ap (◌∷◌ x) (take_all n xs (omega arith))

  pub take-append_le : (n : ℕ) (xs ys : List A) → n ≤ length xs → take n (xs ++ ys) ≡ take n xs
  take-append_le zero xs ys h = refl
  take-append_le (suc n) [] ys h = absurd (omega arith)
  take-append_le (suc n) (x ∷ xs) ys h = ap (◌∷◌ x) (take-append_le n xs ys (omega arith))

  pub get_or-append :
      (xs ys : List A) (i : ℕ) (d : A) → i < length xs → get_or (xs ++ ys) i d ≡ get_or xs i d
  get_or-append [] ys i d h = absurd (omega arith)
  get_or-append (x ∷ xs) ys zero d h = refl
  get_or-append (x ∷ xs) ys (suc i) d h = get_or-append xs ys i d (omega arith)

  pub drop-append_le :
      (n : ℕ) (xs ys : List A) → n ≤ length xs → drop n (xs ++ ys) ≡ drop n xs ++ ys
  drop-append_le zero xs ys h = refl
  drop-append_le (suc n) [] ys h = absurd (omega arith)
  drop-append_le (suc n) (x ∷ xs) ys h = drop-append_le n xs ys (omega arith)

  pub drop-drop : (n m k : ℕ) (xs : List A) → n + m ≡ k → drop m (drop n xs) ≡ drop k xs
  drop-drop zero m k xs e = let e' : m ≡ k = omega arith in ap (λ j. drop j xs) e'
  drop-drop (suc n) zero zero [] e = refl
  drop-drop (suc n) zero (suc k) [] e = refl
  drop-drop (suc n) (suc m) zero [] e = refl
  drop-drop (suc n) (suc m) (suc k) [] e = refl
  drop-drop (suc n) m zero (x ∷ xs) e = absurd (omega arith)
  drop-drop (suc n) m (suc k) (x ∷ xs) e = drop-drop n m k xs (omega arith)

  pub take-append_past :
      (n m k : ℕ) (xs ys : List A) → length xs ≡ n → n + m ≡ k → take k (xs ++ ys) ≡ xs ++ take m ys
  take-append_past n m k [] ys h e = let e' : k ≡ m = omega arith in ap (λ j. take j ys) e'
  take-append_past n m zero (x ∷ xs) ys h e = absurd (omega arith)
  take-append_past zero m (suc k) (x ∷ xs) ys h e = absurd (omega arith)
  take-append_past (suc n) m (suc k) (x ∷ xs) ys h e =
      ap (◌∷◌ x) (take-append_past n m k xs ys (omega arith) (omega arith))

  pub drop-append_past :
      (n m k : ℕ) (xs ys : List A) → length xs ≡ n → n + m ≡ k → drop k (xs ++ ys) ≡ drop m ys
  drop-append_past n m k [] ys h e = let e' : k ≡ m = omega arith in ap (λ j. drop j ys) e'
  drop-append_past n m zero (x ∷ xs) ys h e = absurd (omega arith)
  drop-append_past zero m (suc k) (x ∷ xs) ys h e = absurd (omega arith)
  drop-append_past (suc n) m (suc k) (x ∷ xs) ys h e =
      drop-append_past n m k xs ys (omega arith) (omega arith)

  pub take-take : (n m : ℕ) (xs : List A) → take n (take m xs) ≡ take (min n m) xs
  take-take zero m xs = let e : min 0 m ≡ 0 = omega arith in rw e
  take-take (suc n) zero xs = let e : min (suc n) 0 ≡ 0 = omega arith in rw e
  take-take (suc n) (suc m) [] = let e : min (suc n) (suc m) ≡ suc (min n m) = omega arith in rw e
  take-take (suc n) (suc m) (x ∷ xs) =
      let e : min (suc n) (suc m) ≡ suc (min n m) = omega arith in
      rw e (ap (◌∷◌ x) (take-take n m xs))
