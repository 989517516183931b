-- ===== src/Commands/Asked.antt =====
-- src/command.cpp, the options of SET: the stamp that a client asks for.
use cachedb.Prelude.{
  ℕ, zero, suc, ◌+◌, ◌*◌, ◌^◌, ◌≤◌, ◌<◌, ◌≡◌, refl, sym, ap, ◌∙◌, ◌⊎◌, inl, inr, Bool, true, false,
  not, ◌&&◌, Option, none, some, List, [], ◌∷◌, map, arith, ltb, leb, ◌==◌, if◌then◌else◌, length,
  get_or, Bool-cases,
}
use mathlib.Core.Bool.{false≢true}
use mathlib.Core.Option.{some-injective, none-ne-some}
use mathlib.Core.Path.{subst}
use cachedb.Prelude.Int.{ℤ, pos, negsuc, pos_part, leb_ℤ, IsI64}
use cachedb.Prelude.Bytes.{Bytes, key_eq, key_eq_iff}
use cachedb.Prelude.Chars.{to_chars}
use cachedb.Prelude.Text.{codes}
use cachedb.Commands.{k_max, parse_int64}
use cachedb.Commands.Canonical.{parse_int64_iff}
use cachedb.Commands.Deadline.{
  k_max_name_len, to_lower, normalize_name, deadline_from, deadline_from_lem,
}
use cachedb.Commands.Keys.{
  SetExpiry, expires_at, refused, of_deadline, amount_of, option_of, set_expiry, k_invalid_expire,
}

-- The text is a lifetime of at least 1 in units of `unit_ms`, and `x` is the point in time that
-- lies that far behind `t`, which is an int64_t.
abbrev pub Lifetime : ℕ → ℕ → Bytes → ℤ → Type 0
Lifetime t unit_ms text x =
    (n : ℕ) × (text ≡ to_chars (pos n))
    × (1 ≤ n)
    × (t + n * unit_ms ≤ k_max)
    × (x ≡ pos (t + n * unit_ms))

-- What the words behind the key and the value ask for at the time `t`: no stamp when there are
-- none; EX with seconds or PX with milliseconds, in letters of any case; and nothing else.
abbrev pub Asked : ℕ → List Bytes → ℤ → Type 0
Asked t [] x = x ≡ pos 0
Asked t (option ∷ []) x = ⊥
Asked t (option ∷ text ∷ []) x =
    ((map to_lower option ≡ codes "ex") × Lifetime t 1000 text x)
    ⊎ ((map to_lower option ≡ codes "px") × Lifetime t 1 text x)
Asked t (option ∷ text ∷ more ∷ options) x = ⊥

-- A stamp is what is asked for, and a refusal means that no stamp is.
abbrev pub Decides : (ℤ → Type 0) → SetExpiry → Type 0
Decides P (expires_at x) = P x
Decides P (refused message) = ¬ ((x : ℤ) × P x)

amount_of-Decides :
    (t unit_ms : ℕ) (text : Bytes)
    → (unit_ms ≡ 1) ⊎ (unit_ms ≡ 1000)
    → t < 2 ^ 63
    → Decides (Lifetime t unit_ms text) (amount_of (pos t) unit_ms text)
unfolding amount_of
amount_of-Decides t unit_ms text units small = by (parse_int64 text) refl
  where
    low : (n : ℕ) → t + n * unit_ms ≤ k_max → n ≤ k_max
    low n h = in_units units h
      where
        in_units : (unit_ms ≡ 1) ⊎ (unit_ms ≡ 1000) → t + n * unit_ms ≤ k_max → n ≤ k_max
        in_units (inl e) h = omega (arith, ap (λ u. t + n * u) e)
        in_units (inr e) h = omega (arith, ap (λ u. t + n * u) e)

    -- The text is read as the number that it is the form of.
    number : (x : ℤ) (l : Lifetime t unit_ms text x) → parse_int64 text ≡ some (pos l.0)
    number x (n, form, some_time, fits, at) =
        (parse_int64_iff text (pos n)).1 (sym form, low n fits)

    within : (m : ℕ) → leb m k_max ≡ true → m ≤ k_max
    within m h = ground arith

    past : (m : ℕ) → leb m k_max ≡ false → m ≤ k_max → ⊥
    past m h le = ground arith

    -- A number that is not positive is no lifetime.
    none_of :
        (a : ℤ)
        → parse_int64 text ≡ some a
        → pos_part a ≡ 0
        → ¬ ((x : ℤ) × Lifetime t unit_ms text x)
    none_of a e zero_part (x, l) =
        let same : pos_part a ≡ l.0 =
          ap pos_part (some-injective a (pos l.0) (sym e ∙ number x l)) in
        let (n, form, some_time, fits, at) = l in omega (arith, same, zero_part, some_time)

    below : (m : ℕ) → leb_ℤ (negsuc m) (pos 0) ≡ true
    below m = ground arith

    above : (m : ℕ) → leb_ℤ (pos (suc m)) (pos 0) ≡ false
    above m = ground arith

    deadline :
        (m : ℕ)
        → parse_int64 text ≡ some (pos m)
        → to_chars (pos m) ≡ text
        → 1 ≤ m
        → Decides (Lifetime t unit_ms text) (
            of_deadline
              (if leb (t + m * unit_ms) k_max then some (pos (t + m * unit_ms)) else none))
    deadline m read form some_time = elim (Bool-cases (leb (t + m * unit_ms) k_max)) [
      | inl fits ↦ rw fits (m, sym form, some_time, within (t + m * unit_ms) fits, refl)
      | inr large ↦ rw large (λ (x, l).
          let n_same : m ≡ l.0 =
            ap pos_part (some-injective (pos m) (pos l.0) (sym read ∙ number x l)) in
          let inside : t + m * unit_ms ≤ k_max =
            subst (λ n. t + n * unit_ms ≤ k_max) (sym n_same)
              (let (n, form, some_time, fits, at) = l in fits) in
          past (t + m * unit_ms) large inside)
    ]

    by :
        (o : Option ℤ)
        → parse_int64 text ≡ o
        → Decides (Lifetime t unit_ms text) (elim o [
          | none ↦ refused (codes "ERR value is not an integer or out of range")
          | some amount ↦
              if leb_ℤ amount (pos 0)
              then refused k_invalid_expire
              else of_deadline (deadline_from amount unit_ms (pos t))
        ])
    by none e = λ (x, l). none-ne-some (pos l.0) (sym e ∙ number x l)
    by (some (negsuc m)) e = rw (below m) (none_of (negsuc m) e refl)
    by (some (pos zero)) e = none_of (pos zero) e refl
    by (some (pos (suc m))) e =
        rw (above m, deadline_from_lem (suc m) unit_ms t units (omega arith) small)
          (deadline (suc m) e ((parse_int64_iff text (pos (suc m))).0 e).0 (omega arith))

Decides-iff :
    (P Q : ℤ → Type 0) (r : SetExpiry)
    → ((x : ℤ) → P x → Q x)
    → ((x : ℤ) → Q x → P x)
    → Decides P r
    → Decides Q r
Decides-iff P Q (expires_at x) to from d = to x d
Decides-iff P Q (refused message) to from d = λ (x, q). d (x, from x q)

length-map : (f : ℕ → ℕ) (xs : Bytes) → length (map f xs) ≡ length xs
length-map f [] = refl
length-map f (x ∷ xs) = ap suc (length-map f xs)

key_neq : (a b : Bytes) → key_eq a b ≡ false → ¬ (a ≡ b)
key_neq a b h e = false≢true (sym h ∙ (key_eq_iff a b).1 e)

option_of-Decides :
    (t : ℕ) (option text : Bytes)
    → t < 2 ^ 63
    → Decides (Asked t (option ∷ text ∷ [])) (option_of (pos t) option text)
unfolding option_of normalize_name
option_of-Decides t option text small = by (ltb k_max_name_len (length option)) refl
  where
    name : Bytes
    name = map to_lower option

    asked : ℤ → Type 0
    asked = Asked t (option ∷ text ∷ [])

    two : (x : ℤ) → asked x → length option ≡ 2
    two x (inl (is_ex, l)) = sym (length-map to_lower option) ∙ ap length is_ex
    two x (inr (is_px, l)) = sym (length-map to_lower option) ∙ ap length is_px

    too_long : (n : ℕ) → ltb k_max_name_len n ≡ true → ¬ (n ≡ 2)
    too_long n h e = ground arith

    differ : ¬ (codes "ex" ≡ codes "px")
    differ e =
        let letter : ◌≡◌ {A = ℕ} 0x65 0x70 = ap (λ b. get_or b 0 0) e in
        absurd (omega (arith, letter))

    named :
        (a b : Bool)
        → key_eq name (codes "ex") ≡ a
        → key_eq name (codes "px") ≡ b
        → Decides asked (
            if not a && not b
            then refused (codes "ERR syntax error")
            else amount_of (pos t) (if a then 1000 else 1) text)
    named true b p q =
        let is_ex = (key_eq_iff name (codes "ex")).0 p in
        Decides-iff (Lifetime t 1000 text) asked (amount_of (pos t) 1000 text)
          (λ x l. inl (is_ex, l))
          (λ x l. elim l [ inl (_, m) ↦ m | inr (is_px, m) ↦ absurd (differ (sym is_ex ∙ is_px)) ])
          (amount_of-Decides t 1000 text (inr refl) small)
    named false true p q =
        let is_px = (key_eq_iff name (codes "px")).0 q in
        Decides-iff (Lifetime t 1 text) asked (amount_of (pos t) 1 text) (λ x l. inr (is_px, l))
          (λ x l. elim l [ inl (is_ex, m) ↦ absurd (differ (sym is_ex ∙ is_px)) | inr (_, m) ↦ m ])
          (amount_of-Decides t 1 text (inl refl) small)
    named false false p q = λ (x, l). elim l [
      | inl (is_ex, m) ↦ key_neq name (codes "ex") p is_ex
      | inr (is_px, m) ↦ key_neq name (codes "px") q is_px
    ]

    by :
        (long : Bool)
        → ltb k_max_name_len (length option) ≡ long
        → Decides asked (elim (if long then none else some name) [
          | none ↦ refused (codes "ERR syntax error")
          | some n ↦
              if not (key_eq n (codes "ex")) && not (key_eq n (codes "px"))
              then refused (codes "ERR syntax error")
              else amount_of (pos t) (if key_eq n (codes "ex") then 1000 else 1) text
        ])
    by true h = λ (x, l). too_long (length option) h (two x l)
    by false h = named (key_eq name (codes "ex")) (key_eq name (codes "px")) refl refl

pub set_expiry-Decides :
    (t : ℕ) (name key value : Bytes) (options : List Bytes)
    → t < 2 ^ 63
    → Decides (Asked t options) (set_expiry (pos t) (name ∷ key ∷ value ∷ options))
unfolding set_expiry
set_expiry-Decides t name key value [] small = refl
set_expiry-Decides t name key value (option ∷ []) small = λ (x, no_one). no_one
set_expiry-Decides t name key value (option ∷ text ∷ []) small =
    option_of-Decides t option text small
set_expiry-Decides t name key value (option ∷ text ∷ more ∷ options) small =
    rw (many (length options), more_than (length options)) (λ (x, no_one). no_one)
  where
    many : (n : ℕ) → (suc (suc (suc (suc (suc (suc n))))) == 5) ≡ false
    many n = ground arith

    more_than : (n : ℕ) → (suc (suc (suc (suc (suc (suc n))))) == 3) ≡ false
    more_than n = ground arith

Lifetime-IsI64 : (t unit_ms : ℕ) (text : Bytes) (x : ℤ) → Lifetime t unit_ms text x → IsI64 x
Lifetime-IsI64 t unit_ms text x (n, form, some_time, fits, at) =
    subst IsI64 (sym at) (omega (arith, fits))

pub Asked-IsI64 : (t : ℕ) (options : List Bytes) (x : ℤ) → Asked t options x → IsI64 x
Asked-IsI64 t [] x asked = subst IsI64 (sym asked) (omega arith)
Asked-IsI64 t (option ∷ []) x asked = absurd asked
Asked-IsI64 t (option ∷ text ∷ []) x (inl (is_ex, l)) = Lifetime-IsI64 t 1000 text x l
Asked-IsI64 t (option ∷ text ∷ []) x (inr (is_px, l)) = Lifetime-IsI64 t 1 text x l
Asked-IsI64 t (option ∷ text ∷ more ∷ options) x asked = absurd asked
