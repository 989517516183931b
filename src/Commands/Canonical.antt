-- ===== src/Commands/Canonical.antt =====
-- `parse_int64` of src/command.cpp reads exactly the canonical decimal forms.
use mathlib.Core.Path.{subst}
use mathlib.Core.Option.{some-injective}
use native.Mathlib.Nat.{pow-suc}
use cachedb.Prelude.{
  ℕ, zero, suc, ◌+◌, ◌-◌, ◌*◌, ◌/◌, ◌%◌, ◌^◌, ◌<◌, ◌≤◌, ◌≡◌, ◌≢◌, refl, sym, ap, ◌∙◌, Bool, true,
  false, none, some, [], ◌∷◌, ltb, ◌==◌, arith, length, ◌↔◌, get_or, Bool-cases, Option-cases, inl,
  inr,
}
use cachedb.Prelude.Int.{ℤ, pos, negsuc}
use cachedb.Prelude.Bytes.{Bytes}
use cachedb.Prelude.Chars.{to_chars, decimal}
use cachedb.Commands.{k_max, read_digits, signed, read_number, parse_int64}

-- The range of int64_t without its least value.
abbrev pub IsSymmetric : ℤ → Type 0
IsSymmetric (pos n) = n ≤ k_max
IsSymmetric (negsuc n) = n < k_max

read_digits-decimal :
    (room n : ℕ) (acc : Bytes)
    → n < 10 ^ room
    → n ≤ k_max
    → read_digits 0 (decimal room n acc) ≡ read_digits n acc
unfolding read_digits decimal
read_digits-decimal zero n acc h small = ap (λ m. read_digits m acc) (omega arith)
read_digits-decimal (suc room) n acc h small = ground (
  arith,
  pow-suc 10 room,
  read_digits-decimal room (n / 10) ((48 + n % 10) ∷ acc),
  next_digit n acc small,
  last_digit n acc,
)
  where
    next_digit :
        (n : ℕ) (acc : Bytes)
        → n ≤ k_max
        → read_digits (n / 10) ((48 + n % 10) ∷ acc) ≡ read_digits n acc
    next_digit n acc small = ground arith

    last_digit : (n : ℕ) (acc : Bytes) → n < 10 → read_digits 0 ((48 + n) ∷ acc) ≡ read_digits n acc
    last_digit n acc few = ground arith

-- The first digit is no zero.
decimal-lead :
    (room n : ℕ) (acc : Bytes)
    → 1 ≤ n
    → n < 10 ^ room
    → (48 < get_or (decimal room n acc) 0 0) × (get_or (decimal room n acc) 0 0 < 58)
unfolding decimal
decimal-lead zero n acc low h = absurd (omega arith)
decimal-lead (suc room) n acc low h =
    ground (arith, pow-suc 10 room, decimal-lead room (n / 10) ((48 + n % 10) ∷ acc))

length-decimal : (room n : ℕ) (acc : Bytes) → length (decimal room n acc) ≤ room + length acc
unfolding decimal
length-decimal zero n acc = omega arith
length-decimal (suc room) n acc = ground (arith, length-decimal room (n / 10) ((48 + n % 10) ∷ acc))

read_digits-cons :
    (value n c : ℕ) (cs : Bytes)
    → read_digits value (c ∷ cs) ≡ some n
    → (48 ≤ c) × (c ≤ 57) × (read_digits (value * 10 + (c - 48)) cs ≡ some n)
unfolding read_digits
read_digits-cons value n c cs h = (ground arith, ground arith, ground arith)

decimal-digit :
    (room value c : ℕ) (cs : Bytes)
    → 1 ≤ value
    → 48 ≤ c
    → c ≤ 57
    → decimal (suc room) (value * 10 + (c - 48)) cs ≡ decimal room value (c ∷ cs)
unfolding decimal
decimal-digit room value c cs low above below = ground arith

-- Digits behind a number above 0 are the end of its decimal form.
decimal-read_digits :
    (cs : Bytes) (room value n : ℕ)
    → 1 ≤ value
    → read_digits value cs ≡ some n
    → decimal (room + length cs) n [] ≡ decimal room value cs
unfolding read_digits decimal
decimal-read_digits [] room value n low h =
    ap (λ r. decimal r n []) {y = room} (omega arith)
    ∙ ap (λ m. decimal room m []) (sym (some-injective value n h))
decimal-read_digits (c ∷ cs) room value n low h =
    let (above, below, rest) = read_digits-cons value n c cs h in
    let more : room + suc (length cs) ≡ suc room + length cs = omega arith in
    ap (λ r. decimal r n []) more
    ∙ decimal-read_digits cs (suc room) (value * 10 + (c - 48)) n (omega arith) rest
    ∙ decimal-digit room value c cs low above below

read_digits_bounds :
    (cs : Bytes) (value n : ℕ)
    → value ≤ k_max
    → read_digits value cs ≡ some n
    → (value ≤ n) × (n ≤ k_max)
unfolding read_digits
read_digits_bounds [] value n small h =
    let same = some-injective value n h in (omega (arith, same), omega (arith, same))
read_digits_bounds (c ∷ cs) value n small h =
    let fits : value * 10 + (c - 48) ≤ k_max = ground arith in
    let (above, below, rest) = read_digits-cons value n c cs h in
    let (low, high) = read_digits_bounds cs (value * 10 + (c - 48)) n fits rest in
    (omega (arith, low), high)

-- A number that starts with no zero.
read_number_lem :
    (negative : Bool) (s : Bytes) (n : ℕ)
    → 48 < get_or s 0 0
    → read_digits 0 s ≡ some n
    → read_number negative s ≡ signed negative (some n)
unfolding read_number
read_number_lem negative [] n lead value = absurd (omega arith)
read_number_lem negative (c ∷ cs) n lead value =
    let digit : (c == 48) ≡ false = ground arith in rw (digit, value) refl

nil_value : (n : ℕ) → read_digits n [] ≡ some n
unfolding read_digits
nil_value n = refl

parse_unsigned :
    (s : Bytes) → 48 < get_or s 0 0 → length s ≤ 20 → parse_int64 s ≡ read_number false s
unfolding parse_int64
parse_unsigned [] lead short = absurd (omega arith)
parse_unsigned (c ∷ cs) lead short =
    let long : ltb 20 (length (c ∷ cs)) ≡ false = ground arith in
    let sign : (c == 45) ≡ false = ground arith in rw (long, sign) refl

parse_negative : (s : Bytes) → length s ≤ 19 → parse_int64 (45 ∷ s) ≡ read_number true s
unfolding parse_int64
parse_negative s short = let long : ltb 20 (length (45 ∷ s)) ≡ false = ground arith in rw long refl

parse_int64-zero : parse_int64 (48 ∷ []) ≡ some (pos 0)
unfolding parse_int64
parse_int64-zero = refl

-- The decimal form of every int64_t but the least is read back.
parse_int64-to_chars : (z : ℤ) → IsSymmetric z → parse_int64 (to_chars z) ≡ some z
unfolding to_chars
parse_int64-to_chars (pos zero) h = parse_int64-zero
parse_int64-to_chars (pos (suc n)) h =
    let (lead, digit) = decimal-lead 20 (suc n) [] (omega arith) (omega arith) in
    parse_unsigned (decimal 20 (suc n) []) lead (length-decimal 20 (suc n) [])
    ∙ read_number_lem false (decimal 20 (suc n) []) (suc n) lead
        (read_digits-decimal 20 (suc n) [] (omega arith) h ∙ nil_value (suc n))
parse_int64-to_chars (negsuc n) h =
    let (lead, digit) = decimal-lead 19 (suc n) [] (omega arith) (omega arith) in
    parse_negative (decimal 19 (suc n) []) (length-decimal 19 (suc n) [])
    ∙ read_number_lem true (decimal 19 (suc n) []) (suc n) lead
        (read_digits-decimal 19 (suc n) [] (omega arith) (omega arith) ∙ nil_value (suc n))
    ∙ ground arith

-- What a number that was read is the decimal form of, from its first digit on.
read_number-lead :
    (negative : Bool) (c : ℕ) (cs : Bytes) (room : ℕ) (z : ℤ)
    → read_number negative (c ∷ cs) ≡ some z
    → (c == 48) ≡ false
    → (n : ℕ) × (1 ≤ n)
      × (n ≤ k_max)
      × (decimal (suc room + length cs) n [] ≡ c ∷ cs)
      × (signed negative (some n) ≡ some z)
unfolding read_number decimal
read_number-lead negative c cs room z h lead =
    let read : signed negative (read_digits 0 (c ∷ cs)) ≡ some z = ground arith in
    elim (Option-cases (read_digits 0 (c ∷ cs))) [
      | inl e ↦ absurd (nothing negative (ap (signed negative) (sym e) ∙ read))
      | inr (n, e) ↦
          let (above, below, rest) = read_digits-cons 0 n c cs e in
          let few : 0 * 10 + (c - 48) < 10 = omega arith in
          let some_digit : 1 ≤ 0 * 10 + (c - 48) = digit_above c above lead in
          let (low, high) = read_digits_bounds cs (0 * 10 + (c - 48)) n (omega arith) rest in
          (
            n,
            omega arith,
            high,
            decimal-read_digits cs (suc room) (0 * 10 + (c - 48)) n some_digit rest
                ∙ one_digit room c cs above below,
            ap (signed negative) (sym e) ∙ read,
          )
    ]
  where
    nothing : (b : Bool) → signed b none ≢ some z
    nothing b e = cc

    digit_above : (c : ℕ) → 48 ≤ c → (c == 48) ≡ false → 1 ≤ 0 * 10 + (c - 48)
    digit_above c above lead = ground arith

    one_digit :
        (room c : ℕ) (cs : Bytes)
        → 48 ≤ c
        → c ≤ 57
        → decimal (suc room) (0 * 10 + (c - 48)) cs ≡ c ∷ cs
    one_digit room c cs above below = ground arith

read_number-zero :
    (negative : Bool) (cs : Bytes) (z : ℤ)
    → read_number negative (48 ∷ cs) ≡ some z
    → (negative ≡ false) × (cs ≡ []) × (z ≡ pos 0)
unfolding read_number read_digits
read_number-zero false [] z h = (refl, refl, sym (some-injective (pos 0) z h))
read_number-zero true cs z h = absurd (ground arith)
read_number-zero false (d ∷ cs) z h = absurd (ground arith)

-- Only the decimal forms are read.
canonical_unsigned :
    (c : ℕ) (cs : Bytes) (z : ℤ)
    → length (c ∷ cs) ≤ 20
    → read_number false (c ∷ cs) ≡ some z
    → (to_chars z ≡ c ∷ cs) × IsSymmetric z
unfolding to_chars
canonical_unsigned c cs z short h = elim (Bool-cases (c == 48)) [
  | inl zero_digit ↦
      let digit : c ≡ 48 = ground arith in
      let (plain, nil, same) =
        read_number-zero false cs z (subst (λ d. read_number false (d ∷ cs) ≡ some z) digit h) in
      subst (λ y. (to_chars y ≡ c ∷ cs) × IsSymmetric y) (sym same)
        (rw (digit, nil) refl, omega arith)
  | inr lead ↦
      let (n, low, high, form, value) = read_number-lead false c cs (19 - length cs) z h lead in
      subst (λ y. (to_chars y ≡ c ∷ cs) × IsSymmetric y) (some-injective (pos n) z value)
        (
          ap (λ r. decimal r n []) {x = 20} {y = suc (19 - length cs) + length cs} (omega arith)
              ∙ form,
          high,
        )
]

no_digits : (z : ℤ) → read_number true [] ≢ some z
unfolding read_number
no_digits z e = cc

canonical_negative :
    (cs : Bytes) (z : ℤ)
    → length cs ≤ 19
    → read_number true cs ≡ some z
    → (to_chars z ≡ 45 ∷ cs) × IsSymmetric z
unfolding to_chars
canonical_negative [] z short h = absurd (no_digits z h)
canonical_negative (c ∷ cs) z short h = elim (Bool-cases (c == 48)) [
  | inl zero_digit ↦
      let digit : c ≡ 48 = ground arith in
      absurd (
        no_zero
          (read_number-zero true cs z (subst (λ d. read_number true (d ∷ cs) ≡ some z) digit h)).0)
  | inr lead ↦
      let (n, low, high, form, value) = read_number-lead true c cs (18 - length cs) z h lead in
      below_zero n low high
        (ap (λ r. decimal r n []) {x = 19} {y = suc (18 - length cs) + length cs} (omega arith)
          ∙ form)
        value
]
  where
    no_zero : true ≢ false
    no_zero e = cc

    below_zero :
        (n : ℕ)
        → 1 ≤ n
        → n ≤ k_max
        → decimal 19 n [] ≡ c ∷ cs
        → signed true (some n) ≡ some z
        → (to_chars z ≡ 45 ∷ c ∷ cs) × IsSymmetric z
    below_zero zero low high form value = absurd (omega arith)
    below_zero (suc n) low high form value =
        subst (λ y. (to_chars y ≡ 45 ∷ c ∷ cs) × IsSymmetric y)
          (some-injective (negsuc n) z (least n ∙ value)) (ap (λ b. 45 ∷ b) form, omega arith)
      where
        least : (n : ℕ) → some (negsuc n) ≡ signed true (some (suc n))
        least n = ground arith

canonical : (text : Bytes) (z : ℤ) → parse_int64 text ≡ some z → (to_chars z ≡ text) × IsSymmetric z
unfolding parse_int64
canonical [] z h = cc
canonical (c ∷ cs) z h = elim (Bool-cases (c == 45)) [
  | inl minus ↦
      let digit : c ≡ 45 = ground arith in
      let short : length cs ≤ 19 = ground arith in
      let read : read_number true cs ≡ some z = ground arith in
      subst (λ d. (to_chars z ≡ d ∷ cs) × IsSymmetric z) (sym digit)
        (canonical_negative cs z short read)
  | inr plain ↦
      let short : length (c ∷ cs) ≤ 20 = ground arith in
      let read : read_number false (c ∷ cs) ≡ some z = ground arith in
      canonical_unsigned c cs z short read
]

-- `parse_int64` reads a text as a number exactly when the text is the decimal form of the number
-- and the number is an int64_t other than the least one.
pub parse_int64_iff :
    (text : Bytes) (z : ℤ) → (parse_int64 text ≡ some z) ↔ ((to_chars z ≡ text) × IsSymmetric z)
parse_int64_iff text z =
    (canonical text z, λ (form, range). ap parse_int64 (sym form) ∙ parse_int64-to_chars z range)
