-- ===== src/Prelude/Chars.antt =====
-- std::from_chars and std::to_chars on int64_t in base 10, as src/resp.cpp and src/command.cpp use
-- them: the parse wants a number and nothing else, and refuses one that does not fit.
use Prim.Native.Nat.{ℕ, zero, suc, ◌+◌, ◌-◌, ◌*◌, ◌/◌, ◌%◌, ◌^◌, ◌≤◌, ◌<◌}
use mathlib.Core.Path.{◌≡◌, refl, ap, ◌∙◌}
use mathlib.Core.Bool.{Bool, ◌&&◌}
use mathlib.Core.Option.{Option, none, some}
use mathlib.Core.List.{[], ◌∷◌}
use native.Mathlib.Nat.{pow-suc}
use native.Mathlib.Omega.{arith}
use cachedb.Prelude.Tests.{ltb, leb, ◌==◌, if◌then◌else◌}
use cachedb.Prelude.Lists.{length, get_or}
use cachedb.Prelude.Int.{ℤ, pos, negsuc, sub_ℕ, IsI64}
use cachedb.Prelude.Bytes.{Bytes}

-- '0' <= c && c <= '9'
abbrev pub is_digit : ℕ → Bool
is_digit c = leb 48 c && leb c 57

-- The number that follows `acc` in decimal, when every byte is a digit.
unfoldable pub digits_value : ℕ → Bytes → Option ℕ
digits_value acc [] = some acc
digits_value acc (c ∷ cs) =
    let rest = digits_value (acc * 10 + (c - 48)) cs in if is_digit c then rest else none

-- The digits of a number, which are at least one.
abbrev number : Bytes → Option ℕ
number [] = none
number (c ∷ cs) = digits_value 0 (c ∷ cs)

abbrev negated : Option ℕ → Option ℤ
negated none = none
negated (some n) = if leb n (2 ^ 63) then some (sub_ℕ 0 n) else none

abbrev unsigned : Option ℕ → Option ℤ
unsigned none = none
unsigned (some n) = if ltb n (2 ^ 63) then some (pos n) else none

-- The whole of a nonempty string, with 45 the sign '-'.
unfoldable pub parse_i64 : Bytes → Option ℤ
unfolding digits_value
parse_i64 [] = none
parse_i64 (c ∷ cs) = if c == 45 then negated (number cs) else unsigned (number (c ∷ cs))

-- The digits of `n` before `acc`, at most `room` of them.
unfoldable pub decimal : ℕ → ℕ → Bytes → Bytes
decimal zero n acc = acc
decimal (suc room) n acc =
    let rest = decimal room (n / 10) ((48 + n % 10) ∷ acc) in
    if ltb n 10 then (48 + n) ∷ acc else rest

-- The buffer of append_i64 has 20 bytes.
unfoldable pub to_chars : ℤ → Bytes
unfolding decimal
to_chars (pos n) = decimal 20 n []
to_chars (negsuc n) = 45 ∷ decimal 19 (suc n) []

pub digits_value-decimal :
    (room n : ℕ) (acc : Bytes)
    → n < 10 ^ room
    → digits_value 0 (decimal room n acc) ≡ digits_value n acc
unfolding digits_value decimal
digits_value-decimal zero n acc h = ap (λ m. digits_value m acc) (omega arith)
digits_value-decimal (suc room) n acc h = ground (
  arith,
  pow-suc 10 room,
  digits_value-decimal room (n / 10) ((48 + n % 10) ∷ acc),
  next_digit n acc,
  last_digit n acc,
)
  where
    next_digit :
        (n : ℕ) (acc : Bytes) → digits_value (n / 10) ((48 + n % 10) ∷ acc) ≡ digits_value n acc
    next_digit n acc = ground arith

    last_digit :
        (n : ℕ) (acc : Bytes) → n < 10 → digits_value 0 ((48 + n) ∷ acc) ≡ digits_value n acc
    last_digit n acc small = ground arith

-- The first byte is a digit.
decimal-head : (room n : ℕ) (acc : Bytes) → 48 ≤ get_or (decimal (suc room) n acc) 0 0
unfolding decimal
decimal-head zero n acc = ground arith
decimal-head (suc room) n acc = ground (arith, decimal-head room (n / 10) ((48 + n % 10) ∷ acc))

pub nil_value : (n : ℕ) → digits_value n [] ≡ some n
unfolding digits_value
nil_value n = refl

unsigned_lem :
    (s : Bytes) (n : ℕ)
    → 48 ≤ get_or s 0 0
    → digits_value 0 s ≡ some n
    → n < 2 ^ 63
    → parse_i64 s ≡ some (pos n)
unfolding parse_i64
unsigned_lem [] n head value small = absurd (omega arith)
unsigned_lem (c ∷ cs) n head value small = rw value (ground arith)

negated_lem :
    (s : Bytes) (n : ℕ)
    → 48 ≤ get_or s 0 0
    → digits_value 0 s ≡ some (suc n)
    → n < 2 ^ 63
    → parse_i64 (45 ∷ s) ≡ some (negsuc n)
unfolding parse_i64
negated_lem [] n head value small = absurd (omega arith)
negated_lem (c ∷ cs) n head value small = rw value (ground arith)

pub parse_i64-to_chars : (z : ℤ) → IsI64 z → parse_i64 (to_chars z) ≡ some z
unfolding to_chars
parse_i64-to_chars (pos n) h =
    unsigned_lem (decimal 20 n []) n (decimal-head 19 n [])
      (digits_value-decimal 20 n [] (omega arith) ∙ nil_value n) h
parse_i64-to_chars (negsuc n) h =
    negated_lem (decimal 19 (suc n) []) n (decimal-head 18 (suc n) [])
      (digits_value-decimal 19 (suc n) [] (omega arith) ∙ nil_value (suc n)) h

length-decimal : (room n : ℕ) (acc : Bytes) → length (decimal room n acc) ≤ room + length acc
unfolding decimal
length-decimal zero n acc = omega arith
length-decimal (suc room) n acc = ground (arith, length-decimal room (n / 10) ((48 + n % 10) ∷ acc))

pub length-to_chars : (z : ℤ) → length (to_chars z) ≤ 20
unfolding to_chars
length-to_chars (pos n) = omega (arith, length-decimal 20 n [])
length-to_chars (negsuc n) = omega (arith, length-decimal 19 (suc n) [])
