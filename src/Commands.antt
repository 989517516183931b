-- ===== src/Commands.antt =====
-- src/command.cpp: how a command reads its numbers and what it echoes of a client's bytes; the
-- handlers and the dispatch are in the child modules.
pub mod Canonical
pub mod Echo
pub mod Deadline
pub mod Keys
pub mod Status
pub mod Dispatch
pub mod Framing
pub mod Asked
pub mod Meaning
use cachedb.Prelude.{
  ℕ, zero, suc, ◌+◌, ◌-◌, ◌*◌, ◌/◌, ◌^◌, min, Bool, true, false, ◌&&◌, ◌||◌, Option, none, some,
  List, [], ◌∷◌, ◌++◌, ltb, leb, ◌==◌, if◌then◌else◌, length,
}
use cachedb.Prelude.Int.{ℤ, pos, sub_ℕ}
use cachedb.Prelude.Bytes.{Bytes}

-- numeric_limits<int64_t>::max()
abbrev pub k_max : ℕ
k_max = 2 ^ 63 - 1

-- The loop over the digits, with `value` what has been read.
unfoldable pub read_digits : ℕ → Bytes → Option ℕ
read_digits value [] = some value
read_digits value (c ∷ cs) =
    let digit = c - 48 in
    let rest = read_digits (value * 10 + digit) cs in
    if ltb c 48 || ltb 57 c then none else if ltb ((k_max - digit) / 10) value then none else rest

abbrev signed : Bool → Option ℕ → Option ℤ
signed negative none = none
signed true (some n) = some (sub_ℕ 0 n)
signed false (some n) = some (pos n)

-- text[i] == '0' && (text.size() - i > 1 || negative), and the loop, from text[i] on.
unfoldable pub read_number : Bool → Bytes → Option ℤ
unfolding read_digits
read_number negative [] = none
read_number negative (c ∷ cs) =
    if c == 48 && (ltb 1 (length (c ∷ cs)) || negative)
    then none
    else signed negative (read_digits 0 (c ∷ cs))

-- 45 is '-'.
unfoldable pub parse_int64 : Bytes → Option ℤ
unfolding read_number
parse_int64 [] = none
parse_int64 (c ∷ cs) =
    if ltb 20 (length (c ∷ cs))
    then none
    else if c == 45
    then read_number true cs
    else read_number false (c ∷ cs)

-- std::isprint in the C locale
abbrev pub is_print : ℕ → Bool
is_print c = leb 32 c && leb c 126

-- The loop over the first `n` bytes; 46 is '.'.
unfoldable pub append_echo : ℕ → Bytes → Bytes → Bytes
append_echo zero out s = out
append_echo (suc n) out [] = out
append_echo (suc n) out (c ∷ cs) = append_echo n (out ++ (if is_print c then c else 46) ∷ []) cs

unfoldable pub append_printable : Bytes → Bytes → Bytes
unfolding append_echo
append_printable out s = append_echo (min (length s) 64) out s
