-- ===== src/Commands/Deadline.antt =====
-- src/command.cpp, `normalize_name` and `deadline_from`: the name of a command or an option in lower
-- case, and a lifetime as a point in time.
use cachedb.Prelude.{
  ℕ, ◌+◌, ◌-◌, ◌*◌, ◌/◌, ◌^◌, ◌≤◌, ◌<◌, ◌≡◌, ◌⊎◌, inl, inr, ap, ◌∙◌, not, ◌&&◌, Option, none, some,
  map, ltb, leb, arith, Bool-cases, true, false, if◌then◌else◌, length,
}
use cachedb.Prelude.Int.{
  ℤ, pos, negsuc, pos_part, neg_part, sub_ℕ, leb_ℤ, is_zero, wrap_i64, wrap_i64-IsI64,
}
use cachedb.Prelude.Bytes.{Bytes}
use cachedb.Commands.{k_max}
use cachedb.Store.Layers.{sub_ℤ}

abbrev pub k_max_name_len : ℕ
k_max_name_len = 16

-- std::tolower in the C locale
abbrev pub to_lower : ℕ → ℕ
to_lower c = if leb 65 c && leb c 90 then c + 32 else c

unfoldable pub normalize_name : Bytes → Option Bytes
normalize_name name = if ltb k_max_name_len (length name) then none else some (map to_lower name)

-- Sums, differences and products of integers, and of int64_t values, which the code keeps in range
-- by its guards; out of range they wrap here.
abbrev pub add_ℤ : ℤ → ℤ → ℤ
add_ℤ a b = sub_ℕ (pos_part a + pos_part b) (neg_part a + neg_part b)

abbrev pub scale : ℤ → ℕ → ℤ
scale a n = sub_ℕ (pos_part a * n) (neg_part a * n)

abbrev pub add_i64 : ℤ → ℤ → ℤ
add_i64 a b = wrap_i64 (add_ℤ a b)

abbrev pub sub_i64 : ℤ → ℤ → ℤ
sub_i64 a b = wrap_i64 (sub_ℤ a b)

abbrev pub mul_i64 : ℤ → ℕ → ℤ
mul_i64 a n = wrap_i64 (scale a n)

-- `now` is what now_ms() answers.
unfoldable pub deadline_from : ℤ → ℕ → ℤ → Option ℤ
deadline_from amount unit_ms now =
    let delta = mul_i64 amount unit_ms in
    let out = add_i64 now delta in
    if not (leb_ℤ amount (pos (k_max / unit_ms)))
    then none
    else if not (leb_ℤ delta (sub_i64 (pos k_max) now))
    then none
    else some (if is_zero out then negsuc 0 else out)

difference : (a b c : ℕ) → a ≡ c + b → sub_ℕ a b ≡ pos c
difference a b c h = ground arith

-- The results that the guards let through are exact.
mul_exact : (n unit : ℕ) → n * unit < 2 ^ 63 → mul_i64 (pos n) unit ≡ pos (n * unit)
mul_exact n unit small =
    ap wrap_i64 (difference (n * unit) (0 * unit) (n * unit) (omega arith))
    ∙ wrap_i64-IsI64 (pos (n * unit)) small

add_exact : (t d : ℕ) → t + d < 2 ^ 63 → add_i64 (pos t) (pos d) ≡ pos (t + d)
add_exact t d small =
    ap wrap_i64 (difference (t + d) (0 + 0) (t + d) (omega arith))
    ∙ wrap_i64-IsI64 (pos (t + d)) small

sub_exact : (t : ℕ) → t < 2 ^ 63 → sub_i64 (pos k_max) (pos t) ≡ pos (k_max - t)
sub_exact t small =
    ap wrap_i64 (difference (k_max + 0) (0 + t) (k_max - t) (omega arith))
    ∙ wrap_i64-IsI64 (pos (k_max - t)) (omega arith)

-- The first guard holds exactly when the product is in range.
first_guard :
    (n unit_ms : ℕ)
    → (unit_ms ≡ 1) ⊎ (unit_ms ≡ 1000)
    → leb_ℤ (pos n) (pos (k_max / unit_ms)) ≡ leb (n * unit_ms) k_max
first_guard n unit_ms (inl e) = rw e (ground arith)
first_guard n unit_ms (inr e) = rw e (ground arith)

-- A lifetime in milliseconds or in seconds becomes the deadline that lies that far behind the clock
-- exactly when the deadline fits an int64_t, and is refused when it does not: it never wraps. The
-- lifetime is at least 1, and the clock is past the epoch.
pub deadline_from_lem :
    (n unit_ms t : ℕ)
    → (unit_ms ≡ 1) ⊎ (unit_ms ≡ 1000)
    → 1 ≤ n
    → t < 2 ^ 63
    → deadline_from (pos n) unit_ms (pos t)
      ≡ (if leb (t + n * unit_ms) k_max then some (pos (t + n * unit_ms)) else none)
unfolding deadline_from
deadline_from_lem n unit_ms t units some_time small =
    let m = n * unit_ms in
    elim (Bool-cases (leb m k_max)) [
      | inl fits ↦
          let low : m < 2 ^ 63 = below m fits in
          rw (first_guard n unit_ms units, fits, mul_exact n unit_ms low, sub_exact t small)
            (dated m (product n unit_ms units some_time) low)
      | inr large ↦ rw (first_guard n unit_ms units, large) (refused m large)
    ]
  where
    below : (m : ℕ) → leb m k_max ≡ true → m < 2 ^ 63
    below m h = ground arith

    product : (n u : ℕ) → (u ≡ 1) ⊎ (u ≡ 1000) → 1 ≤ n → 1 ≤ n * u
    product n u (inl e) h = rw e (omega arith)
    product n u (inr e) h = rw e (omega arith)

    refused :
        (m : ℕ)
        → leb m k_max ≡ false
        → none ≡ (if leb (t + m) k_max then some (pos (t + m)) else none)
    refused m h = ground arith

    dated :
        (m : ℕ)
        → 1 ≤ m
        → m < 2 ^ 63
        → (let out = add_i64 (pos t) (pos m) in
            if not (leb_ℤ (pos m) (pos (k_max - t)))
            then none
            else some (if is_zero out then negsuc 0 else out))
          ≡ (if leb (t + m) k_max then some (pos (t + m)) else none)
    dated m more low = elim (Bool-cases (leb (t + m) k_max)) [
      | inl fits ↦ rw (add_exact t m (below (t + m) fits)) (ground arith)
      | inr large ↦ ground arith
    ]
