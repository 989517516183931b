-- ===== src/Connection/Output.antt =====
-- The queue of replies of a connection: src/connection.cpp, `pending_output` and `consume_output`.
use cachedb.Prelude.{
  ℕ, ◌+◌, ◌*◌, ◌≤◌, ◌≡◌, refl, Bool, true, false, ◌&&◌, [], arith, leb, ◌==◌, if◌then◌else◌, length,
  drop, drop-drop, length-drop, sym, ◌∙◌,
}
use cachedb.Prelude.Bytes.{Bytes}
use cachedb.Connection.{Connection, k_compact_threshold, pending_output, consume_output}

drop_end : (n : ℕ) (xs : Bytes) → length xs ≡ n → drop n xs ≡ []
drop_end n xs h = nothing (drop n xs) (omega (arith, length-drop n xs))
  where
    nothing : (ys : Bytes) → length ys ≡ 0 → ys ≡ []
    nothing ys e = ground arith

-- After `consume_output` of `n` bytes, of those that wait, the others wait in their order, whether
-- the buffer is cleared, compacted or left with its offset.
pub pending_output-consume_output :
    (c : Connection) (n : ℕ)
    → c.out_pos + n ≤ length c.output
    → pending_output (consume_output c n) ≡ drop n (pending_output c)
unfolding pending_output consume_output
pending_output-consume_output c n h =
    let at = c.out_pos + n in
    let whole : drop n (drop c.out_pos c.output) ≡ drop at c.output =
      drop-drop c.out_pos n at c.output refl in
    by_branch (at == length c.output) (leb k_compact_threshold at && leb (length c.output) (at * 2))
      (λ e. whole ∙ drop_end at c.output (ground arith)) whole
  where
    by_branch :
        (b d : Bool)
        → (b ≡ true → drop n (drop c.out_pos c.output) ≡ [])
        → drop n (drop c.out_pos c.output) ≡ drop (c.out_pos + n) c.output
        → pending_output (
            if b
            then record c { output = []; out_pos = 0 }
            else if d
            then record c { output = drop (c.out_pos + n) c.output; out_pos = 0 }
            else record c { out_pos = c.out_pos + n })
          ≡ drop n (drop c.out_pos c.output)
    by_branch true d none_left rest_left = sym (none_left refl)
    by_branch false true none_left rest_left = sym rest_left
    by_branch false false none_left rest_left = sym rest_left
