-- ===== src/Resp/Advance.antt =====
-- How far a round of `RespParser::parse` in src/resp.cpp goes: `pos` never goes back nor past the
-- end of `in`, and the next round sees what is behind it.
use cachedb.Prelude.{
  ℕ, suc, ◌+◌, ◌-◌, ◌≤◌, ◌≡◌, ap, inl, inr, Option, none, some, [], ◌∷◌, arith, leb, ◌==◌, length,
  take, drop, Option-cases, Bool-cases,
}
use cachedb.Prelude.Int.{ℤ}
use cachedb.Prelude.Bytes.{Bytes}
use cachedb.Prelude.Chars.{parse_i64}
use cachedb.Resp.Chunks.{multibulk_none, multibulk_some, bulk_nil, bulk_none, bulk_some, bulk_other}
use cachedb.Resp.Body.{body_all, body_part, inline_none, inline_some}
use cachedb.Resp.{
  Command, unterminated, RespParser, find_crlf, find_newline, line_end, split_inline, Step, again,
  done, step_type, step_multibulk_len, accept_multibulk_len, step_bulk_len, accept_bulk_len,
  step_bulk_body, step_bulk_crlf, step_inline, accept_inline, step,
}
use cachedb.Resp.Total.{find_crlf-lt, find_newline-lt}

-- `next` is a place in the `rest` that starts at `at`, and `tail` is what stands there.
pub record Reached (at : ℕ) (rest : Bytes) (next : ℕ) (tail : Bytes) : Type 0 where
  pub forward : at ≤ next
  pub inside : next ≤ at + length rest
  pub behind : tail ≡ drop (next - at) rest

abbrev pub Advance : ℕ → Bytes → Step → Type 0
Advance at rest (again p next tail) = Reached at rest next tail
Advance at rest (done p result out) = (at ≤ result.consumed) × (result.consumed ≤ at + length rest)

Reached-at : (at n : ℕ) (rest : Bytes) → n ≤ length rest → Reached at rest (at + n) (drop n rest)
Reached-at at n rest fits = record {
  forward = omega arith;
  inside = omega arith;
  behind = ap (λ k. drop k rest) {x = n} (omega arith);
}

Reached-behind :
    (at i c : ℕ) (cs : Bytes)
    → i + 2 ≤ length cs
    → Reached at (c ∷ cs) (at + (i + 3)) (drop (i + 2) cs)
Reached-behind at i c cs fits = record {
  forward = omega arith;
  inside = omega arith;
  behind = ap (λ k. drop k (c ∷ cs)) {x = suc (i + 2)} (omega arith);
}

accept_multibulk_len-Advance :
    (p : RespParser) (at next : ℕ) (rest tail : Bytes) (out : Command) (n : Option ℤ)
    → Reached at rest next tail
    → Advance at rest (accept_multibulk_len p at next tail out n)
unfolding accept_multibulk_len
accept_multibulk_len-Advance p at next rest tail out none h = omega arith
accept_multibulk_len-Advance p at next rest tail out (some n) h = ground arith

accept_bulk_len-Advance :
    (p : RespParser) (at next : ℕ) (rest tail : Bytes) (out : Command) (n : Option ℤ)
    → Reached at rest next tail
    → Advance at rest (accept_bulk_len p at next tail out n)
unfolding accept_bulk_len
accept_bulk_len-Advance p at next rest tail out none h = omega arith
accept_bulk_len-Advance p at next rest tail out (some n) h = ground arith

step_type-Advance :
    (p : RespParser) (at : ℕ) (rest : Bytes) (out : Command)
    → Advance at rest (step_type p at rest out)
unfolding step_type
step_type-Advance p at [] out = (omega arith, omega arith)
step_type-Advance p at (c ∷ cs) out =
    ground (arith, Reached-at at 1 (c ∷ cs), Reached-at at 0 (c ∷ cs))

unterminated-Advance :
    (p : RespParser) (at : ℕ) (rest : Bytes) (out : Command)
    → Advance at rest (unterminated p at rest out)
unterminated-Advance p at rest out = ground arith

step_multibulk_len-Advance :
    (p : RespParser) (at : ℕ) (rest : Bytes) (out : Command)
    → Advance at rest (step_multibulk_len p at rest out)
step_multibulk_len-Advance p at rest out = elim (Option-cases (find_crlf rest)) [
  | inl e ↦ rw (multibulk_none p at rest out e) (unterminated-Advance p at rest out)
  | inr (i, e) ↦ rw (multibulk_some p at rest out i e) (
      accept_multibulk_len-Advance p at (at + (i + 2)) rest (drop (i + 2) rest) out
        (parse_i64 (take i rest)) (Reached-at at (i + 2) rest (find_crlf-lt rest i e)))
]

step_bulk_len-Advance :
    (p : RespParser) (at : ℕ) (rest : Bytes) (out : Command)
    → Advance at rest (step_bulk_len p at rest out)
step_bulk_len-Advance p at [] out = rw (bulk_nil p at out) (omega arith, omega arith)
step_bulk_len-Advance p at (c ∷ cs) out = elim (Bool-cases (c == 36)) [
  | inr other ↦ rw (bulk_other p at c cs out other) (omega arith, omega arith)
  | inl dollar ↦ elim (Option-cases (find_crlf cs)) [
    | inl e ↦ rw (bulk_none p at c cs out e dollar) (unterminated-Advance p at (c ∷ cs) out)
    | inr (i, e) ↦
        let room = find_crlf-lt cs i e in
        rw (bulk_some p at c cs out i e dollar) (
          accept_bulk_len-Advance p at (at + (i + 3)) (c ∷ cs) (drop (i + 2) cs) out
            (parse_i64 (take i cs)) (Reached-behind at i c cs room))
  ]
]

step_bulk_body-Advance :
    (p : RespParser) (at : ℕ) (rest : Bytes) (out : Command)
    → Advance at rest (step_bulk_body p at rest out)
step_bulk_body-Advance p at rest out = elim (Bool-cases (leb p.bulk_remaining (length rest))) [
  | inl fits ↦
      rw (body_all p at rest out (ground arith))
        (Reached-at at p.bulk_remaining rest (ground arith))
  | inr short ↦ rw (body_part p at rest out (ground arith)) (omega arith, omega arith)
]

step_bulk_crlf-Advance :
    (p : RespParser) (at : ℕ) (rest : Bytes) (out : Command)
    → Advance at rest (step_bulk_crlf p at rest out)
unfolding step_bulk_crlf
step_bulk_crlf-Advance p at [] out = (omega arith, omega arith)
step_bulk_crlf-Advance p at (c ∷ []) out = (omega arith, omega arith)
step_bulk_crlf-Advance p at (c ∷ d ∷ cs) out = ground (arith, Reached-at at 2 (c ∷ d ∷ cs))

accept_inline-Advance :
    (p : RespParser) (at next : ℕ) (rest tail : Bytes)
    → Reached at rest next tail
    → Advance at rest (accept_inline p next tail)
unfolding accept_inline
accept_inline-Advance p at next rest tail h = ground arith

step_inline-Advance :
    (p : RespParser) (at : ℕ) (rest : Bytes) (out : Command)
    → Advance at rest (step_inline p at rest out)
step_inline-Advance p at rest out = elim (Option-cases (find_newline rest)) [
  | inl e ↦ rw (inline_none p at rest out e) (unterminated-Advance p at rest out)
  | inr (i, e) ↦ rw (inline_some p at rest out i e) (
      accept_inline-Advance (record p { pending = split_inline [] (take (line_end rest i) rest) })
        at (at + (i + 1)) rest (drop (i + 1) rest)
        (Reached-at at (i + 1) rest (find_newline-lt rest i e)))
]

pub step-Advance :
    (p : RespParser) (at : ℕ) (rest : Bytes) (out : Command) → Advance at rest (step p at rest out)
unfolding step
step-Advance p at rest out = ground (
  arith,
  step_type-Advance p at rest out,
  step_multibulk_len-Advance p at rest out,
  step_bulk_len-Advance p at rest out,
  step_bulk_body-Advance p at rest out,
  step_bulk_crlf-Advance p at rest out,
  step_inline-Advance p at rest out,
)
