-- ===== src/Resp/Shift.antt =====
-- `RespParser::parse` of src/resp.cpp does not depend on where in `in` it starts: its positions are
-- only counted.
use cachedb.Prelude.{
  ℕ, zero, suc, ◌+◌, ◌≡◌, refl, sym, ap, ◌∙◌, Option, none, some, [], ◌∷◌, arith, drop, ◌==◌,
  Option-cases, Bool-cases, inl, inr, take,
}
use cachedb.Prelude.Int.{ℤ}
use cachedb.Prelude.Chars.{parse_i64}
use cachedb.Prelude.Bytes.{Bytes}
use cachedb.Resp.{
  Command, unterminated, find_crlf, find_newline, line_end, split_inline, Result, RespParser, Step,
  again, done, step_type, step_multibulk_len, accept_multibulk_len, step_bulk_len, accept_bulk_len,
  step_bulk_body, step_bulk_crlf, step_inline, accept_inline, step, parse_loop, parse,
}
use cachedb.Resp.Chunks.{multibulk_none, multibulk_some, bulk_nil, bulk_none, bulk_some, bulk_other}
use cachedb.Resp.Body.{inline_none, inline_some}
use cachedb.Resp.Total.{measure, run, parse-run}

abbrev pub moved : ℕ → Result → Result
moved k r = record r { consumed = k + r.consumed }

abbrev moved_step : ℕ → Step → Step
moved_step k (again p at rest) = again p (k + at) rest
moved_step k (done p r out) = done p (moved k r) out

unterminated_moved :
    (k : ℕ) (p : RespParser) (at : ℕ) (rest : Bytes) (out : Command)
    → unterminated p (k + at) rest out ≡ moved_step k (unterminated p at rest out)
unterminated_moved k p at rest out = ground arith

step_type_moved :
    (k : ℕ) (p : RespParser) (at : ℕ) (rest : Bytes) (out : Command)
    → step_type p (k + at) rest out ≡ moved_step k (step_type p at rest out)
unfolding step_type
step_type_moved k p at [] out = refl
step_type_moved k p at (c ∷ cs) out = ground arith

accept_multibulk_len_moved :
    (k : ℕ) (p : RespParser) (at next : ℕ) (rest : Bytes) (out : Command) (n : Option ℤ)
    → accept_multibulk_len p (k + at) (k + next) rest out n
      ≡ moved_step k (accept_multibulk_len p at next rest out n)
unfolding accept_multibulk_len
accept_multibulk_len_moved k p at next rest out n = ground arith

step_multibulk_len_moved :
    (k : ℕ) (p : RespParser) (at : ℕ) (rest : Bytes) (out : Command)
    → step_multibulk_len p (k + at) rest out ≡ moved_step k (step_multibulk_len p at rest out)
step_multibulk_len_moved k p at rest out = elim (Option-cases (find_crlf rest)) [
  | inl e ↦
      rw (multibulk_none p (k + at) rest out e, multibulk_none p at rest out e)
        (unterminated_moved k p at rest out)
  | inr (i, e) ↦
      let place : k + at + (i + 2) ≡ k + (at + (i + 2)) = omega arith in
      rw (multibulk_some p (k + at) rest out i e, multibulk_some p at rest out i e, place)
        (accept_multibulk_len_moved k p at (at + (i + 2)) (drop (i + 2) rest) out
          (parse_i64 (take i rest)))
]

accept_bulk_len_moved :
    (k : ℕ) (p : RespParser) (at next : ℕ) (rest : Bytes) (out : Command) (n : Option ℤ)
    → accept_bulk_len p (k + at) (k + next) rest out n
      ≡ moved_step k (accept_bulk_len p at next rest out n)
unfolding accept_bulk_len
accept_bulk_len_moved k p at next rest out n = ground arith

step_bulk_len_moved :
    (k : ℕ) (p : RespParser) (at : ℕ) (rest : Bytes) (out : Command)
    → step_bulk_len p (k + at) rest out ≡ moved_step k (step_bulk_len p at rest out)
step_bulk_len_moved k p at [] out = rw (bulk_nil p (k + at) out, bulk_nil p at out) refl
step_bulk_len_moved k p at (c ∷ cs) out = elim (Bool-cases (c == 36)) [
  | inr other ↦ rw (bulk_other p (k + at) c cs out other, bulk_other p at c cs out other) refl
  | inl dollar ↦ elim (Option-cases (find_crlf cs)) [
    | inl e ↦
        rw (bulk_none p (k + at) c cs out e dollar, bulk_none p at c cs out e dollar)
          (unterminated_moved k p at (c ∷ cs) out)
    | inr (i, e) ↦
        let place : k + at + (i + 3) ≡ k + (at + (i + 3)) = omega arith in
        rw (bulk_some p (k + at) c cs out i e dollar, bulk_some p at c cs out i e dollar, place)
          (accept_bulk_len_moved k p at (at + (i + 3)) (drop (i + 2) cs) out
            (parse_i64 (take i cs)))
  ]
]

step_bulk_body_moved :
    (k : ℕ) (p : RespParser) (at : ℕ) (rest : Bytes) (out : Command)
    → step_bulk_body p (k + at) rest out ≡ moved_step k (step_bulk_body p at rest out)
unfolding step_bulk_body
step_bulk_body_moved k p at rest out = ground arith

step_bulk_crlf_moved :
    (k : ℕ) (p : RespParser) (at : ℕ) (rest : Bytes) (out : Command)
    → step_bulk_crlf p (k + at) rest out ≡ moved_step k (step_bulk_crlf p at rest out)
unfolding step_bulk_crlf
step_bulk_crlf_moved k p at [] out = refl
step_bulk_crlf_moved k p at (c ∷ []) out = refl
step_bulk_crlf_moved k p at (c ∷ d ∷ cs) out = ground arith

accept_inline_moved :
    (k : ℕ) (p : RespParser) (next : ℕ) (rest : Bytes)
    → accept_inline p (k + next) rest ≡ moved_step k (accept_inline p next rest)
unfolding accept_inline
accept_inline_moved k p next rest = ground arith

step_inline_moved :
    (k : ℕ) (p : RespParser) (at : ℕ) (rest : Bytes) (out : Command)
    → step_inline p (k + at) rest out ≡ moved_step k (step_inline p at rest out)
step_inline_moved k p at rest out = elim (Option-cases (find_newline rest)) [
  | inl e ↦
      rw (inline_none p (k + at) rest out e, inline_none p at rest out e)
        (unterminated_moved k p at rest out)
  | inr (i, e) ↦
      let place : k + at + (i + 1) ≡ k + (at + (i + 1)) = omega arith in
      rw (inline_some p (k + at) rest out i e, inline_some p at rest out i e, place)
        (accept_inline_moved k
          (record p { pending = split_inline [] (take (line_end rest i) rest) }) (at + (i + 1))
          (drop (i + 1) rest))
]

step_moved :
    (k : ℕ) (p : RespParser) (at : ℕ) (rest : Bytes) (out : Command)
    → step p (k + at) rest out ≡ moved_step k (step p at rest out)
unfolding step
step_moved k p at rest out = ground (
  arith,
  step_type_moved k p at rest out,
  step_multibulk_len_moved k p at rest out,
  step_bulk_len_moved k p at rest out,
  step_bulk_body_moved k p at rest out,
  step_bulk_crlf_moved k p at rest out,
  step_inline_moved k p at rest out,
)

abbrev pub moved_outcome :
    ℕ → Option (RespParser × Result × Command) → Option (RespParser × Result × Command)
moved_outcome k none = none
moved_outcome k (some (p, r, out)) = some (p, moved k r, out)

parse_loop_moved :
    (f k : ℕ) (p : RespParser) (at : ℕ) (rest : Bytes) (out : Command)
    → parse_loop f p (k + at) rest out ≡ moved_outcome k (parse_loop f p at rest out)
unfolding parse_loop
parse_loop_moved zero k p at rest out = refl
parse_loop_moved (suc f) k p at rest out =
    rw (step_moved k p at rest out, parse_loop)
      (rounds (λ p' at' rest'. parse_loop_moved f k p' at' rest' out) (step p at rest out))
  where
    rounds :
        ((p' : RespParser) (at' : ℕ) (rest' : Bytes)
          → parse_loop f p' (k + at') rest' out ≡ moved_outcome k (parse_loop f p' at' rest' out))
        → (s : Step)
        → elim (moved_step k s) as (λ s. Option (RespParser × Result × Command)) [
          | again p' at' rest' ↦ parse_loop f p' at' rest' out
          | done p' result out' ↦ some (p', result, out')
        ]
          ≡ moved_outcome k (elim s as (λ s. Option (RespParser × Result × Command)) [
            | again p' at' rest' ↦ parse_loop f p' at' rest' out
            | done p' result out' ↦ some (p', result, out')
          ])
    rounds h (again p' at' rest') = h p' at' rest'
    rounds h (done p' result out') = refl

pub run_moved :
    (k : ℕ) (p : RespParser) (rest : Bytes) (out : Command)
    → run p k rest out ≡ moved_outcome k (parse p rest out)
run_moved k p rest out =
    let start : k ≡ k + 0 = omega arith in
    ap (λ at. run p at rest out) start
    ∙ parse_loop_moved (suc (measure p rest)) k p 0 rest out
    ∙ ap (moved_outcome k) (sym (parse-run p rest out))
