-- ===== src/Resp/Body.antt =====
-- The rounds of src/resp.cpp over a payload, its terminator and an inline line, under a longer
-- input.
use cachedb.Prelude.{
  ℕ, zero, suc, ◌+◌, ◌-◌, ◌<◌, ◌≤◌, min, ◌≡◌, refl, sym, ap, ◌∙◌, inl, inr, none, some, [], ◌∷◌,
  ◌++◌, arith, ltb, leb, ◌==◌, length, take, drop, get_or-append, take-append_le, drop-append_le,
  length-append, Option-cases, tests, drop-append_past, take-append_past, Bool-cases, append_assoc,
  take_all, lt→ltb, not, ◌||◌,
}
use cachedb.Prelude.Words.{sub_u64}
use cachedb.Prelude.Bytes.{Bytes}
use cachedb.Resp.{
  split_inline, Command, need_more, unterminated, reading_bulk_body, reading_bulk_crlf, RespParser,
  find_newline, line_end, append_back, again, step_bulk_body, step_bulk_crlf, step_inline,
  accept_inline, step,
}
use cachedb.Resp.Total.{find_newline-lt}
use cachedb.Resp.Chunks.{
  Chunk, need_more-Chunk, unterminated-Chunk, either-Chunk, accept_inline-Chunk,
  find_newline-append,
}

-- A body that is all there, and one that is not.
pub body_all :
    (p : RespParser) (at : ℕ) (rest : Bytes) (out : Command)
    → p.bulk_remaining ≤ length rest
    → step_bulk_body p at rest out
      ≡ again
          (record p {
            pending = append_back p.pending (take p.bulk_remaining rest);
            bulk_remaining = 0;
            state = reading_bulk_crlf;
          })
          (at + p.bulk_remaining)
          (drop p.bulk_remaining rest)
unfolding step_bulk_body
body_all p at rest out fits =
    rw (taken_all (length rest) p.bulk_remaining fits, left_none p.bulk_remaining) refl
  where
    taken_all : (n m : ℕ) → m ≤ n → min n m ≡ m
    taken_all n m h = omega arith

    left_none : (n : ℕ) → n - n ≡ 0
    left_none n = omega arith

pub body_part :
    (p : RespParser) (at : ℕ) (rest : Bytes) (out : Command)
    → length rest < p.bulk_remaining
    → step_bulk_body p at rest out
      ≡ need_more
          (record p {
            pending = append_back p.pending rest;
            bulk_remaining = p.bulk_remaining - length rest;
          })
          (at + length rest)
          out
unfolding step_bulk_body
body_part p at rest out short =
    rw
      (
        taken_part (length rest) p.bulk_remaining short,
        take_all (length rest) rest (omega arith),
        lt→ltb 0 (p.bulk_remaining - length rest) (omega arith),
      )
      refl
  where
    taken_part : (n m : ℕ) → n < m → min n m ≡ n
    taken_part n m h = omega arith

pub append_back-append_back :
    (args : Command) (xs ys : Bytes)
    → append_back (append_back args xs) ys ≡ append_back args (xs ++ ys)
unfolding append_back
append_back-append_back [] xs ys = refl
append_back-append_back (arg ∷ []) xs ys = ap (λ a. a ∷ []) (append_assoc arg xs ys)
append_back-append_back (arg ∷ next ∷ []) xs ys = ap (λ a. arg ∷ a ∷ []) (append_assoc next xs ys)
append_back-append_back (arg ∷ next ∷ third ∷ args) xs ys =
    ap (λ a. arg ∷ a) (append_back-append_back (next ∷ third ∷ args) xs ys)

-- A body in two pieces.
body_split :
    (p : RespParser) (at : ℕ) (rest more : Bytes) (out : Command)
    → length rest < p.bulk_remaining
    → let p' = record p {
      pending = append_back p.pending rest;
      bulk_remaining = p.bulk_remaining - length rest;
    } in
      step_bulk_body p at (rest ++ more) out ≡ step_bulk_body p' (at + length rest) more out
body_split p at rest more out short =
    let p' : RespParser = record p {
      pending = append_back p.pending rest;
      bulk_remaining = p.bulk_remaining - length rest;
    } in
    let n = length rest in
    let br = p.bulk_remaining in
    elim (Bool-cases (leb p.bulk_remaining (length rest + length more))) [
      | inl fits ↦
          let whole : br ≤ length (rest ++ more) = omega (tests, length-append rest more) in
          let tail : br - n ≤ length more = omega tests in
          let at_end : at + br ≡ at + n + (br - n) = omega arith in
          rw
            (
              body_all p at (rest ++ more) out whole,
              body_all p' (at + n) more out tail,
              append_back-append_back p.pending rest (take (br - n) more),
              take-append_past n (br - n) br rest more refl (omega arith),
              drop-append_past n (br - n) br rest more refl (omega arith),
              at_end,
            )
            refl
      | inr part ↦
          let big : length rest + length more < br = ground arith in
          let left : br - length (rest ++ more) ≡ br - n - length more =
            omega (arith, length-append rest more) in
          let at_end : at + length (rest ++ more) ≡ at + n + length more =
            omega (arith, length-append rest more) in
          rw
            (
              body_part p at (rest ++ more) out (omega (arith, length-append rest more)),
              body_part p' (at + n) more out (omega arith),
              append_back-append_back p.pending rest more,
              left,
              at_end,
            )
            refl
    ]

drop_whole : (n : ℕ) (xs : Bytes) → drop (n + length xs - n) xs ≡ []
drop_whole n xs = ap (λ k. drop k xs) {y = length xs} (omega arith) ∙ drop_all xs
  where
    drop_all : (xs : Bytes) → drop (length xs) xs ≡ []
    drop_all [] = refl
    drop_all (x ∷ xs) = drop_all xs

at_body :
    (p : RespParser) (at : ℕ) (rest : Bytes) (out : Command)
    → p.state ≡ reading_bulk_body
    → step p at rest out ≡ step_bulk_body p at rest out
unfolding step
at_body p at rest out h = rw h refl

pub step_bulk_body-Chunk :
    (p : RespParser) (at : ℕ) (rest more : Bytes) (out : Command)
    → p.state ≡ reading_bulk_body
    → Chunk at rest more out (step_bulk_body p at rest out) (step_bulk_body p at (rest ++ more) out)
step_bulk_body-Chunk p at rest more out h = elim (Bool-cases (ltb (length rest) p.bulk_remaining)) [
  | inl short ↦
      let part : length rest < p.bulk_remaining = ground arith in
      let p' : RespParser = record p {
        pending = append_back p.pending rest;
        bulk_remaining = p.bulk_remaining - length rest;
      } in
      let gone : drop (at + length rest - at) rest ≡ [] = drop_whole at rest in
      rw (body_part p at rest out part, gone)
        (body_split p at rest more out part ∙ sym (at_body p' (at + length rest) more out h), refl)
  | inr long ↦
      let fits : p.bulk_remaining ≤ length rest = ground arith in
      rw
        (
          body_all p at rest out fits,
          body_all p at (rest ++ more) out (omega (arith, length-append rest more)),
          take-append_le p.bulk_remaining rest more fits,
          drop-append_le p.bulk_remaining rest more fits,
        )
        refl
]

pub step_bulk_crlf-Chunk :
    (p : RespParser) (at : ℕ) (rest more : Bytes) (out : Command)
    → step_bulk_crlf p at (rest ++ more) out ≡ step p at (rest ++ more) out
    → Chunk at rest more out (step_bulk_crlf p at rest out) (step_bulk_crlf p at (rest ++ more) out)
unfolding step_bulk_crlf
step_bulk_crlf-Chunk p at [] more out h = need_more-Chunk p at [] more out _ h
step_bulk_crlf-Chunk p at (c ∷ []) more out h = need_more-Chunk p at (c ∷ []) more out _ h
step_bulk_crlf-Chunk p at (c ∷ d ∷ cs) more out h =
    either-Chunk at (c ∷ d ∷ cs) more out (not (c == 13) || not (d == 10)) _ _ _ _ (λ e. refl)
      (either-Chunk at (c ∷ d ∷ cs) more out (sub_u64 p.multibulk_remaining 1 == 0) _ _ _ _ refl
        refl)

pub inline_none :
    (p : RespParser) (at : ℕ) (rest : Bytes) (out : Command)
    → find_newline rest ≡ none
    → step_inline p at rest out ≡ unterminated p at rest out
unfolding step_inline
inline_none p at rest out e = rw (e, step_inline) refl

pub inline_some :
    (p : RespParser) (at : ℕ) (rest : Bytes) (out : Command) (i : ℕ)
    → find_newline rest ≡ some i
    → step_inline p at rest out
      ≡ accept_inline
          (record p { pending = split_inline [] (take (line_end rest i) rest) })
          (at + (i + 1))
          (drop (i + 1) rest)
unfolding step_inline
inline_some p at rest out i e = rw (e, step_inline) refl

line_end-append :
    (rest more : Bytes) (i : ℕ) → i ≤ length rest → line_end (rest ++ more) i ≡ line_end rest i
unfolding line_end
line_end-append rest more zero h = refl
line_end-append rest more (suc i) h = rw (get_or-append rest more (suc i - 1) 0 (omega arith)) refl

line_end-le : (rest : Bytes) (i : ℕ) → line_end rest i ≤ i
unfolding line_end
line_end-le rest i = ground arith

pub step_inline-Chunk :
    (p : RespParser) (at : ℕ) (rest more : Bytes) (out : Command)
    → step_inline p at (rest ++ more) out ≡ step p at (rest ++ more) out
    → Chunk at rest more out (step_inline p at rest out) (step_inline p at (rest ++ more) out)
step_inline-Chunk p at rest more out h = elim (Option-cases (find_newline rest)) [
  | inl e ↦ rw (inline_none p at rest out e) (unterminated-Chunk p at rest more out _ h)
  | inr (i, e) ↦
      let room = find_newline-lt rest i e in
      let line = take (line_end rest i) rest in
      rw
        (
          inline_some p at rest out i e,
          inline_some p at (rest ++ more) out i (find_newline-append rest more i e),
          line_end-append rest more i (omega arith),
          take-append_le (line_end rest i) rest more (omega (arith, line_end-le rest i)),
          drop-append_le (i + 1) rest more room,
        )
        (accept_inline-Chunk (record p { pending = split_inline [] line }) at (at + (i + 1)) rest
          (drop (i + 1) rest) more out)
]
