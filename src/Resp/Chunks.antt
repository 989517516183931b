-- ===== src/Resp/Chunks.antt =====
-- `RespParser::parse` of src/resp.cpp under a longer input: a round that had what it needed does
-- the same, and one that wanted more goes on from where it stopped.
use cachedb.Prelude.{
  ℕ, ◌+◌, ◌-◌, ◌≡◌, ◌≢◌, refl, ap, inl, inr, Bool, true, false, Option, none, some, [], ◌∷◌, ◌++◌,
  arith, ltb, ◌==◌, if◌then◌else◌, length, take, drop, take-append_le, drop-append_le, Option-cases,
  Bool-cases, not, ◌||◌,
}
use cachedb.Prelude.Int.{ℤ, pos, pos_part, leb_ℤ}
use cachedb.Prelude.Bytes.{Bytes}
use cachedb.Prelude.Chars.{parse_i64}
use cachedb.Resp.{
  Command, need_more, unterminated, completed, k_max_line_len, k_max_multibulk_len, k_max_bulk_len,
  Status, need_more_data, complete, protocol_error, k_err_line_too_long, k_err_expected_dollar,
  fail, RespParser, reset, find_crlf, find_newline, Step, again, done, step_type,
  step_multibulk_len, accept_multibulk_len, step_bulk_len, accept_bulk_len, accept_inline, step,
}
use cachedb.Resp.Total.{find_crlf-lt}

find_crlf-append : (s more : Bytes) (i : ℕ) → find_crlf s ≡ some i → find_crlf (s ++ more) ≡ some i
unfolding find_crlf
find_crlf-append [] more i h = cc
find_crlf-append (c ∷ []) more i h = cc
find_crlf-append (c ∷ d ∷ cs) more i h = ground (arith, find_crlf-append (d ∷ cs) more (i - 1))

pub find_newline-append :
    (s more : Bytes) (i : ℕ) → find_newline s ≡ some i → find_newline (s ++ more) ≡ some i
unfolding find_newline
find_newline-append [] more i h = cc
find_newline-append (c ∷ cs) more i h = ground (arith, find_newline-append cs more (i - 1))

-- A statement for each status of a result.
abbrev pub On : Status → Type 0 → Type 0 → Type 0 → Type 0
On need_more_data more full error = more
On complete more full error = full
On protocol_error more full error = error

pub On-map :
    (s : Status) (a b c a' b' c' : Type 0)
    → (a → a')
    → (b → b')
    → (c → c')
    → On s a b c
    → On s a' b' c'
On-map need_more_data a b c a' b' c' f g h x = f x
On-map complete a b c a' b' c' f g h x = g x
On-map protocol_error a b c a' b' c' f g h x = h x

-- How the round over `rest ++ more` relates to a round over `rest`. A round that did not find the
-- end of a line that is too long by now may find it in `more`.
abbrev pub Chunk : ℕ → Bytes → Bytes → Command → Step → Step → Type 0
Chunk at rest more out (again p' at' rest') whole = whole ≡ again p' at' (rest' ++ more)
Chunk at rest more out (done p' result out') whole =
    On result.status
      ((whole ≡ step p' result.consumed (drop (result.consumed - at) rest ++ more) out)
        × (out' ≡ out))
      (whole ≡ done p' result out')
      (result.error ≢ k_err_line_too_long → whole ≡ done p' result out')

drop_none : (n : ℕ) (xs : Bytes) → drop (n - n) xs ≡ xs
drop_none n xs = ap (λ k. drop k xs) {y = 0} (omega arith)

pub need_more-Chunk :
    (p : RespParser) (at : ℕ) (rest more : Bytes) (out : Command) (whole : Step)
    → whole ≡ step p at (rest ++ more) out
    → Chunk at rest more out (need_more p at out) whole
need_more-Chunk p at rest more out whole h = rw (drop_none at rest) (h, refl)

pub unterminated-Chunk :
    (p : RespParser) (at : ℕ) (rest more : Bytes) (out : Command) (whole : Step)
    → whole ≡ step p at (rest ++ more) out
    → Chunk at rest more out (unterminated p at rest out) whole
unterminated-Chunk p at rest more out whole h =
    elim (Bool-cases (ltb k_max_line_len (length rest))) [
      | inl e ↦ rw (unterminated, e) (λ other. absurd (other refl))
      | inr e ↦ rw (unterminated, e) (need_more-Chunk p at rest more out whole h)
    ]

-- Two rounds that take the same branch.
pub either-Chunk :
    (at : ℕ) (rest more : Bytes) (out : Command) (b : Bool) (x x' y y' : Step)
    → Chunk at rest more out x x'
    → Chunk at rest more out y y'
    → Chunk at rest more out (if b then x else y) (if b then x' else y')
either-Chunk at rest more out true x x' y y' h k = h
either-Chunk at rest more out false x x' y y' h k = k

accept_multibulk_len-Chunk :
    (p : RespParser) (at next : ℕ) (rest tail more : Bytes) (out : Command) (n : Option ℤ)
    → Chunk at rest more out
        (accept_multibulk_len p at next tail out n)
        (accept_multibulk_len p at next (tail ++ more) out n)
unfolding accept_multibulk_len
accept_multibulk_len-Chunk p at next rest tail more out none = λ e. refl
accept_multibulk_len-Chunk p at next rest tail more out (some n) =
    either-Chunk at rest more out (ltb k_max_multibulk_len (pos_part n)) _ _ _ _ (λ e. refl)
      (either-Chunk at rest more out (leb_ℤ n (pos 0)) _ _ _ _ refl refl)

accept_bulk_len-Chunk :
    (p : RespParser) (at next : ℕ) (rest tail more : Bytes) (out : Command) (n : Option ℤ)
    → Chunk at rest more out
        (accept_bulk_len p at next tail out n)
        (accept_bulk_len p at next (tail ++ more) out n)
unfolding accept_bulk_len
accept_bulk_len-Chunk p at next rest tail more out none = λ e. refl
accept_bulk_len-Chunk p at next rest tail more out (some n) =
    either-Chunk at rest more out (not (leb_ℤ (pos 0) n) || ltb k_max_bulk_len (pos_part n)) _ _ _ _
      (λ e. refl) refl

pub accept_inline-Chunk :
    (p : RespParser) (at next : ℕ) (rest tail more : Bytes) (out : Command)
    → Chunk at rest more out (accept_inline p next tail) (accept_inline p next (tail ++ more))
unfolding accept_inline
accept_inline-Chunk p at next rest tail more out = by p.pending
  where
    by :
        (args : Command)
        → Chunk at rest more out
            (elim args as (λ a. Step) [ [] ↦ again (reset p) next tail | _ ∷ _ ↦ completed p next ])
            (elim args as (λ a. Step) [
              | [] ↦ again (reset p) next (tail ++ more)
              | _ ∷ _ ↦ completed p next
            ])
    by [] = refl
    by (arg ∷ args) = refl

pub step_type-Chunk :
    (p : RespParser) (at : ℕ) (rest more : Bytes) (out : Command)
    → step_type p at (rest ++ more) out ≡ step p at (rest ++ more) out
    → Chunk at rest more out (step_type p at rest out) (step_type p at (rest ++ more) out)
unfolding step_type
step_type-Chunk p at [] more out h = need_more-Chunk p at [] more out _ h
step_type-Chunk p at (c ∷ cs) more out h =
    either-Chunk at (c ∷ cs) more out (c == 42) _ _ _ _ refl refl

pub multibulk_none :
    (p : RespParser) (at : ℕ) (rest : Bytes) (out : Command)
    → find_crlf rest ≡ none
    → step_multibulk_len p at rest out ≡ unterminated p at rest out
unfolding step_multibulk_len
multibulk_none p at rest out e = rw (e, step_multibulk_len) refl

pub multibulk_some :
    (p : RespParser) (at : ℕ) (rest : Bytes) (out : Command) (i : ℕ)
    → find_crlf rest ≡ some i
    → step_multibulk_len p at rest out
      ≡ accept_multibulk_len p at (at + (i + 2)) (drop (i + 2) rest) out (parse_i64 (take i rest))
unfolding step_multibulk_len
multibulk_some p at rest out i e = rw (e, step_multibulk_len) refl

pub step_multibulk_len-Chunk :
    (p : RespParser) (at : ℕ) (rest more : Bytes) (out : Command)
    → step_multibulk_len p at (rest ++ more) out ≡ step p at (rest ++ more) out
    → Chunk at rest more out
        (step_multibulk_len p at rest out)
        (step_multibulk_len p at (rest ++ more) out)
step_multibulk_len-Chunk p at rest more out h = elim (Option-cases (find_crlf rest)) [
  | inl e ↦ rw (multibulk_none p at rest out e) (unterminated-Chunk p at rest more out _ h)
  | inr (i, e) ↦
      let room = find_crlf-lt rest i e in
      rw
        (
          multibulk_some p at rest out i e,
          multibulk_some p at (rest ++ more) out i (find_crlf-append rest more i e),
          take-append_le i rest more (omega arith),
          drop-append_le (i + 2) rest more room,
        )
        (accept_multibulk_len-Chunk p at (at + (i + 2)) rest (drop (i + 2) rest) more out
          (parse_i64 (take i rest)))
]

pub bulk_none :
    (p : RespParser) (at c : ℕ) (cs : Bytes) (out : Command)
    → find_crlf cs ≡ none
    → (c == 36) ≡ true
    → step_bulk_len p at (c ∷ cs) out ≡ unterminated p at (c ∷ cs) out
unfolding step_bulk_len
bulk_none p at c cs out e dollar = rw (dollar, e) refl

pub bulk_some :
    (p : RespParser) (at c : ℕ) (cs : Bytes) (out : Command) (i : ℕ)
    → find_crlf cs ≡ some i
    → (c == 36) ≡ true
    → step_bulk_len p at (c ∷ cs) out
      ≡ accept_bulk_len p at (at + (i + 3)) (drop (i + 2) cs) out (parse_i64 (take i cs))
unfolding step_bulk_len
bulk_some p at c cs out i e dollar = rw (dollar, e) refl

pub bulk_other :
    (p : RespParser) (at c : ℕ) (cs : Bytes) (out : Command)
    → (c == 36) ≡ false
    → step_bulk_len p at (c ∷ cs) out ≡ fail p at k_err_expected_dollar out
unfolding step_bulk_len
bulk_other p at c cs out e = rw e refl

pub bulk_nil :
    (p : RespParser) (at : ℕ) (out : Command) → step_bulk_len p at [] out ≡ need_more p at out
unfolding step_bulk_len
bulk_nil p at out = refl

pub step_bulk_len-Chunk :
    (p : RespParser) (at : ℕ) (rest more : Bytes) (out : Command)
    → step_bulk_len p at (rest ++ more) out ≡ step p at (rest ++ more) out
    → Chunk at rest more out (step_bulk_len p at rest out) (step_bulk_len p at (rest ++ more) out)
step_bulk_len-Chunk p at [] more out h =
    rw (bulk_nil p at out) (need_more-Chunk p at [] more out _ h)
step_bulk_len-Chunk p at (c ∷ cs) more out h = elim (Bool-cases (c == 36)) [
  | inr other ↦
      rw (bulk_other p at c cs out other, bulk_other p at c (cs ++ more) out other) (λ e. refl)
  | inl dollar ↦ elim (Option-cases (find_crlf cs)) [
    | inl e ↦ rw (bulk_none p at c cs out e dollar) (unterminated-Chunk p at (c ∷ cs) more out _ h)
    | inr (i, e) ↦
        let room = find_crlf-lt cs i e in
        rw
          (
            bulk_some p at c cs out i e dollar,
            bulk_some p at c (cs ++ more) out i (find_crlf-append cs more i e) dollar,
            take-append_le i cs more (omega arith),
            drop-append_le (i + 2) cs more room,
          )
          (accept_bulk_len-Chunk p at (at + (i + 3)) (c ∷ cs) (drop (i + 2) cs) more out
            (parse_i64 (take i cs)))
  ]
]
