-- ===== src/Resp/Total.antt =====
-- The loop of `RespParser::parse` in src/resp.cpp ends: every round takes bytes, or changes to a
-- state that will.
use cachedb.Prelude.{
  ℕ, zero, suc, ◌+◌, ◌-◌, ◌*◌, ◌<◌, ◌≤◌, min, ◌≡◌, ◌≢◌, refl, sym, ◌∙◌, inl, inr, Option, none,
  some, [], ◌∷◌, arith, length, take, drop, length-drop, Option-cases,
}
use cachedb.Prelude.Int.{ℤ}
use cachedb.Prelude.Bytes.{Bytes}
use cachedb.Prelude.Chars.{parse_i64}
use cachedb.Resp.{
  Command, Result, State, reading_type, reading_multibulk_len, reading_bulk_len, reading_bulk_body,
  reading_bulk_crlf, reading_inline, failed, RespParser, reset, find_crlf, find_newline, Step,
  again, done, step_type, step_multibulk_len, accept_multibulk_len, step_bulk_len, accept_bulk_len,
  step_bulk_body, step_bulk_crlf, step_inline, accept_inline, step, parse_loop, parse,
}

pub find_crlf-lt : (s : Bytes) (i : ℕ) → find_crlf s ≡ some i → i + 2 ≤ length s
unfolding find_crlf
find_crlf-lt [] i h = cc
find_crlf-lt (c ∷ []) i h = cc
find_crlf-lt (c ∷ d ∷ cs) i h = ground (arith, find_crlf-lt (d ∷ cs) (i - 1))

pub find_newline-lt : (s : Bytes) (i : ℕ) → find_newline s ≡ some i → i + 1 ≤ length s
unfolding find_newline
find_newline-lt [] i h = cc
find_newline-lt (c ∷ cs) i h = ground (arith, find_newline-lt cs (i - 1))

-- The states that may pass to another one without taking a byte.
abbrev rank : State → ℕ
rank reading_type = 1
rank reading_multibulk_len = 0
rank reading_bulk_len = 0
rank reading_bulk_body = 1
rank reading_bulk_crlf = 0
rank reading_inline = 0
rank failed = 0

abbrev pub measure : RespParser → Bytes → ℕ
measure p rest = 2 * length rest + rank p.state

-- The next round, if there is one, is below the bound.
abbrev Less : ℕ → Step → Type 0
Less bound (again p at rest) = measure p rest < bound
Less bound (done p result out) = Unit

step_type-Less :
    (p : RespParser) (at : ℕ) (rest : Bytes) (out : Command)
    → p.state ≡ reading_type
    → Less (measure p rest) (step_type p at rest out)
unfolding step_type
step_type-Less p at [] out h = tt
step_type-Less p at (c ∷ cs) out h = ground arith

accept_multibulk_len-Less :
    (p : RespParser) (at next : ℕ) (rest : Bytes) (out : Command) (n : Option ℤ) (bound : ℕ)
    → 2 * length rest + 1 < bound
    → Less bound (accept_multibulk_len p at next rest out n)
unfolding accept_multibulk_len reset
accept_multibulk_len-Less p at next rest out none bound h = tt
accept_multibulk_len-Less p at next rest out (some n) bound h = ground arith

accept_bulk_len-Less :
    (p : RespParser) (at next : ℕ) (rest : Bytes) (out : Command) (n : Option ℤ) (bound : ℕ)
    → 2 * length rest + 1 < bound
    → Less bound (accept_bulk_len p at next rest out n)
unfolding accept_bulk_len
accept_bulk_len-Less p at next rest out none bound h = tt
accept_bulk_len-Less p at next rest out (some n) bound h = ground arith

step_bulk_body-Less :
    (p : RespParser) (at : ℕ) (rest : Bytes) (out : Command)
    → p.state ≡ reading_bulk_body
    → Less (measure p rest) (step_bulk_body p at rest out)
unfolding step_bulk_body
step_bulk_body-Less p at rest out h =
    ground (arith, length-drop (min (length rest) p.bulk_remaining) rest)

step_multibulk_len-Less :
    (p : RespParser) (at : ℕ) (rest : Bytes) (out : Command)
    → Less (measure p rest) (step_multibulk_len p at rest out)
unfolding step_multibulk_len
step_multibulk_len-Less p at rest out = elim (Option-cases (find_crlf rest)) [
  | inl e ↦ rw (e, step_multibulk_len) (ground arith)
  | inr (i, e) ↦
      rw (e, step_multibulk_len)
        (accept_multibulk_len-Less p at (at + (i + 2)) (drop (i + 2) rest) out
          (parse_i64 (take i rest)) (measure p rest)
          (omega (arith, length-drop (i + 2) rest, find_crlf-lt rest i e)))
]

step_bulk_len-Less :
    (p : RespParser) (at : ℕ) (rest : Bytes) (out : Command)
    → Less (measure p rest) (step_bulk_len p at rest out)
unfolding step_bulk_len
step_bulk_len-Less p at [] out = tt
step_bulk_len-Less p at (c ∷ cs) out = elim (Option-cases (find_crlf cs)) [
  | inl e ↦ rw e (ground arith)
  | inr (i, e) ↦ rw e (
      ground (
        arith,
        accept_bulk_len-Less p at (at + (i + 3)) (drop (i + 2) cs) out (parse_i64 (take i cs))
            (measure p (c ∷ cs)) (omega (arith, length-drop (i + 2) cs, find_crlf-lt cs i e)),
      ))
]

step_bulk_crlf-Less :
    (p : RespParser) (at : ℕ) (rest : Bytes) (out : Command)
    → Less (measure p rest) (step_bulk_crlf p at rest out)
unfolding step_bulk_crlf reset
step_bulk_crlf-Less p at [] out = tt
step_bulk_crlf-Less p at (c ∷ []) out = tt
step_bulk_crlf-Less p at (c ∷ d ∷ cs) out = ground arith

step_inline-Less :
    (p : RespParser) (at : ℕ) (rest : Bytes) (out : Command)
    → Less (measure p rest) (step_inline p at rest out)
unfolding step_inline accept_inline reset
step_inline-Less p at rest out = elim (Option-cases (find_newline rest)) [
  | inl e ↦ rw (e, step_inline) (ground arith)
  | inr (i, e) ↦
      rw (e, step_inline) (ground (arith, length-drop (i + 1) rest, find_newline-lt rest i e))
]

step-Less :
    (p : RespParser) (at : ℕ) (rest : Bytes) (out : Command)
    → Less (measure p rest) (step p at rest out)
unfolding step
step-Less p at rest out = ground (
  arith,
  step_type-Less p at rest out,
  step_multibulk_len-Less p at rest out,
  step_bulk_len-Less p at rest out,
  step_bulk_body-Less p at rest out,
  step_bulk_crlf-Less p at rest out,
  step_inline-Less p at rest out,
)

-- With more fuel than the measure, the fuel does not matter.
loop_fuel :
    (f g : ℕ) (p : RespParser) (at : ℕ) (rest : Bytes) (out : Command)
    → measure p rest < f
    → measure p rest < g
    → parse_loop f p at rest out ≡ parse_loop g p at rest out
unfolding parse_loop
loop_fuel zero g p at rest out small h = absurd (omega arith)
loop_fuel (suc f) zero p at rest out small h = absurd (omega arith)
loop_fuel (suc f) (suc g) p at rest out small h =
    same (λ p' at' rest' less. loop_fuel f g p' at' rest' out (omega arith) (omega arith))
      (step p at rest out) (step-Less p at rest out)
  where
    same :
        ((p' : RespParser) (at' : ℕ) (rest' : Bytes)
          → measure p' rest' < measure p rest
          → parse_loop f p' at' rest' out ≡ parse_loop g p' at' rest' out)
        → (s : Step) → Less (measure p rest) s
        → elim s as (λ s. Option (RespParser × Result × Command)) [
          | again p' at' rest' ↦ parse_loop f p' at' rest' out
          | done p' result out' ↦ some (p', result, out')
        ]
          ≡ elim s as (λ s. Option (RespParser × Result × Command)) [
            | again p' at' rest' ↦ parse_loop g p' at' rest' out
            | done p' result out' ↦ some (p', result, out')
          ]
    same rounds (again p' at' rest') less = rounds p' at' rest' less
    same rounds (done p' result out') less = refl

-- The loop with fuel enough, and what one round of it does.
abbrev pub run : RespParser → ℕ → Bytes → Command → Option (RespParser × Result × Command)
run p at rest out = parse_loop (suc (measure p rest)) p at rest out

abbrev pub continue : Command → Step → Option (RespParser × Result × Command)
continue out (again p at rest) = run p at rest out
continue out (done p result out') = some (p, result, out')

pub run-step :
    (p : RespParser) (at : ℕ) (rest : Bytes) (out : Command)
    → run p at rest out ≡ continue out (step p at rest out)
unfolding parse_loop
run-step p at rest out = resumed (step p at rest out) (step-Less p at rest out)
  where
    resumed :
        (s : Step)
        → Less (measure p rest) s
        → elim s as (λ s. Option (RespParser × Result × Command)) [
          | again p' at' rest' ↦ parse_loop (measure p rest) p' at' rest' out
          | done p' result out' ↦ some (p', result, out')
        ]
          ≡ continue out s
    resumed (again p' at' rest') less =
        loop_fuel (measure p rest) (suc (measure p' rest')) p' at' rest' out less (omega arith)
    resumed (done p' result out') less = refl

pub parse-run :
    (p : RespParser) (input : Bytes) (out : Command) → parse p input out ≡ run p 0 input out
unfolding parse
parse-run p input out =
    loop_fuel (2 * length input + 2) (suc (measure p input)) p 0 input out
      (bounded p.state (length input)) (omega arith)
  where
    bounded : (s : State) (n : ℕ) → 2 * n + rank s < 2 * n + 2
    bounded s n = ground arith

run_some :
    (f : ℕ) (p : RespParser) (at : ℕ) (rest : Bytes) (out : Command)
    → measure p rest < f
    → parse_loop f p at rest out ≢ none
unfolding parse_loop
run_some zero p at rest out small = absurd (omega arith)
run_some (suc f) p at rest out small =
    ends (λ p' at' rest' less. run_some f p' at' rest' out (omega arith)) (step p at rest out)
      (step-Less p at rest out)
  where
    ends :
        ((p' : RespParser) (at' : ℕ) (rest' : Bytes)
          → measure p' rest' < measure p rest
          → parse_loop f p' at' rest' out ≢ none)
        → (s : Step) → Less (measure p rest) s
        → elim s as (λ s. Option (RespParser × Result × Command)) [
          | again p' at' rest' ↦ parse_loop f p' at' rest' out
          | done p' result out' ↦ some (p', result, out')
        ]
          ≢ none
    ends rounds (again p' at' rest') less = rounds p' at' rest' less
    ends rounds (done p' result out') less = λ e. cc

-- Every call of `parse` returns, whatever the state of the parser and the input are.
pub parse-ne-none : (p : RespParser) (input : Bytes) (out : Command) → parse p input out ≢ none
parse-ne-none p input out h =
    run_some (suc (measure p input)) p 0 input out (omega arith) (sym (parse-run p input out) ∙ h)
