-- ===== src/Resp/Progress.antt =====
-- What a call of `RespParser::parse` in src/resp.cpp leaves: a command took bytes, and a call that
-- wants more data has not touched `out`.
use cachedb.Prelude.{ℕ, zero, suc, ◌<◌, ◌≤◌, ◌≡◌, refl, sym, ◌∙◌, Option, some, [], ◌∷◌, arith}
use mathlib.Core.Path.{subst}
use mathlib.Core.Option.{some-injective}
use cachedb.Prelude.Bytes.{Bytes}
use cachedb.Resp.{
  Command, need_more_data, complete, protocol_error, Result, RespParser, Step, again, done,
  step_type, step_multibulk_len, accept_multibulk_len, step_bulk_len, accept_bulk_len,
  step_bulk_body, step_bulk_crlf, step_inline, accept_inline, step, parse_loop, parse,
}
use cachedb.Resp.Total.{measure, parse-run}
use cachedb.Resp.Advance.{Advance, step-Advance}

abbrev pub Left : ℕ → Command → Result → Command → Type 0
Left at out r out' = elim r.status [
  | need_more_data ↦ out' ≡ out
  | complete ↦ at < r.consumed
  | protocol_error ↦ Unit
]

abbrev Leaves : ℕ → Command → Step → Type 0
Leaves at out (again p at' rest) = Unit
Leaves at out (done p r out') = Left at out r out'

step_type-Leaves :
    (p : RespParser) (at : ℕ) (rest : Bytes) (out : Command)
    → Leaves at out (step_type p at rest out)
unfolding step_type
step_type-Leaves p at [] out = refl
step_type-Leaves p at (c ∷ cs) out = ground arith

step_multibulk_len-Leaves :
    (p : RespParser) (at : ℕ) (rest : Bytes) (out : Command)
    → Leaves at out (step_multibulk_len p at rest out)
unfolding step_multibulk_len accept_multibulk_len
step_multibulk_len-Leaves p at rest out = ground arith

step_bulk_len-Leaves :
    (p : RespParser) (at : ℕ) (rest : Bytes) (out : Command)
    → Leaves at out (step_bulk_len p at rest out)
unfolding step_bulk_len accept_bulk_len
step_bulk_len-Leaves p at [] out = refl
step_bulk_len-Leaves p at (c ∷ cs) out = ground arith

step_bulk_body-Leaves :
    (p : RespParser) (at : ℕ) (rest : Bytes) (out : Command)
    → Leaves at out (step_bulk_body p at rest out)
unfolding step_bulk_body
step_bulk_body-Leaves p at rest out = ground arith

step_bulk_crlf-Leaves :
    (p : RespParser) (at : ℕ) (rest : Bytes) (out : Command)
    → Leaves at out (step_bulk_crlf p at rest out)
unfolding step_bulk_crlf
step_bulk_crlf-Leaves p at [] out = refl
step_bulk_crlf-Leaves p at (c ∷ []) out = refl
step_bulk_crlf-Leaves p at (c ∷ d ∷ cs) out = ground arith

step_inline-Leaves :
    (p : RespParser) (at : ℕ) (rest : Bytes) (out : Command)
    → Leaves at out (step_inline p at rest out)
unfolding step_inline accept_inline
step_inline-Leaves p at rest out = ground arith

step-Leaves :
    (p : RespParser) (at : ℕ) (rest : Bytes) (out : Command) → Leaves at out (step p at rest out)
unfolding step
step-Leaves p at rest out = ground (
  arith,
  step_type-Leaves p at rest out,
  step_multibulk_len-Leaves p at rest out,
  step_bulk_len-Leaves p at rest out,
  step_bulk_body-Leaves p at rest out,
  step_bulk_crlf-Leaves p at rest out,
  step_inline-Leaves p at rest out,
)

abbrev LeftBy : ℕ → Command → RespParser × Result × Command → Type 0
LeftBy at out (p, r, out') = Left at out r out'

Left-behind :
    (at at' : ℕ) (out : Command) (x : RespParser × Result × Command)
    → at ≤ at'
    → LeftBy at' out x
    → LeftBy at out x
Left-behind at at' out (p, r, out') h left = ground arith

loop-Left :
    (f : ℕ) (p : RespParser) (at : ℕ) (rest : Bytes) (out : Command)
    (x : RespParser × Result × Command)
    → parse_loop f p at rest out ≡ some x
    → LeftBy at out x
unfolding parse_loop
loop-Left zero p at rest out x h = cc
loop-Left (suc f) p at rest out x h =
    by (λ p' at' rest'. loop-Left f p' at' rest' out x) (step p at rest out)
      (step-Advance p at rest out) (step-Leaves p at rest out) h
  where
    by :
        ((p' : RespParser) (at' : ℕ) (rest' : Bytes)
          → parse_loop f p' at' rest' out ≡ some x
          → LeftBy at' out x)
        → (s : Step) → Advance at rest s
        → Leaves at out s
        → elim s as (λ s. Option (RespParser × Result × Command)) [
          | again p' at' rest' ↦ parse_loop f p' at' rest' out
          | done p' result out' ↦ some (p', result, out')
        ]
          ≡ some x
        → LeftBy at out x
    by rounds (again p' at' rest') advance leaves h =
        Left-behind at at' out x advance.forward (rounds p' at' rest' h)
    by rounds (done p' result out') advance leaves h =
        subst (LeftBy at out) (some-injective (p', result, out') x h) leaves

pub parse-Left :
    (p : RespParser) (input : Bytes) (out : Command) (p' : RespParser) (r : Result) (out' : Command)
    → parse p input out ≡ some (p', r, out')
    → Left 0 out r out'
parse-Left p input out p' r out' h =
    loop-Left (suc (measure p input)) p 0 input out (p', r, out') (sym (parse-run p input out) ∙ h)
