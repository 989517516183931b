-- ===== src/Resp/Resume.antt =====
-- `RespParser::parse` of src/resp.cpp over an input that comes in pieces.
use cachedb.Prelude.{
  ℕ, zero, suc, ◌+◌, ◌-◌, ◌≤◌, ◌≡◌, ◌≢◌, refl, sym, ap, ◌∙◌, Option, some, ◌++◌, arith, length,
  drop, drop-drop, length-drop,
}
use mathlib.Core.Path.{subst}
use mathlib.Core.Option.{some-injective}
use cachedb.Prelude.Bytes.{Bytes}
use cachedb.Resp.{
  Command, k_err_line_too_long, Result, State, reading_type, reading_multibulk_len,
  reading_bulk_len, reading_bulk_body, reading_bulk_crlf, reading_inline, failed, RespParser, Step,
  again, done, step_type, step_multibulk_len, step_bulk_len, step_bulk_body, step_bulk_crlf,
  step_inline, step, parse_loop, parse,
}
use cachedb.Resp.Shift.{moved_outcome, run_moved}
use cachedb.Resp.Total.{measure, run, continue, run-step, parse-run}
use cachedb.Resp.Chunks.{
  On, On-map, Chunk, step_type-Chunk, step_multibulk_len-Chunk, step_bulk_len-Chunk,
}
use cachedb.Resp.Body.{step_bulk_body-Chunk, step_bulk_crlf-Chunk, step_inline-Chunk}
use cachedb.Resp.Advance.{Reached, Advance, step-Advance}

step-Chunk :
    (p : RespParser) (at : ℕ) (rest more : Bytes) (out : Command)
    → Chunk at rest more out (step p at rest out) (step p at (rest ++ more) out)
unfolding step
step-Chunk p at rest more out = in_state p.state refl
  where
    agree :
        (f : Bytes → Step)
        → ((r : Bytes) → step p at r out ≡ f r)
        → (f (rest ++ more) ≡ step p at (rest ++ more) out
            → Chunk at rest more out (f rest) (f (rest ++ more)))
        → Chunk at rest more out (step p at rest out) (step p at (rest ++ more) out)
    agree f h chunk = rw (h rest, h (rest ++ more)) (chunk (sym (h (rest ++ more))))

    in_state :
        (s : State)
        → p.state ≡ s
        → Chunk at rest more out (step p at rest out) (step p at (rest ++ more) out)
    in_state failed h = rw h (λ e. refl)
    in_state reading_type h =
        agree (λ r. step_type p at r out) (λ r. rw h refl) (step_type-Chunk p at rest more out)
    in_state reading_multibulk_len h =
        agree (λ r. step_multibulk_len p at r out) (λ r. rw h refl)
          (step_multibulk_len-Chunk p at rest more out)
    in_state reading_bulk_len h =
        agree (λ r. step_bulk_len p at r out) (λ r. rw h refl)
          (step_bulk_len-Chunk p at rest more out)
    in_state reading_bulk_body h =
        agree (λ r. step_bulk_body p at r out) (λ r. rw h refl)
          (λ e. step_bulk_body-Chunk p at rest more out h)
    in_state reading_bulk_crlf h =
        agree (λ r. step_bulk_crlf p at r out) (λ r. rw h refl)
          (step_bulk_crlf-Chunk p at rest more out)
    in_state reading_inline h =
        agree (λ r. step_inline p at r out) (λ r. rw h refl) (step_inline-Chunk p at rest more out)

abbrev Ends : ℕ → Bytes → RespParser × Result × Command → Type 0
Ends at rest (p', r, out') = (at ≤ r.consumed) × (r.consumed ≤ at + length rest)

-- A call consumes bytes of its input only.
loop-Ends :
    (f : ℕ) (p : RespParser) (at : ℕ) (rest : Bytes) (out : Command)
    (x : RespParser × Result × Command)
    → parse_loop f p at rest out ≡ some x
    → Ends at rest x
unfolding parse_loop
loop-Ends zero p at rest out x h = cc
loop-Ends (suc f) p at rest out x h =
    ends (λ p' at' rest'. loop-Ends f p' at' rest' out x) (step p at rest out)
      (step-Advance p at rest out) h
  where
    ends :
        ((p' : RespParser) (at' : ℕ) (rest' : Bytes)
          → parse_loop f p' at' rest' out ≡ some x
          → Ends at' rest' x)
        → (s : Step) → Advance at rest s
        → elim s as (λ s. Option (RespParser × Result × Command)) [
          | again p' at' rest' ↦ parse_loop f p' at' rest' out
          | done p' result out' ↦ some (p', result, out')
        ]
          ≡ some x
        → Ends at rest x
    ends rounds (again p' at' rest') advance h =
        let deep = rounds p' at' rest' h in
        (
          omega (arith, advance.forward),
          omega (
            arith,
            advance.forward,
            ap length advance.behind,
            advance.inside,
            length-drop (at' - at) rest,
          ),
        )
    ends rounds (done p' result out') advance h =
        subst (Ends at rest) (some-injective (p', result, out') x h) advance

-- What a call over `rest ++ more` comes to when the one over `rest` ended with this outcome.
abbrev Resumes :
    ℕ
    → Bytes
    → Bytes
    → Command
    → Option (RespParser × Result × Command)
    → RespParser × Result × Command
    → Type 0
Resumes at rest more out whole (p', r, out') =
    On r.status
      ((whole ≡ run p' r.consumed (drop (r.consumed - at) rest ++ more) out) × (out' ≡ out))
      (whole ≡ some (p', r, out')) (r.error ≢ k_err_line_too_long → whole ≡ some (p', r, out'))

done-Resumes :
    (p' : RespParser) (at : ℕ) (rest more : Bytes) (out out' : Command) (r : Result) (whole : Step)
    → Chunk at rest more out (done p' r out') whole
    → Resumes at rest more out (continue out whole) (p', r, out')
done-Resumes p' at rest more out out' r whole chunk =
    On-map r.status _ _ _ _ _ _
      (λ (e, same). (
        ap (continue out) e
            ∙ sym (run-step p' r.consumed (drop (r.consumed - at) rest ++ more) out),
        same,
      ))
      (λ e. ap (continue out) e) (λ f other. ap (continue out) (f other)) chunk

-- The same for a call that goes on behind a round.
again-Resumes :
    (at at' : ℕ) (rest rest' more : Bytes) (out : Command)
    (whole : Option (RespParser × Result × Command)) (x : RespParser × Result × Command)
    → Reached at rest at' rest'
    → at' ≤ x.1.consumed
    → Resumes at' rest' more out whole x
    → Resumes at rest more out whole x
again-Resumes at at' rest rest' more out whole (p', r, out') reached later h =
    On-map r.status _ _ _ _ _ _
      (λ (e, same). (
        e
            ∙ ap (λ b. run p' r.consumed (b ++ more) out)
                (ap (drop (r.consumed - at')) reached.behind
                  ∙ drop-drop (at' - at) (r.consumed - at') (r.consumed - at) rest
                      (omega (arith, reached.forward))),
        same,
      ))
      (λ e. e) (λ f. f) h

loop-Resumes :
    (f : ℕ) (p : RespParser) (at : ℕ) (rest more : Bytes) (out : Command)
    (x : RespParser × Result × Command)
    → parse_loop f p at rest out ≡ some x
    → Resumes at rest more out (run p at (rest ++ more) out) x
unfolding parse_loop
loop-Resumes zero p at rest more out x h = cc
loop-Resumes (suc f) p at rest more out x h = rw (run-step p at (rest ++ more) out) (
    by (λ p' at' rest'. loop-Resumes f p' at' rest' more out x) (step p at rest out)
      (step-Advance p at rest out) (step-Chunk p at rest more out) h)
  where
    by :
        ((p' : RespParser) (at' : ℕ) (rest' : Bytes)
          → parse_loop f p' at' rest' out ≡ some x
          → Resumes at' rest' more out (run p' at' (rest' ++ more) out) x)
        → (s : Step) → Advance at rest s
        → Chunk at rest more out s (step p at (rest ++ more) out)
        → elim s as (λ s. Option (RespParser × Result × Command)) [
          | again p' at' rest' ↦ parse_loop f p' at' rest' out
          | done p' result out' ↦ some (p', result, out')
        ]
          ≡ some x
        → Resumes at rest more out (continue out (step p at (rest ++ more) out)) x
    by rounds (again p' at' rest') advance chunk h = rw chunk (
        again-Resumes at at' rest rest' more out (run p' at' (rest' ++ more) out) x advance
          (loop-Ends f p' at' rest' out x h).0 (rounds p' at' rest' h))
    by rounds (done p' result out') advance chunk h =
        subst (Resumes at rest more out (continue out (step p at (rest ++ more) out)))
          (some-injective (p', result, out') x h)
          (done-Resumes p' at rest more out out' result (step p at (rest ++ more) out) chunk)

-- A parse takes bytes of its input only.
pub parse-consumed :
    (p : RespParser) (input : Bytes) (out : Command) (p' : RespParser) (r : Result) (out' : Command)
    → parse p input out ≡ some (p', r, out')
    → r.consumed ≤ length input
parse-consumed p input out p' r out' h =
    let ends =
      loop-Ends (suc (measure p input)) p 0 input out (p', r, out')
        (sym (parse-run p input out) ∙ h) in
    omega (arith, ends.1)

-- What a parse of `input` says about `input` with `more` behind it. When it wanted more data, the
-- parse of both is the parse that goes on from the parser it left, over the bytes that it did not
-- consume and `more`, with the consumed bytes counted. When it completed a command, the parse of
-- both is the same one. When it failed, the parse of both fails alike, unless the error is a line
-- that is too long.
pub parse-append :
    (p : RespParser) (input more : Bytes) (out : Command) (p' : RespParser) (r : Result)
    (out' : Command)
    → parse p input out ≡ some (p', r, out')
    → On r.status
        (parse p (input ++ more) out
          ≡ moved_outcome r.consumed (parse p' (drop r.consumed input ++ more) out'))
        (parse p (input ++ more) out ≡ some (p', r, out'))
        (r.error ≢ k_err_line_too_long → parse p (input ++ more) out ≡ some (p', r, out'))
parse-append p input more out p' r out' h =
    let whole = parse-run p (input ++ more) out in
    On-map r.status _ _ _ _ _ _
      (λ (e, same).
        whole
        ∙ e
        ∙ ap (λ n. run p' r.consumed (drop n input ++ more) out) {y = r.consumed} (omega arith)
        ∙ run_moved r.consumed p' (drop r.consumed input ++ more) out
        ∙ ap (λ o. moved_outcome r.consumed (parse p' (drop r.consumed input ++ more) o))
            (sym same))
      (λ e. whole ∙ e) (λ f other. whole ∙ f other)
      (loop-Resumes (suc (measure p input)) p 0 input more out (p', r, out')
        (sym (parse-run p input out) ∙ h))
