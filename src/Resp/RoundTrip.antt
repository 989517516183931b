-- ===== src/Resp/RoundTrip.antt =====
-- What `RespParser::parse` of src/resp.cpp makes of a request that its own serializer wrote.
use cachedb.Prelude.{
  ℕ, suc, ◌+◌, ◌-◌, ◌^◌, ◌<◌, ◌≤◌, ◌≡◌, refl, ap, ap₂, ◌∙◌, some, [], ◌∷◌, ◌++◌, arith, length,
  take-append_seam, drop-append_seam, length-append, append_assoc,
}
use cachedb.Prelude.Int.{pos}
use cachedb.Prelude.Bytes.{Bytes}
use cachedb.Prelude.Words.{sub_u64}
use cachedb.Prelude.Chars.{to_chars}
use cachedb.Resp.{
  Command, complete, no_error, Result, State, reading_multibulk_len, reading_bulk_len,
  reading_bulk_body, reading_bulk_crlf, RespParser, init, append_back, again, step_type,
  step_multibulk_len, accept_multibulk_len, step_bulk_len, accept_bulk_len, step_bulk_body,
  step_bulk_crlf, step, parse, k_max_bulk_len, k_max_multibulk_len,
}
use cachedb.Resp.Total.{run, continue, run-step, parse-run}
use cachedb.Resp.Chunks.{multibulk_some, bulk_some}
use cachedb.Resp.Body.{body_all}
use cachedb.Resp.Reply.{append_array_header}
use cachedb.Resp.Request.{
  bulk, bulks, request, line, to_chars-NoReturn, find_crlf-line, append_args-bulks, take-line,
  drop-line, bulk-append, length-bulk, append_array_header-line, length-header,
}

-- A parser in the middle of a request.
abbrev parser : State → Command → ℕ → ℕ → RespParser
parser state pending left bytes = record {
  state = state;
  pending = pending;
  multibulk_remaining = left;
  bulk_remaining = bytes;
}

accept_multibulk :
    (p : RespParser) (at next n : ℕ) (rest : Bytes) (out : Command)
    → 1 ≤ n
    → n ≤ k_max_multibulk_len
    → accept_multibulk_len p at next rest out (some (pos n))
      ≡ again (record p { multibulk_remaining = n; state = reading_bulk_len }) next rest
unfolding accept_multibulk_len
accept_multibulk p at next n rest out low high = ground arith

accept_bulk :
    (p : RespParser) (at next n : ℕ) (rest : Bytes) (out : Command)
    → n ≤ k_max_bulk_len
    → accept_bulk_len p at next rest out (some (pos n))
      ≡ again
          (record p {
            bulk_remaining = n;
            pending = p.pending ++ [] ∷ [];
            state = reading_bulk_body;
          })
          next
          rest
unfolding accept_bulk_len
accept_bulk p at next n rest out high = ground arith

step-header :
    (at n : ℕ) (rest : Bytes) (out : Command)
    → 1 ≤ n
    → n ≤ k_max_multibulk_len
    → step_multibulk_len (parser reading_multibulk_len [] 0 0) at (line n rest) out
      ≡ again (parser reading_bulk_len [] n 0) (at + (length (to_chars (pos n)) + 2)) rest
step-header at n rest out low high =
    let p = parser reading_multibulk_len [] 0 0 in
    let i = length (to_chars (pos n)) in
    multibulk_some p at (line n rest) out i
      (find_crlf-line (to_chars (pos n)) rest (to_chars-NoReturn n))
    ∙ rw (take-line n rest (omega arith), drop-line n rest)
        (accept_multibulk p at (at + (i + 2)) n rest out low high)

run-header :
    (at n : ℕ) (rest : Bytes) (out : Command)
    → 1 ≤ n
    → n ≤ k_max_multibulk_len
    → run init at (42 ∷ line n rest) out
      ≡ run (parser reading_bulk_len [] n 0) (at + 1 + (length (to_chars (pos n)) + 2)) rest out
unfolding step step_type
run-header at n rest out low high =
    run-step init at (42 ∷ line n rest) out
    ∙ run-step (parser reading_multibulk_len [] 0 0) (at + 1) (line n rest) out
    ∙ ap (continue out) (step-header (at + 1) n rest out low high)

step-bulk_len :
    (args : Command) (left at n : ℕ) (rest : Bytes) (out : Command)
    → n ≤ k_max_bulk_len
    → step_bulk_len (parser reading_bulk_len args left 0) at (36 ∷ line n rest) out
      ≡ again
          (parser reading_bulk_body (args ++ [] ∷ []) left n)
          (at + (length (to_chars (pos n)) + 3))
          rest
step-bulk_len args left at n rest out high =
    let p = parser reading_bulk_len args left 0 in
    let i = length (to_chars (pos n)) in
    bulk_some p at 36 (line n rest) out i
      (find_crlf-line (to_chars (pos n)) rest (to_chars-NoReturn n)) refl
    ∙ rw (take-line n rest (omega arith), drop-line n rest)
        (accept_bulk p at (at + (i + 3)) n rest out high)

append_back-last :
    (args : Command) (arg : Bytes) → append_back (args ++ [] ∷ []) arg ≡ args ++ arg ∷ []
unfolding append_back
append_back-last [] arg = refl
append_back-last (first ∷ []) arg = refl
append_back-last (first ∷ second ∷ args) arg =
    ap (λ a. first ∷ a) (append_back-last (second ∷ args) arg)

step-body :
    (args : Command) (left at : ℕ) (arg rest : Bytes) (out : Command)
    → step_bulk_body
        (parser reading_bulk_body (args ++ [] ∷ []) left (length arg))
        at
        (arg ++ rest)
        out
      ≡ again (parser reading_bulk_crlf (args ++ arg ∷ []) left 0) (at + length arg) rest
step-body args left at arg rest out =
    body_all (parser reading_bulk_body (args ++ [] ∷ []) left (length arg)) at (arg ++ rest) out
      (omega (arith, length-append arg rest))
    ∙ rw
        (
          take-append_seam (length arg) arg rest refl,
          drop-append_seam (length arg) arg rest refl,
          append_back-last args arg,
        )
        refl

-- One argument, up to its terminator.
run-argument :
    (args : Command) (left at : ℕ) (arg rest : Bytes) (out : Command)
    → length arg ≤ k_max_bulk_len
    → run (parser reading_bulk_len args left 0) at (36 ∷ line (length arg) (arg ++ rest)) out
      ≡ run
          (parser reading_bulk_crlf (args ++ arg ∷ []) left 0)
          (at + (length (to_chars (pos (length arg))) + 3) + length arg)
          rest
          out
unfolding step
run-argument args left at arg rest out high =
    let n = length arg in
    let at' = at + (length (to_chars (pos n)) + 3) in
    run-step (parser reading_bulk_len args left 0) at (36 ∷ line n (arg ++ rest)) out
    ∙ ap (continue out) (step-bulk_len args left at n (arg ++ rest) out high)
    ∙ run-step (parser reading_bulk_body (args ++ [] ∷ []) left n) at' (arg ++ rest) out
    ∙ ap (continue out) (step-body args left at' arg rest out)

abbrev pub finished : ℕ → Result
finished at = record { status = complete; consumed = at; error = no_error }

-- The terminator behind the last argument, and behind another one.
run-last :
    (args : Command) (at : ℕ) (rest : Bytes) (out : Command)
    → run (parser reading_bulk_crlf args 1 0) at (13 ∷ 10 ∷ rest) out
      ≡ some (init, finished (at + 2), args)
unfolding step step_bulk_crlf
run-last args at rest out = run-step (parser reading_bulk_crlf args 1 0) at (13 ∷ 10 ∷ rest) out

step-next :
    (args : Command) (left at : ℕ) (rest : Bytes) (out : Command)
    → 1 ≤ left
    → left < 2 ^ 64 - 1
    → step_bulk_crlf (parser reading_bulk_crlf args (suc left) 0) at (13 ∷ 10 ∷ rest) out
      ≡ again (parser reading_bulk_len args left 0) (at + 2) rest
unfolding step_bulk_crlf
step-next args left at rest out low high =
    let one_less : sub_u64 (suc left) 1 ≡ left = omega arith in rw one_less (ground arith)

run-next :
    (args : Command) (left at : ℕ) (rest : Bytes) (out : Command)
    → 1 ≤ left
    → left < 2 ^ 64 - 1
    → run (parser reading_bulk_crlf args (suc left) 0) at (13 ∷ 10 ∷ rest) out
      ≡ run (parser reading_bulk_len args left 0) (at + 2) rest out
unfolding step
run-next args left at rest out low high =
    run-step (parser reading_bulk_crlf args (suc left) 0) at (13 ∷ 10 ∷ rest) out
    ∙ ap (continue out) (step-next args left at rest out low high)

abbrev pub AllShort : Command → Type 0
AllShort [] = Unit
AllShort (arg ∷ args) = (length arg ≤ k_max_bulk_len) × AllShort args

run-bulk :
    (args : Command) (left at : ℕ) (arg rest : Bytes) (out : Command)
    → length arg ≤ k_max_bulk_len
    → run (parser reading_bulk_len args left 0) at (bulk arg ++ rest) out
      ≡ run
          (parser reading_bulk_crlf (args ++ arg ∷ []) left 0)
          (at + (length (to_chars (pos (length arg))) + 3) + length arg)
          (13 ∷ 10 ∷ rest)
          out
run-bulk args left at arg rest out short =
    ap (λ b. run (parser reading_bulk_len args left 0) at b out) (bulk-append arg rest)
    ∙ run-argument args left at arg (13 ∷ 10 ∷ rest) out short

run-bulks :
    (before : Command) (arg : Bytes) (args : Command) (at : ℕ) (more : Bytes) (out : Command)
    → AllShort (arg ∷ args)
    → length (arg ∷ args) < 2 ^ 64
    → run
        (parser reading_bulk_len before (length (arg ∷ args)) 0)
        at
        (bulks (arg ∷ args) ++ more)
        out
      ≡ some (init, finished (at + length (bulks (arg ∷ args))), before ++ arg ∷ args)
run-bulks before arg [] at more out short few =
    let n = length (to_chars (pos (length arg))) in
    let end : at + (n + 3) + length arg + 2 ≡ at + length (bulk arg ++ []) =
      omega (arith, length-bulk arg, length-append (bulk arg) []) in
    ap (λ b. run (parser reading_bulk_len before 1 0) at b out) (append_assoc (bulk arg) [] more)
    ∙ run-bulk before 1 at arg more out short.0
    ∙ run-last (before ++ arg ∷ []) (at + (n + 3) + length arg) more out
    ∙ ap (λ k. some (init, finished k, before ++ arg ∷ [])) end
run-bulks before arg (next ∷ args) at more out short few =
    let n = length (to_chars (pos (length arg))) in
    let at' = at + (n + 3) + length arg in
    let left = length (next ∷ args) in
    let rest = bulks (next ∷ args) in
    let end : at' + 2 + length rest ≡ at + length (bulk arg ++ rest) =
      omega (arith, length-bulk arg, length-append (bulk arg) rest) in
    ap (λ b. run (parser reading_bulk_len before (suc left) 0) at b out)
      (append_assoc (bulk arg) rest more)
    ∙ run-bulk before (suc left) at arg (rest ++ more) out short.0
    ∙ run-next (before ++ arg ∷ []) left at' (rest ++ more) out (omega arith) (omega arith)
    ∙ run-bulks (before ++ arg ∷ []) next args (at' + 2) more out short.1 (omega arith)
    ∙ ap₂ (λ k a. some (init, finished k, a)) end (append_assoc before (arg ∷ []) (next ∷ args))

-- A request of 1 to 2 ^ 20 arguments of at most 2 ^ 29 bytes each, written as an array of bulk
-- strings and followed by anything, is parsed to exactly these arguments, whatever bytes they are.
-- The whole request is consumed and nothing of what follows it, and the parser is as new.
pub parse-request :
    (arg : Bytes) (args : Command) (more : Bytes) (out : Command)
    → AllShort (arg ∷ args)
    → length (arg ∷ args) ≤ k_max_multibulk_len
    → parse init (request (arg ∷ args) ++ more) out
      ≡ some (init, finished (length (request (arg ∷ args))), arg ∷ args)
unfolding request
parse-request arg args more out short few =
    let n = length (arg ∷ args) in
    let head = append_array_header [] (pos n) in
    let body = bulks (arg ∷ args) in
    let whole = append_args-bulks head (arg ∷ args) in
    let at = 0 + 1 + (length (to_chars (pos n)) + 2) in
    let end : at + length body ≡ length (request (arg ∷ args)) =
      omega (arith, ap length whole, length-append head body, length-header n) in
    parse-run init (request (arg ∷ args) ++ more) out
    ∙ ap (λ b. run init 0 b out)
        (ap (λ b. b ++ more) whole
          ∙ append_assoc head body more
          ∙ append_array_header-line n (body ++ more))
    ∙ run-header 0 n (body ++ more) out (omega arith) few
    ∙ run-bulks [] arg args at more out short (omega arith)
    ∙ ap (λ k. some (init, finished k, arg ∷ args)) end
