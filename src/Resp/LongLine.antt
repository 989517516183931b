-- ===== src/Resp/LongLine.antt =====
-- An inline line longer than kMaxLineLen in src/resp.cpp: whether `RespParser::parse` takes it
-- depends on how it arrives.
use cachedb.Prelude.{
  ℕ, zero, suc, ◌+◌, ◌-◌, ◌<◌, ◌≡◌, refl, sym, ap, ◌∙◌, Bool, true, false, not, ◌||◌, none, some,
  [], ◌∷◌, ◌++◌, arith, length, get_or, take, drop, take-append_seam, ◌==◌, append_assoc,
  append-nil, lt→ltb,
}
use cachedb.Prelude.Bytes.{Bytes}
use cachedb.Resp.{
  Command, protocol_error, k_err_line_too_long, reading_inline, failed, init, find_newline,
  line_end, split_inline, is_inline_space, fail, done, step_type, step_inline, accept_inline, step,
  parse, k_max_line_len,
}
use cachedb.Resp.Total.{run, continue, run-step, parse-run}
use cachedb.Resp.Body.{inline_none, inline_some}
use cachedb.Resp.RoundTrip.{finished}

-- A byte of a word in an inline line: no blank, no end of line, and no '*'.
abbrev is_plain : ℕ → Bool
is_plain c = not (c == 10 || c == 13 || c == 32 || c == 9 || c == 42)

abbrev pub AllPlain : Bytes → Type 0
AllPlain [] = Unit
AllPlain (c ∷ cs) = (is_plain c ≡ true) × AllPlain cs

find_newline-plain : (word : Bytes) → AllPlain word → find_newline word ≡ none
unfolding find_newline
find_newline-plain [] h = refl
find_newline-plain (c ∷ cs) h = ground (arith, h.0, find_newline-plain cs h.1)

find_newline-line :
    (word : Bytes) → AllPlain word → find_newline (word ++ 10 ∷ []) ≡ some (length word)
unfolding find_newline
find_newline-line [] h = refl
find_newline-line (c ∷ cs) h = ground (arith, h.0, find_newline-line cs h.1)

split_inline-plain :
    (w : ℕ) (word rest : Bytes)
    → AllPlain rest
    → split_inline (w ∷ word) rest ≡ (w ∷ (word ++ rest)) ∷ []
unfolding split_inline
split_inline-plain w word [] h = ap (λ b. (w ∷ b) ∷ []) (sym (append-nil word))
split_inline-plain w word (c ∷ cs) h =
    let letter : is_inline_space c ≡ false = ground (arith, h.0) in
    rw letter (
      split_inline-plain w (word ++ c ∷ []) cs h.1
      ∙ ap (λ b. (w ∷ b) ∷ []) (append_assoc word (c ∷ []) cs))

split_inline_word :
    (c : ℕ) (cs : Bytes) → AllPlain (c ∷ cs) → split_inline [] (c ∷ cs) ≡ (c ∷ cs) ∷ []
unfolding split_inline
split_inline_word c cs h =
    let letter : is_inline_space c ≡ false = ground (arith, h.0) in
    rw letter (split_inline-plain c [] cs h.1)

get_or-plain :
    (word rest : Bytes) (i : ℕ)
    → AllPlain word
    → i < length word
    → (get_or (word ++ rest) i 0 == 13) ≡ false
get_or-plain [] rest i h small = absurd (omega arith)
get_or-plain (c ∷ cs) rest zero h small = ground (arith, h.0)
get_or-plain (c ∷ cs) rest (suc i) h small = get_or-plain cs rest i h.1 (omega arith)

line_end-plain :
    (word rest : Bytes) → AllPlain word → line_end (word ++ rest) (length word) ≡ length word
unfolding line_end
line_end-plain word rest h = ground (arith, get_or-plain word rest (length word - 1) h)

-- The first round of a new parser, for a line that starts a word.
to_inline :
    (c : ℕ) (cs : Bytes) (out : Command)
    → is_plain c ≡ true
    → parse init (c ∷ cs) out ≡ run (record init { state = reading_inline }) 0 (c ∷ cs) out
unfolding step step_type
to_inline c cs out h =
    let letter : (c == 42) ≡ false = ground arith in
    parse-run init (c ∷ cs) out ∙ run-step init 0 (c ∷ cs) out ∙ rw letter refl

too_long :
    (rest : Bytes) (out : Command)
    → find_newline rest ≡ none
    → k_max_line_len < length rest
    → step_inline (record init { state = reading_inline }) 0 rest out
      ≡ fail (record init { state = reading_inline }) 0 k_err_line_too_long out
too_long rest out e long =
    inline_none (record init { state = reading_inline }) 0 rest out e
    ∙ rw (lt→ltb k_max_line_len (length rest) long) refl

one_word :
    (c : ℕ) (cs : Bytes) (out : Command)
    → AllPlain (c ∷ cs)
    → step_inline (record init { state = reading_inline }) 0 ((c ∷ cs) ++ 10 ∷ []) out
      ≡ done init (finished (0 + (length (c ∷ cs) + 1))) ((c ∷ cs) ∷ [])
unfolding accept_inline
one_word c cs out plain =
    let p = record init { state = reading_inline } in
    inline_some p 0 ((c ∷ cs) ++ 10 ∷ []) out (length (c ∷ cs)) (find_newline-line (c ∷ cs) plain)
    ∙ ap
        (λ args.
          accept_inline (record p { pending = args }) (0 + (length (c ∷ cs) + 1))
            (drop (length (c ∷ cs) + 1) ((c ∷ cs) ++ 10 ∷ [])))
        (ap (λ n. split_inline [] (take n ((c ∷ cs) ++ 10 ∷ [])))
            (line_end-plain (c ∷ cs) (10 ∷ []) plain)
          ∙ ap (split_inline []) (take-append_seam (length (c ∷ cs)) (c ∷ cs) (10 ∷ []) refl)
          ∙ split_inline_word c cs plain)

-- A word in an inline line that is longer than the limit fails when its newline is not there, and
-- is a command of one argument when the newline comes with it. So the two ways in which the same
-- bytes arrive, all at once or the newline on its own, come to different results.
pub parse-long_line :
    (c : ℕ) (cs : Bytes) (out : Command)
    → AllPlain (c ∷ cs)
    → k_max_line_len < length (c ∷ cs)
    → (parse init (c ∷ cs) out
        ≡ some (
          record init { state = failed },
          record { status = protocol_error; consumed = 0; error = k_err_line_too_long },
          out,
        ))
      × (parse init ((c ∷ cs) ++ 10 ∷ []) out
          ≡ some (init, finished (length (c ∷ cs) + 1), (c ∷ cs) ∷ []))
unfolding step
parse-long_line c cs out plain long =
    let p = record init { state = reading_inline } in
    (
      to_inline c cs out plain.0
          ∙ run-step p 0 (c ∷ cs) out
          ∙ ap (continue out) (too_long (c ∷ cs) out (find_newline-plain (c ∷ cs) plain) long),
      to_inline c (cs ++ 10 ∷ []) out plain.0
          ∙ run-step p 0 ((c ∷ cs) ++ 10 ∷ []) out
          ∙ ap (continue out) (one_word c cs out plain)
          ∙ ap (λ k. some (init, finished k, (c ∷ cs) ∷ [])) {y = length (c ∷ cs) + 1}
              (omega arith),
    )
