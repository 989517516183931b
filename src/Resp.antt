-- ===== src/Resp.antt =====
-- src/resp.h and src/resp.cpp, `class RespParser`: the resumable parser of requests. What is left
-- of `in` from `pos` on is a list, `rest`, so an index into `in` is one into `rest` and `pos`. The
-- reserved capacities of vectors and strings are left out.
pub mod Total
pub mod Advance
pub mod Chunks
pub mod Progress
pub mod Reply
pub mod Request
pub mod RoundTrip
pub mod LongLine
pub mod Shift
pub mod Resume
pub mod Body
use cachedb.Prelude.{
  ℕ, zero, suc, ◌+◌, ◌-◌, ◌*◌, ◌^◌, min, Bool, true, false, ◌&&◌, ◌||◌, not, Option, none, some,
  List, [], ◌∷◌, ◌++◌, ltb, leb, ◌==◌, if◌then◌else◌, length, get_or, take, drop,
}
use cachedb.Prelude.Int.{ℤ, pos, pos_part, leb_ℤ}
use cachedb.Prelude.Words.{sub_u64}
use cachedb.Prelude.Bytes.{Bytes}
use cachedb.Prelude.Chars.{parse_i64}

-- `args` of `struct Command`.
abbrev pub Command : Type 0
Command = List Bytes

abbrev pub k_max_multibulk_len : ℕ
k_max_multibulk_len = 1024 * 1024

abbrev pub k_max_bulk_len : ℕ
k_max_bulk_len = 512 * 1024 * 1024

abbrev pub k_max_line_len : ℕ
k_max_line_len = 64 * 1024

pub data Status : Type 0 where
  need_more_data complete protocol_error : Status

-- The error messages by the names of their constants; `no_error` is the empty string.
pub data Message : Type 0 where
  no_error k_err_multibulk_len k_err_bulk_len k_err_expected_dollar k_err_unterminated_bulk :
      Message
  k_err_line_too_long k_err_already_failed : Message

pub record Result : Type 0 where
  pub status : Status
  pub consumed : ℕ
  pub error : Message

pub data State : Type 0 where
  reading_type reading_multibulk_len reading_bulk_len reading_bulk_body : State
  reading_bulk_crlf reading_inline failed : State

pub record RespParser : Type 0 where
  pub state : State
  pub pending : Command
  pub multibulk_remaining : ℕ
  pub bulk_remaining : ℕ

abbrev pub init : RespParser
init = record { state = reading_type; pending = []; multibulk_remaining = 0; bulk_remaining = 0 }

unfoldable pub reset : RespParser → RespParser
reset p = elim p.state [ failed ↦ p | _ ↦ init ]

-- in.find("\r\n", pos) - pos
unfoldable pub find_crlf : Bytes → Option ℕ
find_crlf [] = none
find_crlf (c ∷ []) = none
find_crlf (c ∷ d ∷ cs) =
    let rest = find_crlf (d ∷ cs) in
    if c == 13 && d == 10 then some 0 else elim rest [ none ↦ none | some i ↦ some (suc i) ]

-- in.find('\n', pos) - pos
unfoldable pub find_newline : Bytes → Option ℕ
find_newline [] = none
find_newline (c ∷ cs) =
    let rest = find_newline cs in
    if c == 10 then some 0 else elim rest [ none ↦ none | some i ↦ some (suc i) ]

-- args.back().append(bytes), where there is always an argument.
unfoldable pub append_back : Command → Bytes → Command
append_back [] bytes = []
append_back (arg ∷ []) bytes = (arg ++ bytes) ∷ []
append_back (arg ∷ next ∷ args) bytes = arg ∷ append_back (next ∷ args) bytes

abbrev pub is_inline_space : ℕ → Bool
is_inline_space c = c == 32 || c == 9

-- The loop over an inline line. `word` has the bytes of the argument that is being read, which is
-- none when it is empty.
unfoldable pub split_inline : Bytes → Bytes → Command
split_inline [] [] = []
split_inline (w ∷ word) [] = (w ∷ word) ∷ []
split_inline [] (c ∷ cs) =
    let at_space = split_inline [] cs in
    let in_word = split_inline (c ∷ []) cs in if is_inline_space c then at_space else in_word
split_inline (w ∷ word) (c ∷ cs) =
    let at_space = split_inline [] cs in
    let in_word = split_inline ((w ∷ word) ++ c ∷ []) cs in
    if is_inline_space c then (w ∷ word) ∷ at_space else in_word

-- if (end > pos && in[end - 1] == '\r') --end
unfoldable pub line_end : Bytes → ℕ → ℕ
line_end rest nl = if ltb 0 nl && get_or rest (nl - 1) 0 == 13 then nl - 1 else nl

-- One round of the loop of `parse`: the next round's state, position and input, or the result with
-- the command that `out` is left with.
pub data Step : Type 0 where
  again : RespParser → ℕ → Bytes → Step
  done : RespParser → Result → Command → Step

abbrev pub need_more : RespParser → ℕ → Command → Step
need_more p at out =
    done p (record { status = need_more_data; consumed = at; error = no_error }) out

abbrev pub fail : RespParser → ℕ → Message → Command → Step
fail p at message out =
    done (record p { state = failed })
      (record { status = protocol_error; consumed = at; error = message }) out

abbrev pub completed : RespParser → ℕ → Step
completed p at =
    done (reset p) (record { status = complete; consumed = at; error = no_error }) p.pending

-- A line without its terminator: too long, or not all there.
abbrev pub unterminated : RespParser → ℕ → Bytes → Command → Step
unterminated p at rest out =
    if ltb k_max_line_len (length rest)
    then fail p at k_err_line_too_long out
    else need_more p at out

unfoldable pub step_type : RespParser → ℕ → Bytes → Command → Step
step_type p at [] out = need_more p at out
step_type p at (c ∷ cs) out =
    if c == 42
    then again (record p { state = reading_multibulk_len }) (at + 1) cs
    else again (record p { state = reading_inline }) at (c ∷ cs)

-- From the parsed number on; `next` is the position behind the line.
unfoldable pub accept_multibulk_len : RespParser → ℕ → ℕ → Bytes → Command → Option ℤ → Step
unfolding reset
accept_multibulk_len p at next rest out none = fail p at k_err_multibulk_len out
accept_multibulk_len p at next rest out (some n) =
    if ltb k_max_multibulk_len (pos_part n)
    then fail p at k_err_multibulk_len out
    else if leb_ℤ n (pos 0)
    then again (reset p) next rest
    else again (record p { multibulk_remaining = pos_part n; state = reading_bulk_len }) next rest

unfoldable pub step_multibulk_len : RespParser → ℕ → Bytes → Command → Step
unfolding accept_multibulk_len
step_multibulk_len p at rest out = elim (find_crlf rest) [
  | none ↦ unterminated p at rest out
  | some i ↦
      accept_multibulk_len p at (at + (i + 2)) (drop (i + 2) rest) out (parse_i64 (take i rest))
]

unfoldable pub accept_bulk_len : RespParser → ℕ → ℕ → Bytes → Command → Option ℤ → Step
accept_bulk_len p at next rest out none = fail p at k_err_bulk_len out
accept_bulk_len p at next rest out (some n) =
    if not (leb_ℤ (pos 0) n) || ltb k_max_bulk_len (pos_part n)
    then fail p at k_err_bulk_len out
    else again
        (record p {
          bulk_remaining = pos_part n;
          pending = p.pending ++ [] ∷ [];
          state = reading_bulk_body;
        })
        next rest

unfoldable pub step_bulk_len : RespParser → ℕ → Bytes → Command → Step
unfolding accept_bulk_len
step_bulk_len p at [] out = need_more p at out
step_bulk_len p at (c ∷ cs) out =
    let found : Step = elim (find_crlf cs) [
      | none ↦ unterminated p at (c ∷ cs) out
      | some i ↦ accept_bulk_len p at (at + (i + 3)) (drop (i + 2) cs) out (parse_i64 (take i cs))
    ] in
    if c == 36 then found else fail p at k_err_expected_dollar out

unfoldable pub step_bulk_body : RespParser → ℕ → Bytes → Command → Step
step_bulk_body p at rest out =
    let taken = min (length rest) p.bulk_remaining in
    let p' = record p {
      pending = append_back p.pending (take taken rest);
      bulk_remaining = p.bulk_remaining - taken;
    } in
    if ltb 0 (p.bulk_remaining - taken)
    then need_more p' (at + taken) out
    else again (record p' { state = reading_bulk_crlf }) (at + taken) (drop taken rest)

unfoldable pub step_bulk_crlf : RespParser → ℕ → Bytes → Command → Step
unfolding reset
step_bulk_crlf p at [] out = need_more p at out
step_bulk_crlf p at (c ∷ []) out = need_more p at out
step_bulk_crlf p at (c ∷ d ∷ cs) out =
    let left = sub_u64 p.multibulk_remaining 1 in
    if not (c == 13) || not (d == 10)
    then fail p at k_err_unterminated_bulk out
    else if left == 0
    then completed (record p { multibulk_remaining = left }) (at + 2)
    else again (record p { multibulk_remaining = left; state = reading_bulk_len }) (at + 2) cs

-- The parser with the arguments of a line; `next` is the position behind it.
unfoldable pub accept_inline : RespParser → ℕ → Bytes → Step
unfolding reset
accept_inline p next rest = elim p.pending [
  | [] ↦ again (reset p) next rest
  | _ ∷ _ ↦ completed p next
]

unfoldable pub step_inline : RespParser → ℕ → Bytes → Command → Step
unfolding accept_inline
step_inline p at rest out = elim (find_newline rest) [
  | none ↦ unterminated p at rest out
  | some i ↦
      accept_inline (record p { pending = split_inline [] (take (line_end rest i) rest) })
        (at + (i + 1)) (drop (i + 1) rest)
]

unfoldable pub step : RespParser → ℕ → Bytes → Command → Step
unfolding step_type step_multibulk_len step_bulk_len step_bulk_body step_bulk_crlf step_inline
step p at rest out = elim p.state [
  | failed ↦
      done p (record { status = protocol_error; consumed = at; error = k_err_already_failed }) out
  | reading_type ↦ step_type p at rest out
  | reading_multibulk_len ↦ step_multibulk_len p at rest out
  | reading_bulk_len ↦ step_bulk_len p at rest out
  | reading_bulk_body ↦ step_bulk_body p at rest out
  | reading_bulk_crlf ↦ step_bulk_crlf p at rest out
  | reading_inline ↦ step_inline p at rest out
]

-- for (;;), which leaves nothing when the fuel runs out.
unfoldable pub parse_loop :
    ℕ → RespParser → ℕ → Bytes → Command → Option (RespParser × Result × Command)
unfolding step
parse_loop zero p at rest out = none
parse_loop (suc fuel) p at rest out = elim (step p at rest out) [
  | again p' at' rest' ↦ parse_loop fuel p' at' rest' out
  | done p' result out' ↦ some (p', result, out')
]

-- The parser, the result and `out` after the call.
unfoldable pub parse : RespParser → Bytes → Command → Option (RespParser × Result × Command)
unfolding parse_loop
parse p input out = parse_loop (2 * length input + 2) p 0 input out
