-- ===== src/Resp/Request.antt =====
-- The bytes of a request as src/resp.cpp's own serializer writes it: an array of bulk strings.
use cachedb.Prelude.{
  ℕ, zero, suc, ◌+◌, ◌^◌, ◌<◌, ◌≡◌, ◌≢◌, refl, sym, ap, ◌∙◌, some, [], ◌∷◌, ◌++◌, arith, length,
  take, drop, take-append_seam, drop-append_past, length-append, append_assoc, append-nil, ◌/◌, ◌%◌,
}
use cachedb.Prelude.Int.{pos}
use cachedb.Prelude.Bytes.{Bytes}
use cachedb.Prelude.Chars.{parse_i64, to_chars, decimal, parse_i64-to_chars}
use cachedb.Resp.{Command, find_crlf}
use cachedb.Resp.Reply.{k_crlf, append_bulk_string, append_array_header}

-- No byte is a carriage return.
abbrev pub NoReturn : Bytes → Type 0
NoReturn [] = Unit
NoReturn (c ∷ cs) = (c ≢ 13) × NoReturn cs

decimal-NoReturn : (room n : ℕ) (acc : Bytes) → NoReturn acc → NoReturn (decimal room n acc)
unfolding decimal
decimal-NoReturn zero n acc h = h
decimal-NoReturn (suc room) n acc h =
    ground (arith, decimal-NoReturn room (n / 10) ((48 + n % 10) ∷ acc))

pub to_chars-NoReturn : (n : ℕ) → NoReturn (to_chars (pos n))
unfolding to_chars
to_chars-NoReturn n = decimal-NoReturn 20 n [] tt

pub find_crlf-line :
    (line rest : Bytes) → NoReturn line → find_crlf (line ++ 13 ∷ 10 ∷ rest) ≡ some (length line)
unfolding find_crlf
find_crlf-line [] rest h = refl
find_crlf-line (c ∷ []) rest h = ground (arith, h.0)
find_crlf-line (c ∷ d ∷ line) rest h = ground (arith, h.0, find_crlf-line (d ∷ line) rest h.1)

-- The request as the bytes that follow each other.
abbrev pub bulk : Bytes → Bytes
bulk arg = 36 ∷ (to_chars (pos (length arg)) ++ 13 ∷ 10 ∷ (arg ++ 13 ∷ 10 ∷ []))

abbrev pub bulks : Command → Bytes
bulks [] = []
bulks (arg ∷ args) = bulk arg ++ bulks args

-- append_array_header, and append_bulk_string on each argument.
unfoldable pub append_args : Bytes → Command → Bytes
append_args out [] = out
append_args out (arg ∷ args) = append_args (append_bulk_string out arg) args

unfoldable pub request : Command → Bytes
unfolding append_args
request args = append_args (append_array_header [] (pos (length args))) args

append_bulk_string-bulk : (out arg : Bytes) → append_bulk_string out arg ≡ out ++ bulk arg
unfolding append_bulk_string
append_bulk_string-bulk out arg =
    let digits = to_chars (pos (length arg)) in
    append_assoc (out ++ 36 ∷ []) digits (k_crlf ++ (arg ++ k_crlf))
    ∙ append_assoc out (36 ∷ []) (digits ++ (k_crlf ++ (arg ++ k_crlf)))

pub append_args-bulks : (out : Bytes) (args : Command) → append_args out args ≡ out ++ bulks args
unfolding append_args
append_args-bulks out [] = sym (append-nil out)
append_args-bulks out (arg ∷ args) =
    append_args-bulks (append_bulk_string out arg) args
    ∙ ap (λ b. b ++ bulks args) (append_bulk_string-bulk out arg)
    ∙ append_assoc out (bulk arg) (bulks args)

abbrev pub line : ℕ → Bytes → Bytes
line n rest = to_chars (pos n) ++ 13 ∷ 10 ∷ rest

-- What the two length lines read.
pub take-line :
    (n : ℕ) (rest : Bytes)
    → n < 2 ^ 63
    → parse_i64 (take (length (to_chars (pos n))) (line n rest)) ≡ some (pos n)
take-line n rest small =
    ap parse_i64
      (take-append_seam (length (to_chars (pos n))) (to_chars (pos n)) (13 ∷ 10 ∷ rest) refl)
    ∙ parse_i64-to_chars (pos n) small

pub drop-line : (n : ℕ) (rest : Bytes) → drop (length (to_chars (pos n)) + 2) (line n rest) ≡ rest
drop-line n rest =
    drop-append_past (length (to_chars (pos n))) 2 (length (to_chars (pos n)) + 2)
      (to_chars (pos n)) (13 ∷ 10 ∷ rest) refl refl

pub bulk-append :
    (arg rest : Bytes) → bulk arg ++ rest ≡ 36 ∷ line (length arg) (arg ++ 13 ∷ 10 ∷ rest)
bulk-append arg rest =
    ap (λ b. 36 ∷ b)
      (append_assoc (to_chars (pos (length arg))) (13 ∷ 10 ∷ (arg ++ 13 ∷ 10 ∷ [])) rest
        ∙ ap (λ b. to_chars (pos (length arg)) ++ 13 ∷ 10 ∷ b)
            (append_assoc arg (13 ∷ 10 ∷ []) rest))

pub length-bulk :
    (arg : Bytes) → length (bulk arg) ≡ length (to_chars (pos (length arg))) + 3 + length arg + 2
length-bulk arg =
    let digits = to_chars (pos (length arg)) in
    omega (
      arith,
      length-append digits (13 ∷ 10 ∷ (arg ++ 13 ∷ 10 ∷ [])),
      length-append arg (13 ∷ 10 ∷ []),
    )

pub append_array_header-line :
    (n : ℕ) (rest : Bytes) → append_array_header [] (pos n) ++ rest ≡ 42 ∷ line n rest
unfolding append_array_header
append_array_header-line n rest = append_assoc (42 ∷ to_chars (pos n)) k_crlf rest

pub length-header :
    (n : ℕ) → length (append_array_header [] (pos n)) ≡ 1 + (length (to_chars (pos n)) + 2)
unfolding append_array_header
length-header n = omega (arith, length-append (42 ∷ to_chars (pos n)) k_crlf)
