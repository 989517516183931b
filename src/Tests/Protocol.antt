-- ===== src/Tests/Protocol.antt =====
-- The parser and the serializer at concrete inputs.
use cachedb.Prelude.{
  ℕ, zero, suc, ◌+◌, ◌≡◌, ◌≢◌, refl, none, some, [], ◌∷◌, ◌++◌, arith, length, drop, replicate,
  length-replicate,
}
use cachedb.Prelude.Bytes.{Bytes}
use cachedb.Prelude.Chars.{parse_i64}
use cachedb.Resp.{
  need_more_data, protocol_error, no_error, k_err_line_too_long, k_err_bulk_len, Result,
  reading_bulk_body, failed, RespParser, init, find_crlf, append_back, parse,
}
use cachedb.Resp.Total.{parse-ne-none}
use cachedb.Resp.Shift.{moved_outcome}
use cachedb.Resp.Resume.{parse-append}
use cachedb.Resp.Request.{request}
use cachedb.Resp.RoundTrip.{finished, parse-request}
use cachedb.Resp.LongLine.{AllPlain, parse-long_line}

abbrev get : Bytes
get = 0x47 ∷ 0x45 ∷ 0x54 ∷ []

-- "*1\r\n$3\r\nGE", and "T\r\n"
abbrev first : Bytes
first = 42 ∷ 49 ∷ 13 ∷ 10 ∷ 36 ∷ 51 ∷ 13 ∷ 10 ∷ 0x47 ∷ 0x45 ∷ []

abbrev second : Bytes
second = 0x54 ∷ 13 ∷ 10 ∷ []

abbrev halfway : RespParser
halfway = record {
  state = reading_bulk_body;
  pending = (0x47 ∷ 0x45 ∷ []) ∷ [];
  multibulk_remaining = 1;
  bulk_remaining = 1;
}

abbrev waiting : Result
waiting = record { status = need_more_data; consumed = 10; error = no_error }

first_half : parse init first [] ≡ some (halfway, waiting, [])
unfolding parse find_crlf parse_i64 append_back
first_half = refl

-- "*1\r\n$-1\r\n": a null is no argument.
null_refused :
    parse init (42 ∷ 49 ∷ 13 ∷ 10 ∷ 36 ∷ 45 ∷ 49 ∷ 13 ∷ 10 ∷ []) []
    ≡ some (
      record init { state = failed; multibulk_remaining = 1 },
      record { status = protocol_error; consumed = 4; error = k_err_bulk_len },
      [],
    )
unfolding parse find_crlf parse_i64
null_refused = refl

parse-append_example :
    parse init (first ++ second) [] ≡ moved_outcome 10 (parse halfway (drop 10 first ++ second) [])
parse-append_example = parse-append init first second [] halfway waiting [] first_half

parse-ne-none_example : parse halfway (10 ∷ second) [] ≢ none
parse-ne-none_example = parse-ne-none halfway (10 ∷ second) []

parse-request_example :
    parse init (request (get ∷ (13 ∷ 10 ∷ []) ∷ []) ++ get) []
    ≡ some
        (init, finished (length (request (get ∷ (13 ∷ 10 ∷ []) ∷ []))), get ∷ (13 ∷ 10 ∷ []) ∷ [])
parse-request_example =
    parse-request get ((13 ∷ 10 ∷ []) ∷ []) get [] (omega arith, (omega arith, tt)) (omega arith)

-- `count` letters.
abbrev letters : ℕ → Bytes
letters count = replicate count 97

letters-AllPlain : (count : ℕ) → AllPlain (letters count)
letters-AllPlain zero = tt
letters-AllPlain (suc count) = (refl, letters-AllPlain count)

parse-long_line_example :
    (parse init (97 ∷ letters 65536) []
      ≡ some (
        record init { state = failed },
        record { status = protocol_error; consumed = 0; error = k_err_line_too_long },
        [],
      ))
    × (parse init ((97 ∷ letters 65536) ++ 10 ∷ []) []
        ≡ some (init, finished (length (97 ∷ letters 65536) + 1), (97 ∷ letters 65536) ∷ []))
parse-long_line_example =
    parse-long_line 97 (letters 65536) [] (refl, letters-AllPlain 65536)
      (omega (arith, length-replicate {A = ℕ} 65536 97))
