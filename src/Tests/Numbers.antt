-- ===== src/Tests/Numbers.antt =====
-- The numbers and the echo of commands at concrete inputs.
use cachedb.Prelude.{◌≡◌, ◌↔◌, refl, none, some, [], ◌∷◌, min, length}
use cachedb.Prelude.Int.{negsuc}
use cachedb.Prelude.Bytes.{Bytes}
use cachedb.Prelude.Chars.{to_chars}
use cachedb.Commands.{parse_int64, append_printable}
use cachedb.Commands.Canonical.{IsSymmetric, parse_int64_iff}
use cachedb.Commands.Echo.{Echoed, append_printable-Echoed}

-- "007", and "-7"
leading_zeros : parse_int64 (48 ∷ 48 ∷ 55 ∷ []) ≡ none
unfolding parse_int64
leading_zeros = refl

abbrev minus_seven : Bytes
minus_seven = 45 ∷ 55 ∷ []

parse_int64_iff_example :
    (parse_int64 minus_seven ≡ some (negsuc 6))
    ↔ ((to_chars (negsuc 6) ≡ minus_seven) × IsSymmetric (negsuc 6))
parse_int64_iff_example = parse_int64_iff minus_seven (negsuc 6)

-- "X\r\n"
abbrev forged : Bytes
forged = 88 ∷ 13 ∷ 10 ∷ []

append_printable-Echoed_example :
    Echoed (min 64 (length forged)) (45 ∷ []) (append_printable (45 ∷ []) forged)
append_printable-Echoed_example = append_printable-Echoed (45 ∷ []) forged
