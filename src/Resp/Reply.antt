-- ===== src/Resp/Reply.antt =====
-- src/resp.cpp, the serialization of replies. Each function returns what `out` becomes.
use cachedb.Prelude.{[], ◌∷◌, ◌++◌, length}
use cachedb.Prelude.Int.{ℤ, pos}
use cachedb.Prelude.Bytes.{Bytes}
use cachedb.Prelude.Chars.{to_chars}

abbrev pub k_crlf : Bytes
k_crlf = 13 ∷ 10 ∷ []

abbrev append_i64 : Bytes → ℤ → Bytes
append_i64 out n = out ++ to_chars n

unfoldable pub append_simple_string : Bytes → Bytes → Bytes
append_simple_string out s = (out ++ 43 ∷ []) ++ (s ++ k_crlf)

unfoldable pub append_error : Bytes → Bytes → Bytes
append_error out msg = (out ++ 45 ∷ []) ++ (msg ++ k_crlf)

unfoldable pub append_integer : Bytes → ℤ → Bytes
append_integer out n = append_i64 (out ++ 58 ∷ []) n ++ k_crlf

unfoldable pub append_bulk_string : Bytes → Bytes → Bytes
append_bulk_string out s = append_i64 (out ++ 36 ∷ []) (pos (length s)) ++ (k_crlf ++ (s ++ k_crlf))

unfoldable pub append_null_bulk : Bytes → Bytes
append_null_bulk out = out ++ 36 ∷ 45 ∷ 49 ∷ 13 ∷ 10 ∷ []

unfoldable pub append_array_header : Bytes → ℤ → Bytes
append_array_header out n = append_i64 (out ++ 42 ∷ []) n ++ k_crlf
