-- ===== src/Tests/Client.antt =====
-- A connection at concrete inputs, with commands that are only recorded and echoed.
use cachedb.Prelude.{◌≡◌, ◌≢◌, refl, true, none, some, List, [], ◌∷◌, ◌++◌, arith, drop}
use cachedb.Prelude.Bytes.{Bytes}
use cachedb.Prelude.Chars.{parse_i64}
use cachedb.Resp.{Command, RespParser, reading_bulk_body, find_crlf, append_back, parse}
use cachedb.Connection.{Connection, connect, on_bytes, pending_output, consume_output}
use cachedb.Connection.Drain.{on_bytes-ne-none}
use cachedb.Connection.Chunks.{on_bytes-append}
use cachedb.Connection.Output.{pending_output-consume_output}

-- The store is the list of the commands so far.
abbrev execute : Command → List Command → Bytes → List Command × Bytes
execute cmd store out = (cmd ∷ store, out ++ 43 ∷ [])

-- "*1\r\n$3\r\nGE", and "T\r\n"
abbrev first : Bytes
first = 42 ∷ 49 ∷ 13 ∷ 10 ∷ 36 ∷ 51 ∷ 13 ∷ 10 ∷ 0x47 ∷ 0x45 ∷ []

abbrev second : Bytes
second = 0x54 ∷ 13 ∷ 10 ∷ []

abbrev halfway : RespParser
halfway = record {
  state = reading_bulk_body;
  pending = (0x47 ∷ 0x45 ∷ []) ∷ [];
  multibulk_remaining = 1;
  bulk_remaining = 1;
}

abbrev client : Connection
client = connect 1000

abbrev waiting : Connection
waiting = record client { parser = halfway }

first_half : on_bytes execute client first [] ≡ some (waiting, [], true)
unfolding on_bytes parse find_crlf parse_i64 append_back
first_half = refl

on_bytes-append_example :
    on_bytes execute client (first ++ second) [] ≡ on_bytes execute waiting second []
on_bytes-append_example =
    on_bytes-append execute client first second [] waiting [] first_half (omega arith) (omega arith)

on_bytes-ne-none_example : on_bytes execute waiting (10 ∷ second) [] ≢ none
on_bytes-ne-none_example = on_bytes-ne-none execute waiting (10 ∷ second) []

abbrev queued : Connection
queued = record client { output = 43 ∷ 79 ∷ 75 ∷ 13 ∷ 10 ∷ []; out_pos = 1 }

pending_output-consume_output_example :
    pending_output (consume_output queued 2) ≡ drop 2 (pending_output queued)
pending_output-consume_output_example = pending_output-consume_output queued 2 (omega arith)
