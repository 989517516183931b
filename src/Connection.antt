-- ===== src/Connection.antt =====
-- src/connection.h and src/connection.cpp, `class Connection`: the buffers of one client and its
-- parser. What a command does to the store and to the replies is a parameter here, `execute`.
pub mod Drain
pub mod Pieces
pub mod Chunks
pub mod Output
use cachedb.Prelude.{
  ℕ, zero, suc, ◌+◌, ◌*◌, Bool, true, false, ◌&&◌, not, Option, none, some, List, [], ◌∷◌, ◌++◌,
  ltb, leb, ◌==◌, if◌then◌else◌, length, drop,
}
use cachedb.Prelude.Text.{codes}
use cachedb.Prelude.Words.{add_u64}
use cachedb.Prelude.Bytes.{Bytes}
use cachedb.Resp.{
  Command, need_more_data, complete, protocol_error, Message, no_error, k_err_multibulk_len,
  k_err_bulk_len, k_err_expected_dollar, k_err_unterminated_bulk, k_err_line_too_long,
  k_err_already_failed, Result, RespParser, init, parse,
}
use cachedb.Resp.Reply.{append_error}

pub record Connection : Type 0 where
  pub parser : RespParser
  pub input : Bytes
  pub output : Bytes
  pub out_pos : ℕ
  pub max_read_buffer : ℕ
  pub closing : Bool

abbrev pub connect : ℕ → Connection
connect max_read_buffer = record {
  parser = init;
  input = [];
  output = [];
  out_pos = 0;
  max_read_buffer = max_read_buffer;
  closing = false;
}

abbrev k_compact_threshold : ℕ
k_compact_threshold = 64 * 1024

-- The text of an error of the parser.
abbrev text : Message → Bytes
text no_error = []
text k_err_multibulk_len = codes "Protocol error: invalid multibulk length"
text k_err_bulk_len = codes "Protocol error: invalid bulk length"
text k_err_expected_dollar = codes "Protocol error: expected '$'"
text k_err_unterminated_bulk = codes "Protocol error: bulk string not terminated by CRLF"
text k_err_line_too_long = codes "Protocol error: too big inline request"
text k_err_already_failed = codes "Protocol error: framing lost"

module _ {ℓ} {Store : Type ℓ} (execute : Command → Store → Bytes → Store × Bytes) where
  -- What the loop of `on_bytes` leaves.
  pub record Drained : Type ℓ where
    pub parser : RespParser
    pub consumed : ℕ
    pub store : Store
    pub output : Bytes
    pub closing : Bool

  -- for (;;), over what is left of `in_` behind the consumed bytes. It leaves nothing when the
  -- fuel runs out.
  unfoldable pub drain : ℕ → RespParser → Bytes → ℕ → Store → Bytes → Command → Option Drained
  drain zero p rest consumed store out cmd = none
  drain (suc fuel) p rest consumed store out cmd = elim (parse p rest cmd) [
    | none ↦ none
    | some (p', r, cmd') ↦ elim r.status [
      | complete ↦
          let (store', out') = execute cmd' store out in
          drain fuel p' (drop r.consumed rest) (consumed + r.consumed) store' out' []
      | protocol_error ↦ some (record {
        parser = p';
        consumed = consumed + r.consumed;
        store = store;
        output = append_error out (codes "ERR " ++ text r.error);
        closing = true;
      })
      | need_more_data ↦ some (record {
        parser = p';
        consumed = consumed + r.consumed;
        store = store;
        output = out;
        closing = false;
      })
    ]
  ]

  -- The connection behind the loop, with `input` what it had to read.
  unfoldable pub settle : Connection → Bytes → Option Drained → Option (Connection × Store × Bool)
  settle c input none = none
  settle c input (some d) = some (
    record c {
      parser = d.parser;
      input = drop d.consumed input;
      output = d.output;
      closing = d.closing;
    },
    d.store,
    not d.closing,
  )

  unfoldable pub on_bytes : Connection → Bytes → Store → Option (Connection × Store × Bool)
  unfolding drain settle
  on_bytes c bytes store =
      let input = c.input ++ bytes in
      if c.closing
      then some (c, store, false)
      else if ltb c.max_read_buffer (add_u64 (length c.input) (length bytes))
      then some (
        record c {
          output = append_error c.output (codes "ERR Protocol error: request too large");
          closing = true;
        },
        store,
        false,
      )
      else settle c input (drain (suc (length input)) c.parser input 0 store c.output [])

unfoldable pub pending_output : Connection → Bytes
pending_output c = drop c.out_pos c.output

-- The sums do not wrap: a caller consumes at most what is pending, and the size of a std::string is
-- below 2 ^ 63.
unfoldable pub consume_output : Connection → ℕ → Connection
consume_output c n =
    let at = c.out_pos + n in
    if at == length c.output
    then record c { output = []; out_pos = 0 }
    else if leb k_compact_threshold at && leb (length c.output) (at * 2)
    then record c { output = drop at c.output; out_pos = 0 }
    else record c { out_pos = at }

unfoldable pub has_pending_output : Connection → Bool
unfolding pending_output
has_pending_output c = ltb 0 (length (pending_output c))

unfoldable pub should_close : Connection → Bool
unfolding has_pending_output
should_close c = c.closing && not (has_pending_output c)
