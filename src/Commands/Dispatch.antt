-- ===== src/Commands/Dispatch.antt =====
-- src/command.cpp, the dispatch table and `execute`.
use cachedb.Prelude.{
  ℕ, Bool, false, ◌||◌, Option, none, some, [], ◌∷◌, ◌++◌, ltb, if◌then◌else◌, length,
}
use cachedb.Prelude.Bytes.{Bytes}
use cachedb.Prelude.Text.{codes}
use cachedb.Prelude.SortedMap
use cachedb.Prelude.SortedMap.{SortedMap}
use cachedb.Resp.{Command}
use cachedb.Resp.Reply.{append_error}
use cachedb.Store.{Store}
use cachedb.Commands.{append_printable}
use cachedb.Commands.Deadline.{normalize_name}
use cachedb.Commands.Keys.{
  CommandIo, Handled, Handler, arg, reply, cmd_ping, cmd_set, cmd_get, cmd_del, cmd_exists,
  cmd_expire, cmd_ttl, cmd_incr,
}
use cachedb.Commands.Status.{cmd_flushall, cmd_info, cmd_config, cmd_command}

-- `max_args` is `none` for -1, which is variadic.
pub record Spec : Type 0 where
  pub handler : Handler
  pub min_args : ℕ
  pub max_args : Option ℕ

abbrev pub spec : Handler → ℕ → Option ℕ → Spec
spec handler min_args max_args = record {
  handler = handler;
  min_args = min_args;
  max_args = max_args;
}

abbrev pub dispatch_table : SortedMap Spec
dispatch_table =
    (codes "ping", spec cmd_ping 1 (some 2))
    ∷ (codes "set", spec cmd_set 3 none)
    ∷ (codes "get", spec cmd_get 2 (some 2))
    ∷ (codes "expire", spec cmd_expire 3 (some 3))
    ∷ (codes "ttl", spec cmd_ttl 2 (some 2))
    ∷ (codes "incr", spec cmd_incr 2 (some 2))
    ∷ (codes "flushall", spec cmd_flushall 1 none)
    ∷ (codes "info", spec cmd_info 1 (some 2))
    ∷ (codes "config", spec cmd_config 2 none)
    ∷ (codes "del", spec cmd_del 2 none)
    ∷ (codes "exists", spec cmd_exists 2 none)
    ∷ (codes "command", spec cmd_command 1 none)
    ∷ []

-- argc < spec.min_args || (spec.max_args >= 0 && argc > spec.max_args)
abbrev pub bad_arity : Spec → ℕ → Bool
bad_arity sp argc =
    ltb argc sp.min_args || elim sp.max_args [ none ↦ false | some most ↦ ltb most argc ]

-- The table's entry for a name as the client wrote it, with the name in lower case.
abbrev pub found_spec : Option Bytes → Option (Bytes × Spec)
found_spec none = none
found_spec (some name) = elim (SortedMap.find name dispatch_table) [
  | none ↦ none
  | some sp ↦ some (name, sp)
]

abbrev pub wrong_arity : Bytes → Bytes
wrong_arity name = (codes "ERR wrong number of arguments for '" ++ name) ++ codes "' command"

abbrev pub unknown_command : Bytes → Bytes
unknown_command name = append_printable (codes "ERR unknown command '") name ++ codes "'"

-- From where the table has been searched.
unfoldable pub dispatch : CommandIo → Command → Store → Bytes → Option (Bytes × Spec) → Handled
dispatch io c s out none = reply s (append_error out (unknown_command (arg c 0)))
dispatch io c s out (some (name, sp)) =
    if bad_arity sp (length c)
    then reply s (append_error out (wrong_arity name))
    else sp.handler io c s out

unfoldable pub execute : Handler
unfolding dispatch
execute io [] s out = reply s out
execute io (name ∷ args) s out = dispatch io (name ∷ args) s out (found_spec (normalize_name name))
