-- ===== src/Commands/Framing/Requests.antt =====
-- src/command.cpp, `execute`: one reply to each request.
use cachedb.Prelude.{
  ◌≤◌, ◌≡◌, refl, Option, none, some, [], ◌∷◌, ◌++◌, arith, length, Bool-cases, inl, inr, ◌≢◌,
}
use mathlib.Core.Path.{subst}
use mathlib.Core.Option.{some-injective}
use cachedb.Prelude.Bytes.{Bytes, key_eq, key_eq_iff}
use cachedb.Prelude.SortedMap
use cachedb.Prelude.SortedMap.{SortedMap}
use cachedb.Prelude.Text.{codes}
use cachedb.Resp.{Command}
use cachedb.Resp.Reply.{append_error}
use cachedb.Store.{Store}
use cachedb.Commands.{append_printable}
use cachedb.Commands.Echo.{AllPrintable}
use cachedb.Commands.Deadline.{normalize_name}
use cachedb.Commands.Keys.{CommandIo, reply}
use cachedb.Commands.Dispatch.{
  Spec, dispatch_table, bad_arity, found_spec, wrong_arity, unknown_command, dispatch, execute,
}
use cachedb.Commands.Framing.{
  OneReply, AllPrintable-append, append_printable-AllPrintable, error_one, AlwaysOne, branch,
  cmd_ping-AlwaysOne, cmd_set-AlwaysOne, cmd_get-AlwaysOne,
}
use cachedb.Commands.Framing.Handlers.{
  cmd_del-AlwaysOne, cmd_exists-AlwaysOne, cmd_expire-AlwaysOne, cmd_ttl-AlwaysOne,
  cmd_incr-AlwaysOne, cmd_flushall-AlwaysOne, cmd_info-AlwaysOne, cmd_command-AlwaysOne,
  cmd_config-AlwaysOne,
}

-- Each entry of a table has a printable name, and a handler that adds one reply.
abbrev AllBehave : SortedMap Spec → Type 0
AllBehave [] = Unit
AllBehave ((name, sp) ∷ m) = (AllPrintable name × AlwaysOne sp.handler) × AllBehave m

dispatch_table-AllBehave : AllBehave dispatch_table
dispatch_table-AllBehave = (
  (omega arith, cmd_ping-AlwaysOne),
  (
    (omega arith, cmd_set-AlwaysOne),
    (
      (omega arith, cmd_get-AlwaysOne),
      (
        (omega arith, cmd_expire-AlwaysOne),
        (
          (omega arith, cmd_ttl-AlwaysOne),
          (
            (omega arith, cmd_incr-AlwaysOne),
            (
              (omega arith, cmd_flushall-AlwaysOne),
              (
                (omega arith, cmd_info-AlwaysOne),
                (
                  (omega arith, cmd_config-AlwaysOne),
                  (
                    (omega arith, cmd_del-AlwaysOne),
                    (
                      (omega arith, cmd_exists-AlwaysOne),
                      ((omega arith, cmd_command-AlwaysOne), tt),
                    ),
                  ),
                ),
              ),
            ),
          ),
        ),
      ),
    ),
  ),
)

find-Behaves :
    (name : Bytes) (m : SortedMap Spec) (sp : Spec)
    → AllBehave m
    → SortedMap.find name m ≡ some sp
    → AllPrintable name × AlwaysOne sp.handler
unfolding SortedMap.find
find-Behaves name [] sp h e = absurd (not_some e)
  where
    not_some : none ≢ some sp
    not_some p = cc
find-Behaves name ((j, other) ∷ m) sp h e = elim (Bool-cases (key_eq j name)) [
  | inl same ↦ (
    subst AllPrintable ((key_eq_iff j name).0 same) h.0.0,
    subst (λ x. AlwaysOne x.handler) (some-injective other sp (rw (same, SortedMap.find) at e))
        h.0.1,
  )
  | inr different ↦ find-Behaves name m sp h.1 (rw (different, SortedMap.find) at e)
]

-- A request with at least its name is answered by exactly one reply, which is added behind the
-- replies that are there, unless an exception goes through it. A status or an error, which its line
-- ends, holds printable ASCII alone, whatever the client sent and whatever the store and the kernel
-- do; so no request forges a second reply.
pub execute-OneReply :
    (io : CommandIo) (c : Command) (s : Store) (out : Bytes)
    → 1 ≤ length c
    → OneReply out (execute io c s out)
unfolding execute dispatch
execute-OneReply io [] s out h = absurd (omega arith)
execute-OneReply io (name ∷ args) s out h = looked_up (normalize_name name)
  where
    unknown : OneReply out (reply s (append_error out (unknown_command name)))
    unknown = error_one s out (unknown_command name) (
        AllPrintable-append (append_printable (codes "ERR unknown command '") name) (codes "'")
          (append_printable-AllPrintable (codes "ERR unknown command '") name (omega arith))
          (omega arith))

    known :
        (lower : Bytes) (o : Option Spec)
        → SortedMap.find lower dispatch_table ≡ o
        → OneReply out
            (dispatch io (name ∷ args) s out (elim o [ none ↦ none | some sp ↦ some (lower, sp) ]))
    known lower none e = unknown
    known lower (some sp) e =
        let (printable, one) = find-Behaves lower dispatch_table sp dispatch_table-AllBehave e in
        branch (OneReply out) (bad_arity sp (length (name ∷ args)))
          (reply s (append_error out (wrong_arity lower))) (sp.handler io (name ∷ args) s out)
          (error_one s out (wrong_arity lower) (
            AllPrintable-append (codes "ERR wrong number of arguments for '" ++ lower)
              (codes "' command")
              (AllPrintable-append (codes "ERR wrong number of arguments for '") lower (omega arith)
                printable)
              (omega arith)))
          (one io (name ∷ args) s out)

    looked_up : (o : Option Bytes) → OneReply out (dispatch io (name ∷ args) s out (found_spec o))
    looked_up none = unknown
    looked_up (some lower) = known lower (SortedMap.find lower dispatch_table) refl
