-- ===== src/Commands/Framing.antt =====
-- src/command.cpp: what the handlers add to the replies. Handlers has the rest of them, and
-- Requests is about `execute`.
pub mod Handlers
pub mod Requests
use cachedb.Prelude.{
  ℕ, ◌+◌, ◌≤◌, ◌≡◌, refl, sym, ap, ◌∙◌, Bool, true, false, not, Option, none, some, List, [], ◌∷◌,
  ◌++◌, ◌==◌, arith, if◌then◌else◌, ◌&&◌, length, drop, Option-cases,
}
use mathlib.Core.Path.{subst}
use cachedb.Prelude.Int.{ℤ, pos, negsuc, leb_ℤ}
use cachedb.Prelude.Bytes.{Bytes, key_eq, key_eq_iff}
use cachedb.Prelude.Chars.{to_chars}
use cachedb.Prelude.SortedMap
use cachedb.Prelude.SortedMap.{SortedMap}
use cachedb.Prelude.Text.{codes}
use cachedb.Resp.{Command}
use cachedb.Resp.Reply.{
  append_simple_string, append_error, append_integer, append_bulk_string, append_null_bulk,
  append_array_header,
}
use cachedb.Store.{Store, Result, returned, threw}
use cachedb.Store.Layers.{Found, TtlResult, lookup, get, ttl}
use cachedb.Store.Flush.{flush_all}
use cachedb.Store.Write.{ExpireResult, DelResult, DelBatchResult, set, expire, del, del_many}
use cachedb.Commands.{k_max, append_printable, parse_int64}
use cachedb.Commands.Echo.{AllPrintable, append_printable-Echoed}
use cachedb.Commands.Deadline.{normalize_name, deadline_from, add_ℤ}
use cachedb.Commands.Keys.{
  CommandIo, Handled, Handler, arg, reply, SetExpiry, expires_at, refused, of_deadline, amount_of,
  option_of, set_expiry, k_not_an_integer, k_invalid_expire, set_reply, cmd_ping, cmd_set, cmd_get,
  del_reply, del_many_reply, cmd_del, cmd_exists, expire_reply, expire_deadline, cmd_expire,
  ttl_reply, cmd_ttl, incr_value, cmd_incr,
}
use cachedb.Commands.Status.{
  cmd_flushall, cmd_info, info_text, known_value, config_get, is_get, cmd_config, cmd_command,
}
use cachedb.Commands.Dispatch.{
  Spec, dispatch_table, bad_arity, found_spec, wrong_arity, unknown_command, dispatch, execute,
}

-- A reply of the protocol.
pub data Reply : Type 0 where
  simple_reply error_reply bulk_reply : Bytes → Reply
  integer_reply : ℤ → Reply
  null_reply : Reply
  array_reply : List Bytes → Reply

abbrev append_all : Bytes → List Bytes → Bytes
append_all out [] = out
append_all out (s ∷ ss) = append_all (append_bulk_string out s) ss

abbrev pub print : Bytes → Reply → Bytes
print out (simple_reply s) = append_simple_string out s
print out (error_reply s) = append_error out s
print out (bulk_reply s) = append_bulk_string out s
print out (integer_reply n) = append_integer out n
print out null_reply = append_null_bulk out
print out (array_reply ss) = append_all (append_array_header out (pos (length ss))) ss

-- A reply that ends with its line has nothing in it that ends a line.
abbrev pub IsSafe : Reply → Type 0
IsSafe (simple_reply s) = AllPrintable s
IsSafe (error_reply s) = AllPrintable s
IsSafe (bulk_reply s) = Unit
IsSafe (integer_reply n) = Unit
IsSafe null_reply = Unit
IsSafe (array_reply ss) = Unit

-- Exactly one reply is added, unless an exception went through.
abbrev pub AddsOne : Bytes → Result Bytes → Type 0
AddsOne out (returned out') = (r : Reply) × (out' ≡ print out r) × IsSafe r
AddsOne out threw = Unit

abbrev pub OneReply : Bytes → Handled → Type 0
OneReply out h = AddsOne out h.1

AllPrintable-append : (s t : Bytes) → AllPrintable s → AllPrintable t → AllPrintable (s ++ t)
AllPrintable-append [] t h k = k
AllPrintable-append (c ∷ s) t h k = (h.0, AllPrintable-append s t h.1 k)

append_printable-AllPrintable :
    (out s : Bytes) → AllPrintable out → AllPrintable (append_printable out s)
append_printable-AllPrintable out s h =
    let (echo, same, count, printable) = append_printable-Echoed out s in
    subst AllPrintable (sym same) (AllPrintable-append out echo h printable)

error_one :
    (s : Store) (out msg : Bytes) → AllPrintable msg → OneReply out (reply s (append_error out msg))
error_one s out msg h = (error_reply msg, refl, h)

-- A handler adds one reply, whatever the store and the kernel do.
abbrev AlwaysOne : Handler → Type 0
AlwaysOne handler =
    (io : CommandIo) (c : Command) (s : Store) (out : Bytes) → OneReply out (handler io c s out)

set_reply-OneReply :
    (out : Bytes) (x : Reply) (r : Store × Result Bool)
    → IsSafe x
    → OneReply out (set_reply out (print out x) r)
set_reply-OneReply out x (s, returned true) h = (x, refl, h)
set_reply-OneReply out x (s, returned false) h = error_one s out _ (omega arith)
set_reply-OneReply out x (s, threw) h = tt

-- A property of both branches.
branch {ℓ κ} :
    {A : Type ℓ} (P : A → Type κ) (b : Bool) (x y : A) → P x → P y → P (if b then x else y)
branch P true x y p q = p
branch P false x y p q = q

cmd_ping-AlwaysOne : AlwaysOne cmd_ping
unfolding cmd_ping
cmd_ping-AlwaysOne io c s out =
    branch (OneReply out) (length c == 1) _ _ (simple_reply (codes "PONG"), refl, omega arith)
      (bulk_reply (arg c 1), refl, tt)

-- The errors of SET.
abbrev SafeExpiry : SetExpiry → Type 0
SafeExpiry (expires_at x) = Unit
SafeExpiry (refused message) = AllPrintable message

amount_of-SafeExpiry : (now : ℤ) (unit : ℕ) (text : Bytes) → SafeExpiry (amount_of now unit text)
unfolding amount_of
amount_of-SafeExpiry now unit text = parsed (parse_int64 text)
  where
    dated : (o : Option ℤ) → SafeExpiry (of_deadline o)
    dated none = omega arith
    dated (some x) = tt

    parsed :
        (o : Option ℤ)
        → SafeExpiry (elim o [
          | none ↦ refused k_not_an_integer
          | some amount ↦
              if leb_ℤ amount (pos 0)
              then refused k_invalid_expire
              else of_deadline (deadline_from amount unit now)
        ])
    parsed none = omega arith
    parsed (some amount) =
        branch SafeExpiry (leb_ℤ amount (pos 0)) _ _ (omega arith)
          (dated (deadline_from amount unit now))

option_of-SafeExpiry : (now : ℤ) (option text : Bytes) → SafeExpiry (option_of now option text)
unfolding option_of
option_of-SafeExpiry now option text = named (normalize_name option)
  where
    named :
        (o : Option Bytes)
        → SafeExpiry (elim o [
          | none ↦ refused (codes "ERR syntax error")
          | some name ↦
              if not (key_eq name (codes "ex")) && not (key_eq name (codes "px"))
              then refused (codes "ERR syntax error")
              else amount_of now (if key_eq name (codes "ex") then 1000 else 1) text
        ])
    named none = omega arith
    named (some name) =
        branch SafeExpiry (not (key_eq name (codes "ex")) && not (key_eq name (codes "px"))) _ _
          (omega arith)
          (amount_of-SafeExpiry now (if key_eq name (codes "ex") then 1000 else 1) text)

set_expiry-SafeExpiry : (now : ℤ) (c : Command) → SafeExpiry (set_expiry now c)
unfolding set_expiry
set_expiry-SafeExpiry now c =
    branch SafeExpiry (length c == 5) _ _ (option_of-SafeExpiry now (arg c 3) (arg c 4))
      (branch SafeExpiry (not (length c == 3)) _ _ (omega arith) tt)

cmd_set-AlwaysOne : AlwaysOne cmd_set
unfolding cmd_set
cmd_set-AlwaysOne io c s out = by (set_expiry io.now c) (set_expiry-SafeExpiry io.now c)
  where
    by :
        (e : SetExpiry)
        → SafeExpiry e
        → OneReply out (elim e [
          | refused message ↦ reply s (append_error out message)
          | expires_at stamp ↦
              set_reply out
                (append_simple_string out (codes "OK"))
                (set io.write s (arg c 1) (arg c 2) stamp)
        ])
    by (refused message) h = error_one s out message h
    by (expires_at x) h =
        set_reply-OneReply out (simple_reply (codes "OK")) (set io.write s (arg c 1) (arg c 2) x)
          (omega arith)

cmd_get-AlwaysOne : AlwaysOne cmd_get
unfolding cmd_get
cmd_get-AlwaysOne io c s out = by (get io.now s (arg c 1))
  where
    by :
        (o : Option Bytes)
        → OneReply out (elim o [
          | some value ↦ reply s (append_bulk_string out value)
          | none ↦ reply s (append_null_bulk out)
        ])
    by (some value) = (bulk_reply value, refl, tt)
    by none = (null_reply, refl, tt)
