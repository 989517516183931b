-- ===== src/Commands/Framing/Handlers.antt =====
-- src/command.cpp: what the handlers besides PING, SET and GET add to the replies.
use cachedb.Prelude.{
  refl, Bool, not, Option, none, some, [], ◌∷◌, ◌==◌, arith, if◌then◌else◌, length, drop,
}
use cachedb.Prelude.Int.{ℤ, pos, leb_ℤ}
use cachedb.Prelude.Bytes.{Bytes}
use cachedb.Prelude.Chars.{to_chars}
use cachedb.Prelude.Text.{codes}
use cachedb.Resp.{Command}
use cachedb.Resp.Reply.{
  append_simple_string, append_error, append_integer, append_bulk_string, append_array_header,
}
use cachedb.Store.{Store, Result, returned, threw}
use cachedb.Store.Layers.{Found, TtlResult, lookup, ttl}
use cachedb.Store.Flush.{flush_all}
use cachedb.Store.Write.{ExpireResult, DelResult, DelBatchResult, set, expire, del, del_many}
use cachedb.Commands.{k_max, parse_int64}
use cachedb.Commands.Deadline.{normalize_name, add_i64}
use cachedb.Commands.Keys.{
  CommandIo, arg, reply, k_not_an_integer, del_reply, del_many_reply, cmd_del, cmd_exists,
  expire_reply, expire_deadline, cmd_expire, ttl_reply, cmd_ttl, incr_value, cmd_incr,
}
use cachedb.Commands.Status.{
  cmd_flushall, cmd_info, info_text, known_value, config_get, is_get, cmd_config, cmd_command,
}
use cachedb.Commands.Framing.{
  simple_reply, bulk_reply, integer_reply, array_reply, OneReply, AllPrintable-append,
  append_printable-AllPrintable, error_one, AlwaysOne, set_reply-OneReply, branch,
}

integer_one : (s : Store) (out : Bytes) (n : ℤ) → OneReply out (reply s (append_integer out n))
integer_one s out n = (integer_reply n, refl, tt)

pub cmd_del-AlwaysOne : AlwaysOne cmd_del
unfolding cmd_del
cmd_del-AlwaysOne io c s out =
    branch (OneReply out) (length c == 2) _ _ (one (del io.write io.now s (arg c 1)))
      (many (del_many io.write io.now s (drop 1 c)))
  where
    one : (r : Store × Result DelResult) → OneReply out (del_reply out r)
    one (s', returned r) =
        branch (OneReply out) (not r.durable) _ _ (error_one s' out _ (omega arith))
          (integer_one s' out _)
    one (s', threw) = tt

    many : (r : Store × Result DelBatchResult) → OneReply out (del_many_reply out r)
    many (s', returned r) =
        branch (OneReply out) (not r.durable) _ _ (error_one s' out _ (omega arith))
          (integer_one s' out _)
    many (s', threw) = tt

pub cmd_exists-AlwaysOne : AlwaysOne cmd_exists
unfolding cmd_exists
cmd_exists-AlwaysOne io c s out = integer_one s out _

pub cmd_expire-AlwaysOne : AlwaysOne cmd_expire
unfolding cmd_expire
cmd_expire-AlwaysOne io c s out = parsed (parse_int64 (arg c 2))
  where
    answered : (r : Store × Result ExpireResult) → OneReply out (expire_reply out r)
    answered (s', returned r) =
        branch (OneReply out) (not r.durable) _ _ (error_one s' out _ (omega arith))
          (integer_one s' out _)
    answered (s', threw) = tt

    dated :
        (o : Option ℤ)
        → OneReply out (elim o [
          | none ↦ reply s (append_error out (codes "ERR invalid expire time in 'expire' command"))
          | some deadline ↦ expire_reply out (expire io.write io.later s (arg c 1) deadline)
        ])
    dated none = error_one s out _ (omega arith)
    dated (some deadline) = answered (expire io.write io.later s (arg c 1) deadline)

    parsed :
        (o : Option ℤ)
        → OneReply out (elim o [
          | none ↦ reply s (append_error out k_not_an_integer)
          | some seconds ↦ elim (expire_deadline io.now seconds) [
            | none ↦
                reply s (append_error out (codes "ERR invalid expire time in 'expire' command"))
            | some deadline ↦ expire_reply out (expire io.write io.later s (arg c 1) deadline)
          ]
        ])
    parsed none = error_one s out _ (omega arith)
    parsed (some seconds) = dated (expire_deadline io.now seconds)

pub cmd_ttl-AlwaysOne : AlwaysOne cmd_ttl
unfolding cmd_ttl
cmd_ttl-AlwaysOne io c s out = by (ttl io.now io.later s (arg c 1))
  where
    by : (r : TtlResult) → OneReply out (ttl_reply s out r)
    by r =
        branch (OneReply out) (not r.exists_now) _ _ (integer_one s out _)
          (branch (OneReply out) (not r.has_expiry) _ _ (integer_one s out _) (integer_one s out _))

incr_value-OneReply :
    (io : CommandIo) (c : Command) (s : Store) (out : Bytes) (value x : ℤ)
    → OneReply out (incr_value io c s out value x)
incr_value-OneReply io c s out value x =
    branch (OneReply out) (leb_ℤ (pos k_max) value) _ _ (error_one s out _ (omega arith)) (
      set_reply-OneReply out (integer_reply (add_i64 value (pos 1)))
        (set io.write s (arg c 1) (to_chars (add_i64 value (pos 1))) x) tt)

pub cmd_incr-AlwaysOne : AlwaysOne cmd_incr
unfolding cmd_incr
cmd_incr-AlwaysOne io c s out = by (lookup io.now s (arg c 1))
  where
    parsed :
        (x : ℤ) (o : Option ℤ)
        → OneReply out (elim o [
          | none ↦ reply s (append_error out k_not_an_integer)
          | some value ↦ incr_value io c s out value x
        ])
    parsed x none = error_one s out _ (omega arith)
    parsed x (some value) = incr_value-OneReply io c s out value x

    by :
        (o : Option Found)
        → OneReply out (elim o [
          | none ↦ incr_value io c s out (pos 0) (pos 0)
          | some found ↦ elim (parse_int64 found.value) [
            | none ↦ reply s (append_error out k_not_an_integer)
            | some value ↦ incr_value io c s out value found.expires_at_ms
          ]
        ])
    by none = incr_value-OneReply io c s out (pos 0) (pos 0)
    by (some found) = parsed found.expires_at_ms (parse_int64 found.value)

pub cmd_flushall-AlwaysOne : AlwaysOne cmd_flushall
unfolding cmd_flushall
cmd_flushall-AlwaysOne io c s out = by (flush_all io.flush_all_io s)
  where
    by :
        (r : Store × Bool)
        → OneReply out (
            if not r.1
            then reply r.0 (append_error out (codes "ERR the flush could not be completed"))
            else reply r.0 (append_simple_string out (codes "OK")))
    by (s', ok) =
        branch (OneReply out) (not ok) _ _ (error_one s' out _ (omega arith))
          (simple_reply (codes "OK"), refl, omega arith)

pub cmd_info-AlwaysOne : AlwaysOne cmd_info
unfolding cmd_info
cmd_info-AlwaysOne io c s out = (bulk_reply (info_text io s), refl, tt)

pub cmd_command-AlwaysOne : AlwaysOne cmd_command
unfolding cmd_command
cmd_command-AlwaysOne io c s out = (array_reply [], refl, tt)

config_get-AddsOne :
    (c : Command) (s : Store) (out : Bytes) → OneReply out (reply s (config_get c s out))
unfolding config_get
config_get-AddsOne c s out =
    branch (λ o. OneReply out (reply s o)) (not (length c == 3)) _ _ (array_reply [], refl, tt)
      (known (known_value s (normalize_name (arg c 2))))
  where
    known :
        (o : Option Bytes)
        → OneReply out (
            reply s (elim o [
              | none ↦ append_array_header out (pos 0)
              | some value ↦
                  append_bulk_string
                    (append_bulk_string (append_array_header out (pos 2)) (arg c 2))
                    value
            ]))
    known none = (array_reply [], refl, tt)
    known (some value) = (array_reply (arg c 2 ∷ value ∷ []), refl, tt)

pub cmd_config-AlwaysOne : AlwaysOne cmd_config
unfolding cmd_config
cmd_config-AlwaysOne io c s out =
    branch (OneReply out) (is_get (normalize_name (arg c 1))) _ _ (config_get-AddsOne c s out) (
      error_one s out _ (
        AllPrintable-append _ (codes "'") (append_printable-AllPrintable _ (arg c 1) (omega arith))
          (omega arith)))
