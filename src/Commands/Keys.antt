-- ===== src/Commands/Keys.antt =====
-- src/command.cpp: the handlers of the commands on keys. A handler returns the store, and what the
-- replies become, or that an exception went through it.
use cachedb.Prelude.{
  ℕ, ◌+◌, ◌/◌, Bool, true, false, not, ◌&&◌, Option, none, some, List, [], ◌∷◌, ◌==◌, if◌then◌else◌,
  length, get_or, drop,
}
use cachedb.Prelude.Int.{ℤ, pos, negsuc, pos_part, leb_ℤ}
use cachedb.Prelude.Bytes.{Bytes, key_eq}
use cachedb.Prelude.Chars.{to_chars}
use cachedb.Prelude.Text.{codes}
use cachedb.Resp.{Command}
use cachedb.Resp.Reply.{
  append_simple_string, append_error, append_integer, append_bulk_string, append_null_bulk,
}
use cachedb.Store.{Store, Result, returned, threw}
use cachedb.Store.Layers.{TtlResult, lookup, get, exists_key, ttl}
use cachedb.Store.Flush.{FlushAllIo}
use cachedb.Store.Write.{
  WriteIo, ExpireResult, DelResult, DelBatchResult, set, expire, del, del_many,
}
use cachedb.Commands.{k_max, parse_int64}
use cachedb.Commands.Deadline.{normalize_name, deadline_from, add_i64}

-- What a command meets: the calls of a write, those of FLUSHALL, and the clock, which is read more
-- than once by some commands: at `now`, and then at `later`. `started_ms` is kStartedMs.
pub record CommandIo : Type 0 where
  pub write : WriteIo
  pub flush_all_io : FlushAllIo
  pub now : ℤ
  pub later : ℤ
  pub started_ms : ℤ

abbrev pub Handled : Type 0
Handled = Store × Result Bytes

abbrev pub Handler : Type 0
Handler = CommandIo → Command → Store → Bytes → Handled

abbrev pub arg : Command → ℕ → Bytes
arg c i = get_or c i []

-- A handler that ends with this reply.
abbrev pub reply : Store → Bytes → Handled
reply s out = (s, returned out)

unfoldable pub cmd_ping : Handler
cmd_ping io c s out =
    if length c == 1
    then reply s (append_simple_string out (codes "PONG"))
    else reply s (append_bulk_string out (arg c 1))

abbrev pub k_not_an_integer : Bytes
k_not_an_integer = codes "ERR value is not an integer or out of range"

abbrev pub k_invalid_expire : Bytes
k_invalid_expire = codes "ERR invalid expire time in 'set' command"

abbrev pub k_not_logged : Bytes
k_not_logged = codes "ERR the write could not be logged and was not applied"

-- The stamp that SET stores, or the error that it replies.
pub data SetExpiry : Type 0 where
  expires_at : ℤ → SetExpiry
  refused : Bytes → SetExpiry

abbrev pub of_deadline : Option ℤ → SetExpiry
of_deadline none = refused k_invalid_expire
of_deadline (some deadline) = expires_at deadline

unfoldable pub amount_of : ℤ → ℕ → Bytes → SetExpiry
amount_of now unit_ms text = elim (parse_int64 text) [
  | none ↦ refused k_not_an_integer
  | some amount ↦
      if leb_ℤ amount (pos 0)
      then refused k_invalid_expire
      else of_deadline (deadline_from amount unit_ms now)
]

unfoldable pub option_of : ℤ → Bytes → Bytes → SetExpiry
unfolding amount_of
option_of now option text = elim (normalize_name option) [
  | none ↦ refused (codes "ERR syntax error")
  | some name ↦
      if not (key_eq name (codes "ex")) && not (key_eq name (codes "px"))
      then refused (codes "ERR syntax error")
      else amount_of now (if key_eq name (codes "ex") then 1000 else 1) text
]

unfoldable pub set_expiry : ℤ → Command → SetExpiry
unfolding option_of
set_expiry now c =
    if length c == 5
    then option_of now (arg c 3) (arg c 4)
    else if not (length c == 3)
    then refused (codes "ERR syntax error")
    else expires_at (pos 0)

-- The reply to a write by what `Store::set` returned.
abbrev pub set_reply : Bytes → Bytes → Store × Result Bool → Handled
set_reply out fine (s, returned true) = reply s fine
set_reply out fine (s, returned false) = reply s (append_error out k_not_logged)
set_reply out fine (s, threw) = (s, threw)

unfoldable pub cmd_set : Handler
unfolding set_expiry
cmd_set io c s out = elim (set_expiry io.now c) [
  | refused message ↦ reply s (append_error out message)
  | expires_at stamp ↦
      set_reply out (append_simple_string out (codes "OK"))
        (set io.write s (arg c 1) (arg c 2) stamp)
]

unfoldable pub cmd_get : Handler
cmd_get io c s out = elim (get io.now s (arg c 1)) [
  | some value ↦ reply s (append_bulk_string out value)
  | none ↦ reply s (append_null_bulk out)
]

abbrev pub k_delete_failed : Bytes
k_delete_failed = codes "ERR the delete could not be logged and was not applied"

abbrev pub del_reply : Bytes → Store × Result DelResult → Handled
del_reply out (s, returned r) =
    if not r.durable
    then reply s (append_error out k_delete_failed)
    else reply s (append_integer out (pos (if r.was_live then 1 else 0)))
del_reply out (s, threw) = (s, threw)

abbrev pub del_many_reply : Bytes → Store × Result DelBatchResult → Handled
del_many_reply out (s, returned r) =
    if not r.durable
    then reply s (append_error out k_delete_failed)
    else reply s (append_integer out (pos r.removed))
del_many_reply out (s, threw) = (s, threw)

unfoldable pub cmd_del : Handler
cmd_del io c s out =
    if length c == 2
    then del_reply out (del io.write io.now s (arg c 1))
    else del_many_reply out (del_many io.write io.now s (drop 1 c))

-- The loop of EXISTS over the keys.
unfoldable pub count_found : ℤ → Store → List Bytes → ℕ → ℕ
count_found now s [] found = found
count_found now s (k ∷ ks) found =
    count_found now s ks (if exists_key now s k then found + 1 else found)

unfoldable pub cmd_exists : Handler
unfolding count_found
cmd_exists io c s out = reply s (append_integer out (pos (count_found io.now s (drop 1 c) 0)))

abbrev pub expire_reply : Bytes → Store × Result ExpireResult → Handled
expire_reply out (s, returned r) =
    if not r.durable
    then reply s (append_error out (codes "ERR the expiry could not be logged and was not applied"))
    else reply s (append_integer out (pos (if r.applied then 1 else 0)))
expire_reply out (s, threw) = (s, threw)

-- EXPIRE's deadline for a number of seconds.
unfoldable pub expire_deadline : ℤ → ℤ → Option ℤ
expire_deadline now seconds =
    if leb_ℤ seconds (pos 0) then some (negsuc 0) else deadline_from seconds 1000 now

unfoldable pub cmd_expire : Handler
unfolding expire_deadline
cmd_expire io c s out = elim (parse_int64 (arg c 2)) [
  | none ↦ reply s (append_error out k_not_an_integer)
  | some seconds ↦ elim (expire_deadline io.now seconds) [
    | none ↦ reply s (append_error out (codes "ERR invalid expire time in 'expire' command"))
    | some deadline ↦ expire_reply out (expire io.write io.later s (arg c 1) deadline)
  ]
]

-- Division of an int64_t that is not negative here: remaining_ms is clamped at zero.
abbrev pub seconds_up : ℤ → ℤ
seconds_up remaining_ms = pos ((pos_part remaining_ms + 999) / 1000)

abbrev pub ttl_reply : Store → Bytes → TtlResult → Handled
ttl_reply s out r =
    if not r.exists_now
    then reply s (append_integer out (negsuc 1))
    else if not r.has_expiry
    then reply s (append_integer out (negsuc 0))
    else reply s (append_integer out (seconds_up r.remaining_ms))

unfoldable pub cmd_ttl : Handler
cmd_ttl io c s out = ttl_reply s out (ttl io.now io.later s (arg c 1))

abbrev pub k_incr_overflow : Bytes
k_incr_overflow = codes "ERR increment or decrement would overflow"

-- ++value, for a value below the maximum, written back with its stamp.
abbrev pub incr_value : CommandIo → Command → Store → Bytes → ℤ → ℤ → Handled
incr_value io c s out value stamp =
    let next = add_i64 value (pos 1) in
    if leb_ℤ (pos k_max) value
    then reply s (append_error out k_incr_overflow)
    else set_reply out (append_integer out next) (set io.write s (arg c 1) (to_chars next) stamp)

unfoldable pub cmd_incr : Handler
cmd_incr io c s out = elim (lookup io.now s (arg c 1)) [
  | none ↦ incr_value io c s out (pos 0) (pos 0)
  | some found ↦ elim (parse_int64 found.value) [
    | none ↦ reply s (append_error out k_not_an_integer)
    | some value ↦ incr_value io c s out value found.expires_at_ms
  ]
]
