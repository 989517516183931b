-- ===== src/Commands/Status.antt =====
-- src/command.cpp: FLUSHALL, INFO, CONFIG and COMMAND, the handlers about the server as a whole.
use cachedb.Prelude.{
  ℕ, suc, ◌/◌, Bool, false, not, Option, none, some, [], ◌∷◌, ◌++◌, ◌==◌, if◌then◌else◌, length,
}
use cachedb.Prelude.Int.{ℤ, pos, negsuc, sub_ℕ, to_u64}
use cachedb.Prelude.Bytes.{Bytes, key_eq}
use cachedb.Prelude.Chars.{decimal}
use cachedb.Prelude.Text.{codes}
use cachedb.Resp.{Command}
use cachedb.Resp.Reply.{append_simple_string, append_error, append_bulk_string, append_array_header}
use cachedb.Wal.Log.{Wal, SyncPolicy, k_always, k_every_sec, k_no}
use cachedb.Store.{Store}
use cachedb.Store.Layers.{sub_ℤ}
use cachedb.Store.Flush.{flush_all}
use cachedb.Commands.{append_printable}
use cachedb.Commands.Deadline.{normalize_name}
use cachedb.Commands.Keys.{CommandIo, Handler, arg, reply}

unfoldable pub cmd_flushall : Handler
cmd_flushall io c s out =
    let (s', ok) = flush_all io.flush_all_io s in
    if not ok
    then reply s' (append_error out (codes "ERR the flush could not be completed"))
    else reply s' (append_simple_string out (codes "OK"))

abbrev pub policy_name : SyncPolicy → Bytes
policy_name k_always = codes "always"
policy_name k_every_sec = codes "everysec"
policy_name k_no = codes "no"

abbrev pub crlf : Bytes
crlf = 13 ∷ 10 ∷ []

-- The lambda of INFO, with std::to_string on unsigned long long.
abbrev pub line : Bytes → Bytes → ℕ → Bytes
line info key value = ((info ++ (key ++ codes ":")) ++ decimal 20 value []) ++ crlf

-- Division of an int64_t, which truncates toward zero.
abbrev pub divide : ℤ → ℕ → ℤ
divide (pos n) d = pos (n / d)
divide (negsuc n) d = sub_ℕ 0 (suc n / d)

-- wal_bytes, wal_syncs and the name of the policy, with their answers when there is no log.
abbrev pub wal_bytes : Option Wal → ℕ
wal_bytes none = 0
wal_bytes (some w) = w.size

abbrev pub wal_syncs : Option Wal → ℕ
wal_syncs none = 0
wal_syncs (some w) = w.syncs

abbrev pub policy_or : Bytes → Option Wal → Bytes
policy_or otherwise none = otherwise
policy_or otherwise (some w) = policy_name w.policy

unfoldable pub info_text : CommandIo → Store → Bytes
info_text io s =
    let server =
      line (codes "# Server" ++ crlf) (codes "uptime_in_seconds")
        (to_u64 (divide (sub_ℤ io.now io.started_ms) 1000)) in
    let table =
      line
        (line
          (line (server ++ (crlf ++ (codes "# Memtable" ++ crlf))) (codes "memtable_keys")
            s.memtable.live_count)
          (codes "memtable_bytes") s.memtable.bytes)
        (codes "memtable_limit_bytes") s.options.memtable_limit_bytes in
    let persistence =
      line
        (line
          (line (table ++ (crlf ++ (codes "# Persistence" ++ crlf))) (codes "sstable_count")
            (length s.sstables))
          (codes "wal_bytes") (wal_bytes s.wal))
        (codes "wal_fsyncs") (wal_syncs s.wal) in
    let policy =
      persistence ++ (codes "wal_fsync_policy:" ++ (policy_or (codes "none") s.wal ++ crlf)) in
    let flushing = line policy (codes "flush_failed") (if s.flush_failed then 1 else 0) in
    line (flushing ++ (crlf ++ (codes "# Expiry" ++ crlf))) (codes "expired_keys_swept")
      s.swept_keys

unfoldable pub cmd_info : Handler
unfolding info_text
cmd_info io c s out = reply s (append_bulk_string out (info_text io s))

-- The value of a parameter that CONFIG GET knows.
unfoldable pub config_value : Store → Bytes → Option Bytes
config_value s param =
    if key_eq param (codes "save")
    then some []
    else if key_eq param (codes "appendonly")
    then some (codes "yes")
    else if key_eq param (codes "appendfsync")
    then some (policy_or (codes "no") s.wal)
    else if key_eq param (codes "maxmemory")
    then some (codes "0")
    else none

abbrev pub known_value : Store → Option Bytes → Option Bytes
known_value s none = none
known_value s (some param) = config_value s param

unfoldable pub config_get : Command → Store → Bytes → Bytes
unfolding config_value
config_get c s out =
    if not (length c == 3)
    then append_array_header out (pos 0)
    else elim (known_value s (normalize_name (arg c 2))) [
      | none ↦ append_array_header out (pos 0)
      | some value ↦
          append_bulk_string (append_bulk_string (append_array_header out (pos 2)) (arg c 2)) value
    ]

abbrev pub is_get : Option Bytes → Bool
is_get none = false
is_get (some sub) = key_eq sub (codes "get")

unfoldable pub cmd_config : Handler
unfolding config_get
cmd_config io c s out =
    let unknown = codes "ERR Unknown CONFIG subcommand or wrong number of arguments for '" in
    if is_get (normalize_name (arg c 1))
    then reply s (config_get c s out)
    else reply s (append_error out (append_printable unknown (arg c 1) ++ codes "'"))

unfoldable pub cmd_command : Handler
cmd_command io c s out = reply s (append_array_header out (pos 0))
