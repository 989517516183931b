-- ===== src/Tests/Requests.antt =====
-- The commands at concrete inputs.
use cachedb.Prelude.{
  ◌+◌, ◌*◌, ◌≡◌, ◌⊎◌, none, some, refl, inl, inr, [], ◌∷◌, arith, leb, if◌then◌else◌,
}
use cachedb.Prelude.Int.{ℤ, pos}
use cachedb.Prelude.Bytes.{Bytes}
use cachedb.Prelude.Text.{codes}
use cachedb.Prelude.Chars.{to_chars, decimal}
use cachedb.Resp.{Command}
use cachedb.Resp.Reply.{append_integer, append_error}
use cachedb.Store.Refine.{Done}
use cachedb.Store.Recovery.{nothing}
use cachedb.Store.Calls.{put}
use cachedb.Commands.{k_max}
use cachedb.Commands.Deadline.{deadline_from, deadline_from_lem}
use cachedb.Commands.Keys.{CommandIo, reply, cmd_set, cmd_incr}
use cachedb.Commands.Asked.{Asked}
use cachedb.Commands.Dispatch.{execute}
use cachedb.Commands.Framing.{OneReply}
use cachedb.Commands.Framing.Requests.{execute-OneReply}
use cachedb.Commands.Meaning.{SetTo, Overflows, Acts, IncrFails, cmd_incr-Acts, cmd_set-Acts}
use cachedb.Tests.Engine.{engine, engine-IsSound, engine-empty, write_io, flush_all_io, a}

abbrev command_io : CommandIo
command_io = record {
  write = write_io;
  flush_all_io = flush_all_io;
  now = pos 0;
  later = pos 7;
  started_ms = pos 0;
}

-- A name that would end the error's line.
abbrev forged : Command
forged = (0x58 ∷ 13 ∷ 10 ∷ codes "+OK") ∷ []

execute-OneReply_example : OneReply [] (execute command_io forged engine [])
execute-OneReply_example = execute-OneReply command_io forged engine [] (omega arith)

engine-Done : Done 0 (pos 0) nothing engine
engine-Done = (engine-IsSound, engine-empty)

cmd_incr-Acts_example :
    Acts
      (IncrFails 0 nothing engine command_io (codes "incr" ∷ a ∷ []) [] (pos 0) (pos 0))
      1
      (pos 0)
      nothing
      (put nothing a (some (record { value = codes "1"; expires_at_ms = pos 0 })))
      []
      (append_integer [] (pos 1))
      (cmd_incr command_io (codes "incr" ∷ a ∷ []) engine [])
    × Overflows 0 nothing engine command_io
        (codes "incr" ∷ a ∷ [])
        []
        (pos 0)
        (cmd_incr command_io (codes "incr" ∷ a ∷ []) engine [])
unfolding to_chars decimal
cmd_incr-Acts_example =
    cmd_incr-Acts 0 nothing engine command_io (codes "incr" ∷ a ∷ []) [] (pos 0) (pos 0) engine-Done
      refl (omega arith, omega arith) (omega arith)

-- SET a a EX 10 at the time 0: the option is written in capitals.
cmd_set-Acts_example :
    let r = cmd_set command_io (codes "set" ∷ a ∷ a ∷ codes "EX" ∷ codes "10" ∷ []) engine [] in
    let options = codes "EX" ∷ codes "10" ∷ [] in
    ((x : ℤ) × Asked 0 options x × SetTo 0 nothing engine command_io a a [] x r)
    ⊎ ((¬ ((x : ℤ) × Asked 0 options x))
        × ((message : Bytes) × (r ≡ reply engine (append_error [] message))))
cmd_set-Acts_example =
    cmd_set-Acts 0 nothing engine command_io a a [] 0 (codes "set") (codes "EX" ∷ codes "10" ∷ [])
      engine-Done refl (omega arith) (omega arith, omega arith) (omega arith)

ten_seconds-Asked : Asked 0 (codes "EX" ∷ codes "10" ∷ []) (pos 10000)
unfolding to_chars decimal
ten_seconds-Asked = inl (refl, (10, refl, omega arith, omega arith, refl))

deadline_from_lem_example :
    deadline_from (pos 10) 1000 (pos 5)
    ≡ (if leb (5 + 10 * 1000) k_max then some (pos (5 + 10 * 1000)) else none)
deadline_from_lem_example = deadline_from_lem 10 1000 5 (inr refl) (omega arith) (omega arith)
