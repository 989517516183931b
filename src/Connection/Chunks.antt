-- ===== src/Connection/Chunks.antt =====
-- `Connection::on_bytes` of src/connection.cpp over bytes that come in pieces.
use cachedb.Prelude.{
  suc, ◌+◌, ◌^◌, ◌<◌, ◌≤◌, ◌≡◌, ◌≢◌, refl, sym, ap, ap₂, ◌∙◌, Bool, true, false, not, Option, none,
  some, ◌++◌, arith, length, drop, drop-drop, length-drop, length-append, drop-append_le,
  append_assoc, ltb, if◌then◌else◌,
}
use mathlib.Core.Option.{some-injective}
use cachedb.Prelude.Text.{codes}
use cachedb.Prelude.Words.{add_u64}
use cachedb.Prelude.Bytes.{Bytes}
use cachedb.Resp.{Command}
use cachedb.Connection.{Connection, Drained, settle, on_bytes}
use cachedb.Resp.Reply.{append_error}
use cachedb.Connection.Drain.{run_drain}
use cachedb.Connection.Pieces.{drain-GoesOn, moved_drained, drain_moved}

module _ {ℓ} {Store : Type ℓ} (execute : Command → Store → Bytes → Store × Bytes) where
  -- The connection that the loop leaves.
  abbrev left_by : Connection → Bytes → Drained execute → Connection
  left_by c input d = record c {
    parser = d.parser;
    input = drop d.consumed input;
    output = d.output;
    closing = d.closing;
  }

  settle_moved :
      (c : Connection) (input whole : Bytes) (d : Drained execute) (o : Option (Drained execute))
      → settle execute c whole (moved_drained execute d.consumed o)
        ≡ settle execute (left_by c input d) (drop d.consumed whole) o
  unfolding settle
  settle_moved c input whole d none = refl
  settle_moved c input whole d (some x) =
      rw (drop-drop d.consumed x.consumed (d.consumed + x.consumed) whole refl) refl

  open_branch :
      (b : Bool) (c c' : Connection) (store store' : Store) (y : Option (Connection × Store × Bool))
      → (if b then some (c, store, false) else y) ≡ some (c', store', true)
      → (b ≡ false) × (y ≡ some (c', store', true))
  open_branch true c c' store store' y h =
      let wrong : false ≡ true = ap (λ t. t.2) (some-injective _ (c', store', true) h) in
      absurd (wrong_lem wrong)
    where
      wrong_lem : false ≢ true
      wrong_lem e = cc
  open_branch false c c' store store' y h = (refl, h)

  -- A call that leaves the connection open has run the loop to its end.
  Stays : Connection → Bytes → Store → Connection → Store → Type ℓ
  Stays c input store c' store' =
      (d : Drained execute) × (run_drain execute c.parser input 0 store c.output ≡ some d)
      × (d.closing ≡ false)
      × (c' ≡ left_by c input d)
      × (store' ≡ d.store)

  settle-Stays :
      (c : Connection) (input : Bytes) (store : Store) (c' : Connection) (store' : Store)
      (o : Option (Drained execute))
      → run_drain execute c.parser input 0 store c.output ≡ o
      → settle execute c input o ≡ some (c', store', true)
      → Stays c input store c' store'
  unfolding settle Stays
  settle-Stays c input store c' store' none e h = cc
  settle-Stays c input store c' store' (some d) e h =
      let same = some-injective (left_by c input d, d.store, not d.closing) (c', store', true) h in
      (
        d,
        e,
        not_true d.closing (ap (λ t. t.2) same),
        sym (ap (λ t. t.0) same),
        sym (ap (λ t. t.1) same),
      )
    where
      not_true : (b : Bool) → not b ≡ true → b ≡ false
      not_true true h = sym h
      not_true false h = refl

  -- A call of an open connection within its limit runs the loop.
  on_bytes-settle :
      (c : Connection) (bytes : Bytes) (store : Store)
      → c.closing ≡ false
      → length c.input + length bytes ≤ c.max_read_buffer
      → c.max_read_buffer < 2 ^ 64
      → on_bytes execute c bytes store
        ≡ settle execute c
            (c.input ++ bytes)
            (run_drain execute c.parser (c.input ++ bytes) 0 store c.output)
  unfolding on_bytes
  on_bytes-settle c bytes store still_open fits small =
      let room : ltb c.max_read_buffer (add_u64 (length c.input) (length bytes)) ≡ false =
        ground arith in
      rw (still_open, room) refl

  two_pieces :
      (c : Connection) (input second : Bytes) (store : Store) (d : Drained execute)
      → run_drain execute c.parser input 0 store c.output ≡ some d
      → d.closing ≡ false
      → settle execute c
          (input ++ second)
          (run_drain execute c.parser (input ++ second) 0 store c.output)
        ≡ settle execute
            (left_by c input d)
            (drop d.consumed input ++ second)
            (run_drain execute d.parser (drop d.consumed input ++ second) 0 d.store d.output)
  two_pieces c input second store d ran stays =
      let (n, fits, place, later) =
        drain-GoesOn execute (suc (length input)) c.parser input second 0 store c.output d ran
          stays in
      let taken : n ≡ d.consumed = omega (arith, place) in
      let start : d.consumed ≡ d.consumed + 0 = omega arith in
      let rest = drop d.consumed input ++ second in
      let within : d.consumed ≤ length input = omega (arith, place, fits) in
      ap (settle execute c (input ++ second)) (
        later
        ∙ ap (λ m. run_drain execute d.parser (drop m input ++ second) d.consumed d.store d.output)
            taken
        ∙ ap (λ m. run_drain execute d.parser rest m d.store d.output) start
        ∙ drain_moved execute (suc (length rest)) d.consumed d.parser rest 0 d.store d.output)
      ∙ settle_moved c input (input ++ second) d
          (run_drain execute d.parser rest 0 d.store d.output)
      ∙ ap
          (λ b.
            settle execute (left_by c input d) b
              (run_drain execute d.parser rest 0 d.store d.output))
          (drop-append_le d.consumed input second within)

  -- Bytes that arrive in two pieces leave what they leave in one: the connection with its parser,
  -- unread bytes and queued replies, the store, and the answer whether it stays open. The first
  -- piece must leave the connection open, and both must fit in the read buffer at once.
  pub on_bytes-append :
      (c : Connection) (first second : Bytes) (store : Store) (c' : Connection) (store' : Store)
      → on_bytes execute c first store ≡ some (c', store', true)
      → length c.input + length first + length second ≤ c.max_read_buffer
      → c.max_read_buffer < 2 ^ 64
      → on_bytes execute c (first ++ second) store ≡ on_bytes execute c' second store'
  unfolding on_bytes Stays
  on_bytes-append c first second store c' store' h fits small =
      let input = c.input ++ first in
      let opened = open_branch c.closing c c' store store' _ h in
      let within =
        open_branch (ltb c.max_read_buffer (add_u64 (length c.input) (length first)))
          (record c {
            output = append_error c.output (codes "ERR Protocol error: request too large");
            closing = true;
          })
          c' store store' _ opened.1 in
      let (d, ran, stays, same_c, same_store) =
        settle-Stays c input store c' store' _ refl within.1 in
      on_bytes-settle c (first ++ second) store opened.0 (omega (arith, length-append first second))
        small
      ∙ ap (λ b. settle execute c b (run_drain execute c.parser b 0 store c.output))
          (sym (append_assoc c.input first second))
      ∙ two_pieces c input second store d ran stays
      ∙ sym (
          on_bytes-settle (left_by c input d) second d.store stays
            (omega (arith, length-drop d.consumed input, length-append c.input first)) small)
      ∙ ap₂ (λ x y. on_bytes execute x second y) (sym same_c) (sym same_store)
