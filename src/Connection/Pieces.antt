-- ===== src/Connection/Pieces.antt =====
-- The loop of `Connection::on_bytes` in src/connection.cpp over bytes that come in pieces.
use cachedb.Prelude.{
  ℕ, zero, suc, ◌+◌, ◌≤◌, ◌≡◌, refl, sym, ap, ◌∙◌, true, false, Option, none, some, [], ◌++◌, arith,
  length, drop, drop-drop, length-drop, drop-append_le,
}
use mathlib.Core.Path.{subst}
use mathlib.Core.Option.{some-injective}
use cachedb.Prelude.Text.{codes}
use cachedb.Prelude.Bytes.{Bytes}
use cachedb.Resp.{
  Command, Status, need_more_data, complete, protocol_error, Result, RespParser, parse,
}
use cachedb.Resp.Shift.{moved_outcome}
use cachedb.Resp.Chunks.{On}
use cachedb.Resp.Resume.{parse-consumed, parse-append}
use cachedb.Resp.Progress.{Left, parse-Left}
use cachedb.Connection.{Drained, drain, text}
use cachedb.Resp.Reply.{append_error}
use cachedb.Connection.Drain.{on_status, handle, drain-handle, run_drain, run_drain-handle}

On-at : (t s : Status) (a b c : Type 0) → s ≡ t → On s a b c → On t a b c
On-at t s a b c e x = subst (λ u. On u a b c) e x

module _ {ℓ} {Store : Type ℓ} (execute : Command → Store → Bytes → Store × Bytes) where
  -- Bytes that were consumed before count as consumed.
  handle_moved :
      (k : ℕ) (rest : Bytes) (consumed : ℕ) (store : Store) (out : Bytes)
      (o : Option (RespParser × Result × Command))
      → handle execute (run_drain execute) rest consumed store out (moved_outcome k o)
        ≡ handle execute (run_drain execute) (drop k rest) (consumed + k) store out o
  handle_moved k rest consumed store out none = refl
  handle_moved k rest consumed store out (some (p, r, cmd)) =
      let place : consumed + (k + r.consumed) ≡ consumed + k + r.consumed = omega arith in
      rw (place, drop-drop k r.consumed (k + r.consumed) rest refl) refl

  -- What the loop left is where it goes on when there are more bytes.
  abbrev pub GoesOn : RespParser → Bytes → Bytes → ℕ → Store → Bytes → Drained execute → Type ℓ
  GoesOn p rest more consumed store out d =
      (n : ℕ) × (n ≤ length rest)
      × (d.consumed ≡ consumed + n)
      × (run_drain execute p (rest ++ more) consumed store out
          ≡ run_drain execute d.parser (drop n rest ++ more) d.consumed d.store d.output)

  waits-GoesOn :
      (p : RespParser) (rest more : Bytes) (consumed : ℕ) (store : Store) (out : Bytes)
      (p' : RespParser) (r : Result) (cmd' : Command)
      → parse p rest [] ≡ some (p', r, cmd')
      → r.status ≡ need_more_data
      → GoesOn p rest more consumed store out (record {
        parser = p';
        consumed = consumed + r.consumed;
        store = store;
        output = out;
        closing = false;
      })
  waits-GoesOn p rest more consumed store out p' r cmd' e waits =
      let fits = parse-consumed p rest [] p' r cmd' e in
      let same : cmd' ≡ [] = rw (waits, Left) at (parse-Left p rest [] p' r cmd' e) in
      let later : parse p (rest ++ more) []
          ≡ moved_outcome r.consumed (parse p' (drop r.consumed rest ++ more) cmd') =
        On-at need_more_data r.status _ _ _ waits (parse-append p rest more [] p' r cmd' e) in
      (
        r.consumed,
        fits,
        refl,
        run_drain-handle execute p (rest ++ more) consumed store out
            ∙ ap (handle execute (run_drain execute) (rest ++ more) consumed store out) later
            ∙ handle_moved r.consumed (rest ++ more) consumed store out
                (parse p' (drop r.consumed rest ++ more) cmd')
            ∙ rw (drop-append_le r.consumed rest more fits, same)
                (sym (
                  run_drain-handle execute p' (drop r.consumed rest ++ more) (consumed + r.consumed)
                    store out)),
      )

  runs-GoesOn :
      (p : RespParser) (rest more : Bytes) (consumed : ℕ) (store : Store) (out : Bytes)
      (p' : RespParser) (r : Result) (cmd' : Command) (d : Drained execute)
      → parse p rest [] ≡ some (p', r, cmd')
      → r.status ≡ complete
      → GoesOn p'
          (drop r.consumed rest)
          more
          (consumed + r.consumed)
          (execute cmd' store out).0
          (execute cmd' store out).1
          d
      → GoesOn p rest more consumed store out d
  runs-GoesOn p rest more consumed store out p' r cmd' d e full (n, fits', place, later) =
      let fits = parse-consumed p rest [] p' r cmd' e in
      let same : parse p (rest ++ more) [] ≡ some (p', r, cmd') =
        On-at complete r.status _ _ _ full (parse-append p rest more [] p' r cmd' e) in
      (
        r.consumed + n,
        omega (arith, length-drop r.consumed rest),
        omega (arith, place),
        run_drain-handle execute p (rest ++ more) consumed store out
            ∙ ap (handle execute (run_drain execute) (rest ++ more) consumed store out) same
            ∙ rw (full, on_status, drop-append_le r.consumed rest more fits)
                (later
                  ∙ ap (λ b. run_drain execute d.parser (b ++ more) d.consumed d.store d.output)
                      (drop-drop r.consumed n (r.consumed + n) rest refl)),
      )

  pub drain-GoesOn :
      (f : ℕ) (p : RespParser) (rest more : Bytes) (consumed : ℕ) (store : Store) (out : Bytes)
      (d : Drained execute)
      → drain execute f p rest consumed store out [] ≡ some d
      → d.closing ≡ false
      → GoesOn p rest more consumed store out d
  unfolding drain
  drain-GoesOn zero p rest more consumed store out d h open_still = cc
  drain-GoesOn (suc f) p rest more consumed store out d h open_still =
      by_outcome (λ p' rest' c s o h'. drain-GoesOn f p' rest' more c s o d h' open_still)
        (parse p rest []) refl (sym (drain-handle execute f p rest consumed store out) ∙ h)
    where
      Next : Type ℓ
      Next =
          (p' : RespParser) (rest' : Bytes) (c : ℕ) (s : Store) (o : Bytes)
          → drain execute f p' rest' c s o [] ≡ some d
          → GoesOn p' rest' more c s o d

      by_status :
          Next
          → (p' : RespParser) (r : Result) (cmd' : Command) → parse p rest [] ≡ some (p', r, cmd')
          → (s : Status) → r.status ≡ s
          → on_status s
              (drain execute f p'
                (drop r.consumed rest)
                (consumed + r.consumed)
                (execute cmd' store out).0
                (execute cmd' store out).1
                [])
              (some (record {
                parser = p';
                consumed = consumed + r.consumed;
                store = store;
                output = append_error out (codes "ERR " ++ text r.error);
                closing = true;
              }))
              (some (record {
                parser = p';
                consumed = consumed + r.consumed;
                store = store;
                output = out;
                closing = false;
              }))
            ≡ some d
          → GoesOn p rest more consumed store out d
      by_status next p' r cmd' e complete full h =
          runs-GoesOn p rest more consumed store out p' r cmd' d e full (
            next p' (drop r.consumed rest) (consumed + r.consumed) (execute cmd' store out).0
              (execute cmd' store out).1 h)
      by_status next p' r cmd' e need_more_data waits h =
          subst (GoesOn p rest more consumed store out) (some-injective _ d h)
            (waits-GoesOn p rest more consumed store out p' r cmd' e waits)
      by_status next p' r cmd' e protocol_error failed h =
          let wrong : true ≡ false = ap (λ x. x.closing) (some-injective _ d h) ∙ open_still in cc

      by_outcome :
          Next
          → (x : Option (RespParser × Result × Command)) → parse p rest [] ≡ x
          → handle execute
              (λ p' rest' c s o. drain execute f p' rest' c s o [])
              rest
              consumed
              store
              out
              x
            ≡ some d
          → GoesOn p rest more consumed store out d
      by_outcome next none e h = cc
      by_outcome next (some (p', r, cmd')) e h = by_status next p' r cmd' e r.status refl h

  -- Consuming starts anew with each call.
  abbrev pub moved_drained : ℕ → Option (Drained execute) → Option (Drained execute)
  moved_drained k none = none
  moved_drained k (some d) = some (record d { consumed = k + d.consumed })

  pub drain_moved :
      (f k : ℕ) (p : RespParser) (rest : Bytes) (consumed : ℕ) (store : Store) (out : Bytes)
      → drain execute f p rest (k + consumed) store out []
        ≡ moved_drained k (drain execute f p rest consumed store out [])
  unfolding drain
  drain_moved zero k p rest consumed store out = refl
  drain_moved (suc f) k p rest consumed store out =
      drain-handle execute f p rest (k + consumed) store out
      ∙ by_outcome (λ p' rest' c s o. drain_moved f k p' rest' c s o) (parse p rest [])
      ∙ sym (ap (moved_drained k) (drain-handle execute f p rest consumed store out))
    where
      by_status :
          (s : Status) (x y : Option (Drained execute)) (failure more : Drained execute)
          → x ≡ moved_drained k y
          → on_status s x
              (some (record failure { consumed = k + failure.consumed }))
              (some (record more { consumed = k + more.consumed }))
            ≡ moved_drained k (on_status s y (some failure) (some more))
      by_status complete x y failure more h = h
      by_status protocol_error x y failure more h = refl
      by_status need_more_data x y failure more h = refl

      by_outcome :
          ((p' : RespParser) (rest' : Bytes) (c : ℕ) (s : Store) (o : Bytes)
            → drain execute f p' rest' (k + c) s o []
              ≡ moved_drained k (drain execute f p' rest' c s o []))
          → (x : Option (RespParser × Result × Command))
          → handle execute
              (λ p' rest' c s o. drain execute f p' rest' c s o [])
              rest
              (k + consumed)
              store
              out
              x
            ≡ moved_drained k (
                handle execute
                  (λ p' rest' c s o. drain execute f p' rest' c s o [])
                  rest
                  consumed
                  store
                  out
                  x)
      by_outcome rounds none = refl
      by_outcome rounds (some (p', r, cmd')) =
          let place : k + consumed + r.consumed ≡ k + (consumed + r.consumed) = omega arith in
          rw place (
            by_status r.status _ _ _ _ (
              rounds p' (drop r.consumed rest) (consumed + r.consumed) (execute cmd' store out).0
                (execute cmd' store out).1))
