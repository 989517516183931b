-- ===== src/Connection/Drain.antt =====
-- The loop of `Connection::on_bytes` in src/connection.cpp ends: a command that it runs took bytes.
use cachedb.Prelude.{
  ℕ, zero, suc, ◌+◌, ◌<◌, ◌≡◌, ◌≢◌, refl, sym, ◌∙◌, Bool, true, false, Option, none, some, [], ◌++◌,
  arith, length, drop, length-drop, if◌then◌else◌, ltb,
}
use cachedb.Prelude.Text.{codes}
use cachedb.Prelude.Words.{add_u64}
use cachedb.Prelude.Bytes.{Bytes}
use cachedb.Resp.{
  Command, Status, need_more_data, complete, protocol_error, Result, RespParser, parse,
}
use cachedb.Resp.Total.{parse-ne-none}
use cachedb.Resp.Resume.{parse-consumed}
use cachedb.Resp.Progress.{parse-Left}
use cachedb.Connection.{Connection, Drained, drain, settle, on_bytes, text}
use cachedb.Resp.Reply.{append_error}

-- A result for each status of a parse.
abbrev pub on_status {ℓ} : {A : Type ℓ} → Status → A → A → A → A
on_status complete full failure more = full
on_status protocol_error full failure more = failure
on_status need_more_data full failure more = more

on_status_cong {ℓ} :
    {A : Type ℓ} (s : Status) (full full' failure more : A)
    → (s ≡ complete → full ≡ full')
    → on_status s full failure more ≡ on_status s full' failure more
on_status_cong complete full full' failure more h = h refl
on_status_cong protocol_error full full' failure more h = refl
on_status_cong need_more_data full full' failure more h = refl

-- Behind a command there are fewer bytes.
shorter :
    (p : RespParser) (rest : Bytes) (p' : RespParser) (r : Result) (cmd' : Command)
    → parse p rest [] ≡ some (p', r, cmd')
    → r.status ≡ complete
    → length (drop r.consumed rest) < length rest
shorter p rest p' r cmd' e full =
    let took : 0 < r.consumed = ground (arith, parse-Left p rest [] p' r cmd' e) in
    omega (arith, length-drop r.consumed rest, parse-consumed p rest [] p' r cmd' e)

module _ {ℓ} {Store : Type ℓ} (execute : Command → Store → Bytes → Store × Bytes) where
  -- What the loop does with the outcome of a parse, where `next` is the rest of the loop.
  abbrev pub handle :
      (RespParser → Bytes → ℕ → Store → Bytes → Option (Drained execute))
      → Bytes
      → ℕ
      → Store
      → Bytes
      → Option (RespParser × Result × Command)
      → Option (Drained execute)
  handle next rest consumed store out none = none
  handle next rest consumed store out (some (p', r, cmd')) =
      on_status r.status
        (next p' (drop r.consumed rest) (consumed + r.consumed) (execute cmd' store out).0
          (execute cmd' store out).1)
        (some (record {
          parser = p';
          consumed = consumed + r.consumed;
          store = store;
          output = append_error out (codes "ERR " ++ text r.error);
          closing = true;
        }))
        (some (record {
          parser = p';
          consumed = consumed + r.consumed;
          store = store;
          output = out;
          closing = false;
        }))

  pub drain-handle :
      (f : ℕ) (p : RespParser) (rest : Bytes) (consumed : ℕ) (store : Store) (out : Bytes)
      → drain execute (suc f) p rest consumed store out []
        ≡ handle
            (λ p' rest' c s o. drain execute f p' rest' c s o [])
            rest
            consumed
            store
            out
            (parse p rest [])
  unfolding drain
  drain-handle f p rest consumed store out = ground arith

  -- With more rounds than there are bytes, their number does not matter.
  pub drain_fuel :
      (f g : ℕ) (p : RespParser) (rest : Bytes) (consumed : ℕ) (store : Store) (out : Bytes)
      → length rest < f
      → length rest < g
      → drain execute f p rest consumed store out [] ≡ drain execute g p rest consumed store out []
  drain_fuel zero g p rest consumed store out small h = absurd (omega arith)
  drain_fuel (suc f) zero p rest consumed store out small h = absurd (omega arith)
  drain_fuel (suc f) (suc g) p rest consumed store out small h =
      drain-handle f p rest consumed store out
      ∙ agree
          (λ p' n s o shorter.
            drain_fuel f g p' (drop n rest) (consumed + n) s o (omega arith) (omega arith))
          (parse p rest []) refl
      ∙ sym (drain-handle g p rest consumed store out)
    where
      agree :
          ((p' : RespParser) (n : ℕ) (s : Store) (o : Bytes)
            → length (drop n rest) < length rest
            → drain execute f p' (drop n rest) (consumed + n) s o []
              ≡ drain execute g p' (drop n rest) (consumed + n) s o [])
          → (x : Option (RespParser × Result × Command)) → parse p rest [] ≡ x
          → handle (λ p' rest' c s o. drain execute f p' rest' c s o []) rest consumed store out x
            ≡ handle (λ p' rest' c s o. drain execute g p' rest' c s o []) rest consumed store out x
      agree rounds none e = refl
      agree rounds (some (p', r, cmd')) e = on_status_cong r.status _ _ _ _ (λ full.
          rounds p' r.consumed (execute cmd' store out).0 (execute cmd' store out).1
            (shorter p rest p' r cmd' e full))

  -- The loop with fuel enough, and one round of it.
  abbrev pub run_drain : RespParser → Bytes → ℕ → Store → Bytes → Option (Drained execute)
  run_drain p rest consumed store out =
      drain execute (suc (length rest)) p rest consumed store out []

  pub run_drain-handle :
      (p : RespParser) (rest : Bytes) (consumed : ℕ) (store : Store) (out : Bytes)
      → run_drain p rest consumed store out
        ≡ handle run_drain rest consumed store out (parse p rest [])
  run_drain-handle p rest consumed store out =
      drain-handle (length rest) p rest consumed store out ∙ agree (parse p rest []) refl
    where
      agree :
          (x : Option (RespParser × Result × Command))
          → parse p rest [] ≡ x
          → handle
              (λ p' rest' c s o. drain execute (length rest) p' rest' c s o [])
              rest
              consumed
              store
              out
              x
            ≡ handle run_drain rest consumed store out x
      agree none e = refl
      agree (some (p', r, cmd')) e = on_status_cong r.status _ _ _ _ (λ full.
          drain_fuel (length rest) (suc (length (drop r.consumed rest))) p' (drop r.consumed rest)
            (consumed + r.consumed) (execute cmd' store out).0 (execute cmd' store out).1
            (shorter p rest p' r cmd' e full) (omega arith))

  drain_some :
      (f : ℕ) (p : RespParser) (rest : Bytes) (consumed : ℕ) (store : Store) (out : Bytes)
      → length rest < f
      → drain execute f p rest consumed store out [] ≢ none
  drain_some zero p rest consumed store out small = absurd (omega arith)
  drain_some (suc f) p rest consumed store out small =
      rw (drain-handle f p rest consumed store out) (
        ends (λ p' n s o less. drain_some f p' (drop n rest) (consumed + n) s o (omega arith))
          (parse p rest []) refl)
    where
      ends :
          ((p' : RespParser) (n : ℕ) (s : Store) (o : Bytes)
            → length (drop n rest) < length rest
            → drain execute f p' (drop n rest) (consumed + n) s o [] ≢ none)
          → (x : Option (RespParser × Result × Command)) → parse p rest [] ≡ x
          → handle (λ p' rest' c s o. drain execute f p' rest' c s o []) rest consumed store out x
            ≢ none
      ends rounds none e = absurd (parse-ne-none p rest [] e)
      ends rounds (some (p', r, cmd')) e =
          by_status r.status
            (λ full.
              rounds p' r.consumed (execute cmd' store out).0 (execute cmd' store out).1
                (shorter p rest p' r cmd' e full))
            _ _
        where
          by_status :
              (s : Status) {full : Option (Drained execute)}
              → (s ≡ complete → full ≢ none)
              → (failure more : Drained execute)
              → on_status s full (some failure) (some more) ≢ none
          by_status complete h failure more = h refl
          by_status protocol_error h failure more = λ e. cc
          by_status need_more_data h failure more = λ e. cc

  either-ne-none :
      (b : Bool) (x y : Option (Connection × Store × Bool))
      → x ≢ none
      → y ≢ none
      → (if b then x else y) ≢ none
  either-ne-none true x y h k = h
  either-ne-none false x y h k = k

  settle-ne-none :
      (c : Connection) (input : Bytes) (d : Option (Drained execute))
      → d ≢ none
      → settle execute c input d ≢ none
  unfolding settle
  settle-ne-none c input none h = λ e. h refl
  settle-ne-none c input (some d) h = λ e. cc

  -- Every call of `on_bytes` returns, whatever the commands do.
  pub on_bytes-ne-none :
      (c : Connection) (bytes : Bytes) (store : Store) → on_bytes execute c bytes store ≢ none
  unfolding on_bytes
  on_bytes-ne-none c bytes store =
      let input = c.input ++ bytes in
      either-ne-none c.closing _ _ (λ e. cc)
        (either-ne-none (ltb c.max_read_buffer (add_u64 (length c.input) (length bytes))) _ _
          (λ e. cc)
          (settle-ne-none c input _
            (drain_some (suc (length input)) c.parser input 0 store c.output (omega arith))))
