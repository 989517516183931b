-- ===== src/Commands/Meaning.antt =====
-- src/command.cpp: what SET, DEL, EXPIRE and INCR do to the keys, by the replies they give.
use cachedb.Prelude.{
  ℕ, ◌+◌, ◌^◌, ◌≤◌, ◌<◌, ◌≡◌, refl, sym, ap, ◌∙◌, ◌⊎◌, inl, inr, Bool, true, false, Option, none,
  some, List, ◌∷◌, arith, if◌then◌else◌, length,
}
use mathlib.Core.Path.{subst}
use mathlib.Core.Option.{some-injective, none-ne-some}
use cachedb.Prelude.Int.{ℤ, pos, negsuc, leb_ℤ, IsI64, wrap_i64-IsI64}
use cachedb.Prelude.Bytes.{Bytes}
use cachedb.Prelude.Chars.{to_chars, length-to_chars}
use cachedb.Prelude.Text.{codes}
use cachedb.Resp.{Command}
use cachedb.Resp.Reply.{append_simple_string, append_error, append_integer}
use cachedb.Store.{Store, Result, returned, threw}
use cachedb.Store.Layers.{Found, lookup}
use cachedb.Store.Write.{WriteIo, log_record, then_flush, set}
use cachedb.Store.Flush.{maybe_flush}
use cachedb.Wal.Record.{k_set}
use cachedb.Memtable
use cachedb.Store.View.{live}
use cachedb.Store.Calls.{Map, put, set_taken}
use cachedb.Store.Refine.{Done, IsSound-more}
use cachedb.Store.Refine.Steps.{set-Taken}
use cachedb.Commands.{k_max, parse_int64}
use cachedb.Commands.Deadline.{add_ℤ, add_i64}
use cachedb.Commands.Canonical.{IsSymmetric, parse_int64_iff}
use cachedb.Commands.Asked.{Asked, Decides, set_expiry-Decides, Asked-IsI64}
use cachedb.Commands.Keys.{
  CommandIo, Handled, arg, reply, k_not_logged, k_not_an_integer, k_incr_overflow, SetExpiry,
  refused, expires_at, set_expiry, set_reply, cmd_set, incr_value, cmd_incr,
}

-- The change `g` was made, and the client told `fine` (or an exception came after it was made); or
-- an error was replied for a reason `Why`, and the keys read as before.
abbrev pub Acts : Type 0 → ℕ → ℤ → Map → Map → Bytes → Bytes → Handled → Type 0
Acts Why n now f g out fine (s, r) =
    (((r ≡ returned fine) ⊎ (r ≡ threw)) × Done n now g s)
    ⊎ (((message : Bytes) × (r ≡ returned (append_error out message))) × Why × Done n now f s)

set_reply-Acts :
    (Why : Type 0) (n : ℕ) (now : ℤ) (f g : Map) (out fine : Bytes) (r : Store × Result Bool)
    → (r.1 ≡ returned false → Why)
    → Done n now (if set_taken r.1 then g else f) r.0
    → Acts Why n now f g out fine (set_reply out fine r)
set_reply-Acts Why n now f g out fine (s, returned true) why d = inl (inl refl, d)
set_reply-Acts Why n now f g out fine (s, returned false) why d =
    inr ((k_not_logged, refl), why refl, d)
set_reply-Acts Why n now f g out fine (s, threw) why d = inl (inr refl, d)

-- The log did not take the record.
abbrev pub LogRefuses : WriteIo → Store → Bytes → Bytes → ℤ → Type 0
LogRefuses io s k v x = (log_record io.log s k_set k v x).1 ≡ false

set_refused :
    (io : WriteIo) (s : Store) (k v : Bytes) (x : ℤ)
    → (set io s k v x).1 ≡ returned false
    → LogRefuses io s k v x
unfolding set
set_refused io s k v x h =
    by (log_record io.log s k_set k v x).1
      (record (log_record io.log s k_set k v x).0 { memtable = Memtable.set s.memtable k v x }) h
  where
    flushed :
        (r : Result Bool)
        → ◌≡◌ {A = Result Bool}
            (elim r [ returned _ ↦ returned true | threw ↦ threw ])
            (returned false)
        → true ≡ false
    flushed (returned b) h = cc
    flushed threw h = cc

    by :
        (ok : Bool) (t : Store)
        → (let r : Store × Result Bool =
              if ok
              then then_flush io.flush_io t true
              else ((log_record io.log s k_set k v x).0, returned false) in
            r.1)
          ≡ returned false
        → ok ≡ false
    by true t h = flushed (maybe_flush io.flush_io t).1 h
    by false t h = refl

-- What INCR counts from: a missing key is 0.
abbrev pub counter : Option Found → Option (ℤ × ℤ)
counter none = some (pos 0, pos 0)
counter (some found) = elim (parse_int64 found.value) [
  | none ↦ none
  | some value ↦ some (value, found.expires_at_ms)
]

-- The next number, when it is not past the largest, does not wrap.
next_exact :
    (value : ℤ)
    → IsI64 value
    → leb_ℤ (pos k_max) value ≡ false
    → add_i64 value (pos 1) ≡ add_ℤ value (pos 1)
next_exact (pos v) small below = wrap_i64-IsI64 (add_ℤ (pos v) (pos 1)) (ground arith)
next_exact (negsuc v) small below = wrap_i64-IsI64 (add_ℤ (negsuc v) (pos 1)) (ground arith)

in_range : (v : ℤ) → IsSymmetric v → IsI64 v
in_range (pos v) h = omega arith
in_range (negsuc v) h = omega arith

module _ (n : ℕ) (f : Map) (s : Store) (io : CommandIo) (c : Command) (out : Bytes) where
  -- The key with the next number, and the stamp it had.
  abbrev pub counted : ℤ → ℤ → Map
  counted value x =
      put f (arg c 1) (some (record { value = to_chars (add_ℤ value (pos 1)); expires_at_ms = x }))

  -- The number is the largest, or the log did not take the record.
  abbrev pub IncrFails : ℤ → ℤ → Type 0
  IncrFails value x =
      (leb_ℤ (pos k_max) value ≡ true)
      ⊎ LogRefuses io.write s (arg c 1) (to_chars (add_ℤ value (pos 1))) x

  -- The number is not the largest, or INCR answers an error and leaves the store alone.
  abbrev pub Overflows : ℤ → Handled → Type 0
  Overflows value r =
      (leb_ℤ (pos k_max) value ≡ false) ⊎ (r ≡ reply s (append_error out k_incr_overflow))

  incr_value-Acts :
      (value x : ℤ)
      → Done n io.now f s
      → IsI64 value
      → (length (arg c 1) < 2 ^ 32) × IsI64 x
      → n + 1 ≤ 2 ^ 27
      → Acts
          (IncrFails value x)
          (n + 1)
          io.now
          f
          (counted value x)
          out
          (append_integer out (add_ℤ value (pos 1)))
          (incr_value io c s out value x)
        × Overflows value (incr_value io c s out value x)
  incr_value-Acts value x d small (short, range) few = by (leb_ℤ (pos k_max) value) refl
    where
      by :
          (b : Bool)
          → leb_ℤ (pos k_max) value ≡ b
          → let r =
              if b
              then reply s (append_error out k_incr_overflow)
              else set_reply out
                  (append_integer out (add_i64 value (pos 1)))
                  (set io.write s (arg c 1) (to_chars (add_i64 value (pos 1))) x) in
            Acts
              (IncrFails value x)
              (n + 1)
              io.now
              f
              (counted value x)
              out
              (append_integer out (add_ℤ value (pos 1)))
              r
            × ((leb_ℤ (pos k_max) value ≡ false) ⊎ (r ≡ reply s (append_error out k_incr_overflow)))
      by true e = (inr ((k_incr_overflow, refl), inl e, (IsSound-more n 1 s d.0, d.1)), inr refl)
      by false e = (
        rw (next_exact value small e) (
            set_reply-Acts (IncrFails value x) (n + 1) io.now f (counted value x) out
              (append_integer out (add_ℤ value (pos 1)))
              (set io.write s (arg c 1) (to_chars (add_ℤ value (pos 1))) x)
              (λ h. inr (set_refused io.write s (arg c 1) (to_chars (add_ℤ value (pos 1))) x h))
              (set-Taken n io.now f s d io.write (arg c 1) (to_chars (add_ℤ value (pos 1))) x
                (short, omega (arith, length-to_chars (add_ℤ value (pos 1))), range) few)),
        inl e,
      )

  -- INCR on a key that reads as a number, or is missing, which counts as 0: either the key holds the
  -- decimal form of the next number with the stamp it had, every other key reads as before, and
  -- the next number is the reply (or an exception came from the flush behind the write); or the
  -- number was the largest int64_t or the log did not take the write, an error is replied, and
  -- every key reads as before. When the number is the largest int64_t, the overflow is the reply
  -- and the store is the same.
  pub cmd_incr-Acts :
      (value x : ℤ)
      → Done n io.now f s
      → counter (live io.now (f (arg c 1))) ≡ some (value, x)
      → (length (arg c 1) < 2 ^ 32) × IsI64 x
      → n + 1 ≤ 2 ^ 27
      → Acts
          (IncrFails value x)
          (n + 1)
          io.now
          f
          (counted value x)
          out
          (append_integer out (add_ℤ value (pos 1)))
          (cmd_incr io c s out)
        × Overflows value (cmd_incr io c s out)
  unfolding cmd_incr
  cmd_incr-Acts value x d starts fits few =
      by (lookup io.now s (arg c 1)) (ap counter (d.1 (arg c 1)) ∙ starts)
    where
      acts : Handled → Type 0
      acts r =
          Acts (IncrFails value x) (n + 1) io.now f (counted value x) out
            (append_integer out (add_ℤ value (pos 1))) r
          × Overflows value r

      same :
          (v y : ℤ) → IsI64 v → ◌≡◌ {A = ℤ × ℤ} (v, y) (value, x) → acts (incr_value io c s out v y)
      same v y small e =
          subst (λ (p : ℤ × ℤ). acts (incr_value io c s out p.0 p.1)) (sym e)
            (incr_value-Acts value x d (subst (λ (p : ℤ × ℤ). IsI64 p.0) e small) fits few)

      parsed :
          (y : ℤ) (text : Bytes) (o : Option ℤ)
          → parse_int64 text ≡ o
          → ◌≡◌ {A = Option (ℤ × ℤ)}
              (elim o [ none ↦ none | some v ↦ some (v, y) ])
              (some (value, x))
          → acts (elim o [
            | none ↦ reply s (append_error out k_not_an_integer)
            | some v ↦ incr_value io c s out v y
          ])
      parsed y text none number e = absurd (none-ne-some (value, x) e)
      parsed y text (some v) number e =
          same v y (in_range v ((parse_int64_iff text v).0 number).1)
            (some-injective (v, y) (value, x) e)

      by :
          (o : Option Found)
          → counter o ≡ some (value, x)
          → acts (elim o [
            | none ↦ incr_value io c s out (pos 0) (pos 0)
            | some found ↦ elim (parse_int64 found.value) [
              | none ↦ reply s (append_error out k_not_an_integer)
              | some v ↦ incr_value io c s out v found.expires_at_ms
            ]
          ])
      by none e = same (pos 0) (pos 0) (omega arith) (some-injective (pos 0, pos 0) (value, x) e)
      by (some found) e = parsed found.expires_at_ms found.value (parse_int64 found.value) refl e

module _ (n : ℕ) (f : Map) (s : Store) (io : CommandIo) (key value out : Bytes) where
  -- The key with the value and the stamp `x`, or the log refused it.
  abbrev pub SetTo : ℤ → Handled → Type 0
  SetTo x r =
      Acts (LogRefuses io.write s key value x) (n + 1) io.now f
        (put f key (some (record { value = value; expires_at_ms = x }))) out
        (append_simple_string out (codes "OK")) r

  set_reply-SetTo :
      (x : ℤ)
      → Done n io.now f s
      → (length key < 2 ^ 32) × (length value < 2 ^ 32) × IsI64 x
      → n + 1 ≤ 2 ^ 27
      → SetTo x (set_reply out (append_simple_string out (codes "OK")) (set io.write s key value x))
  set_reply-SetTo x d fits few =
      set_reply-Acts (LogRefuses io.write s key value x) (n + 1) io.now f
        (put f key (some (record { value = value; expires_at_ms = x }))) out
        (append_simple_string out (codes "OK")) (set io.write s key value x)
        (set_refused io.write s key value x)
        (set-Taken n io.now f s d io.write key value x fits few)

  -- SET with a key, a value and the words behind them, at the time `t`. Either the words ask for the
  -- stamp `x` (none at all for no stamp; EX with seconds or PX with milliseconds, in letters of any
  -- case, as a decimal of at least 1 whose deadline fits an int64_t): then the key holds the value
  -- with that stamp, every other key reads as before, and the reply is +OK (or an exception came
  -- from the flush behind the write), or the log did not take the write, an error is replied, and
  -- every key reads as before. Or the words ask for no stamp in this way: then an error is replied
  -- and the store is the same.
  pub cmd_set-Acts :
      (t : ℕ) (name : Bytes) (options : List Bytes)
      → Done n io.now f s
      → io.now ≡ pos t
      → t < 2 ^ 63
      → (length key < 2 ^ 32) × (length value < 2 ^ 32)
      → n + 1 ≤ 2 ^ 27
      → let r = cmd_set io (name ∷ key ∷ value ∷ options) s out in
        ((x : ℤ) × Asked t options x × SetTo x r)
        ⊎ ((¬ ((x : ℤ) × Asked t options x))
            × ((message : Bytes) × (r ≡ reply s (append_error out message))))
  unfolding cmd_set
  cmd_set-Acts t name options d clock small (short, fits) few =
      by (set_expiry io.now (name ∷ key ∷ value ∷ options)) (
        subst (λ now. Decides (Asked t options) (set_expiry now (name ∷ key ∷ value ∷ options)))
          (sym clock) (set_expiry-Decides t name key value options small))
    where
      by :
          (o : SetExpiry)
          → Decides (Asked t options) o
          → let r : Handled = elim o [
            | refused message ↦ reply s (append_error out message)
            | expires_at stamp ↦
                set_reply out
                  (append_simple_string out (codes "OK"))
                  (set io.write s key value stamp)
          ] in
            ((x : ℤ) × Asked t options x × SetTo x r)
            ⊎ ((¬ ((x : ℤ) × Asked t options x))
                × ((message : Bytes) × (r ≡ reply s (append_error out message))))
      by (expires_at x) asked =
          inl (x, asked, set_reply-SetTo x d (short, fits, Asked-IsI64 t options x asked) few)
      by (refused message) other = inr (other, (message, refl))
