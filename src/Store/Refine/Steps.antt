-- ===== src/Store/Refine/Steps.antt =====
-- The calls of `Store` of src/store.cpp, one by one and in sequence, next to the calls on a map.
use cachedb.Prelude.{
  ℕ, ◌+◌, ◌^◌, ◌≤◌, ◌<◌, ◌≡◌, refl, sym, ap, ◌∙◌, Bool, true, false, Option, none, some, List, [],
  ◌∷◌, arith, if◌then◌else◌, length,
}
use mathlib.Core.Path.{subst}
use cachedb.Prelude.Int.{ℤ, ◌≤ℤ◌, pos, IsI64}
use cachedb.Prelude.Bytes.{Bytes}
use cachedb.Memtable.{Memtable}
use cachedb.Memtable
use cachedb.Memtable.Invariant.{sweep_expired-IsValid}
use cachedb.Wal.Record.{k_set, k_delete}
use cachedb.Store.{Store, Result, returned, threw}
use cachedb.Store.Layers.{Found, lookup, get, is_some}
use cachedb.Store.Flush.{FlushIo, flush}
use cachedb.Store.Flushed.{flush-Kept}
use cachedb.Store.Write.{
  WriteIo, ExpireResult, log_record, then_flush, set, expire_answer, expire, del, log_batch,
  del_each, del_many, sweep_expired,
}
use cachedb.Store.View.{live, lookup-live}
use cachedb.Store.Room.{Roomy-IsTable, sweep_expired-Roomy}
use cachedb.Store.Calls.{
  Call, set_key, del_key, del_keys, expire_key, sweep, flush_now, set_taken, del_taken,
  del_many_taken, expire_taken, step, run, Map, put, put_all, restamp, meaning, replay, Refines,
  IsSound, AllShort, CallFits, weight, total_weight, Rises, last_time,
}
use cachedb.Store.Refine.{
  Done, Taken, IsSound-more, Same-Done, flushed-Done, then_flush-Taken, log_record-Same,
  log_batch-Same, set_memtable-Done, del_memtable-Done,
}
use cachedb.Store.Effect.{lookup-sweep, ValueFits, lookup-ValueFits}

-- A write that goes to the log first: `logged` is the store behind the log, `t` with the memtable
-- changed.
logged-Taken {ℓ} :
    {A : Type ℓ} (taken : Result A → Bool) (a b : A) (n k : ℕ) (now : ℤ) (g f : Map) (io : FlushIo)
    (logged t : Store) (ok : Bool)
    → taken (returned a) ≡ true
    → taken threw ≡ true
    → taken (returned b) ≡ false
    → n + k ≤ 2 ^ 27
    → Done n now f logged
    → Done (n + k) now g t
    → let (s', r) = if ok then then_flush io t a else (logged, returned b) in
      Taken (n + k) now g f s' (taken r)
logged-Taken taken a b n k now g f io logged t true p q r few d e =
    then_flush-Taken taken a (n + k) now g f io t p q few e
logged-Taken taken a b n k now g f io logged t false p q r few (h, d) e =
    subst (λ (c : Bool). Taken (n + k) now g f logged c) (sym r) (IsSound-more n k logged h, d)

module _ (n : ℕ) (now : ℤ) (f : Map) (s : Store) (d : Done n now f s) where
  pub set-Taken :
      (io : WriteIo) (k v : Bytes) (x : ℤ)
      → (length k < 2 ^ 32) × (length v < 2 ^ 32) × IsI64 x
      → n + 1 ≤ 2 ^ 27
      → let (s', r) = set io s k v x in
        Taken
          (n + 1)
          now
          (put f k (some (record { value = v; expires_at_ms = x })))
          f
          s'
          (set_taken r)
  unfolding set
  set-Taken io k v x fits few =
      let (logged, ok) = log_record io.log s k_set k v x in
      let same = log_record-Same io.log s k_set k v x in
      let t = record logged { memtable = Memtable.set s.memtable k v x } in
      logged-Taken set_taken true false n 1 now _ f io.flush_io logged t ok refl refl refl few
        (Same-Done n now f s logged same d) (set_memtable-Done n now f s t k v x refl same.1 fits d)

  pub del-Taken :
      (io : WriteIo) (k : Bytes)
      → length k < 2 ^ 32
      → n + 1 ≤ 2 ^ 27
      → let (s', r) = del io now s k in Taken (n + 1) now (put f k none) f s' (del_taken r)
  unfolding del
  del-Taken io k short few =
      let (logged, ok) = log_record io.log s k_delete k [] (pos 0) in
      let same = log_record-Same io.log s k_delete k [] (pos 0) in
      let t = record logged { memtable = (Memtable.del s.memtable k).0 } in
      logged-Taken del_taken _ _ n 1 now (put f k none) f io.flush_io logged t ok refl refl refl few
        (Same-Done n now f s logged same d) (del_memtable-Done n now f s t k refl same.1 short d)

  sweep-Done : (budget : ℕ) → Done n now f (sweep_expired now s budget).0
  unfolding sweep_expired
  sweep-Done budget = (
    record {
      valid = sweep_expired-IsValid s.memtable now budget d.0.valid;
      room = sweep_expired-Roomy n s.memtable now budget d.0.room;
      tables = d.0.tables;
    },
    λ j.
        lookup-sweep now now s (sweep_expired now s budget).0 budget j refl refl (omega arith)
        ∙ d.1 j,
  )

  flush-Done : (io : FlushIo) → n ≤ 2 ^ 27 → Done n now f (flush io s).0
  flush-Done io few =
      flushed-Done n now f s (flush io s)
        (flush-Kept io s (Roomy-IsTable n s.memtable d.0.valid d.0.room few)) d

-- A new stamp is a write of the value that the lookup found.
expire-Taken :
    (n : ℕ) (now : ℤ) (f : Map) (s : Store) (io : WriteIo) (k : Bytes) (x : ℤ)
    → Done n now f s
    → (length k < 2 ^ 32) × IsI64 x
    → n + 1 ≤ 2 ^ 27
    → let (s', r) = expire io now s k x in
      Taken (n + 1) now (restamp f k x (live now (f k))) f s' (expire_taken r)
unfolding expire
expire-Taken n now f s io k x d (short, range) few =
    by (lookup now s k) (d.1 k) (lookup-ValueFits now n s k d.0)
  where
    answered :
        (g : Map) (s' : Store) (r : Result Bool)
        → Taken (n + 1) now g f s' (set_taken r)
        → Taken (n + 1) now g f s' (expire_taken (expire_answer r))
    answered g s' (returned true) h = h
    answered g s' (returned false) h = h
    answered g s' threw h = h

    by :
        (o : Option Found)
        → o ≡ live now (f k)
        → ValueFits o
        → let r : Store × Result ExpireResult = elim o [
          | none ↦ (s, returned (record { durable = true; applied = false }))
          | some found ↦ let (s', r) = set io s k found.value x in (s', expire_answer r)
        ] in
          Taken (n + 1) now (restamp f k x (live now (f k))) f r.0 (expire_taken r.1)
    by none e fits =
        subst (λ o. Done (n + 1) now (restamp f k x o) s) e (IsSound-more n 1 s d.0, d.1)
    by (some found) e fits =
        subst
          (λ o.
            Taken (n + 1) now (restamp f k x o) f (set io s k found.value x).0
              (expire_taken (expire_answer (set io s k found.value x).1)))
          e
          (answered _ (set io s k found.value x).0 (set io s k found.value x).1
            (set-Taken n now f s d io k found.value x (short, fits, range) few))

-- The loop of `del_many`.
del_each-Done :
    (ks : List Bytes) (n : ℕ) (now : ℤ) (f : Map) (s : Store) (removed : ℕ)
    → AllShort ks
    → Done n now f s
    → Done (n + length ks) now (put_all f ks) (del_each now s ks removed).0
unfolding del_each
del_each-Done [] n now f s removed short d = (IsSound-more n 0 s d.0, d.1)
del_each-Done (k ∷ ks) n now f s removed (short, more) d =
    let removed' = if is_some (get now s k) then removed + 1 else removed in
    let t = record s { memtable = (Memtable.del s.memtable k).0 } in
    subst (λ m. Done m now (put_all (put f k none) ks) (del_each now t ks removed').0) (omega arith)
      (del_each-Done ks (n + 1) now (put f k none) t removed' more (
        del_memtable-Done n now f s (record s { memtable = (Memtable.del s.memtable k).0 }) k refl
          refl short d))

del_many-Taken :
    (n : ℕ) (now : ℤ) (f : Map) (s : Store) (io : WriteIo) (ks : List Bytes)
    → Done n now f s
    → AllShort ks
    → n + length ks ≤ 2 ^ 27
    → let (s', r) = del_many io now s ks in
      Taken (n + length ks) now (put_all f ks) f s' (del_many_taken r)
unfolding del_many
del_many-Taken n now f s io ks d short few =
    let (logged, ok) = log_batch io.log s ks in
    let same = log_batch-Same io.log s ks in
    let kept = Same-Done n now f s logged same d in
    let (deleted, removed) = del_each now logged ks 0 in
    logged-Taken del_many_taken _ _ n (length ks) now (put_all f ks) f io.flush_io logged deleted ok
      refl refl refl few kept (del_each-Done ks n now f logged 0 short kept)

-- One call with the clock at `now` leaves the store sound, and each key reads as the same call
-- leaves it on the map, or as before when the call was refused: whatever the kernel answers to the
-- log and to a flush that the call sets off, and whichever layer the key is in.
pub step-Refines :
    (n : ℕ) (now : ℤ) (c : Call) (f : Map) (s : Store)
    → IsSound n s
    → Refines now s f
    → CallFits c
    → n + weight c ≤ 2 ^ 27
    → let (s', taken) = step now c s in
      IsSound (n + weight c) s' × Refines now s' (if taken then meaning now c f else f)
unfolding step
step-Refines n now (set_key io k v x) f s h r fits few =
    set-Taken n now f s (h, r) io k v x fits few
step-Refines n now (del_key io k) f s h r fits few = del-Taken n now f s (h, r) io k fits few
step-Refines n now (del_keys io ks) f s h r fits few =
    del_many-Taken n now f s io ks (h, r) fits few
step-Refines n now (expire_key io k x) f s h r fits few =
    expire-Taken n now f s io k x (h, r) fits few
step-Refines n now (sweep budget) f s h r fits few =
    let (h', r') = sweep-Done n now f s (h, r) budget in (IsSound-more n 0 _ h', r')
step-Refines n now (flush_now io) f s h r fits few =
    let (h', r') = flush-Done n now f s (h, r) io (omega arith) in (IsSound-more n 0 _ h', r')

live-live :
    (now later : ℤ) (o : Option Found) → now ≤ℤ later → live later (live now o) ≡ live later o
live-live now later none order = refl
live-live now later (some f) order = ground arith

-- What reads as a map goes on to do so as time passes.
pub Refines-later :
    (now later : ℤ) (s : Store) (f : Map) → now ≤ℤ later → Refines now s f → Refines later s f
Refines-later now later s f order r key =
    lookup-live now later s key order ∙ ap (live later) (r key) ∙ live-live now later (f key) order

-- Any sequence of calls, while the clock does not go back, leaves the store sound, and at the end
-- each key reads as the same calls leave it on a plain map of values with stamps, of which the
-- calls that were refused change nothing. The kernel may fail the calls of the log and of the
-- flushes in any way. Keys and values are shorter than 2 ^ 32 bytes, and the calls add at most
-- 2 ^ 27 entries.
pub run-Refines :
    (calls : List (ℤ × Call)) (n : ℕ) (start : ℤ) (f : Map) (s : Store)
    → IsSound n s
    → Refines start s f
    → Rises start calls
    → n + total_weight calls ≤ 2 ^ 27
    → let (s', answers) = run calls s in
      IsSound (n + total_weight calls) s'
      × Refines (last_time start calls) s' (replay calls answers f)
unfolding run replay
run-Refines [] n start f s h r rises few = (IsSound-more n 0 s h, r)
run-Refines ((now, c) ∷ calls) n start f s h r (order, fits, rises) few =
    let (s', taken) = step now c s in
    let (h', r') =
      step-Refines n now c f s h (Refines-later start now s f order r) fits (omega arith) in
    let (h'', r'') =
      run-Refines calls (n + weight c) now (if taken then meaning now c f else f) s' h' r' rises
        (omega arith) in
    (subst (λ m. IsSound m (run calls s').0) (omega arith) h'', r'')
