-- ===== src/Store/Refine.antt =====
-- The refinement of a plain map by `Store` of src/store.cpp: what each change of the memtable, and
-- each flush, does to it. Steps has the calls and their sequences.
pub mod Steps
use cachedb.Prelude.{
  ℕ, zero, suc, ◌+◌, ◌^◌, ◌≤◌, ◌<◌, ◌≡◌, refl, sym, ap, ◌∙◌, inl, inr, Bool, true, false, Option,
  none, some, Option-cases, List, [], ◌∷◌, map, arith, if◌then◌else◌, length,
}
use mathlib.Core.Path.{subst}
use cachedb.Prelude.Int.{ℤ, ◌≤ℤ◌, pos, IsI64}
use cachedb.Prelude.Bytes.{Bytes, key_eq}
use cachedb.Memtable.{Memtable}
use cachedb.Memtable
use cachedb.Memtable.Invariant.{IsValid, set-IsValid, del-IsValid, sweep_expired-IsValid}
use cachedb.Wal.Record.{Op, k_set, k_delete}
use cachedb.Wal.Log.{Env}
use cachedb.Wal.Log
use cachedb.Store.{Store, Result, returned, threw}
use cachedb.Store.Layers.{Found, lookup, get, is_some}
use cachedb.Store.Flush.{FlushIo, flush, maybe_flush}
use cachedb.Store.Flushed.{Kept, Keeps, flush-Kept, maybe_flush-Kept}
use cachedb.Store.Write.{
  WriteIo, ExpireResult, log_record, then_flush, set, expire_answer, expire, DelResult, del,
  deletion, log_batch, del_each, DelBatchResult, del_many, sweep_expired,
}
use cachedb.Store.View.{lookup-Kept, live, lookup-live}
use cachedb.Store.Room.{Roomy, Roomy-IsTable, set-Roomy, del-Roomy, sweep_expired-Roomy}
use cachedb.Store.Calls.{
  Call, set_key, del_key, del_keys, expire_key, sweep, flush_now, set_taken, del_taken,
  del_many_taken, expire_taken, step, run, Map, put, put_all, restamp, meaning, replay, Refines,
  AllHold, IsSound, AllShort, CallFits, weight, total_weight, Rises, last_time,
}
use cachedb.Store.Effect.{
  lookup-set, lookup-del, lookup-sweep, ValueFits, lookup-ValueFits, Kept-IsSound,
}

-- A call that left the store at `s'` and reads as the map `g`.
abbrev pub Done : ℕ → ℤ → Map → Store → Type 0
Done n now g s' = IsSound n s' × Refines now s' g

-- The same by whether it was taken.
abbrev Taken : ℕ → ℤ → Map → Map → Store → Bool → Type 0
Taken n now g f s' taken = Done n now (if taken then g else f) s'

pub IsSound-more : (n k : ℕ) (s : Store) → IsSound n s → IsSound (n + k) s
IsSound-more n k s h = record {
  valid = h.valid;
  room = record {
    fits = h.room.fits;
    few = omega (arith, h.room.few);
    small = omega (arith, h.room.small);
  };
  tables = h.tables;
}

-- Other fields make no difference.
abbrev Same : Store → Store → Type 0
Same s t = (t.memtable ≡ s.memtable) × (t.sstables ≡ s.sstables)

Same-Done : (n : ℕ) (now : ℤ) (f : Map) (s t : Store) → Same s t → Done n now f s → Done n now f t
Same-Done n now f s t same (h, r) = (
  Kept-IsSound n s t h (inl same),
  λ j. lookup-Kept now s t j h.valid.sorted h.room.fits (inl same) ∙ r j,
)

flushed-Done :
    (n : ℕ) (now : ℤ) (f : Map) (s : Store) (r : Store × Result Bool)
    → Keeps s r
    → Done n now f s
    → Done n now f r.0
flushed-Done n now f s (s', x) kept (h, r) =
    (Kept-IsSound n s s' h kept, λ j. lookup-Kept now s s' j h.valid.sorted h.room.fits kept ∙ r j)

then_flush-Taken {ℓ} :
    {A : Type ℓ} (taken : Result A → Bool) (a : A) (n : ℕ) (now : ℤ) (g f : Map) (io : FlushIo)
    (t : Store)
    → taken (returned a) ≡ true
    → taken threw ≡ true
    → n ≤ 2 ^ 27
    → Done n now g t
    → let (s', r) = then_flush io t a in Taken n now g f s' (taken r)
then_flush-Taken {A} taken a n now g f io t yes_returned yes_threw few (h, r) =
    by (maybe_flush io t).1 (
      flushed-Done n now g t (maybe_flush io t)
        (maybe_flush-Kept io t (Roomy-IsTable n t.memtable h.valid h.room few)) (h, r))
  where
    by :
        (x : Result Bool)
        → Done n now g (maybe_flush io t).0
        → Taken n now g f
            (maybe_flush io t).0
            (taken (elim x [ returned _ ↦ returned a | threw ↦ threw ]))
    by (returned b) d =
        subst (λ (c : Bool). Taken n now g f (maybe_flush io t).0 c) (sym yes_returned) d
    by threw d = subst (λ (c : Bool). Taken n now g f (maybe_flush io t).0 c) (sym yes_threw) d

log_record-Same :
    (env : Env) (s : Store) (op : Op) (k v : Bytes) (x : ℤ) → Same s (log_record env s op k v x).0
unfolding log_record
log_record-Same env s op k v x = elim (Option-cases s.wal) [
  | inl e ↦ rw (e, log_record) (refl, refl)
  | inr (w, e) ↦ rw (e, log_record) (refl, refl)
]

log_batch-Same : (env : Env) (s : Store) (ks : List Bytes) → Same s (log_batch env s ks).0
unfolding log_batch
log_batch-Same env s ks = elim (Option-cases s.wal) [
  | inl e ↦ rw (e, log_batch) (refl, refl)
  | inr (w, e) ↦ rw (e, log_batch) (refl, refl)
]

-- The memtable of `t` is that of `s` with the key set.
pub set_memtable-Done :
    (n : ℕ) (now : ℤ) (f : Map) (s t : Store) (k v : Bytes) (x : ℤ)
    → t.memtable ≡ Memtable.set s.memtable k v x
    → t.sstables ≡ s.sstables
    → (length k < 2 ^ 32) × (length v < 2 ^ 32) × IsI64 x
    → Done n now f s
    → Done (n + 1) now (put f k (some (record { value = v; expires_at_ms = x }))) t
set_memtable-Done n now f s t k v x m ts (short, small, range) (h, r) = (
  record {
    valid = subst IsValid (sym m) (set-IsValid s.memtable k v x h.valid);
    room =
        subst (λ t. Roomy (n + 1) t.entries) (sym m)
          (subst (λ c. Roomy c (Memtable.set s.memtable k v x).entries) (omega arith)
            (set-Roomy n s.memtable k v x short small range h.room));
    tables = subst AllHold (sym ts) h.tables;
  },
  λ j. lookup-set now s t k ts v x j m ∙ by (key_eq k j) (lookup now s j) (f j) (r j),
)
  where
    by :
        (b : Bool) (o p : Option Found)
        → o ≡ live now p
        → (if b then live now (some (record { value = v; expires_at_ms = x })) else o)
          ≡ live now (if b then some (record { value = v; expires_at_ms = x }) else p)
    by true o p e = refl
    by false o p e = e

pub del_memtable-Done :
    (n : ℕ) (now : ℤ) (f : Map) (s t : Store) (k : Bytes)
    → t.memtable ≡ (Memtable.del s.memtable k).0
    → t.sstables ≡ s.sstables
    → length k < 2 ^ 32
    → Done n now f s
    → Done (n + 1) now (put f k none) t
del_memtable-Done n now f s t k m ts short (h, r) = (
  record {
    valid = subst IsValid (sym m) (del-IsValid s.memtable k h.valid);
    room =
        subst (λ t. Roomy (n + 1) t.entries) (sym m)
          (subst (λ c. Roomy c (Memtable.del s.memtable k).0.entries) (omega arith)
            (del-Roomy n s.memtable k short h.room));
    tables = subst AllHold (sym ts) h.tables;
  },
  λ j. lookup-del now s t k ts j m ∙ by (key_eq k j) (lookup now s j) (f j) (r j),
)
  where
    by :
        (b : Bool) (o p : Option Found)
        → o ≡ live now p
        → (if b then none else o) ≡ live now (if b then none else p)
    by true o p e = refl
    by false o p e = e
