-- ===== src/Wal/Log/Recovered.antt =====
-- One append, then a crash: what a replay of the log finds. src/wal.cpp, `Wal::append` with
-- `replay`.
use mathlib.Core.List.{foldl}
use cachedb.Prelude.{
  ℕ, ◌+◌, ◌-◌, ◌≤◌, ◌≡◌, refl, sym, ap, ◌∙◌, ◌⊎◌, inl, inr, Bool, true, false, Option, none, some,
  List, [], ◌∷◌, ◌++◌, map, min, arith, leb, if◌then◌else◌, length, take, append-nil, append_assoc,
  length-append, take-append_past, take-append_seam, take-take,
}
use cachedb.Prelude.Int.{ℤ}
use cachedb.Prelude.Bytes.{Bytes}
use cachedb.Wal.Record.{Op, Record}
use cachedb.Wal.Record.Layout.{record_bytes}
use cachedb.Wal.Record.RoundTrip.{IsEncodable, canonical, size, length-record_bytes}
use cachedb.Wal.Replay.{Outcome, returned, threw, stuck, replay}
use cachedb.Wal.Replay.Recovery.{log_bytes, AllEncodable, kept, io_of, replay-take}
use cachedb.Wal.Log.{Wal, Env, append}
use cachedb.Wal.Log.Append.{append-Wrote}

pub log_bytes-append : (xs ys : List Record) → log_bytes (xs ++ ys) ≡ log_bytes xs ++ log_bytes ys
unfolding log_bytes
log_bytes-append [] ys = refl
log_bytes-append (x ∷ xs) ys =
    ap (◌++◌ (record_bytes x)) (log_bytes-append xs ys)
    ∙ sym (append_assoc (record_bytes x) (log_bytes xs) (log_bytes ys))

log_bytes_one : (r : Record) → log_bytes (r ∷ []) ≡ record_bytes r
unfolding log_bytes
log_bytes_one r = append-nil (record_bytes r)

kept-append :
    (rs ys : List Record) (n k : ℕ)
    → length (log_bytes rs) + k ≡ n
    → kept n (rs ++ ys) ≡ rs ++ kept k ys
unfolding log_bytes
kept-append [] ys n k e = let e' : n ≡ k = omega arith in rw e'
kept-append (r ∷ rs) ys n k e =
    let lens = length-append (record_bytes r) (log_bytes rs) in
    let whole : leb (size r) n ≡ true = ground (arith, lens, length-record_bytes r) in
    rw (whole, kept, if◌then◌else◌)
      (ap (◌∷◌ r) (kept-append rs ys (n - size r) k (omega (arith, lens, length-record_bytes r))))

AllEncodable-append :
    (rs : List Record) (r : Record) → AllEncodable rs → IsEncodable r → AllEncodable (rs ++ r ∷ [])
AllEncodable-append [] r h k = (k, tt)
AllEncodable-append (x ∷ rs) r h k = (h.0, AllEncodable-append rs r h.1 k)

-- The state that a replay hands back when it returns.
abbrev pub state_of {ℓ} : {S : Type ℓ} → Outcome S → Option S
state_of (returned s result file) = some s
state_of (threw s) = none
state_of stuck = none

abbrev pub after {ℓ} : {S : Type ℓ} → (S → Record → S) → S → List Record → Option S
after apply s rs = some (foldl apply s (map canonical rs))

module _ {ℓ} {S : Type ℓ} (apply : S → Record → S) (s : S) (rs : List Record) (r : Record)
    (old : AllEncodable rs) (new : IsEncodable r) where
  -- `k` bytes of the record behind a clean log.
  replay_torn :
      (k : ℕ)
      → state_of (replay apply s (io_of (log_bytes rs ++ take k (record_bytes r))))
        ≡ (if leb (size r) k then after apply s (rs ++ r ∷ []) else after apply s rs)
  replay_torn k =
      let n = length (log_bytes rs) + k in
      let cut_here : log_bytes rs ++ take k (record_bytes r) ≡ take n (log_bytes (rs ++ r ∷ [])) =
        rw (log_bytes-append rs (r ∷ []), log_bytes_one r)
          (sym (
            take-append_past (length (log_bytes rs)) k n (log_bytes rs) (record_bytes r) refl
              refl)) in
      rw cut_here (
        ap state_of (replay-take apply s (rs ++ r ∷ []) n (AllEncodable-append rs r old new))
        ∙ ap (after apply s) (kept-append rs (r ∷ []) n k refl)
        ∙ choose (leb (size r) k))
    where
      choose :
          (b : Bool)
          → after apply s (rs ++ (if b then r ∷ [] else []))
            ≡ (if b then after apply s (rs ++ r ∷ []) else after apply s rs)
      choose true = refl
      choose false = ap (after apply s) (append-nil rs)

cut_prefix :
    (a file done left bytes : Bytes) (n : ℕ)
    → file ≡ a ++ done
    → bytes ≡ done ++ left
    → length a ≤ n
    → take n file ≡ a ++ take (min (n - length a) (length done)) bytes
cut_prefix a file done left bytes n e split past =
    ap (take n) e
    ∙ take-append_past (length a) (n - length a) n a done refl (omega arith)
    ∙ ap (λ d. a ++ take (n - length a) d)
        (sym (take-append_seam (length done) done left refl) ∙ ap (take (length done)) (sym split))
    ∙ ap (◌++◌ a) (take-take (n - length a) (length done) bytes)

reaches :
    (a file done left bytes : Bytes) (n m : ℕ)
    → file ≡ a ++ done
    → bytes ≡ done ++ left
    → left ≡ []
    → length bytes ≡ m
    → length file ≤ n
    → leb m (min (n - length a) (length done)) ≡ true
reaches a file done left bytes n m e split none_left sized reached = ground (
  arith,
  ap length e,
  ap length split,
  ap length none_left,
  length-append a done,
  length-append done left,
)

either {ℓ} :
    {A : Type ℓ} {x : A} (y z : A) (b : Bool) → x ≡ (if b then y else z) → (x ≡ z) ⊎ (x ≡ y)
either y z true e = inr e
either y z false e = inl e

chosen {ℓ} : {A : Type ℓ} {x : A} (y z : A) (b : Bool) → b ≡ true → x ≡ (if b then y else z) → x ≡ y
chosen y z true h e = e
chosen y z false h e = cc

-- Append a record to a log that holds `rs`, and let a crash leave any `n` bytes of the file that
-- reach past the old records. A replay gives the old records, or those and the new one; and if
-- `append` reported success and the crash took nothing, it gives the new one too.
pub append_then_crash {ℓ} :
    {S : Type ℓ} (apply : S → Record → S) (s : S) (rs : List Record) (env : Env) (w : Wal) (op : Op)
    (key value : Bytes) (expires_at_ms : ℤ) (n : ℕ)
    → let r : Record = record {
      op = op;
      timestamp_ms = env.now_ms;
      expires_at_ms = expires_at_ms;
      key = key;
      value = value;
    } in
      let (w', reported) = append env w op key value expires_at_ms in
      let found = state_of (replay apply s (io_of (take n w'.file))) in
      w.file ≡ log_bytes rs
      → AllEncodable rs
      → IsEncodable r
      → length w.file ≤ n
      → ((found ≡ after apply s rs) ⊎ (found ≡ after apply s (rs ++ r ∷ [])))
        × (reported ≡ true → length w'.file ≤ n → found ≡ after apply s (rs ++ r ∷ []))
append_then_crash apply s rs env w op key value x n clean old new past =
    let r : Record = record {
      op = op;
      timestamp_ms = env.now_ms;
      expires_at_ms = x;
      key = key;
      value = value;
    } in
    let t = append-Wrote env w op key value x in
    let k = min (n - length (log_bytes rs)) (length t.done) in
    let torn =
      ap (λ b. state_of (replay apply s (io_of b)))
        (cut_prefix (log_bytes rs) (append env w op key value x).0.file t.done t.left
          (record_bytes r) n (t.file ∙ ap (λ f. f ++ t.done) clean) t.split (rw clean at past))
      ∙ replay_torn apply s rs r old new k in
    (
      either (after apply s (rs ++ r ∷ [])) (after apply s rs) (leb (size r) k) torn,
      λ reported reached.
          chosen (after apply s (rs ++ r ∷ [])) (after apply s rs) (leb (size r) k)
            (reaches (log_bytes rs) (append env w op key value x).0.file t.done t.left
              (record_bytes r) n (size r) (t.file ∙ ap (λ f. f ++ t.done) clean) t.split
              (t.whole reported) (length-record_bytes r) reached)
            torn,
    )
