-- ===== src/Wal/Replay/Recovery.antt =====
-- What a replay recovers from a log that a crash cut short anywhere.
use mathlib.Core.List.{foldl}
use native.Mathlib.Nat.{zero-add}
use cachedb.Prelude.{
  ℕ, zero, suc, ◌+◌, ◌-◌, ◌<◌, ◌≤◌, ◌≡◌, refl, sym, ap, ◌∙◌, inl, inr, true, some, List, [], ◌∷◌,
  ◌++◌, map, arith, ltb, leb, if◌then◌else◌, length, take, drop, length-append, append_assoc,
  append-nil, take-append_le, take-append_past, take-append_seam, drop-append_seam, Bool-cases,
}
use cachedb.Prelude.Bytes.{Bytes}
use cachedb.Wal.Record.{Record, incomplete, failed, decode_record}
use cachedb.Wal.Record.Layout.{record_bytes}
use cachedb.Wal.Record.RoundTrip.{
  IsEncodable, canonical, size, length-record_bytes, decode_record-record_bytes,
}
use cachedb.Wal.Record.Safety.{decode_record-take}
use cachedb.Wal.Replay.{ReplayIo, opened, Outcome, returned, replay_loop, finish, replay}

-- A log that was appended to record by record.
unfoldable pub log_bytes : List Record → Bytes
log_bytes [] = []
log_bytes (r ∷ rs) = record_bytes r ++ log_bytes rs

abbrev pub AllEncodable : List Record → Type 0
AllEncodable [] = Unit
AllEncodable (r ∷ rs) = IsEncodable r × AllEncodable rs

-- The records that lie whole in the first `n` bytes of the log, and the bytes behind them.
abbrev pub kept : ℕ → List Record → List Record
kept n [] = []
kept n (r ∷ rs) = let rest = kept (n - size r) rs in if leb (size r) n then r ∷ rest else []

abbrev cut : ℕ → List Record → Bytes
cut n [] = []
cut n (r ∷ rs) =
    let rest = cut (n - size r) rs in if leb (size r) n then rest else take n (record_bytes r)

take-nil : (n : ℕ) → ◌≡◌ {A = Bytes} (take n []) []
take-nil zero = refl
take-nil (suc n) = refl

take-log_bytes :
    (n : ℕ) (rs : List Record) → take n (log_bytes rs) ≡ log_bytes (kept n rs) ++ cut n rs
unfolding log_bytes
take-log_bytes n [] = take-nil n
take-log_bytes n (r ∷ rs) = elim (Bool-cases (leb (size r) n)) [
  | inl e ↦
      rw (e, kept, cut, if◌then◌else◌)
        (take-append_past (size r) (n - size r) n (record_bytes r) (log_bytes rs)
            (length-record_bytes r) (ground arith)
          ∙ ap (◌++◌ (record_bytes r)) (take-log_bytes (n - size r) rs)
          ∙ sym (
              append_assoc (record_bytes r) (log_bytes (kept (n - size r) rs))
                (cut (n - size r) rs)))
  | inr e ↦
      rw (e, kept, cut, if◌then◌else◌)
        (take-append_le n (record_bytes r) (log_bytes rs) (ground (arith, length-record_bytes r)))
]

decode_record-nil : decode_record [] ≡ failed incomplete
unfolding decode_record
decode_record-nil = refl

decode_record-cut :
    (n : ℕ) (rs : List Record) → AllEncodable rs → decode_record (cut n rs) ≡ failed incomplete
decode_record-cut n [] h = decode_record-nil
decode_record-cut n (r ∷ rs) h = elim (Bool-cases (leb (size r) n)) [
  | inl e ↦ rw (e, cut, if◌then◌else◌) (decode_record-cut (n - size r) rs h.1)
  | inr e ↦ rw (e, cut, if◌then◌else◌) (decode_record-take r h.0 n (ground arith))
]

pub kept-AllEncodable : (n : ℕ) (rs : List Record) → AllEncodable rs → AllEncodable (kept n rs)
kept-AllEncodable n [] h = tt
kept-AllEncodable n (r ∷ rs) h = ground (arith, kept-AllEncodable (n - size r) rs h.1)

length-log_bytes-ge : (rs : List Record) → length rs ≤ length (log_bytes rs)
unfolding log_bytes
length-log_bytes-ge [] = omega arith
length-log_bytes-ge (r ∷ rs) = omega (
  arith,
  length-append (record_bytes r) (log_bytes rs),
  length-record_bytes r,
  length-log_bytes-ge rs,
)

module _ {ℓ} {S : Type ℓ} (apply : S → Record → S) where
  -- One round at a whole record.
  replay_loop-record :
      (fuel : ℕ) (s : S) (input rest : Bytes) (offset n : ℕ) (r : Record)
      → IsEncodable r
      → drop offset input ≡ record_bytes r ++ rest
      → replay_loop apply (suc fuel) s input offset n
        ≡ replay_loop apply fuel (apply s (canonical r)) input (offset + size r) (n + 1)
  unfolding replay_loop
  replay_loop-record fuel s input rest offset n r h e =
      let read = ap decode_record e ∙ decode_record-record_bytes r rest h in
      rw (replay_loop, read, read)

  replay_loop-end :
      (fuel : ℕ) (s : S) (input : Bytes) (offset n : ℕ)
      → decode_record (drop offset input) ≡ failed incomplete
      → replay_loop apply (suc fuel) s input offset n ≡ some (s, n, offset)
  unfolding replay_loop
  replay_loop-end fuel s input offset n e = rw (e, replay_loop)

  replay_loop-log_bytes :
      (rs : List Record) (fuel : ℕ) (s : S) (before tail : Bytes) (n : ℕ)
      → AllEncodable rs
      → decode_record tail ≡ failed incomplete
      → length rs < fuel
      → replay_loop apply fuel s (before ++ (log_bytes rs ++ tail)) (length before) n
        ≡ some
            (foldl apply s (map canonical rs), n + length rs, length before + length (log_bytes rs))
  unfolding log_bytes
  replay_loop-log_bytes rs zero s before tail n h e enough = absurd (omega arith)
  replay_loop-log_bytes [] (suc fuel) s before tail n h e enough =
      replay_loop-end fuel s (before ++ tail) (length before) n
        (rw (drop-append_seam (length before) before tail refl) e)
      ∙ ground arith
  replay_loop-log_bytes (r ∷ rs) (suc fuel) s before tail n h e enough =
      replay_loop-record fuel s (before ++ ((record_bytes r ++ log_bytes rs) ++ tail))
        (log_bytes rs ++ tail) (length before) n r h.0
        (drop-append_seam (length before) before ((record_bytes r ++ log_bytes rs) ++ tail) refl
          ∙ append_assoc (record_bytes r) (log_bytes rs) tail)
      ∙ moved
      ∙ replay_loop-log_bytes rs fuel (apply s (canonical r)) (before ++ record_bytes r) tail
          (n + 1) h.1 e (omega arith)
      ∙ ground (
        arith,
        length-append before (record_bytes r),
        length-append (record_bytes r) (log_bytes rs),
      )
    where
      moved :
          replay_loop apply fuel
            (apply s (canonical r))
            (before ++ ((record_bytes r ++ log_bytes rs) ++ tail))
            (length before + size r)
            (n + 1)
          ≡ replay_loop apply fuel
              (apply s (canonical r))
              ((before ++ record_bytes r) ++ (log_bytes rs ++ tail))
              (length (before ++ record_bytes r))
              (n + 1)
      moved = rw (
        append_assoc (record_bytes r) (log_bytes rs) tail,
        append_assoc before (record_bytes r) (log_bytes rs ++ tail),
        length-append before (record_bytes r),
        length-record_bytes r,
      )

-- What a replay that went through leaves: the state, the result and the file.
abbrev pub recovered {ℓ} : {S : Type ℓ} → (S → Record → S) → S → List Record → ℕ → Outcome S
recovered apply s rs n =
    let whole = kept n rs in
    returned (foldl apply s (map canonical whole))
      (record {
        records = length whole;
        good_bytes = length (log_bytes whole);
        truncated = ltb (length (log_bytes whole)) (length (take n (log_bytes rs)));
      })
      (some (log_bytes whole))

abbrev pub io_of : Bytes → ReplayIo
io_of contents = record {
  open_result = opened contents;
  read_succeeds = true;
  truncate_succeeds = true;
}

module _ {ℓ} {S : Type ℓ} (apply : S → Record → S) where
  finish-prefix :
      (whole tail : Bytes) (s : S) (n : ℕ)
      → finish apply (whole ++ tail) true (some (s, n, length whole))
        ≡ returned s
            (record {
              records = n;
              good_bytes = length whole;
              truncated = ltb (length whole) (length (whole ++ tail));
            })
            (some whole)
  unfolding finish
  finish-prefix whole [] s n = ground (arith, append-nil whole)
  finish-prefix whole (b ∷ tail) s n =
      ground (
        arith,
        length-append whole (b ∷ tail),
        take-append_seam (length whole) whole (b ∷ tail) refl,
      )

  -- A clean log and then bytes that are no record.
  pub replay-tail :
      (s : S) (rs : List Record) (tail : Bytes)
      → AllEncodable rs
      → decode_record tail ≡ failed incomplete
      → replay apply s (io_of (log_bytes rs ++ tail))
        ≡ returned
            (foldl apply s (map canonical rs))
            (record {
              records = length rs;
              good_bytes = length (log_bytes rs);
              truncated = ltb (length (log_bytes rs)) (length (log_bytes rs ++ tail));
            })
            (some (log_bytes rs))
  unfolding replay
  replay-tail s rs tail h e =
      ap (finish apply (log_bytes rs ++ tail) true) (
        replay_loop-log_bytes apply rs (suc (length (log_bytes rs ++ tail))) s [] tail 0 h e
          (omega (arith, length-append (log_bytes rs) tail, length-log_bytes-ge rs)))
      ∙ rw (zero-add (length rs), zero-add (length (log_bytes rs)))
          (finish-prefix (log_bytes rs) tail (foldl apply s (map canonical rs)) (length rs))

  -- Cut the log after any number of bytes. The replay applies exactly the records that lie whole
  -- in what is left, in order, counts them, and leaves a file that holds those records and
  -- nothing else; it says that it truncated exactly when bytes were dropped.
  pub replay-take :
      (s : S) (rs : List Record) (n : ℕ)
      → AllEncodable rs
      → replay apply s (io_of (take n (log_bytes rs))) ≡ recovered apply s rs n
  replay-take s rs n h =
      rw (take-log_bytes n rs)
        (replay-tail s (kept n rs) (cut n rs) (kept-AllEncodable n rs h) (decode_record-cut n rs h))
