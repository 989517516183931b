-- ===== src/Store/Calls.antt =====
-- src/store.h, the promise of `Store`: the calls that change it, next to the same calls on a plain
-- map from keys to values with stamps.
use cachedb.Prelude.{
  ℕ, ◌+◌, ◌^◌, ◌<◌, ◌≡◌, Bool, true, Option, none, some, List, [], ◌∷◌, if◌then◌else◌, length,
}
use cachedb.Prelude.Int.{ℤ, ◌≤ℤ◌, IsI64}
use cachedb.Prelude.Bytes.{Bytes, key_eq}
use cachedb.Prelude.SortedMap.{SortedMap, IsSorted}
use cachedb.Memtable.{Entry}
use cachedb.Memtable.Invariant.{IsValid}
use cachedb.Sstable.Block.{AllFit}
use cachedb.Sstable.Answers.{Holds}
use cachedb.Store.{TableFile, Store, Result, returned, threw}
use cachedb.Store.Layers.{Found, lookup}
use cachedb.Store.Flush.{FlushIo, flush}
use cachedb.Store.Write.{
  WriteIo, ExpireResult, DelResult, DelBatchResult, set, expire, del, del_many, sweep_expired,
}
use cachedb.Store.View.{live}
use cachedb.Store.Room.{Roomy}

pub data Call : Type 0 where
  set_key : WriteIo → Bytes → Bytes → ℤ → Call
  del_key : WriteIo → Bytes → Call
  del_keys : WriteIo → List Bytes → Call
  expire_key : WriteIo → Bytes → ℤ → Call
  sweep : ℕ → Call
  flush_now : FlushIo → Call

-- Whether the change was made. A call that threw had made it before the flush.
abbrev pub set_taken : Result Bool → Bool
set_taken (returned ok) = ok
set_taken threw = true

abbrev pub del_taken : Result DelResult → Bool
del_taken (returned r) = r.durable
del_taken threw = true

abbrev pub del_many_taken : Result DelBatchResult → Bool
del_many_taken (returned r) = r.durable
del_many_taken threw = true

abbrev pub expire_taken : Result ExpireResult → Bool
expire_taken (returned r) = r.durable
expire_taken threw = true

-- A call with the clock at `now`: the store behind it, and whether it was taken.
unfoldable pub step : ℤ → Call → Store → Store × Bool
step now (set_key io k v x) s = let (s', r) = set io s k v x in (s', set_taken r)
step now (del_key io k) s = let (s', r) = del io now s k in (s', del_taken r)
step now (del_keys io ks) s = let (s', r) = del_many io now s ks in (s', del_many_taken r)
step now (expire_key io k x) s = let (s', r) = expire io now s k x in (s', expire_taken r)
step now (sweep budget) s = ((sweep_expired now s budget).0, true)
step now (flush_now io) s = ((flush io s).0, true)

unfoldable pub run : List (ℤ × Call) → Store → Store × List Bool
run [] s = (s, [])
run ((now, c) ∷ calls) s =
    let (s', taken) = step now c s in let (end, answers) = run calls s' in (end, taken ∷ answers)

-- The map that a client has in mind.
abbrev pub Map : Type 0
Map = Bytes → Option Found

abbrev pub put : Map → Bytes → Option Found → Map
put f k o j = if key_eq k j then o else f j

abbrev pub put_all : Map → List Bytes → Map
put_all f [] = f
put_all f (k ∷ ks) = put_all (put f k none) ks

-- A new stamp for a value that is there.
abbrev pub restamp : Map → Bytes → ℤ → Option Found → Map
restamp f k x none = f
restamp f k x (some found) = put f k (some (record { value = found.value; expires_at_ms = x }))

abbrev pub meaning : ℤ → Call → Map → Map
meaning now (set_key io k v x) f = put f k (some (record { value = v; expires_at_ms = x }))
meaning now (del_key io k) f = put f k none
meaning now (del_keys io ks) f = put_all f ks
meaning now (expire_key io k x) f = restamp f k x (live now (f k))
meaning now (sweep budget) f = f
meaning now (flush_now io) f = f

-- The calls on the map, of which one that was not taken changes nothing.
unfoldable pub replay : List (ℤ × Call) → List Bool → Map → Map
replay [] answers f = f
replay ((now, c) ∷ calls) [] f = f
replay ((now, c) ∷ calls) (taken ∷ answers) f =
    replay calls answers (if taken then meaning now c f else f)

-- Every key reads as the map says, as far as it has not run out.
abbrev pub Refines : ℤ → Store → Map → Type 0
Refines now s f = (key : Bytes) → lookup now s key ≡ live now (f key)

-- The open tables are ones that the writer wrote.
abbrev pub AllHold : List TableFile → Type 0
AllHold [] = Unit
AllHold (t ∷ ts) = ((m : SortedMap Entry) × Holds m t.table × IsSorted m × AllFit m) × AllHold ts

pub record IsSound (n : ℕ) (s : Store) : Type 0 where
  pub valid : IsValid s.memtable
  pub room : Roomy n s.memtable.entries
  pub tables : AllHold s.sstables

abbrev pub AllShort : List Bytes → Type 0
AllShort [] = Unit
AllShort (k ∷ ks) = (length k < 2 ^ 32) × AllShort ks

-- Keys and values fit their length fields, and stamps are int64_t values.
abbrev pub CallFits : Call → Type 0
CallFits (set_key io k v x) = (length k < 2 ^ 32) × (length v < 2 ^ 32) × IsI64 x
CallFits (del_key io k) = length k < 2 ^ 32
CallFits (del_keys io ks) = AllShort ks
CallFits (expire_key io k x) = (length k < 2 ^ 32) × IsI64 x
CallFits (sweep budget) = Unit
CallFits (flush_now io) = Unit

-- How many entries a call may add.
abbrev pub weight : Call → ℕ
weight (set_key io k v x) = 1
weight (del_key io k) = 1
weight (del_keys io ks) = length ks
weight (expire_key io k x) = 1
weight (sweep budget) = 0
weight (flush_now io) = 0

abbrev pub total_weight : List (ℤ × Call) → ℕ
total_weight [] = 0
total_weight ((now, c) ∷ calls) = weight c + total_weight calls

-- The clock does not go back, and every call fits.
abbrev pub Rises : ℤ → List (ℤ × Call) → Type 0
Rises start [] = Unit
Rises start ((now, c) ∷ calls) = (start ≤ℤ now) × CallFits c × Rises now calls

abbrev pub last_time : ℤ → List (ℤ × Call) → ℤ
last_time start [] = start
last_time start ((now, c) ∷ calls) = last_time now calls
