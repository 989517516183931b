-- ===== src/Tests/Table.antt =====
-- The memtable at concrete inputs.
use cachedb.Prelude.{◌*◌, ◌≤◌, ◌≡◌, refl, List, [], ◌∷◌, some, arith, length}
use cachedb.Prelude.Int.{pos}
use cachedb.Prelude.Bytes.{Bytes, cmp}
use cachedb.Prelude.SortedMap
use cachedb.Memtable.{Memtable, init, find, set, del, sweep_expired}
use cachedb.Memtable.Lookup.{written, find-set}
use cachedb.Memtable.Invariant.{IsValid, Change, sets, dels, changes, changes-IsValid}
use cachedb.Memtable.Expiry.{judge, judge-sweep_expired}
use cachedb.Memtable.Reach
use cachedb.Memtable.Reach.{AllClean, sweeps-AllClean}

abbrev key_a : Bytes
key_a = 0x61 ∷ []

abbrev key_b : Bytes
key_b = 0x62 ∷ []

abbrev history : List Change
history = sets key_b (1 ∷ 2 ∷ []) (pos 50) ∷ sets key_a (7 ∷ []) (pos 0) ∷ dels (0x63 ∷ []) ∷ []

abbrev table : Memtable
table = changes init history

table_order : SortedMap.find key_b table.entries ≡ some (written (1 ∷ 2 ∷ []) (pos 50))
unfolding changes set del find SortedMap.find SortedMap.emplace SortedMap.assign cmp
table_order = refl

find-set_example : find (set table key_b (9 ∷ []) (pos 0)) key_a ≡ find table key_a
unfolding cmp
find-set_example = find-set table key_b key_a (9 ∷ []) (pos 0)

changes-IsValid_example : IsValid table
changes-IsValid_example = changes-IsValid history

judge-sweep_expired_example :
    judge (pos 70) (find (sweep_expired table (pos 60) 10).0 key_b)
    ≡ judge (pos 70) (find table key_b)
judge-sweep_expired_example = judge-sweep_expired table (pos 60) (pos 70) 10 key_b (omega arith)

table_start : table.sweep_cursor ≡ []
unfolding changes set del find SortedMap.find SortedMap.emplace SortedMap.assign cmp
table_start = refl

table_length : length table.entries ≤ 3 * 1
unfolding changes set del find SortedMap.find SortedMap.emplace SortedMap.assign cmp
table_length = omega arith

sweeps-AllClean_example : AllClean (pos 60) (Reach.sweeps 3 table (pos 60) 1).entries
sweeps-AllClean_example =
    sweeps-AllClean 3 table (pos 60) 1 (changes-IsValid history) table_start table_length
