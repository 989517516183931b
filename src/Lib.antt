-- ===== src/Lib.antt =====
-- cachedb: a key-value server that speaks RESP, over a log-structured store with a write-ahead log.
--
-- The program's parts. A client's bytes go through a Connection to the RespParser; each Command
-- runs against the Store, which logs a write (Wal), applies it to the Memtable, and flushes the
-- Memtable into a sorted table on disk (Sstable, with a bloom filter) that compaction merges. At
-- start the log is replayed into the Memtable. The Server's event loop syncs the log once for each
-- iteration before it releases replies, sweeps expired entries and compacts.
--
-- Prelude: the shared names. Bytes (std::string and std::string_view as lists of bytes, with the
--   order of std::map), SortedMap (std::map as the sorted list of its nodes), Int (int64_t as
--   integers, with the casts to uint64_t), Chars (the decimal form of an int64_t), Text (string
--   literals as bytes), Words (size_t and uint64_t, which wrap), Endian (the
--   little-endian fields of src/wal.cpp and src/sstable.cpp), Bits (bounds and tables for ^ | &).
-- Memtable: src/memtable.h and src/memtable.cpp. `Memtable` has the fields of the class; find, set,
--   del, sweep_expired, for_each and clear are its methods. The state after a call is the
--   function's result. Child modules hold the proofs: Lookup, Invariant, Footprint, Expiry, Reach.
-- Wal: src/wal.h and src/wal.cpp. Crc is crc32; Record is encode_record and decode_record, with the
--   proofs in its children; Kernel is write_all and the loop round fsync; Log is `class Wal`;
--   Replay is replay. Appended, synced and truncated files are fields of the log: `file` is what
--   the kernel holds, `disk` what a successful fsync has forced down.
-- Bloom: src/bloom.h and src/bloom.cpp. `build` and `may_contain` with the loops over keys and
--   probes; the child modules are Probes (the bits of a block), Member and Shape.
-- Commands: src/command.cpp. `parse_int64` and `append_printable`, with the proofs in Canonical and
--   Echo; Deadline is the upper-casing of names and the deadlines; Keys the handlers that work on
--   keys, Status those of the server, Dispatch the table of commands and `execute`. Framing is about
--   the replies of a request, Asked about the options of SET, Meaning about what SET and INCR do to
--   the store.
-- Connection: src/connection.h and src/connection.cpp. `on_bytes` with its loop, `drain`, and the
--   queue of replies; what a command does is the parameter `execute`. Drain is about the end of the
--   loop, Pieces and Chunks about bytes that come in pieces, Output about the queue.
-- Resp: src/resp.h and src/resp.cpp. `RespParser`, `reset` and `parse` with one function for each
--   state of the machine, and in Reply the serialization of replies. Total, Advance, Shift, Chunks,
--   Body and Resume are about a call and the rounds of its loop, Request and RoundTrip about
--   requests that the serializer wrote, and LongLine about the length limit.
-- Sstable: src/sstable.h and src/sstable.cpp, `class SstableWriter`; in Open the constructor of
--   `class Sstable` with its checks and the index, and in Reader its lookup `get`. `write_all`, which
--   is the same in both files, is the one of Wal.Kernel. Growth is about a sequence of calls of
--   add, Finish about the file that finish leaves, Scan about lookups; Entry, Block, Index, Locate,
--   Answers, Reopen, ReadBack and RoundTrip about opening and reading a table that was written.
--   Cursor is the cursor of a merge, with Step, Window and Walk about what it shows.
-- Store: src/store.h and src/store.cpp, the engine. Names is the file names of tables, Layers the
--   layered lookup and the reads, Write the writes, the replay and the sweep, Flush the flush and
--   FLUSHALL. Flushed, View, Room, Calls, Effect and Refine show that a run of operations does what
--   the same operations do to a map; Crash, FlushAll and Recovery are about what is on disk.
--   Start is the constructor over a directory, Tiers the choice of tables to merge, and Compact
--   `maybe_compact`.
-- Compaction: src/compaction.h and src/compaction.cpp, over the cursor of Sstable.Cursor; Ends is
--   about the end of its loop.
-- Tests: concrete runs, and the theorems at concrete inputs.
--
-- What is outside the program is an argument. The clocks are arguments of each call. The kernel's
-- answers to write(2) and fsync(2) are a list, one for each call in order, in which a write may
-- take some of the bytes, be interrupted or fail; past the end of the list it grants everything.
-- A steady clock never goes back, so its difference is taken on the natural numbers. The fsync of a
-- file forces its bytes down and that of the directory its names, each apart; a loss of power leaves
-- a name with the bytes that were forced down of its file. Sums and products of int64_t that the
-- code guards wrap where they leave the range.
--
-- Fuel: the replay's loop has a round for each byte of the file and one more, and a record takes at
-- least 21 bytes. The parser's loop has two rounds for each byte and two more, the connection's loop
-- one for each byte and one more, and a lookup scans a block with one for each byte and one more. A
-- merge has one round for each byte of its inputs and one more, and the walk for tables to merge one
-- for each table and one more. Of two rounds in a row at least one takes a byte or a table away, so the fuel is
-- enough.
--
-- Not modelled: the event loop of src/server.cpp; src/main.cpp (options and start-up I/O),
-- src/fd.h (ownership of a descriptor), the errors of opening a log for appending, the tests and
-- scripts, and third_party/doctest.h, which is another project's.
pub mod Prelude
pub mod Bloom
pub mod Commands
pub mod Connection
pub mod Memtable
pub mod Resp
pub mod Wal
pub mod Sstable
pub mod Store
pub mod Compaction
pub mod Tests
