-- ===== src/Wal.antt =====
-- src/wal.h and src/wal.cpp: the append-only log. `Crc` is its checksum, `Record` one record on
-- disk, `Replay` the recovery, `Kernel` the system calls and `Log` the open log.
pub mod Crc
pub mod Record
pub mod Replay
pub mod Kernel
pub mod Log
