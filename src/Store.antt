-- ===== src/Store.antt =====
-- src/store.h and src/store.cpp: the engine's front door. Layers is the layered lookup, Write the
-- writes and the sweep, Flush the flush and FLUSHALL, Names the file names of tables.
pub mod Names
pub mod Layers
pub mod Flush
pub mod Write
pub mod Flushed
pub mod View
pub mod Room
pub mod Calls
pub mod Effect
pub mod Refine
pub mod Crash
pub mod FlushAll
pub mod Recovery
pub mod Tiers
pub mod Compact
pub mod Start
use cachedb.Prelude.{
  ℕ, ◌*◌, Bool, true, false, Option, none, some, List, [], ◌∷◌, ◌++◌, if◌then◌else◌,
}
use cachedb.Prelude.Int.{ℤ, pos}
use cachedb.Prelude.Bytes.{Bytes, key_eq}
use cachedb.Prelude.Text.{codes}
use cachedb.Memtable.{Memtable, init}
use cachedb.Wal.Log.{Wal}
use cachedb.Sstable.{FileData}
use cachedb.Sstable.Reader.{Sstable}

pub record StoreOptions : Type 0 where
  pub dir : Bytes
  pub memtable_limit_bytes : ℕ
  pub bloom_bits_per_key : ℤ
  pub use_bloom : Bool
  pub use_compaction : Bool

-- The files of the directory by name. `files` is what the kernel lists. `durable` is what a loss of
-- power leaves: the names that the last successful fsync of the directory forced down, each with the
-- bytes that an fsync of its own file had forced down.
pub record Directory : Type 0 where
  pub files : List (Bytes × FileData)
  pub durable : List (Bytes × Bytes)

-- An open table and its path_.
pub record TableFile : Type 0 where
  pub path : Bytes
  pub table : Sstable

-- The fields of the class; the log is borrowed, and the directory is the file system's.
pub record Store : Type 0 where
  pub memtable : Memtable
  pub sstables : List TableFile
  pub options : StoreOptions
  pub next_sequence : ℕ
  pub swept_keys : ℕ
  pub compactions : ℕ
  pub flush_failed : Bool
  pub wal : Option Wal
  pub directory : Directory

-- `threw` is the exception of a constructor of the tables, which no method here catches.
pub data Result {ℓ} (A : Type ℓ) : Type ℓ where
  returned : A → Result A
  threw : Result A

-- explicit Store(Wal*), with the options' defaults.
unfoldable pub store_over : Option Wal → Directory → Store
store_over wal directory = record {
  memtable = init;
  sstables = [];
  options = record {
    dir = [];
    memtable_limit_bytes = 4 * 1024 * 1024;
    bloom_bits_per_key = pos 10;
    use_bloom = true;
    use_compaction = true;
  };
  next_sequence = 1;
  swept_keys = 0;
  compactions = 0;
  flush_failed = false;
  wal = wal;
  directory = directory;
}

unfoldable pub set_wal : Store → Option Wal → Store
set_wal s wal = record s { wal = wal }

abbrev pub has_no_dir : Store → Bool
has_no_dir s = key_eq s.options.dir []

-- unlink(2) on a listing
unfoldable pub remove_file : Bytes → List (Bytes × FileData) → List (Bytes × FileData)
remove_file name [] = []
remove_file name ((n, file) ∷ files) =
    let rest = remove_file name files in if key_eq n name then rest else (n, file) ∷ rest

-- A file under a name, in place of what the name had.
abbrev pub put_file : Bytes → FileData → List (Bytes × FileData) → List (Bytes × FileData)
put_file name file files = (name, file) ∷ remove_file name files

abbrev pub k_flush_temp : Bytes
k_flush_temp = codes "flush.tmp"

abbrev pub temp_path : Store → Bytes → Bytes
temp_path s name = s.options.dir ++ (codes "/" ++ name)
