-- ===== src/Env.antt =====
-- leveldb/include/leveldb/env.h and leveldb/db/log_writer.h: what the database asks of its
-- environment. The implementations of these operations are not in the repository, or are stubs that
-- do nothing (leveldb/util/env_posix.cc, log::Writer::AddRecord), so they are an interface.
pub mod Posix
pub mod Stubs
pub mod RecordTypes
use leveldb_study.Base.{ℕ, ◌%◌, ◌≡◌, Bool, true, Option, none, some}
use leveldb_study.Status.{Status, Bytes}

-- log::Writer: its file, a `WritableFile*` that may be null, and the offset in the current block.
pub record Writer : Type 0 where
  pub dest : Option ℕ
  pub block_offset : ℕ

-- `Writer(dest)`.
abbrev pub new_writer : Option ℕ → Writer
new_writer dest = record { dest = dest; block_offset = 0 }

-- `kBlockSize` of leveldb/db/log_format.h, and `Writer(dest, dest_length)` for a file that is not
-- empty.
abbrev block_size : ℕ
block_size = 32768

abbrev writer_at : Option ℕ → ℕ → Writer
writer_at dest dest_length = record { dest = dest; block_offset = dest_length % block_size }

-- A file that is open is a number.
pub record Env : Type 1 where
  pub World : Type 0
  pub new_writable_file : Bytes → World → Status × Option ℕ × World
  pub rename_file : Bytes → Bytes → World → Status × World
  pub delete_file : Bytes → World → Status × World
  pub write_string_to_file_sync : Bytes → Bytes → World → Status × World
  pub sync : Option ℕ → World → Status × World
  pub close : Option ℕ → World → Status × World
  pub add_record : Writer → Bytes → World → Status × Writer × World

-- Documented behaviour of the operations on whole files, as far as SetCurrentFile relies on it.
pub record IsFileSystem (env : Env) (is_ok : Status → Bool) : Type 0 where
  pub read : env.World → Bytes → Option Bytes
  pub read-write_string :
      (text name : Bytes) (w : env.World)
      → is_ok (env.write_string_to_file_sync text name w).0 ≡ true
      → read (env.write_string_to_file_sync text name w).1 name ≡ some text
  pub read-rename :
      (from to : Bytes) (w : env.World)
      → is_ok (env.rename_file from to w).0 ≡ true
      → read (env.rename_file from to w).1 to ≡ read w from
  pub read-delete : (name : Bytes) (w : env.World) → read (env.delete_file name w).1 name ≡ none
