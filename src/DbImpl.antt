-- ===== src/DbImpl.antt =====
-- The write path of class DBImpl of leveldb/db/db_impl.cc, under the mutex: its state, and what it
-- takes from code that the repository declares at most (memtables, write batches, some members of
-- VersionSet, RecordBackgroundError, BuildBatchGroup).
pub mod Schedule
pub mod MakeRoom
pub mod Write
pub mod Flush
pub mod Background
pub mod Get
pub mod Put
pub mod Open
pub mod References
use leveldb_study.Base.{
  ℕ, ◌+◌, Bool, true, false, not, ◌&&◌, Option, none, some, List, is_some, if◌then◌else◌,
}
use leveldb_study.Status.{Status, status_ok, Bytes}
use leveldb_study.Env.{Writer}
use leveldb_study.VersionSet.State.{VersionSet, Config}

-- DBImpl::Writer. Its condition variable is the list of signals in `DbState`.
pub record Waiting (WriteBatch : Type 0) : Type 0 where
  pub batch : Option WriteBatch
  pub status : Status
  pub sync : Bool
  pub done : Bool

-- The fields that the write path uses, of a database whose `log_`, `mem_` and `versions_` are set: a
-- DBImpl where they are null, which is what DB::Open can return, has no such state, and each of its
-- operations that uses them has no outcome. A Writer is a number. `jobs` counts the calls of BGWork that
-- `env_->Schedule` holds, `signals` lists the writers that were signalled, latest first, and
-- `finish_signals` counts the calls of `background_work_finish_signal_.SignalAll`.
pub record DbState (D MemTable WriteBatch : Type 0) : Type 0 where
  pub mem : MemTable
  pub imm : Option MemTable
  pub has_imm : Bool
  pub logfile : Option ℕ
  pub logfile_number : ℕ
  pub log : Writer
  pub versions : VersionSet D
  pub pending_outputs : List ℕ
  pub writers : List ℕ
  pub writer : ℕ → Waiting WriteBatch
  pub tmp_batch : WriteBatch
  pub manual_compaction : Option ℕ
  pub background_compaction_scheduled : Bool
  pub shutting_down : Bool
  pub bg_error : Status
  pub jobs : ℕ
  pub signals : List ℕ
  pub finish_signals : ℕ

pub record External : Type 1 where
  pub config : Config
  pub MemTable : Type 0
  pub WriteBatch : Type 0
  pub new_mem_table : MemTable
  pub approximate_memory_usage : MemTable → ℕ
  pub insert_into : WriteBatch → MemTable → Status × MemTable
  pub set_sequence : ℕ → WriteBatch → WriteBatch
  pub count : WriteBatch → ℕ
  pub contents : WriteBatch → Bytes
  pub clear : WriteBatch → WriteBatch
  pub needs_compaction : VersionSet config.D → Bool
  pub num_level_files : ℕ → VersionSet config.D → ℕ
  pub get_prev_log_number : VersionSet config.D → ℕ
  pub get_last_sequence : VersionSet config.D → ℕ
  pub put_last_sequence : ℕ → VersionSet config.D → VersionSet config.D
  pub reuse_file_number : ℕ → VersionSet config.D → VersionSet config.D
  pub slowdown_writes_trigger : ℕ
  pub stop_writes_trigger : ℕ
  pub write_buffer_size : ℕ
  pub record_background_error :
      Status → DbState config.D MemTable WriteBatch → DbState config.D MemTable WriteBatch
  -- The batch, whether it is `tmp_batch_`, and what the callee leaves in the number it is given.
  pub build_batch_group : DbState config.D MemTable WriteBatch → ℕ → WriteBatch × Bool × ℕ

abbrev pub State : External → Type 0
State e = DbState e.config.D e.MemTable e.WriteBatch

-- `VersionSet::NewFileNumber`: the number, and the version set after it.
unfoldable pub new_file_number : {D : Type 0} → VersionSet D → ℕ × VersionSet D
new_file_number vs = (vs.next_file_number, record vs { next_file_number = vs.next_file_number + 1 })
