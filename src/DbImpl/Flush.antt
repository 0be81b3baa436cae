-- ===== src/DbImpl/Flush.antt =====
-- DBImpl::WriteLevel0Table and DBImpl::CompactMemtable of leveldb/db/db_impl.cc. `none` is a failed
-- assertion or the use of a null pointer. `others` is what other threads do while the mutex is
-- released. The counts of references of memtables and the statistics are not kept.
pub mod Written
pub mod Loss
use leveldb_study.Base.{
  ◌>>=◌, ℕ, [], Bool, true, false, ◌&&◌, Option, none, some, List, if◌then◌else◌, ltb, put, erase,
}
use leveldb_study.Status.{Status, status_io_error, Bytes}
use leveldb_study.Env.{Env}
use leveldb_study.Filename.{codes}
use leveldb_study.VersionEdit.{
  InternalKey, FileMetaData, VersionEdit, new_edit, add_file, set_log_number, set_prev_log_number,
}
use leveldb_study.VersionSet.State.{Version, Versions, VersionSet}
use leveldb_study.VersionSet.LogAndApply.{log_and_apply}
use leveldb_study.TableBuilder.BuildTable.{TableFiles, Entries, build_table}
use leveldb_study.DbImpl.{DbState, External, State, new_file_number}

-- Members that are declared only: the iterator over a memtable, ExtractUserKey,
-- Version::PickLevelForMemtableOutput and RemoveObsoleteFiles.
pub record FlushExternal (e : External) (env : Env) : Type 1 where
  pub tables : TableFiles env
  pub new_iterator : e.MemTable → Entries
  pub extract_user_key : Bytes → Bytes
  pub pick_level : Version e.config.D → Bytes → Bytes → ℕ
  pub remove_obsolete_files : State e → env.World → State e × env.World

-- What other threads do to the version set, as a part of what they do to the database.
abbrev pub on_versions :
    (e : External) → (State e → State e) → State e → VersionSet e.config.D → VersionSet e.config.D
on_versions e others s vs = (others (record s { versions = vs })).versions

module _ (e : External) (env : Env) (f : FlushExternal e env) (is_ok : Status → Bool)
    (others : State e → State e) where
  -- The level for a new table, and the edit with the file, if there is one.
  unfoldable pub add_level0_file :
      Status → FileMetaData → Version e.config.D → VersionEdit → VersionEdit
  add_level0_file s meta base edit =
      let min_user_key = f.extract_user_key meta.smallest.rep in
      let max_user_key = f.extract_user_key meta.largest.rep in
      if is_ok s && ltb 0 meta.file_size
      then add_file (f.pick_level base min_user_key max_user_key) meta.number meta.file_size
          meta.smallest meta.largest edit
      else edit

  -- `base` is the address of a version. The new FileMetaData has empty keys.
  unfoldable pub write_level0_table :
      e.MemTable
      → VersionEdit
      → ℕ
      → State e
      → env.World
      → Option (Status × VersionEdit × State e × env.World)
  unfolding new_file_number add_level0_file
  write_level0_table mem edit base s w = do
    let (number, versions) = new_file_number s.versions
    let s1 = record s { versions = versions; pending_outputs = put number s.pending_outputs }
    let meta : FileMetaData = record {
      number = number;
      file_size = 0;
      smallest = record { rep = [] };
      largest = record { rep = [] };
    }
    (status, meta', w1) ← build_table env f.tables is_ok e.config.dbname (f.new_iterator mem) meta w
    let s2 = others s1
    let s3 = record s2 { pending_outputs = erase number s2.pending_outputs }
    some (status, add_level0_file status meta' (s3.versions.versions.object base) edit, s3, w1)

  -- `versions_->LogAndApply(edit, &mutex_)`.
  unfoldable pub apply_edit :
      VersionEdit → State e → env.World → Option (Status × State e × env.World)
  apply_edit edit s w = do
    (status, edit', vs, w') ←
        log_and_apply e.config env is_ok (on_versions e others s) edit s.versions w
    some (status, record (others s) { versions = vs }, w')

  -- The references to the base version around the write.
  unfoldable pub write_imm :
      e.MemTable → ℕ → State e → env.World → Option (Status × VersionEdit × State e × env.World)
  unfolding write_level0_table
  write_imm imm base s w = do
    let s1 = record s {
      versions = record s.versions { versions = e.config.ref base s.versions.versions };
    }
    (status, edit, s2, w1) ← write_level0_table imm new_edit base s1 w
    let s3 = record s2 {
      versions = record s2.versions { versions = e.config.unref base s2.versions.versions };
    }
    some (status, edit, s3, w1)

  -- The replacement of the memtable by the table, or the record of the error.
  unfoldable pub finish_flush : Status × State e × env.World → State e × env.World
  finish_flush (status, s, w) =
      if is_ok status
      then f.remove_obsolete_files (record s { imm = none; has_imm = false }) w
      else (e.record_background_error status s, w)

  abbrev pub shutdown_error : Status
  shutdown_error = status_io_error (codes "Delete DB during memtable compaction")

  -- The middle of CompactMemtable: the edit is applied if the table is written and no shutdown has
  -- begun.
  unfoldable pub install_table :
      Status → VersionEdit → State e → env.World → Option (Status × State e × env.World)
  unfolding apply_edit
  install_table status edit s w =
      let status' = if is_ok status && s.shutting_down then shutdown_error else status in
      if is_ok status'
      then apply_edit (set_log_number s.logfile_number (set_prev_log_number 0 edit)) s w
      else some (status', s, w)

  unfoldable pub compact_memtable : State e → env.World → Option (State e × env.World)
  unfolding write_imm install_table finish_flush
  compact_memtable s w = do
    imm ← s.imm
    base ← s.versions.current
    (status, edit, s1, w1) ← write_imm imm base s w
    r ← install_table status edit s1 w1
    some (finish_flush r)
