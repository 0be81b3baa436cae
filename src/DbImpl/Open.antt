-- ===== src/DbImpl/Open.antt =====
-- DB::Open and DBImpl::Recover of leveldb/db/db_impl.cc. The body of Open returns before the code that
-- would open a database with its files; that code is `open_files`. A fresh DBImpl is a parameter: its
-- constructor sets `env_` only, and `new DBImpl()`, which Open calls, is not declared. Whether its
-- `mem_` is null is `mem_is_null`.
use leveldb_study.Base.{◌>>=◌, ℕ, Bool, false, ◌&&◌, Option, none, some, if◌then◌else◌, not}
use leveldb_study.Status.{Status, status_ok, Bytes}
use leveldb_study.Env.{Env, new_writer}
use leveldb_study.Filename.{log_file_name}
use leveldb_study.VersionEdit.{VersionEdit, new_edit, set_log_number, set_prev_log_number}
use leveldb_study.DbImpl.{External, State, new_file_number}

-- DBImpl::Recover: the edit and the flag stay as they are.
unfoldable pub recover : VersionEdit → Bool → Status × VersionEdit × Bool
recover edit save_manifest = (status_ok, edit, save_manifest)

module _ (e : External) where
  -- DB::Open as it runs.
  unfoldable pub db_open : State e → Status × Option (State e)
  db_open fresh = (status_ok, some fresh)

  module _ (env : Env) (is_ok : Status → Bool) (dbname : Bytes) where
    -- The state with the new log and its memtable.
    abbrev with_first_log : ℕ → Option ℕ → State e → State e
    with_first_log number file s = record s {
      logfile = file;
      logfile_number = number;
      log = new_writer file;
      mem = e.new_mem_table;
    }

    -- The new log file and the memtable for it.
    unfoldable pub open_log :
        VersionEdit → State e → env.World → Option (Status × VersionEdit × State e × env.World)
    unfolding new_file_number
    open_log edit s w = do
      let (number, versions) = new_file_number s.versions
      name ← log_file_name dbname number
      let (status, file, w1) = env.new_writable_file name w
      let s1 = record s { versions = versions }
      some (
          if is_ok status
          then (status, set_log_number number edit, with_first_log number file s1, w1)
          else (status, edit, s1, w1))

    -- The edit for the MANIFEST; the call that would write it is commented out.
    unfoldable pub log_edit : Bool → State e → VersionEdit → VersionEdit
    log_edit save_manifest s edit =
        if save_manifest then set_log_number s.logfile_number (set_prev_log_number 0 edit) else edit

    -- The status, the database if it is opened, and the edit at the end.
    abbrev pub Opening : Type 0
    Opening = Status × Option (State e) × VersionEdit × env.World

    -- The end: the assertion on `mem_`, and the database unless the status is not ok.
    unfoldable pub finish_open :
        (mem_is_null save_manifest : Bool)
        → Status
        → VersionEdit
        → State e
        → env.World
        → Option Opening
    unfolding log_edit
    finish_open mem_is_null save_manifest status edit s w =
        if is_ok status
        then (if mem_is_null then none else some (status, some s, log_edit save_manifest s edit, w))
        else some (status, none, edit, w)

    -- The code behind the return.
    unfoldable pub open_files : Bool → State e → env.World → Option Opening
    unfolding recover finish_open
    open_files mem_is_null fresh w = do
      let (status, edit, save_manifest) = recover new_edit false
      if is_ok status && mem_is_null
          then (do
            (status1, edit1, s1, w1) ← open_log edit fresh w
            finish_open (not (is_ok status1)) save_manifest status1 edit1 s1 w1)
          else finish_open mem_is_null save_manifest status edit fresh w
