-- ===== src/DbImpl/Write/Synced.antt =====
-- WriteOptions::sync in DBImpl::Write of leveldb/db/db_impl.cc with the files of
-- leveldb/util/env_posix.cc.
use leveldb_study.Base.{ℕ, ◌≡◌, refl, Bool, true, false, some}
use leveldb_study.Status.{Status, status_ok}
use leveldb_study.Env.{Env}
use leveldb_study.Env.Posix.{PosixWritableFile}
use leveldb_study.Env.Stubs.{with_posix_files}
use leveldb_study.DbImpl.{External, State}
use leveldb_study.DbImpl.Write.{log_and_insert, write_group}

module _ (e : External) (base : Env) (object : ℕ → PosixWritableFile) (is_ok : Status → Bool)
    (others : State e → State e) where
  abbrev env : Env
  env = with_posix_files base object

  log_and_insert-unsynced :
      (b : e.WriteBatch) (s : State e) (w : env.World) (file : ℕ)
      → s.logfile ≡ some file
      → is_ok status_ok ≡ true
      → log_and_insert e env is_ok others true b s w ≡ log_and_insert e env is_ok others false b s w
  unfolding log_and_insert
  log_and_insert-unsynced b s w file opened fine = rw (opened, fine) refl

  -- With an open log file of env_posix.cc, a batch group that asks for a sync ends as one that does
  -- not: in the same state, world and status.
  pub write_group-unsynced :
      (s : State e) (w : env.World) (file : ℕ)
      → s.logfile ≡ some file
      → is_ok status_ok ≡ true
      → write_group e env is_ok others true s w ≡ write_group e env is_ok others false s w
  unfolding write_group
  write_group-unsynced s w file opened fine =
      rw (log_and_insert-unsynced _ s w file opened fine) refl
