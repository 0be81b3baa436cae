-- ===== src/Tests/Background.antt =====
-- Flushes and background calls of leveldb/db/db_impl.cc, and BuildTable of leveldb/db/builder.cc.
use leveldb_study.Base.{
  ℕ, suc, ◌<◌, ◌≤◌, ◌≡◌, refl, true, false, Option, none, some, [], ◌∷◌, arith,
}
use leveldb_study.Demo.{Disk, memory, memory-IsFileSystem, meta}
use leveldb_study.Status.{status_ok, is_null}
use leveldb_study.Options.{Options}
use leveldb_study.TableBuilder
use leveldb_study.TableBuilder.{BlockBuilders, Rep, new_table_builder}
use leveldb_study.TableBuilder.BuildTable
use leveldb_study.TableBuilder.BuildTable.{
  TableFiles, Entries, Ends, build_table, close_table, build_table-removes,
}
use leveldb_study.VersionEdit
use leveldb_study.VersionEdit.{FileMetaData}
use leveldb_study.DbImpl.{State, new_file_number}
use leveldb_study.DbImpl.Schedule.{maybe_schedule_compaction, IsScheduled}
use leveldb_study.DbImpl.Flush
use leveldb_study.DbImpl.Flush.{FlushExternal, compact_memtable}
use leveldb_study.DbImpl.Flush.Written.{KeepsImm}
use leveldb_study.DbImpl.Flush.Loss.{compact_memtable-loses}
use leveldb_study.DbImpl.Background
use leveldb_study.DbImpl.Background.{
  Compaction, CompactionExternal, background_call, Step, schedule, run, Reach, here, next,
}
use leveldb_study.DbImpl.Background.Jobs.{KeepsJobs, Reach_one_job}
use leveldb_study.Tests.Versions
use leveldb_study.Tests.Writes.{small, db}

abbrev blocks : BlockBuilders
blocks = record {
  BlockBuilder = ℕ;
  FilterBlockBuilder = ℕ;
  new_block_builder = λ o. 0;
  new_filter_block_builder = λ p. 0;
  start_block = λ n b. n;
}

abbrev options : Options
options = record {
  filter_policy = none;
  paranoid_checks = true;
  block_cache = false;
  block_restart_interval = 16;
}

-- A table file is named by the number of its file.
abbrev tables : TableFiles memory
tables = record {
  blocks = blocks;
  options = options;
  table_file_name = λ dbname number. number ∷ [];
  add = λ key value builder w. (builder, w);
  finish = λ builder w. (status_ok, builder, w);
  delete_object = λ file w. w;
  iterator_status = λ number size w. (status_ok, w);
}

abbrev one_entry : Entries
one_entry = record { entries = (1 ∷ [], 2 ∷ []) ∷ []; status = status_ok }

pub nothing : Disk
nothing n = none

build_table-removes_example :
    Ends memory tables is_null
      (memory-IsFileSystem is_null)
      (6 ∷ [])
      (meta 6 1 0)
      nothing
      (build_table memory tables is_null (100 ∷ []) one_entry (meta 6 1 2) nothing)
build_table-removes_example =
    build_table-removes memory tables is_null (memory-IsFileSystem is_null) (100 ∷ []) one_entry
      (meta 6 1 2) nothing

abbrev flush : FlushExternal small memory
flush = record {
  tables = tables;
  new_iterator = λ m. one_entry;
  extract_user_key = λ k. k;
  pick_level = λ v a b. 0;
  remove_obsolete_files = λ s w. (s, w);
}

abbrev full_db : State small
full_db = record db { imm = some (7 ∷ []); has_imm = true }

pub flush-KeepsImm : KeepsImm small memory flush is_null (λ s. s)
flush-KeepsImm = record {
  ref_files = λ a v vs. ground arith;
  unref_files = λ a v vs. ground arith;
  others_files = λ v s. refl;
  others_current = λ s. refl;
  others_imm = λ m s h. h;
  error_imm = λ status s. refl;
  remove_versions = λ s w. refl;
}

abbrev Outcome : Type 0
Outcome = Option (State small × Disk)

abbrev state_of : Outcome → State small
state_of none = db
state_of (some (s, w)) = s

abbrev disk_of : Outcome → Disk
disk_of none = λ n. none
disk_of (some (s, w)) = w

unfoldable pub flushed : Outcome
unfolding Versions.run compact_memtable Flush.write_imm Flush.write_level0_table Flush.install_table
    Flush.apply_edit Flush.finish_flush Flush.add_level0_file new_file_number build_table
    BuildTable.build_entries BuildTable.write_table BuildTable.keep_or_remove BuildTable.add_entries
    close_table new_table_builder TableBuilder.new_rep VersionEdit.decode_from VersionEdit.new_edit
flushed = compact_memtable small memory flush is_null (λ s. s) full_db nothing

compact_memtable-loses_example :
    (v : ℕ) × ((state_of flushed).versions.current ≡ some v)
    × ((l : ℕ)
        → l < 2
        → ((state_of flushed).versions.versions.object v).files l
          ≡ (db.versions.versions.object 1).files l)
unfolding flushed
compact_memtable-loses_example =
    compact_memtable-loses small memory flush is_null (λ s. s) flush-KeepsImm full_db nothing 1 refl
      refl refl

abbrev pub compactions : CompactionExternal small memory
compactions = record {
  flush = flush;
  pick_compaction = λ vs. (none, vs);
  is_trivial_move = λ c. false;
  do_compaction_work = λ c s w. (status_ok, s, w);
  clean_up = λ c s w. (s, w);
}

compactions-KeepsJobs : KeepsJobs small memory compactions is_null (λ s. s)
compactions-KeepsJobs = record {
  others_busy = λ s h. h;
  error_busy = λ status s h. h;
  remove_busy = λ s w h. h;
  work_busy = λ c s w h. h;
  clean_up_busy = λ c s w h. h;
}

called : Outcome
unfolding flushed background_call Background.do_work Background.finish_call
    Background.background_compaction maybe_schedule_compaction
called =
    background_call small memory compactions is_null (λ s. s)
      (record full_db { background_compaction_scheduled = true }) nothing

-- The flush is scheduled, and the environment runs the call.
after_call :
    Reach small memory compactions is_null
      (λ s. s)
      full_db
      nothing
      (state_of called)
      (disk_of called)
unfolding called
after_call = next (next here (schedule full_db nothing)) (
    run 0 (maybe_schedule_compaction small is_null full_db) (state_of called) nothing
      (disk_of called) refl refl)

Reach_one_job_example :
    IsScheduled small is_null (state_of called)
    × ((state_of called).jobs ≤ 1)
    × ((j : ℕ)
        → (state_of called).jobs ≡ suc j
        → (record (state_of called) { jobs = j }).background_compaction_scheduled ≡ true)
unfolding maybe_schedule_compaction
Reach_one_job_example =
    Reach_one_job small memory compactions is_null (λ s. s) compactions-KeepsJobs {s0 = full_db}
      {w0 = nothing} refl after_call
