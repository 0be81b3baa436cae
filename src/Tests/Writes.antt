-- ===== src/Tests/Writes.antt =====
-- The write path of leveldb/db/db_impl.cc with a memtable that is a list of batches, and a batch that
-- is a number.
use leveldb_study.Base.{
  ℕ, ◌+◌, ◌≡◌, refl, true, false, none, some, List, [], ◌∷◌, arith, length, ◌⊎◌,
}
use leveldb_study.Demo.{Disk, memory, start, config}
use leveldb_study.Status.{Bytes, status_ok, status_io_error, is_null}
use leveldb_study.Filename.{make_file_name, current_file_name, descriptor_file_name, codes}
use leveldb_study.Env.Posix.{dirname, dirname-make_file_name}
use leveldb_study.Env.{new_writer}
use leveldb_study.DbImpl.{External, State}
use leveldb_study.DbImpl.MakeRoom.{make_room_for_write}
use leveldb_study.DbImpl.MakeRoom.Numbered.{Holds, make_room_for_write-IsNumbered}
use leveldb_study.DbImpl.Write.{write_group}
use leveldb_study.DbImpl.Write.Leader.{KeepsWriters, Failed, Inserted, write_group-Inserted}

abbrev pub small : External
small = record {
  config = config;
  MemTable = List ℕ;
  WriteBatch = ℕ;
  new_mem_table = [];
  approximate_memory_usage = length;
  insert_into = λ b m. (status_ok, b ∷ m);
  set_sequence = λ n b. b;
  count = λ b. 1;
  contents = λ b. b ∷ [];
  clear = λ b. 0;
  needs_compaction = λ vs. false;
  num_level_files = λ l vs. 0;
  get_prev_log_number = λ vs. vs.prev_log_number;
  get_last_sequence = λ vs. vs.last_sequence;
  put_last_sequence = λ n vs. record vs { last_sequence = n };
  reuse_file_number = λ n vs. record vs { next_file_number = n };
  slowdown_writes_trigger = 8;
  stop_writes_trigger = 12;
  write_buffer_size = 1;
  record_background_error = λ status s. record s { bg_error = status };
  build_batch_group = λ s last. (41, false, last);
}

-- Two batches in the memtable, which is full, and one writer at the front.
abbrev pub db : State small
db = record {
  mem = 7 ∷ 8 ∷ [];
  imm = none;
  has_imm = false;
  logfile = some 1;
  logfile_number = 3;
  log = new_writer (some 1);
  versions = start;
  pending_outputs = [];
  writers = 0 ∷ 1 ∷ [];
  writer = λ a. record { batch = some 41; status = status_ok; sync = true; done = false };
  tmp_batch = 0;
  manual_compaction = none;
  background_compaction_scheduled = false;
  shutting_down = false;
  bg_error = status_ok;
  jobs = 0;
  signals = [];
  finish_signals = 0;
}

abbrev broken : State small
broken = record db { bg_error = status_io_error (1 ∷ []) }

nothing : Disk
nothing n = none

small-KeepsWriters : KeepsWriters small
small-KeepsWriters = record {
  same_writers = λ status s. refl;
  same_writer = λ status s. refl;
  same_mem = λ status s. refl;
}

make_room_for_write-IsNumbered_example :
    Holds small memory is_null
      (λ s. s)
      (make_room_for_write small memory is_null (λ s. s) 2 true broken nothing)
make_room_for_write-IsNumbered_example =
    make_room_for_write-IsNumbered small memory is_null (λ s. s) (λ n vs h. refl) (λ s i. i) 2 true
      broken nothing (record { scheduled = refl; below_next = omega arith })

write_group-Inserted_example :
    (Failed small memory is_null
        (λ s. s)
        small-KeepsWriters
        db
        (write_group small memory is_null (λ s. s) true db nothing)
      ⊎ Inserted small memory is_null
          (λ s. s)
          small-KeepsWriters
          true
          db
          nothing
          (write_group small memory is_null (λ s. s) true db nothing))
    × ((write_group small memory is_null (λ s. s) true db nothing).1.versions.last_sequence
        ≡ start.last_sequence + 1)
write_group-Inserted_example =
    write_group-Inserted small memory is_null (λ s. s) small-KeepsWriters true db nothing
      (λ n vs. refl)

dirname-make_file_name_example :
    (dirname (make_file_name (97 ∷ 47 ∷ 98 ∷ []) 6 (codes "log")) ≡ some (97 ∷ 47 ∷ 98 ∷ []))
    × (dirname (current_file_name (97 ∷ 47 ∷ 98 ∷ [])) ≡ some (97 ∷ 47 ∷ 98 ∷ []))
    × ((name : Bytes)
        → descriptor_file_name (97 ∷ 47 ∷ 98 ∷ []) 6 ≡ some name
        → dirname name ≡ some (97 ∷ 47 ∷ 98 ∷ []))
    × (dirname (codes "log") ≡ some (codes "."))
dirname-make_file_name_example =
    dirname-make_file_name (97 ∷ 47 ∷ 98 ∷ []) (codes "log") 6 (refl, (refl, (refl, tt)))
