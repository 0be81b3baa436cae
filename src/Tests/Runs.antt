-- ===== src/Tests/Runs.antt =====
-- Runs of DBImpl::Put of leveldb/db/db_impl.cc with a memtable that is a list of entries, the newest
-- first.
use leveldb_study.Base.{
  ℕ, ◌+◌, ◌≡◌, refl, false, Option, none, some, List, [], ◌∷◌, ◌++◌, length, arith,
}
use leveldb_study.Status.{Bytes, status_ok, status_not_found, is_null}
use leveldb_study.Env.{new_writer}
use leveldb_study.Demo.{Disk, memory, full, start, config, bytes_eq}
use leveldb_study.DbImpl.{External, State, Waiting}
use leveldb_study.DbImpl.MakeRoom.{make_room_for_write}
use leveldb_study.DbImpl.Write.{leave, pop_writers, write_group, syncs_null}
use leveldb_study.DbImpl.Write.Leader.{KeepsWriters}
use leveldb_study.DbImpl.Get.{GetCalls}
use leveldb_study.DbImpl.Put.{PutCalls, put}
use leveldb_study.DbImpl.Put.Runs.{
  Entry, Contents, newest, latest, answer, puts, DocumentedTables, IsCalm,
}
use leveldb_study.DbImpl.Put.Reads.{Reads, puts-Reads}
use leveldb_study.Tests.Tables.{format, blocks, tables, table_cache, fill_options}
use leveldb_study.Tests.Reads.{calls, session, version_calls}

-- A batch: its sequence number and its operations.
abbrev Batch : Type 0
Batch = ℕ × Contents

abbrev insert_ops : ℕ → Contents → List Entry → List Entry
insert_ops n [] m = m
insert_ops n ((k, v) ∷ ops) m = insert_ops (n + 1) ops ((n, k, v) ∷ m)

abbrev batch_or_empty : Option Batch → Batch
batch_or_empty none = (0, [])
batch_or_empty (some b) = b

abbrev front_batch : (ℕ → Waiting Batch) → List ℕ → Batch
front_batch writer [] = (0, [])
front_batch writer (a ∷ _) = batch_or_empty (writer a).batch

abbrev pub counted : External
counted = record {
  config = config;
  MemTable = List Entry;
  WriteBatch = Batch;
  new_mem_table = [];
  approximate_memory_usage = length;
  insert_into = λ b m. (status_ok, insert_ops b.0 b.1 m);
  set_sequence = λ n b. (n, b.1);
  count = λ b. length b.1;
  contents = λ b. b.0 ∷ [];
  clear = λ b. (0, []);
  needs_compaction = λ vs. false;
  num_level_files = λ l vs. 0;
  get_prev_log_number = λ vs. vs.prev_log_number;
  get_last_sequence = λ vs. vs.last_sequence;
  put_last_sequence = λ n vs. record vs { last_sequence = n };
  reuse_file_number = λ n vs. record vs { next_file_number = n };
  slowdown_writes_trigger = 8;
  stop_writes_trigger = 12;
  write_buffer_size = 100;
  record_background_error = λ status s. record s { bg_error = status };
  build_batch_group = λ s n. (front_batch s.writer s.writers, false, n);
}

-- The memtable holds one deletion.
abbrev pub store : State counted
store = record {
  mem = (0, 3 ∷ [], none) ∷ [];
  imm = none;
  has_imm = false;
  logfile = some 1;
  logfile_number = 3;
  log = new_writer (some 1);
  versions = start;
  pending_outputs = [];
  writers = [];
  writer = λ a. record { batch = none; status = status_ok; sync = false; done = false };
  tmp_batch = (0, []);
  manual_compaction = none;
  background_compaction_scheduled = false;
  shutting_down = false;
  bg_error = status_ok;
  jobs = 0;
  signals = [];
  finish_signals = 0;
}

-- The number of a lookup stands before its key.
abbrev number_of : Bytes → ℕ
number_of [] = 0
number_of (n ∷ _) = n

abbrev get_calls : GetCalls counted
get_calls = record {
  lookup_key = λ key n. record { internal_key = n ∷ key; user_key = key };
  mem_get = λ m lkey before s.
      answer (status_not_found []) (newest bytes_eq (number_of lkey.internal_key) lkey.user_key m)
        before s;
  update_stats = λ current stats s. (false, s);
}

abbrev put_calls : PutCalls counted
put_calls = record {
  new_batch = (0, []);
  batch_put = λ key value b. (b.0, b.1 ++ (key, some value) ∷ []);
}

abbrev documented : DocumentedTables counted get_calls put_calls memory is_null
unfolding is_null
documented = record {
  key_eq = bytes_eq;
  not_found = status_not_found [];
  entries = λ m. m;
  get_last-put_last = λ n vs. refl;
  put_last-current = λ n vs. refl;
  own_group = λ me n b s single own. (rw (single, own) refl, refl);
  count-put = λ n key value. refl;
  entries-insert_into = λ n key value m upto. (refl, refl);
  mem_get_lem = λ m key before n s. refl;
}

pub counted-KeepsWriters : KeepsWriters counted
counted-KeepsWriters = record {
  same_writers = λ status s. refl;
  same_writer = λ status s. refl;
  same_mem = λ status s. refl;
}

nothing : Disk
nothing n = none

store-IsCalm :
    IsCalm counted get_calls put_calls memory is_null counted-KeepsWriters documented 1 store
unfolding is_null documented
store-IsCalm = record {
  healthy = refl;
  no_writers = refl;
  there = refl;
  numbered = (omega arith, tt);
}

abbrev two_puts : List (Bytes × Bytes)
two_puts = (9 ∷ [], 8 ∷ []) ∷ (9 ∷ [], 7 ∷ []) ∷ []

puts-Reads_example :
    (done : Contents) × (s' : State counted) × (w' : Disk) × (puts counted get_calls put_calls
        memory is_null 3 5 two_puts
        ((3 ∷ [], none) ∷ [])
        store
        nothing
      ≡ some (done, s', w'))
    × Reads counted get_calls put_calls memory is_null documented format blocks tables calls
        version_calls table_cache fill_options
        (latest bytes_eq (9 ∷ []) done)
        (9 ∷ [])
        []
        s'
        session
        1
unfolding documented
puts-Reads_example =
    puts-Reads counted get_calls put_calls memory is_null documented format blocks tables calls
      version_calls table_cache fill_options counted-KeepsWriters 2 5 two_puts (9 ∷ []) [] store
      nothing session 1 store-IsCalm

accepted : Option (Contents × State counted × Disk) → Contents
accepted none = []
accepted (some (done, s, w)) = done

-- The puts that answer ok, where every record can be written, and where none can.
two_accepted :
    accepted (
      puts counted get_calls put_calls memory is_null 3 5 two_puts
        ((3 ∷ [], none) ∷ [])
        store
        nothing)
    ≡ (9 ∷ [], some (7 ∷ [])) ∷ (9 ∷ [], some (8 ∷ [])) ∷ (3 ∷ [], none) ∷ []
unfolding accepted puts is_null put make_room_for_write leave pop_writers write_group syncs_null
two_accepted = refl

rejected :
    accepted (
      puts counted get_calls put_calls full is_null 3 5 two_puts
        ((3 ∷ [], none) ∷ [])
        store
        nothing)
    ≡ (3 ∷ [], none) ∷ []
unfolding accepted puts is_null put make_room_for_write leave pop_writers write_group syncs_null
rejected = refl
