-- ===== src/Tests/Puts.antt =====
-- DBImpl::Put and DBImpl::Get of leveldb/db/db_impl.cc with a memtable that is a list of keys and
-- values, the newest first.
use leveldb_study.Base.{
  ◌⊎◌, ℕ, ◌≡◌, refl, Bool, true, false, Option, none, some, List, [], ◌∷◌, ◌++◌, if◌then◌else◌,
  length,
}
use leveldb_study.Status.{Status, Bytes, status_ok, is_null}
use leveldb_study.Env.{new_writer}
use leveldb_study.Demo.{Disk, memory, start, config, bytes_eq, bytes_eq_refl}
use leveldb_study.DbImpl.{DbState, External, State, Waiting}
use leveldb_study.DbImpl.Write.Leader.{KeepsWriters}
use leveldb_study.DbImpl.Get.{GetCalls, db_get}
use leveldb_study.DbImpl.Put.{PutCalls, put}
use leveldb_study.DbImpl.Put.ReadBack.{Documented, put-db_get}
use leveldb_study.Tests.Tables.{format, blocks, tables, table_cache, fill_options}
use leveldb_study.Tests.Reads.{calls, session, version_calls}

abbrev Pairs : Type 0
Pairs = List (Bytes × Bytes)

abbrev Store : Type 0
Store = DbState ℕ Pairs Pairs

abbrev batch_or_nil : Option Pairs → Pairs
batch_or_nil none = []
batch_or_nil (some b) = b

-- The batch of the writer at the front.
abbrev front_batch : (ℕ → Waiting Pairs) → List ℕ → Pairs
front_batch writer [] = []
front_batch writer (a ∷ _) = batch_or_nil (writer a).batch

abbrev pub stored : External
stored = record {
  config = config;
  MemTable = Pairs;
  WriteBatch = Pairs;
  new_mem_table = [];
  approximate_memory_usage = length;
  insert_into = λ b m. (status_ok, b ++ m);
  set_sequence = λ n b. b;
  count = length;
  contents = λ b. length b ∷ [];
  clear = λ b. [];
  needs_compaction = λ vs. false;
  num_level_files = λ l vs. 0;
  get_prev_log_number = λ vs. vs.prev_log_number;
  get_last_sequence = λ vs. vs.last_sequence;
  put_last_sequence = λ n vs. record vs { last_sequence = n };
  reuse_file_number = λ n vs. record vs { next_file_number = n };
  slowdown_writes_trigger = 8;
  stop_writes_trigger = 12;
  write_buffer_size = 100;
  record_background_error = λ status s. record s { bg_error = status };
  build_batch_group = λ s n. (front_batch s.writer s.writers, false, n);
}

abbrev pub pairs : State stored
pairs = record {
  mem = (1 ∷ [], 2 ∷ []) ∷ [];
  imm = none;
  has_imm = false;
  logfile = some 1;
  logfile_number = 3;
  log = new_writer (some 1);
  versions = start;
  pending_outputs = [];
  writers = [];
  writer = λ a. record { batch = none; status = status_ok; sync = false; done = false };
  tmp_batch = [];
  manual_compaction = none;
  background_compaction_scheduled = false;
  shutting_down = false;
  bg_error = status_ok;
  jobs = 0;
  signals = [];
  finish_signals = 0;
}

abbrev find_pair : Pairs → Bytes → Bytes → Status → Bool × Bytes × Status
find_pair [] key before s = (false, before, s)
find_pair ((k, value) ∷ rest) key before s =
    let older = find_pair rest key before s in
    if bytes_eq k key then (true, value, status_ok) else older

abbrev get_calls : GetCalls stored
get_calls = record {
  lookup_key = λ key number. record { internal_key = key; user_key = key };
  mem_get = λ m lkey before s. find_pair m lkey.user_key before s;
  update_stats = λ current stats s. (false, s);
}

abbrev put_calls : PutCalls stored
put_calls = record { new_batch = []; batch_put = λ key value b. (key, value) ∷ b }

stored-KeepsWriters : KeepsWriters stored
stored-KeepsWriters = record {
  same_writers = λ status s. refl;
  same_writer = λ status s. refl;
  same_mem = λ status s. refl;
}

stored-Documented :
    Documented stored get_calls format blocks tables calls is_null
      (λ s. s)
      version_calls
      table_cache
      fill_options
      put_calls
      memory
      stored-KeepsWriters
stored-Documented = record {
  get_last-put_last = λ n vs. refl;
  put_last-current = λ n vs. refl;
  error_current = λ status s. refl;
  own_group = λ me n b s single own. rw (single, own) refl;
  mem_get-insert_into = λ key value before n m ok. rw (bytes_eq_refl key) refl;
}

pub nothing : Disk
nothing n = none

put-db_get_example :
    (status : Status) × (s' : State stored) × (w' : Disk) × (put stored put_calls memory is_null
        (λ s. s)
        2
        5
        true
        (9 ∷ [])
        (8 ∷ 7 ∷ [])
        pairs
        nothing
      ≡ some (status, s', w'))
    × ((is_null status ≡ false)
        ⊎ ((s'' : State stored) × (db_get stored get_calls format blocks tables calls is_null
                (λ s. s)
                version_calls
                table_cache
                fill_options
                none
                (9 ∷ [])
                []
                s'
                session
              ≡ some (status_ok, 8 ∷ 7 ∷ [], s'', session))))
unfolding is_null
put-db_get_example =
    put-db_get stored get_calls format blocks tables calls is_null (λ s. s) version_calls
      table_cache fill_options put_calls memory stored-KeepsWriters stored-Documented 1 5 true
      (9 ∷ []) (8 ∷ 7 ∷ []) [] pairs nothing [] session 1 refl (λ h. refl) refl refl refl
