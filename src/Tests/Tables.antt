-- ===== src/Tests/Tables.antt =====
-- Tables and caches of leveldb/table/table.cc and leveldb/db/table_cache.cc, with a cache that never
-- evicts and files in which the block at an offset holds the offset.
use leveldb_study.Base.{
  ℕ, ◌+◌, ◌≡◌, refl, true, false, none, some, [], ◌∷◌, arith, if◌then◌else◌, length, inl, inr,
  Bool-cases,
}
use leveldb_study.Demo.{bytes_eq}
use leveldb_study.Tests.Caches.{fixed, fixed-IsFixed64, map_cache, map_cache-IsCache}
use leveldb_study.Status.{status_ok, status_io_error, Bytes, is_null, ok}
use leveldb_study.Options.{Options, ReadOptions}
use leveldb_study.Cache.{Cache}
use leveldb_study.Table.{TableFormat, TableRep, ReadAt}
use leveldb_study.Table.Reader.{block_reader}
use leveldb_study.Table.Blocks.{IsStable, Coherent, Shows, held, block_reader-Coherent}
use leveldb_study.TableCache.{TableAndFile, TableCalls, TableCache, Session, find_table, get}
use leveldb_study.TableCache.Find
use leveldb_study.TableCache.Find.{IsFileTest, Found, find_table-Found}
use leveldb_study.TableCache.Gets.{Got, get-Got}

-- The world counts the reads.
abbrev pub format : TableFormat
format = record {
  World = ℕ;
  Footer = ℕ;
  Block = Bytes;
  FilterBlockReader = Bytes;
  default_read_options = record { verify_checksums = false; fill_cache = true };
  decode_footer = λ text. (status_ok, 0);
  index_handle = λ f. record { offset = 40; size = 5 };
  metaindex_handle = λ f. record { offset = 30; size = 5 };
  decode_handle = λ v. (status_ok, record { offset = length v; size = 5 });
  read_block = λ file options handle w. (
    status_ok,
    record { bytes = handle.offset ∷ []; cachable = true; heap_allocated = true },
    w + 1,
  );
  new_block = λ contents. contents.bytes;
  size = length;
  seek = λ block key. some (key, []);
  slice_eq = bytes_eq;
  new_filter_block_reader = λ policy text. text;
  encode_fixed64 = fixed 8;
}

abbrev read_at : ReadAt format
read_at file offset n w = (status_ok, offset ∷ n ∷ [], w + 1)

abbrev pub cached : Options
cached = record {
  filter_policy = some (98 ∷ []);
  paranoid_checks = true;
  block_cache = true;
  block_restart_interval = 16;
}

abbrev pub blocks : Cache Bytes
blocks = map_cache Bytes

abbrev pub no_blocks : blocks.State
no_blocks = (0, λ k. none)

-- Another way to read, which differs from the first byte behind a file of 100 bytes.
abbrev table : TableRep format
table = record {
  options = cached;
  status = status_ok;
  file = some 3;
  cache_id = 7;
  filter = none;
  filter_data = none;
  metaindex_handle = record { offset = 30; size = 5 };
  index_block = 40 ∷ [];
}

abbrev pub fill_options : ReadOptions
fill_options = record { verify_checksums = false; fill_cache = true }

table-IsStable :
    IsStable format is_null blocks
      (map_cache-IsCache Bytes)
      fixed-IsFixed64
      (λ id offset. offset ∷ [])
      (λ offset. 5)
      table
table-IsStable = record {
  id_bound = omega arith;
  read_block-content = λ options handle w sized h. refl;
}

no_blocks-Coherent :
    Coherent format is_null blocks
      (map_cache-IsCache Bytes)
      fixed-IsFixed64
      (λ id offset. offset ∷ [])
      no_blocks
unfolding Coherent
no_blocks-Coherent id offset b h k there = cc

block_reader-Coherent_example :
    let r = block_reader format is_null blocks table fill_options (1 ∷ 2 ∷ []) no_blocks 0 in
    Coherent format is_null blocks
      (map_cache-IsCache Bytes)
      fixed-IsFixed64
      (λ id offset. offset ∷ [])
      r.1
    × Shows format is_null blocks
        (map_cache-IsCache Bytes)
        fixed-IsFixed64
        (λ id offset. offset ∷ [])
        7
        2
        r.0
    × (r.1.0 ≡ 0 + held format is_null blocks (map_cache-IsCache Bytes) fixed-IsFixed64 r.0)
unfolding block_reader
block_reader-Coherent_example =
    block_reader-Coherent format is_null blocks (map_cache-IsCache Bytes) fixed-IsFixed64
      (λ id offset. offset ∷ []) (λ offset. 5) table fill_options (1 ∷ 2 ∷ []) no_blocks 0
      table-IsStable (omega arith) refl no_blocks-Coherent

abbrev pub tables : Cache (TableAndFile format)
tables = map_cache (TableAndFile format)

-- The file under the first name is missing.
abbrev pub calls_for : (Arg : Type 0) → TableCalls format blocks Arg
calls_for Arg = record {
  read = read_at;
  table_file_name = λ dbname number. 1 ∷ number ∷ [];
  sst_table_file_name = λ dbname number. 2 ∷ number ∷ [];
  new_random_access_file = λ name w.
      if bytes_eq name (1 ∷ 6 ∷ []) then (status_io_error [], none, w) else (status_ok, some 3, w);
  delete_object = λ file w. w;
  internal_get = λ rep options key handle_result arg b w.
      (status_ok, handle_result arg key (9 ∷ []), b, w + 1);
}

pub calls_for-IsFileTest : (Arg : Type 0) → IsFileTest format blocks tables (calls_for Arg) is_null
unfolding is_null
calls_for-IsFileTest Arg = record {
  ok_status = refl;
  opened = λ name w. elim (Bool-cases (bytes_eq name (1 ∷ 6 ∷ []))) [
    | inl e ↦ rw e (λ h. cc)
    | inr e ↦ rw e (λ h. refl)
  ];
}

-- Status::ok as it is written passes where every file is there.
abbrev present : TableCalls format blocks Bytes
present = record (calls_for Bytes) { new_random_access_file = λ name w. (status_ok, some 3, w) }

ok-IsFileTest : IsFileTest format blocks tables present ok
unfolding ok
ok-IsFileTest = record { ok_status = refl; opened = λ name w h. refl }

abbrev calls : TableCalls format blocks Bytes
calls = calls_for Bytes

abbrev pub table_cache : TableCache
table_cache = record { dbname = 100 ∷ []; options = cached }

abbrev session : Session format blocks tables calls is_null
session = record { cache = (0, λ k. none); block_cache = no_blocks; world = 0 }

session-Coherent :
    Find.Coherent format blocks tables calls is_null
      (calls_for-IsFileTest Bytes)
      (map_cache-IsCache (TableAndFile format))
      fixed-IsFixed64
      table_cache
      session.cache
unfolding Find.Coherent
session-Coherent number tf h there = absurd cc

find_table-Found_example :
    Found format blocks tables calls is_null
      (calls_for-IsFileTest Bytes)
      (map_cache-IsCache (TableAndFile format))
      fixed-IsFixed64
      table_cache
      6
      session.cache
      (find_table format blocks tables calls is_null table_cache 6 100 session)
find_table-Found_example =
    find_table-Found format blocks tables calls is_null (calls_for-IsFileTest Bytes)
      (map_cache-IsCache (TableAndFile format)) fixed-IsFixed64 table_cache 6 100 session
      (omega arith) (inl (omega arith)) session-Coherent

get-Got_example :
    Got format blocks tables calls is_null
      (calls_for-IsFileTest Bytes)
      (map_cache-IsCache (TableAndFile format))
      fixed-IsFixed64
      table_cache
      fill_options
      6
      (5 ∷ [])
      (λ arg key value. key)
      []
      session.cache
      (get format blocks tables calls is_null table_cache fill_options 6 100
        (5 ∷ [])
        (λ arg key value. key)
        []
        session)
get-Got_example =
    get-Got format blocks tables calls is_null (calls_for-IsFileTest Bytes)
      (map_cache-IsCache (TableAndFile format)) fixed-IsFixed64 table_cache fill_options 6 100
      (5 ∷ []) (λ arg key value. key) [] session (omega arith) (inl (omega arith)) session-Coherent
