-- ===== src/TableCache.antt =====
-- class TableCache of leveldb/db/table_cache.cc: the open tables, by file number. `none` is a failed
-- assertion or the use of a null pointer.
pub mod Find
pub mod Gets
use leveldb_study.Base.{
  ◌>>=◌, ℕ, Bool, true, false, Option, none, some, is_some, if◌then◌else◌, ◌&&◌, not, leb,
}
use leveldb_study.Status.{Status, status_ok, Bytes}
use leveldb_study.Options.{Options, ReadOptions}
use leveldb_study.Cache.{Cache}
use leveldb_study.Table.{TableFormat, ReadAt, TableRep, encoded_length, open_table}

pub record TableAndFile (x : TableFormat) : Type 0 where
  pub file : Option ℕ
  pub table : Option (TableRep x)

-- What the class calls and no file defines. `internal_get` is Table::InternalGet, which may call the
-- function it is given, with the argument, a key and a value.
pub record TableCalls (x : TableFormat) (blocks : Cache x.Block) (Arg : Type 0) : Type 0 where
  pub read : ReadAt x
  pub table_file_name : Bytes → ℕ → Bytes
  pub sst_table_file_name : Bytes → ℕ → Bytes
  pub new_random_access_file : Bytes → x.World → Status × Option ℕ × x.World
  pub delete_object : Option ℕ → x.World → x.World
  pub internal_get :
      TableRep x
      → ReadOptions
      → Bytes
      → (Arg → Bytes → Bytes → Arg)
      → Arg
      → blocks.State
      → x.World
      → Status × Arg × blocks.State × x.World

pub record TableCache : Type 0 where
  pub dbname : Bytes
  pub options : Options

module _ (x : TableFormat) (blocks : Cache x.Block) (tables : Cache (TableAndFile x)) {Arg : Type 0}
    (t : TableCalls x blocks Arg) (is_ok : Status → Bool) where
  -- The two caches and the world of the files.
  pub record Session : Type 0 where
    pub cache : tables.State
    pub block_cache : blocks.State
    pub world : x.World

  -- The deleter of an entry. The deletion of a table itself touches no file.
  abbrev delete_entry : TableAndFile x → x.World → x.World
  delete_entry tf w = t.delete_object tf.file w

  abbrev unref_entry : tables.Handle → Session → Session
  unref_entry h σ = record σ { cache = tables.release h σ.cache }

  -- The file under its name, and if that fails under its old name.
  unfoldable pub open_file : TableCache → ℕ → x.World → Status × Option ℕ × x.World
  open_file c file_number w =
      let (s, file, w1) = t.new_random_access_file (t.table_file_name c.dbname file_number) w in
      if is_ok s
      then (s, file, w1)
      else (let (s2, file2, w2) =
            t.new_random_access_file (t.sst_table_file_name c.dbname file_number) w1 in
          if is_ok s2 then (status_ok, file2, w2) else (s, file2, w2))

  -- A table that was opened is put into the cache, and an error is not.
  unfoldable pub add_table :
      Bytes
      → Status
      → Option ℕ
      → Option (TableRep x)
      → Session
      → Option (Status × Option tables.Handle × Session)
  add_table key s file table σ =
      if is_ok s
      then (let tf : TableAndFile x = record { file = file; table = table } in
          let (h, cache') = tables.insert key tf 1 σ.cache in
          some (s, some h, record σ { cache = cache' }))
      else if is_some table
      then none
      else some (s, none, record σ { world = t.delete_object file σ.world })

  -- FindTable where the cache has no table. Open reads a file that has room for a footer, which a null
  -- one fails.
  unfoldable pub load_table :
      TableCache → ℕ → ℕ → Bytes → Session → Option (Status × Option tables.Handle × Session)
  unfolding open_file add_table
  load_table c file_number file_size key σ =
      let (s, file, w1) = open_file c file_number σ.world in
      if is_ok s
      then (if leb encoded_length file_size && not (is_some file)
          then none
          else (let (s', table, block_cache', w2) =
                open_table x is_ok blocks t.read c.options file file_size σ.block_cache w1 in
              add_table key s' file table (record σ { block_cache = block_cache'; world = w2 })))
      else add_table key s file none (record σ { world = w1 })

  unfoldable pub look_or_load :
      TableCache
      → ℕ
      → ℕ
      → Bytes
      → Option tables.Handle
      → Session
      → Option (Status × Option tables.Handle × Session)
  unfolding load_table
  look_or_load c file_number file_size key (some h) σ = some (status_ok, some h, σ)
  look_or_load c file_number file_size key none σ = load_table c file_number file_size key σ

  unfoldable pub find_table :
      TableCache → ℕ → ℕ → Session → Option (Status × Option tables.Handle × Session)
  unfolding look_or_load
  find_table c file_number file_size σ =
      let key = x.encode_fixed64 file_number in
      let (found, cache') = tables.lookup key σ.cache in
      look_or_load c file_number file_size key found (record σ { cache = cache' })

  -- Get behind an ok FindTable.
  unfoldable pub get_from :
      ReadOptions
      → Bytes
      → (Arg → Bytes → Bytes → Arg)
      → Arg
      → tables.Handle
      → Session
      → Option (Status × Arg × Session)
  get_from options k handle_result arg h σ = do
    table ← (tables.value h σ.cache).table
    let (s, arg', block_cache', w') =
        t.internal_get table options k handle_result arg σ.block_cache σ.world
    some (
      s,
      arg',
      record { cache = tables.release h σ.cache; block_cache = block_cache'; world = w' },
    )

  -- Get behind FindTable.
  unfoldable pub after_find :
      ReadOptions
      → Bytes
      → (Arg → Bytes → Bytes → Arg)
      → Arg
      → Status × Option tables.Handle × Session
      → Option (Status × Arg × Session)
  unfolding get_from
  after_find options k handle_result arg (s, handle, σ) =
      if is_ok s
      then (do h ← handle; get_from options k handle_result arg h σ)
      else some (s, arg, σ)

  unfoldable pub get :
      TableCache
      → ReadOptions
      → ℕ
      → ℕ
      → Bytes
      → (Arg → Bytes → Bytes → Arg)
      → Arg
      → Session
      → Option (Status × Arg × Session)
  unfolding find_table after_find
  get c options file_number file_size k handle_result arg σ = do
    r ← find_table c file_number file_size σ
    after_find options k handle_result arg r
