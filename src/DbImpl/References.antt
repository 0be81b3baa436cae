-- ===== src/DbImpl/References.antt =====
-- The references of memtables in leveldb/db/db_impl.cc: DB::Open, MakeRoomForWrite and CompactMemtable
-- hold them by `mem_` and `imm_`, and Get by its own `mem` and `imm`. `none` is a failed assertion or
-- the use of a deleted memtable. What this leaves out is in the other modules of DbImpl.
pub mod Counts
use leveldb_study.Base.{◌>>=◌, ℕ, zero, suc, Option, none, some, List, [], ◌∷◌}
use leveldb_study.MemTable.{Tables, new_mem_table, ref_at, unref_at, new_at, use_at}

-- The `mem` and `imm` of a Get that has released the mutex.
pub record Reader : Type 0 where
  pub mem : ℕ
  pub imm : Option ℕ

pub record Owners : Type 0 where
  pub tables : Tables
  pub mem : ℕ
  pub imm : Option ℕ
  pub readers : List Reader

-- `if (imm != nullptr)`.
unfoldable pub when : (ℕ → Tables → Option Tables) → Option ℕ → Tables → Option Tables
when f none t = some t
when f (some a) t = f a t

-- A new memtable with a reference, in DB::Open and MakeRoomForWrite.
unfoldable pub make_table : Tables → Option (ℕ × Tables)
unfolding new_at ref_at
make_table t = do let (a, t1) = new_at t; t2 ← ref_at a t1; some (a, t2)

abbrev pub no_tables : Tables
no_tables = record { fresh = 0; object = λ a. new_mem_table }

-- DB::Open: the first memtable.
unfoldable pub open_owners : Option Owners
open_owners = do
  (a, t) ← make_table no_tables
  some (record { tables = t; mem = a; imm = none; readers = [] })

-- MakeRoomForWrite: the switch to a new memtable. While there is an immutable memtable it waits.
unfoldable pub switch_from : Option ℕ → Owners → Option Owners
unfolding make_table
switch_from (some _) o = some o
switch_from none o = do
  (a, t) ← make_table o.tables
  some (record o { tables = t; mem = a; imm = some o.mem })

-- The end of CompactMemtable, which runs only if there is an immutable memtable.
unfoldable pub drop_imm_of : Option ℕ → Owners → Option Owners
drop_imm_of none o = some o
drop_imm_of (some a) o = do t ← unref_at a o.tables; some (record o { tables = t; imm = none })

-- Get before it releases the mutex.
unfoldable pub begin_get : Owners → Option Owners
begin_get o = do
  t1 ← ref_at o.mem o.tables
  t2 ← when ref_at o.imm t1
  some (record o { tables = t2; readers = record { mem = o.mem; imm = o.imm } ∷ o.readers })

-- The reader at a position, and the others.
unfoldable pub take_reader : ℕ → List Reader → Option (Reader × List Reader)
take_reader i [] = none
take_reader zero (r ∷ rs) = some (r, rs)
take_reader (suc i) (r ∷ rs) = do (q, left) ← take_reader i rs; some (q, r ∷ left)

unfoldable pub look_up : Option (Reader × List Reader) → Owners → Option Owners
look_up none o = some o
look_up (some (r, _)) o = do
  t1 ← use_at r.mem o.tables
  t2 ← when use_at r.imm t1
  some (record o { tables = t2 })

-- Get with the mutex again.
unfoldable pub finish_reader : Option (Reader × List Reader) → Owners → Option Owners
finish_reader none o = some o
finish_reader (some (r, left)) o = do
  t1 ← unref_at r.mem o.tables
  t2 ← when unref_at r.imm t1
  some (record o { tables = t2; readers = left })

-- What the threads do: MakeRoomForWrite switches, Write inserts into `mem_`, WriteLevel0Table reads
-- `imm_` and CompactMemtable gives it up; a Get begins, the Get at a position looks into its
-- memtables, and it ends. A position without a Get stands for no action.
pub data Action : Type 0 where
  switch insert flush drop_imm begin : Action
  look finish : ℕ → Action

unfoldable pub act : Action → Owners → Option Owners
unfolding switch_from drop_imm_of begin_get look_up finish_reader
act Action.switch o = switch_from o.imm o
act Action.insert o = do t ← use_at o.mem o.tables; some (record o { tables = t })
act Action.flush o = do t ← when use_at o.imm o.tables; some (record o { tables = t })
act Action.drop_imm o = drop_imm_of o.imm o
act Action.begin o = begin_get o
act (Action.look i) o = look_up (take_reader i o.readers) o
act (Action.finish i) o = finish_reader (take_reader i o.readers) o

unfoldable pub act_all : List Action → Owners → Option Owners
unfolding act
act_all [] o = some o
act_all (a ∷ rest) o = do o' ← act a o; act_all rest o'
