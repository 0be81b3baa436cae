-- ===== src/MemTable.antt =====
-- Class MemTable of leveldb/db/memtable.h and memtable.cc: its count of references. Its entries are
-- in functions that the repository only declares. `none` is a failed assertion, or the use of a
-- memtable after its deletion. A count that would go below 0 fails the assertion.
pub mod Counted
use leveldb_study.Base.{
  ◌>>=◌, ℕ, zero, suc, ◌+◌, Bool, false, Option, none, some, if◌then◌else◌, leb, update,
}

pub record MemTable : Type 0 where
  pub refs : ℕ
  pub deleted : Bool

-- MemTable::MemTable.
unfoldable pub new_mem_table : MemTable
new_mem_table = record { refs = 0; deleted = false }

unfoldable pub ref : MemTable → Option MemTable
ref m = if m.deleted then none else some (record m { refs = m.refs + 1 })

-- The count after `--refs_` and the assertion.
unfoldable pub drop_ref : ℕ → MemTable → Option MemTable
drop_ref zero m = none
drop_ref (suc n) m = some (record m { refs = n; deleted = leb n 0 })

unfoldable pub unref : MemTable → Option MemTable
unfolding drop_ref
unref m = if m.deleted then none else drop_ref m.refs m

-- The memtables that were made, by address.
pub record Tables : Type 0 where
  pub fresh : ℕ
  pub object : ℕ → MemTable

unfoldable pub ref_at : ℕ → Tables → Option Tables
unfolding ref
ref_at a t = do m ← ref (t.object a); some (record t { object = update t.object a m })

unfoldable pub unref_at : ℕ → Tables → Option Tables
unfolding unref
unref_at a t = do m ← unref (t.object a); some (record t { object = update t.object a m })

-- `new MemTable`.
unfoldable pub new_at : Tables → ℕ × Tables
unfolding new_mem_table
new_at t = (t.fresh, record { fresh = t.fresh + 1; object = update t.object t.fresh new_mem_table })

-- The use of a memtable, by MemTable::Get, InsertInto or an iterator.
unfoldable pub use_at : ℕ → Tables → Option Tables
use_at a t = if (t.object a).deleted then none else some t
