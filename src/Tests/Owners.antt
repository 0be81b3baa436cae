-- ===== src/Tests/Owners.antt =====
-- Memtables of leveldb/db/db_impl.cc that are switched and flushed while a Get reads them.
use leveldb_study.Base.{
  ◌>>=◌, ℕ, ◌<◌, ◌≡◌, refl, ◌==◌, Bool, false, true, Option, none, some, List, [], ◌∷◌,
}
use leveldb_study.MemTable.{unref_at, use_at}
use leveldb_study.DbImpl.References.{
  Owners, Action, open_owners, make_table, when, take_reader, act, act_all,
}
use leveldb_study.DbImpl.References.Counts.{holders, act_all-IsOwned}

-- A Get begins; the memtable is switched and given up; the Get looks up its key.
abbrev overtaken : List Action
overtaken =
    Action.begin
    ∷ Action.switch
    ∷ Action.insert
    ∷ Action.flush
    ∷ Action.drop_imm
    ∷ Action.look 0
    ∷ []

act_all-IsOwned_example :
    (o : Owners) × ((open_owners >>= act_all overtaken) ≡ some o)
    × ((a : ℕ) → (o.tables.object a).refs ≡ holders o a)
    × ((a : ℕ) → a < o.tables.fresh → (o.tables.object a).deleted ≡ (holders o a == 0))
act_all-IsOwned_example = act_all-IsOwned overtaken

first_deleted : Option Owners → Bool
first_deleted none = false
first_deleted (some o) = (o.tables.object 0).deleted

-- The first memtable lives as long as the Get.
still_there : first_deleted (open_owners >>= act_all overtaken) ≡ false
unfolding first_deleted open_owners make_table act_all when use_at unref_at take_reader
still_there = refl

gone : first_deleted (open_owners >>= act_all overtaken >>= act (Action.finish 0)) ≡ true
unfolding first_deleted open_owners make_table act_all when use_at unref_at take_reader
gone = refl
