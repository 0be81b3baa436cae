-- ===== src/Program.antt =====
-- The program of test.cc: it opens a database, puts a key, reads it and prints the value.
use leveldb_study.Base.{◌>>=◌, ℕ, Bool, false, Option, none, some, if◌then◌else◌}
use leveldb_study.Status.{Status, Bytes}
use leveldb_study.Options.{ReadOptions}
use leveldb_study.Env.{Env}
use leveldb_study.Cache.{Cache}
use leveldb_study.Filename.{codes}
use leveldb_study.Table.{TableFormat}
use leveldb_study.TableCache.{TableAndFile, TableCalls, TableCache, Session}
use leveldb_study.VersionSet.Get.{Saver, VersionCalls}
use leveldb_study.DbImpl.{External, State}
use leveldb_study.DbImpl.Open.{db_open}
use leveldb_study.DbImpl.Put.{PutCalls, put}
use leveldb_study.DbImpl.Get.{GetCalls, db_get}

abbrev pub key : Bytes
key = codes "leil"

abbrev pub value : Bytes
value = codes "666"

-- `assert`.
abbrev asserting {ℓ} : {A : Type ℓ} → Bool → Option A → Option A
asserting b rest = if b then rest else none

module _ (e : External) (g : GetCalls e) (x : TableFormat) (blocks : Cache x.Block)
    (tables : Cache (TableAndFile x)) (t : TableCalls x blocks Saver) (is_ok : Status → Bool)
    (others : State e → State e) (v : VersionCalls e.config.D) (c : TableCache)
    (options : ReadOptions) (p : PutCalls e) (env : Env) where
  -- From Get on. The buffer holds the value that was put.
  unfoldable pub read_value : State e → Session x blocks tables t is_ok → Option Bytes
  read_value s σ = do
    (status, value', s1, σ1) ←
        db_get e g x blocks tables t is_ok others v c options none key value s σ
    asserting (is_ok status) (some value')

  -- With the database that Open returned.
  unfoldable pub put_and_read :
      (fuel me : ℕ) → Option (State e) → Session x blocks tables t is_ok → env.World → Option Bytes
  put_and_read fuel me none σ w = none
  put_and_read fuel me (some db) σ w = do
    (status, s, w1) ← put e p env is_ok others fuel me false key value db w
    asserting (is_ok status) (read_value s σ)

  -- The value that is printed; `none` is a failed assertion.
  unfoldable pub test_leveldb :
      (fuel me : ℕ) → State e → Session x blocks tables t is_ok → env.World → Option Bytes
  unfolding put_and_read db_open
  test_leveldb fuel me fresh σ w =
      let (status, db) = db_open e fresh in asserting (is_ok status) (put_and_read fuel me db σ w)
