-- ===== src/Options.antt =====
-- The fields of Options and ReadOptions that leveldb/table/ and leveldb/db/ read. The header
-- leveldb/include/leveldb/options.h declares only `create_if_missing`.
use leveldb_study.Base.{ℕ, Bool, Option}
use leveldb_study.Status.{Bytes}

-- A filter policy is its name. `block_cache` says whether there is a cache.
pub record Options : Type 0 where
  pub filter_policy : Option Bytes
  pub paranoid_checks : Bool
  pub block_cache : Bool
  pub block_restart_interval : ℕ

pub record ReadOptions : Type 0 where
  pub verify_checksums : Bool
  pub fill_cache : Bool
