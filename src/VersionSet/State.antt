-- ===== src/VersionSet/State.antt =====
-- The state of class VersionSet of leveldb/db/version_set.h, and what the class takes from code
-- that the repository does not hold.
use leveldb_study.Base.{ℕ, Bool, Option, List, Ordering}
use leveldb_study.Status.{Bytes}
use leveldb_study.Env.{Writer}
use leveldb_study.VersionEdit.{InternalKey}
use leveldb_study.VersionSet.Version.{File, Files, Store}

-- `D` is the type of doubles. A level of -1 is `none`.
pub record Version (D : Type 0) : Type 0 where
  pub files : Files
  pub compaction_score : D
  pub compaction_level : Option ℕ
  pub refs : ℕ

-- The Version objects by address, and the two link fields of each. `dummy_versions_` is at 0.
pub record Versions (D : Type 0) : Type 0 where
  pub object : ℕ → Version D
  pub next : ℕ → ℕ
  pub prev : ℕ → ℕ
  pub fresh : ℕ

abbrev pub dummy : ℕ
dummy = 0

pub record VersionSet (D : Type 0) : Type 0 where
  pub next_file_number : ℕ
  pub manifest_file_number : ℕ
  pub last_sequence : ℕ
  pub log_number : ℕ
  pub prev_log_number : ℕ
  pub descriptor_file : Option ℕ
  pub descriptor_log : Option Writer
  pub versions : Versions D
  pub current : Option ℕ
  pub compact_pointer : ℕ → Bytes
  pub store : Store

-- Constants of namespace config, the comparator, arithmetic on doubles, and the functions that
-- version_set.cc calls and no file defines: MaxByteForLevel, TotalFileSize, Version::Ref and
-- Version::Unref.
pub record Config : Type 1 where
  pub dbname : Bytes
  pub num_levels : ℕ
  pub l0_compaction_trigger : ℕ
  pub comparator_name : Bytes
  pub compare : InternalKey → InternalKey → Ordering
  pub D : Type 0
  pub minus_one : D
  pub of_nat : ℕ → D
  pub div : D → D → D
  pub less : D → D → Bool
  pub max_byte_for_level : ℕ → D
  pub total_file_size : List File → ℕ
  pub ref : ℕ → Versions D → Versions D
  pub unref : ℕ → Versions D → Versions D
