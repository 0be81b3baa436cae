-- ===== src/VersionSet/Version.antt =====
-- The state of leveldb/db/version_set.h that a change of the file set works on: table files behind
-- pointers, and the levels of a Version.
use leveldb_study.Base.{ℕ, List, Ordering, Bool, true, false, ltb}
use leveldb_study.VersionEdit.{FileMetaData, InternalKey}

-- A `FileMetaData*`: its address and the fields behind it that never change.
pub record File : Type 0 where
  pub addr : ℕ
  pub meta : FileMetaData

-- The fields behind a `FileMetaData*` that do change, and the address that `new` takes next.
pub record Store : Type 0 where
  pub fresh : ℕ
  pub refs : ℕ → ℕ
  pub allowed_seeks : ℕ → ℕ
  pub freed : List ℕ

-- `std::vector<FileMetaData*> files_[config::kNumLevels]`.
abbrev pub Files : Type 0
Files = ℕ → List File

-- `BySmallestKey`: by the smallest key, ties broken by file number.
unfoldable pub by_smallest : (InternalKey → InternalKey → Ordering) → File → File → Bool
by_smallest compare f1 f2 = elim (compare f1.meta.smallest f2.meta.smallest) [
  | Ordering.lt ↦ true
  | Ordering.gt ↦ false
  | Ordering.eq ↦ ltb f1.meta.number f2.meta.number
]
