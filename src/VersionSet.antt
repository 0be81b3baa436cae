-- ===== src/VersionSet.antt =====
-- leveldb/db/version_set.h and leveldb/db/version_set.cc.
pub mod Merge
pub mod Version
pub mod Builder
pub mod State
pub mod Append
pub mod Finalize
pub mod LogAndApply
pub mod Get
