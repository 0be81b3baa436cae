-- ===== src/Filename/Distinct.antt =====
-- The names that leveldb/db/filename.cc makes for different files.
use leveldb_study.Base.{◌<◌, All}
use leveldb_study.Status.{Bytes}

-- A digit is above the period.
abbrev Digits : Bytes → Type 0
Digits = All (λ c. 46 < c)
