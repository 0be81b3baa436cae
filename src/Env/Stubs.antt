-- ===== src/Env/Stubs.antt =====
-- The members of PosixWritableFile of leveldb/util/env_posix.cc that answer ok and do nothing, and an
-- environment whose open files are such.
use leveldb_study.Base.{ℕ, none, some}
use leveldb_study.Status.{Status, status_ok, Bytes}
use leveldb_study.Env.{Env}
use leveldb_study.Env.Posix.{PosixWritableFile}

-- The status, the file and the world.
abbrev Outcome : Type 0 → Type 0
Outcome World = Status × PosixWritableFile × World

abbrev append : {World : Type 0} → Bytes → PosixWritableFile → World → Outcome World
append slice file w = (status_ok, file, w)

abbrev pub close : {World : Type 0} → PosixWritableFile → World → Outcome World
close file w = (status_ok, file, w)

abbrev flush : {World : Type 0} → PosixWritableFile → World → Outcome World
flush file w = (status_ok, file, w)

abbrev pub sync : {World : Type 0} → PosixWritableFile → World → Outcome World
sync file w = (status_ok, file, w)

-- The destructor closes the file: a descriptor that `open` answered is not negative.
abbrev destroy_file : {World : Type 0} → PosixWritableFile → World → World
destroy_file file w = (close file w).2

-- The environment where Sync and Close of an open file are these. `object` is the file at an address.
abbrev pub with_posix_files : (base : Env) → (ℕ → PosixWritableFile) → Env
with_posix_files base object = record base {
  sync = λ file w. elim file [
    | none ↦ base.sync none w
    | some a ↦ let (s, _, w') = sync (object a) w in (s, w')
  ];
  close = λ file w. elim file [
    | none ↦ base.close none w
    | some a ↦ let (s, _, w') = close (object a) w in (s, w')
  ];
}
