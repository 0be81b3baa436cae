-- ===== src/Demo.antt =====
-- Concrete inputs for the tests: a file system in memory, keys that are ordered by their first byte,
-- and a configuration with two levels and two files.
use leveldb_study.Base.{
  ℕ, ◌+◌, ◌-◌, ◌≡◌, refl, Bool, true, false, ◌&&◌, Option, none, some, [], ◌∷◌, arith, Ordering,
  if◌then◌else◌, ltb, ◌==◌, update,
}
use Prim.Native.Nat.{compare}
use leveldb_study.Status.{Status, status_ok, status_io_error, Bytes}
use leveldb_study.Env.{Env, IsFileSystem}
use leveldb_study.Order.{IsOrder}
use leveldb_study.VersionEdit.{InternalKey, FileMetaData, VersionEdit, new_edit, add_file}
use leveldb_study.VersionSet.Version.{File}
use leveldb_study.VersionSet.State.{Versions, VersionSet, Config}

pub bytes_eq : Bytes → Bytes → Bool
bytes_eq [] [] = true
bytes_eq (a ∷ s) (b ∷ t) = a == b && bytes_eq s t
bytes_eq _ _ = false

pub bytes_eq_refl : (s : Bytes) → bytes_eq s s ≡ true
unfolding bytes_eq
bytes_eq_refl [] = refl
bytes_eq_refl (a ∷ s) = ground (arith, bytes_eq_refl s)

pub bytes_eq_lem : (s t : Bytes) → bytes_eq s t ≡ true → s ≡ t
unfolding bytes_eq
bytes_eq_lem [] [] h = refl
bytes_eq_lem [] (b ∷ t) h = cc
bytes_eq_lem (a ∷ s) [] h = cc
bytes_eq_lem (a ∷ s) (b ∷ t) h = ground (arith, bytes_eq_lem s t)

abbrev pub Disk : Type 0
Disk = Bytes → Option Bytes

unfoldable pub write : Disk → Bytes → Option Bytes → Disk
unfolding bytes_eq
write d name c other = if bytes_eq name other then c else d other

pub write_self : (d : Disk) (name : Bytes) (c : Option Bytes) → write d name c name ≡ c
unfolding write
write_self d name c = ground (arith, bytes_eq_refl name)

-- An environment in which everything succeeds.
abbrev pub memory : Env
memory = record {
  World = Disk;
  new_writable_file = λ name d. (status_ok, some 7, write d name (some []));
  rename_file = λ from to d. (status_ok, write d to (d from));
  delete_file = λ name d. (status_ok, write d name none);
  write_string_to_file_sync = λ text name d. (status_ok, write d name (some text));
  sync = λ file d. (status_ok, d);
  close = λ file d. (status_ok, d);
  add_record = λ log text d. (status_ok, log, d);
}

-- One in which no record can be written.
abbrev pub full : Env
full = record memory { add_record = λ log text d. (status_io_error [], log, d) }

abbrev pub memory-IsFileSystem : (is_ok : Status → Bool) → IsFileSystem memory is_ok
memory-IsFileSystem is_ok = record {
  read = λ d name. d name;
  read-write_string = λ text name d h. write_self d name (some text);
  read-rename = λ from to d h. write_self d to (d from);
  read-delete = λ name d. write_self d name none;
}

abbrev pub first_byte : InternalKey → ℕ
first_byte k = elim k.rep [ [] ↦ 0 | c ∷ _ ↦ c ]

abbrev pub compare_first : InternalKey → InternalKey → Ordering
compare_first a b = compare (first_byte a) (first_byte b)

pub compare_first-IsOrder : IsOrder compare_first
compare_first-IsOrder = record {
  flip_lt = λ a b h. ground arith;
  flip_gt = λ a b h. ground arith;
  lt_trans = λ a b c h k. ground arith;
  eq_left = λ a b c h. ground arith;
}

abbrev pub key : ℕ → InternalKey
key n = record { rep = n ∷ [] }

abbrev pub meta : ℕ → ℕ → ℕ → FileMetaData
meta number small large = record {
  number = number;
  file_size = 100;
  smallest = key small;
  largest = key large;
}

abbrev pub set_refs : {D : Type 0} → (ℕ → ℕ) → ℕ → Versions D → Versions D
set_refs f a vs = record vs {
  object = update vs.object a (record (vs.object a) { refs = f (vs.object a).refs });
}

abbrev pub config : Config
config = record {
  dbname = 100 ∷ [];
  num_levels = 2;
  l0_compaction_trigger = 4;
  comparator_name = [];
  compare = compare_first;
  D = ℕ;
  minus_one = 0;
  of_nat = λ n. n;
  div = λ a b. a;
  less = ltb;
  max_byte_for_level = λ l. 10;
  total_file_size = λ fs. 5;
  ref = set_refs (λ n. n + 1);
  unref = set_refs (λ n. n - 1);
}

-- File 4 on level 1, at address 9.
abbrev pub old_file : File
old_file = record { addr = 9; meta = meta 4 10 20 }

abbrev pub start : VersionSet ℕ
start = record {
  next_file_number = 6;
  manifest_file_number = 2;
  last_sequence = 0;
  log_number = 3;
  prev_log_number = 0;
  descriptor_file = none;
  descriptor_log = none;
  versions = record {
    object = λ v. record {
      files = λ l. if l == 1 then old_file ∷ [] else [];
      compaction_score = 0;
      compaction_level = none;
      refs = if v == 1 then 1 else 0;
    };
    next = λ v. if v == 0 then 1 else 0;
    prev = λ v. if v == 0 then 1 else 0;
    fresh = 2;
  };
  current = some 1;
  compact_pointer = λ l. [];
  store = record { fresh = 10; refs = λ a. 1; allowed_seeks = λ a. 100; freed = [] };
}

-- File 5 is added on level 1.
unfoldable pub edit : VersionEdit
unfolding add_file new_edit
edit = add_file 1 5 200 (key 30) (key 40) new_edit
