-- ===== src/Tests/Moves.antt =====
-- The trivial move of leveldb/db/db_impl.cc.
use leveldb_study.Base.{ℕ, ◌≡◌, ◌==◌, if◌then◌else◌, refl, false, Option, none, some, [], ◌∷◌}
use leveldb_study.Demo.{Disk, memory, start, old_file}
use leveldb_study.Status.{Status, is_null}
use leveldb_study.VersionEdit
use leveldb_study.DbImpl.{State}
use leveldb_study.DbImpl.Background
use leveldb_study.DbImpl.Background.{Compaction}
use leveldb_study.DbImpl.Background.Move.{Moved, move_file-Moved}
use leveldb_study.Tests.Background.{flush-KeepsImm, compactions, flushed, nothing}
use leveldb_study.Tests.Writes.{small, db}

-- The version set with file 4 on level 0.
abbrev low : State small
low = record db {
  versions = record start {
    versions = record start.versions {
      object = λ v. record (start.versions.object v) {
        files = λ l. if l == 0 then old_file ∷ [] else [];
      };
    };
  };
}

abbrev compaction : Compaction
compaction = record {
  level = 0;
  max_output_file_size = 1000;
  input_version = some 1;
  edit = record {
    comparator = [];
    log_number = 0;
    prev_log_number = 0;
    next_file_number = 0;
    last_sequence = 0;
    has_comparator = false;
    has_log_number = false;
    has_prev_log_number = false;
    has_next_file_number = false;
    has_last_sequence = false;
    compact_pointers = [];
    deleted_files = [];
    new_files = [];
  };
  inputs = λ which. if which == 0 then old_file ∷ [] else [];
}

abbrev Move : Type 0
Move = Option (Status × State small × Disk)

abbrev moved_state : Move → State small
moved_state none = db
moved_state (some (s, st, w)) = st

moved : Move
unfolding flushed Background.move_file Background.moved_edit VersionEdit.add_file
    VersionEdit.remove_file
moved = Background.move_file small memory compactions is_null (λ s. s) compaction low nothing

move_file-Moved_example :
    (v : ℕ) × ((moved_state moved).versions.current ≡ some v)
    × Moved small memory compactions is_null
        (λ s. s)
        0
        old_file
        low.versions.store
        (low.versions.versions.object 1).files
        ((moved_state moved).versions.versions.object v).files
unfolding moved
move_file-Moved_example =
    move_file-Moved small memory compactions is_null (λ s. s) flush-KeepsImm compaction old_file low
      nothing 1 refl refl refl refl refl refl refl
