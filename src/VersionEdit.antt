-- ===== src/VersionEdit.antt =====
-- leveldb/db/version_edit.h, leveldb/db/version_edit.cc and the class InternalKey of
-- leveldb/db/dbformat.h: one change of the set of table files, as it is collected and written to the
-- MANIFEST. Numbers are `uint64_t` and are only stored and compared here.
pub mod Fields
use leveldb_study.Base.{ℕ, Bool, true, false, List, [], ◌∷◌, ◌++◌, ◌&&◌, ◌||◌, ◌==◌, if◌then◌else◌}
use leveldb_study.Status.{Bytes}

-- `rep_` is empty in an invalid key.
pub record InternalKey : Type 0 where
  pub rep : Bytes

abbrev pub is_empty : Bytes → Bool
is_empty [] = true
is_empty (_ ∷ _) = false

-- The new key, and whether it is valid.
unfoldable pub decode_from : Bytes → InternalKey × Bool
decode_from s = (record { rep = s }, if is_empty s then false else true)

-- `append` is AppendInternalKey, which is declared only.
abbrev set_from : {Parsed : Type 0} → (Parsed → Bytes → Bytes) → Parsed → InternalKey
set_from append p = record { rep = append p [] }

abbrev clear_key : InternalKey → InternalKey
clear_key k = record { rep = [] }

-- The fields that never change once a file is known. `refs` and `allowed_seeks`, which do, stand in
-- the store of VersionSet.Version.
pub record FileMetaData : Type 0 where
  pub number : ℕ
  pub file_size : ℕ
  pub smallest : InternalKey
  pub largest : InternalKey

pub record VersionEdit : Type 0 where
  pub comparator : Bytes
  pub log_number : ℕ
  pub prev_log_number : ℕ
  pub next_file_number : ℕ
  pub last_sequence : ℕ
  pub has_comparator : Bool
  pub has_log_number : Bool
  pub has_prev_log_number : Bool
  pub has_next_file_number : Bool
  pub has_last_sequence : Bool
  pub compact_pointers : List (ℕ × InternalKey)
  pub deleted_files : List (ℕ × ℕ)
  pub new_files : List (ℕ × FileMetaData)

-- `Clear` leaves `compact_pointers_` as it is.
unfoldable pub clear : VersionEdit → VersionEdit
clear e = record e {
  comparator = [];
  log_number = 0;
  prev_log_number = 0;
  last_sequence = 0;
  next_file_number = 0;
  has_last_sequence = false;
  has_log_number = false;
  has_prev_log_number = false;
  has_next_file_number = false;
  has_comparator = false;
  deleted_files = [];
  new_files = [];
}

-- The constructor: the vectors start empty, and `Clear` sets the rest.
unfoldable pub new_edit : VersionEdit
unfolding clear
new_edit = clear (record {
  comparator = [];
  log_number = 0;
  prev_log_number = 0;
  next_file_number = 0;
  last_sequence = 0;
  has_comparator = false;
  has_log_number = false;
  has_prev_log_number = false;
  has_next_file_number = false;
  has_last_sequence = false;
  compact_pointers = [];
  deleted_files = [];
  new_files = [];
})

unfoldable pub set_comparator_name : Bytes → VersionEdit → VersionEdit
set_comparator_name name e = record e { has_comparator = true; comparator = name }

unfoldable pub set_log_number : ℕ → VersionEdit → VersionEdit
set_log_number num e = record e { has_log_number = true; log_number = num }

unfoldable pub set_prev_log_number : ℕ → VersionEdit → VersionEdit
set_prev_log_number num e = record e { has_prev_log_number = true; prev_log_number = num }

unfoldable pub set_next_file : ℕ → VersionEdit → VersionEdit
set_next_file num e = record e { has_next_file_number = true; next_file_number = num }

unfoldable pub set_last_sequence : ℕ → VersionEdit → VersionEdit
set_last_sequence seq e = record e { has_last_sequence = true; last_sequence = seq }

unfoldable pub set_compact_pointer : ℕ → InternalKey → VersionEdit → VersionEdit
set_compact_pointer level key e = record e {
  compact_pointers = e.compact_pointers ++ (level, key) ∷ [];
}

unfoldable pub add_file : ℕ → ℕ → ℕ → InternalKey → InternalKey → VersionEdit → VersionEdit
add_file level file size small large e = record e {
  new_files =
      e.new_files
      ++ (level, record { number = file; file_size = size; smallest = small; largest = large })
        ∷ [];
}

-- `std::set<std::pair<int, uint64_t>>::insert`: no pair is there twice.
abbrev pub has_pair : ℕ → ℕ → List (ℕ × ℕ) → Bool
has_pair l n [] = false
has_pair l n ((k, m) ∷ s) = (l == k && n == m) || has_pair l n s

unfoldable pub remove_file : ℕ → ℕ → VersionEdit → VersionEdit
remove_file level file e = record e {
  deleted_files =
      if has_pair level file e.deleted_files
      then e.deleted_files
      else (level, file) ∷ e.deleted_files;
}

-- `EncodeTo` has an empty body.
unfoldable pub encode_to : VersionEdit → Bytes → Bytes
encode_to e dst = dst
