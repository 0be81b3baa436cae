-- ===== src/VersionEdit/Fields.antt =====
-- What the setters and `Clear` of leveldb/db/version_edit.cc keep of each other's work.
use leveldb_study.Base.{ℕ, ◌≡◌, refl, ◌||◌, arith, ◌==◌, ◌&&◌}
use leveldb_study.VersionEdit.{VersionEdit, clear, new_edit, remove_file, has_pair}

-- A cleared edit is the new edit, but for the compaction pointers, which stay.
pub clear-new_edit :
    (e : VersionEdit) → clear e ≡ record new_edit { compact_pointers = e.compact_pointers }
unfolding clear new_edit
clear-new_edit e = refl

-- After RemoveFile the set holds the pair, and of every other pair what it held before.
pub has_pair-remove_file :
    (l n k m : ℕ) (e : VersionEdit)
    → has_pair k m (remove_file l n e).deleted_files
      ≡ ((k == l && m == n) || has_pair k m e.deleted_files)
unfolding remove_file
has_pair-remove_file l n k m e = ground arith
