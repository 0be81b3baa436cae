-- ===== src/VersionSet/Builder.antt =====
-- class VersionSet::Builder of leveldb/db/version_set.cc: it collects edits over a base version and
-- saves the result. A failed assertion is `none`.
pub mod Order
pub mod Saved
pub mod Levels
pub mod Edits
use leveldb_study.Base.{
  ◌>>=◌, ℕ, zero, suc, ◌+◌, ◌-◌, ◌/◌, ◌%◌, ◌^◌, ◌≡◌, refl, Ordering, Bool, true, not, ◌&&◌, Option,
  none, some, List, [], ◌∷◌, ◌++◌, if◌then◌else◌, ltb, leb, ◌==◌, update, has, put, erase,
}
use leveldb_study.Order.{is_lt}
use leveldb_study.Status.{Bytes}
use leveldb_study.VersionEdit.{InternalKey, FileMetaData, VersionEdit, is_empty}
use leveldb_study.VersionSet.Version.{File, Store, Files, by_smallest}
use leveldb_study.VersionSet.Merge.{before_upper, from_upper}

pub record LevelState : Type 0 where
  pub deleted_files : List ℕ
  pub added_files : List File

abbrev pub Levels : Type 0
Levels = ℕ → LevelState

-- The constructor: every level starts with no change.
unfoldable pub new_levels : Levels
new_levels level = record { deleted_files = []; added_files = [] }

-- `Encode` asserts that the key is valid.
unfoldable pub encode : InternalKey → Option Bytes
encode k = if is_empty k.rep then none else some k.rep

-- The first loop of `Apply`, over the compaction pointers.
unfoldable pub apply_pointers : List (ℕ × InternalKey) → (ℕ → Bytes) → Option (ℕ → Bytes)
unfolding encode
apply_pointers [] pointer = some pointer
apply_pointers ((level, key) ∷ rest) pointer = do
  bytes ← encode key
  apply_pointers rest (update pointer level bytes)

-- The second, over the deleted files.
unfoldable pub apply_deleted : List (ℕ × ℕ) → Levels → Levels
apply_deleted [] levels = levels
apply_deleted ((level, number) ∷ rest) levels = apply_deleted rest (
    update levels level
      (record (levels level) { deleted_files = put number (levels level).deleted_files }))

-- `static_cast<int>(file_size / 16384U)`, raised to 100: the cast keeps 32 bits, and what has the
-- highest of them set is negative.
unfoldable pub initial_seeks : ℕ → ℕ
initial_seeks file_size =
    let low = (file_size / 16384) % 2 ^ 32 in
    if leb (2 ^ 31) low then 100 else if ltb low 100 then 100 else low

module _ (compare : InternalKey → InternalKey → Ordering) where
  -- `std::set<FileMetaData*, BySmallestKey>::insert`: an equivalent element stays.
  unfoldable pub insert_file : File → List File → List File
  insert_file f [] = f ∷ []
  insert_file f (g ∷ gs) =
      if by_smallest compare f g
      then f ∷ g ∷ gs
      else if by_smallest compare g f
      then g ∷ insert_file f gs
      else g ∷ gs

  -- One round of the third loop of `Apply`: the new file, a copy of the edit's, at a new address.
  unfoldable pub apply_one : ℕ → FileMetaData → Levels × Store → Levels × Store
  unfolding initial_seeks insert_file
  apply_one level meta (levels, store) = (
    update levels level (record {
      deleted_files = erase meta.number (levels level).deleted_files;
      added_files =
          insert_file (record { addr = store.fresh; meta = meta }) (levels level).added_files;
    }),
    record store {
      fresh = suc store.fresh;
      refs = update store.refs store.fresh 1;
      allowed_seeks = update store.allowed_seeks store.fresh (initial_seeks meta.file_size);
    },
  )

  unfoldable pub apply_new : List (ℕ × FileMetaData) → Levels × Store → Levels × Store
  apply_new [] s = s
  apply_new ((level, meta) ∷ rest) s = apply_new rest (apply_one level meta s)

  -- `Apply`: the new compaction pointers, levels and store.
  unfoldable pub apply :
      VersionEdit → (ℕ → Bytes) → Levels → Store → Option ((ℕ → Bytes) × Levels × Store)
  apply edit pointer levels store = do
    pointer' ← apply_pointers edit.compact_pointers pointer
    let (levels', store') =
        apply_new edit.new_files (apply_deleted edit.deleted_files levels, store)
    some (pointer', levels', store')

  -- `files->back()->largest` is below `f->smallest`, or there is no file yet.
  unfoldable pub follows : List File → File → Bool
  follows [] f = true
  follows (g ∷ []) f = is_lt (compare g.meta.largest f.meta.smallest)
  follows (g ∷ h ∷ gs) f = follows (h ∷ gs) f

  -- `MaybeAddFile`, on one level's vector and the reference counts.
  unfoldable pub maybe_add_file :
      ℕ → List ℕ → List File × (ℕ → ℕ) → File → Option (List File × (ℕ → ℕ))
  maybe_add_file level deleted (files, refs) f =
      if has f.meta.number deleted
      then some (files, refs)
      else if ltb 0 level && not (follows files f)
      then none
      else some (files ++ f ∷ [], update refs f.addr (refs f.addr + 1))

  -- A run of calls of `MaybeAddFile`, in order.
  unfoldable pub add_all :
      ℕ → List ℕ → List File → List File × (ℕ → ℕ) → Option (List File × (ℕ → ℕ))
  add_all level deleted [] s = some s
  add_all level deleted (f ∷ fs) s = do
    s' ← maybe_add_file level deleted s f
    add_all level deleted fs s'

  -- The body of the loop over levels in `SaveTo`: `base` is what `base_iter` has still before it.
  unfoldable pub save_level :
      ℕ → List ℕ → (base added : List File) → List File × (ℕ → ℕ) → Option (List File × (ℕ → ℕ))
  save_level level deleted base [] s = add_all level deleted base s
  save_level level deleted base (f ∷ added) s = do
    s1 ← add_all level deleted (before_upper (by_smallest compare) f base) s
    s2 ← maybe_add_file level deleted s1 f
    save_level level deleted (from_upper (by_smallest compare) f base) added s2

  -- `SaveTo`, for the levels below a number, in ascending order.
  unfoldable pub save_to : ℕ → Files → Levels → Files × (ℕ → ℕ) → Option (Files × (ℕ → ℕ))
  save_to zero base levels (v, refs) = some (v, refs)
  save_to (suc level) base levels (v, refs) = do
    (v', refs') ← save_to level base levels (v, refs)
    (files, refs'') ←
        save_level level (levels level).deleted_files (base level) (levels level).added_files
          (v' level, refs')
    some (update v' level files, refs'')

-- `f->refs--`, and `delete f` when none is left. Counts are positive where this is called.
unfoldable pub unref_file : Store → File → Store
unref_file s f =
    let left = s.refs f.addr - 1 in
    record s {
      refs = update s.refs f.addr left;
      freed = if left == 0 then f.addr ∷ s.freed else s.freed;
    }

unfoldable pub unref_all : List File → Store → Store
unfolding unref_file
unref_all [] s = s
unref_all (f ∷ fs) s = unref_all fs (unref_file s f)

-- The destructor, for the levels below a number.
unfoldable pub release : ℕ → Levels → Store → Store
unfolding unref_all
release zero levels s = s
release (suc level) levels s = unref_all (levels level).added_files (release level levels s)
