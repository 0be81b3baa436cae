-- ===== src/Tests/Versions.antt =====
-- The version set of leveldb/db/version_set.cc at the inputs of leveldb_study.Demo.
use leveldb_study.Base.{
  ℕ, ◌≡◌, refl, true, false, Option, none, some, List, [], ◌∷◌, arith, ◌<◌, ◌≤◌, Bool-cases, inl,
  inr, ◌==◌, ltb,
}
use leveldb_study.Demo.{
  Disk, memory, write, config, start, edit, compare_first-IsOrder, memory-IsFileSystem,
}
use leveldb_study.Status.{Status, Bytes, is_null, ok}
use leveldb_study.Filename
use leveldb_study.Filename.{make_file_name, current_file_name, set_current_file, codes}
use leveldb_study.Filename.Current.{current_text, set_current_file-read}
use leveldb_study.VersionEdit
use leveldb_study.VersionEdit.{VersionEdit, has_pair, remove_file}
use leveldb_study.VersionSet.Merge.{merge, before_upper, from_upper, Ordered}
use leveldb_study.VersionSet.Version.{File, Store, by_smallest}
use leveldb_study.VersionSet.Builder
use leveldb_study.VersionSet.Builder.Levels.{level_files, below, level_refs, save_to-level_files}
use leveldb_study.VersionSet.State.{VersionSet}
use leveldb_study.VersionSet.Append.{append_version}
use leveldb_study.VersionSet.Finalize
use leveldb_study.Order.{IsWeakOrder}
use leveldb_study.VersionSet.LogAndApply
use leveldb_study.VersionSet.LogAndApply.{log_and_apply}
use leveldb_study.VersionSet.LogAndApply.Outcome.{log_and_apply-ok}
use leveldb_study.VersionSet.LogAndApply.NewVersion.{KeepsFiles, log_and_apply-Ordered}
use leveldb_study.VersionSet.Builder.Edits.{IsEdit}
use leveldb_study.VersionSet.LogAndApply.Edited.{log_and_apply-IsEdit}
use leveldb_study.VersionSet.LogAndApply.Picked.{KeepsViews, view, IsPicked, log_and_apply-IsPicked}

abbrev numbers_of : List File → List ℕ
numbers_of [] = []
numbers_of (f ∷ fs) = f.meta.number ∷ numbers_of fs

abbrev pub Outcome : Type 0
Outcome = Option (Status × VersionEdit × VersionSet ℕ × Disk)

-- The parts of an outcome, with the inputs where there is none.
abbrev pub set_of : Outcome → VersionSet ℕ
set_of none = start
set_of (some (s, e, vs, w)) = vs

abbrev status_of : Outcome → Status
status_of none = record { state = none }
status_of (some (s, e, vs, w)) = s

abbrev edit_of : Outcome → VersionEdit
edit_of none = edit
edit_of (some (s, e, vs, w)) = e

abbrev disk_of : Outcome → Disk
disk_of none = λ n. none
disk_of (some (s, e, vs, w)) = w

-- A run of LogAndApply with the demo's edit. Its `unfolding` line names what tests compute through.
unfoldable pub run : Outcome
unfolding write edit ok is_null before_upper from_upper by_smallest append_version log_and_apply
    LogAndApply.apply_over LogAndApply.prepare LogAndApply.build LogAndApply.place_version
    LogAndApply.create_descriptor LogAndApply.first_record LogAndApply.write_snapshot
    LogAndApply.snapshot_edit LogAndApply.write_record LogAndApply.switch_current
    LogAndApply.install Builder.apply Builder.apply_pointers Builder.apply_deleted Builder.apply_new
    Builder.apply_one Builder.new_levels Builder.save_to Builder.save_level Builder.add_all
    Builder.maybe_add_file Builder.follows Builder.release Finalize.finalize Finalize.score
    VersionEdit.set_log_number VersionEdit.set_prev_log_number VersionEdit.set_next_file
    VersionEdit.set_last_sequence VersionEdit.encode_to Filename.descriptor_file_name
    Filename.decimal Filename.zeros Filename.number_06 set_current_file Filename.temp_file_name
    Filename.cleanup_temp Filename.write_and_rename make_file_name current_file_name
run = log_and_apply config memory is_null (λ vs. vs) edit start (λ n. none)

-- Files 4 and 5 stand on level 1 of the version at address 2.
run_installs : numbers_of (((set_of run).versions.object 2).files 1) ≡ 4 ∷ 5 ∷ []
unfolding run
run_installs = refl

keeps : KeepsFiles config (λ vs. vs)
keeps = record {
  ref_files = λ a v vs. ground arith;
  unref_files = λ a v vs h. ground arith;
  others_files = λ v vs. refl;
}

applied : Option ((ℕ → Bytes) × Builder.Levels × Store)
unfolding run
applied = Builder.apply config.compare edit start.compact_pointer Builder.new_levels start.store

abbrev levels_of : Option ((ℕ → Bytes) × Builder.Levels × Store) → Builder.Levels
levels_of none = Builder.new_levels
levels_of (some (p, l, s)) = l

log_and_apply-IsEdit_example :
    (v : ℕ) × (levels : Builder.Levels) × ((set_of run).current ≡ some v)
    × IsEdit config.compare edit levels
    × ((l : ℕ)
        → l < 2
        → ((set_of run).versions.object v).files l
          ≡ level_files config.compare (start.versions.object 1).files levels l)
unfolding run
log_and_apply-IsEdit_example =
    log_and_apply-IsEdit config memory is_null (λ vs. vs) keeps edit start (λ n. none) 1
      compare_first-IsOrder refl refl refl

start-Ordered : (l : ℕ) → Ordered (by_smallest config.compare) ((start.versions.object 1).files l)
start-Ordered l = elim (Bool-cases (l == 1)) [ inl e ↦ rw e (tt, tt) | inr e ↦ rw e tt ]

log_and_apply-Ordered_example :
    (v : ℕ) × ((set_of run).current ≡ some v)
    × ((l : ℕ)
        → l < 2
        → Ordered (by_smallest config.compare) (((set_of run).versions.object v).files l))
unfolding run applied
log_and_apply-Ordered_example =
    log_and_apply-Ordered config memory is_null (λ vs. vs) keeps edit start (λ n. none) 1
      compare_first-IsOrder start-Ordered refl refl refl refl

log_and_apply-ok_example :
    ((set_of run).log_number ≡ 3)
    × ((set_of run).prev_log_number ≡ 0)
    × (3 ≤ (set_of run).log_number)
    × ((base : ℕ) × (start.current ≡ some base)
        × ((set_of run).current ≡ some (config.unref base (config.ref base start.versions)).fresh))
unfolding run
log_and_apply-ok_example =
    log_and_apply-ok config memory is_null (λ vs. vs) edit start (λ n. none) refl refl

save_to-level_files_example :
    Builder.save_to config.compare 2
      (start.versions.object 1).files
      (levels_of applied)
      ((λ _. []), start.store.refs)
    ≡ some (
      below config.compare (start.versions.object 1).files (levels_of applied) 2,
      level_refs config.compare
          (start.versions.object 1).files
          (levels_of applied)
          2
          start.store.refs,
    )
unfolding applied run merge
save_to-level_files_example =
    save_to-level_files config.compare (start.versions.object 1).files (levels_of applied) 2
      start.store.refs

switched : Option (Status × Disk)
unfolding run
switched = set_current_file memory is_null config.dbname 2 (λ n. none)

abbrev disk_after : Option (Status × Disk) → Disk
disk_after none = λ n. none
disk_after (some (s, d)) = d

abbrev status_after : Option (Status × Disk) → Status
status_after none = record { state = none }
status_after (some (s, d)) = s

set_current_file-read_example :
    (is_null (status_after switched) ≡ true
      → disk_after switched (current_file_name config.dbname) ≡ some (current_text 2))
    × (is_null (status_after switched) ≡ false
        → disk_after switched (make_file_name config.dbname 2 (codes "dbtmp")) ≡ none)
unfolding switched
set_current_file-read_example =
    set_current_file-read memory is_null (memory-IsFileSystem is_null) config.dbname 2 (λ n. none)
      (omega arith) refl

ltb-IsWeakOrder : IsWeakOrder ltb
ltb-IsWeakOrder = record { asym = λ a b h. ground arith; le_trans = λ a b c h k. ground arith }

views : KeepsViews config (λ vs. vs)
views = record {
  ref_view = λ a v vs. ground arith;
  unref_view = λ a v vs h. ground arith;
  others_view = λ v vs. refl;
}

log_and_apply-IsPicked_example :
    (v : ℕ) × ((set_of run).current ≡ some v)
    × IsPicked config (view config ((set_of run).versions.object v))
unfolding run
log_and_apply-IsPicked_example =
    log_and_apply-IsPicked config memory is_null (λ vs. vs) views edit start (λ n. none)
      ltb-IsWeakOrder refl refl
