-- ===== src/VersionSet/LogAndApply/Edited.antt =====
-- The files of the version that LogAndApply of leveldb/db/version_set.cc installs, by its edit.
use leveldb_study.Base.{>>=-elim, ℕ, ◌<◌, ◌≡◌, sym, ◌∙◌, Bool, true, some}
use leveldb_study.Order.{IsOrder}
use leveldb_study.Status.{Status, Bytes}
use leveldb_study.Env.{Env}
use leveldb_study.VersionEdit.{VersionEdit}
use leveldb_study.VersionSet.Version.{Files, Store}
use leveldb_study.VersionSet.Builder.{Levels, new_levels, apply}
use leveldb_study.VersionSet.Builder.Levels.{level_files}
use leveldb_study.VersionSet.Builder.Edits.{IsEdit, apply-IsEdit}
use leveldb_study.VersionSet.State.{VersionSet, Config}
use leveldb_study.VersionSet.LogAndApply.{build, log_and_apply}
use leveldb_study.VersionSet.LogAndApply.Steps.{log_and_apply-Run}
use leveldb_study.VersionSet.LogAndApply.NewVersion.{
  KeepsFiles, prepare-apply, log_and_apply-level_files,
}

module _ (c : Config) where
  -- What Apply made of the edit.
  abbrev Applied : VersionEdit → VersionSet c.D → Type 0
  Applied e vs =
      (pointer : ℕ → Bytes) × (levels : Levels) × (store : Store) × (apply c.compare e
          vs.compact_pointer new_levels vs.store
        ≡ some (pointer, levels, store))

  build-Applied :
      (e : VersionEdit) (base : ℕ) (vs : VersionSet c.D) {vs' : VersionSet c.D} {files : Files}
      → build c e base vs ≡ some (vs', files)
      → Applied e vs
  unfolding build
  build-Applied e base vs =
      >>=-elim (apply c.compare e vs.compact_pointer new_levels vs.store) _
        λ (pointer, levels, store) ran end. (pointer, levels, store, ran)

  -- The version that an ok LogAndApply makes current holds on every level the merge by smallest key of
  -- the files of the current version before and of added files, less those whose number is deleted
  -- there. The numbers deleted on a level are those that the edit deletes there and does not add there;
  -- the added files have the data of the edit's new files of the level, and for each of these a file
  -- stands among them that the order of smallest key and number does not tell from it. Keys are totally
  -- preordered; references to a version and other threads are taken to leave the files of versions alone.
  pub log_and_apply-IsEdit :
      (env : Env) (is_ok : Status → Bool) (others : VersionSet c.D → VersionSet c.D)
      (keeps : KeepsFiles c others) (e : VersionEdit) (vs : VersionSet c.D) (w : env.World)
      (base : ℕ) {s : Status} {e' : VersionEdit} {vs' : VersionSet c.D} {w' : env.World}
      → IsOrder c.compare
      → vs.current ≡ some base
      → log_and_apply c env is_ok others e vs w ≡ some (s, e', vs', w')
      → is_ok s ≡ true
      → (v : ℕ) × (levels : Levels) × (vs'.current ≡ some v)
        × IsEdit c.compare e levels
        × ((l : ℕ)
            → l < c.num_levels
            → (vs'.versions.object v).files l
              ≡ level_files c.compare (vs.versions.object base).files levels l)
  log_and_apply-IsEdit env is_ok others keeps e vs w base o cur h k =
      let r = log_and_apply-Run c env is_ok others e vs w h in
      let (pointer, levels, store, ran) = build-Applied r.prepared r.base vs r.build_eq in
      let ran_edit = sym (prepare-apply c e vs r.prepare_eq) ∙ ran in
      let (v, now, files) =
        log_and_apply-level_files c env is_ok others keeps e vs w base cur ran_edit h k in
      (v, levels, now, apply-IsEdit c.compare o e vs.compact_pointer vs.store ran_edit, files)
