-- ===== src/DbImpl/Background/Move.antt =====
-- The trivial move of DBImpl::BackgroundCompaction of leveldb/db/db_impl.cc.
use leveldb_study.Base.{
  >>=-elim, ℕ, ◌+◌, ◌<◌, ◌≡◌, ◌≢◌, refl, sym, ◌∙◌, ap, subst, Bool, true, some, some_inj, List, [],
  ◌∷◌, arith,
}
use leveldb_study.Status.{Status, Bytes}
use leveldb_study.Env.{Env}
use leveldb_study.VersionEdit.{VersionEdit, add_file, remove_file}
use leveldb_study.VersionSet.Version.{File, Files, Store, by_smallest}
use leveldb_study.VersionSet.Builder.{
  LevelState, Levels, new_levels, apply, apply_pointers, apply_deleted, apply_new, apply_one,
  insert_file,
}
use leveldb_study.VersionSet.Builder.Levels.{level_files}
use leveldb_study.VersionSet.Builder.Saved.{kept, kept-nil}
use leveldb_study.VersionSet.Merge.{merge}
use leveldb_study.VersionSet.LogAndApply.{log_and_apply}
use leveldb_study.VersionSet.LogAndApply.NewVersion.{log_and_apply-level_files}
use leveldb_study.DbImpl.{External, State}
use leveldb_study.DbImpl.Flush.{on_versions, apply_edit}
use leveldb_study.DbImpl.Flush.Written.{KeepsImm, apply_edit-Applied}
use leveldb_study.DbImpl.Flush.Loss.{on_versions-KeepsFiles}
use leveldb_study.DbImpl.Background.{
  Compaction, CompactionExternal, moved_edit, note_error, move_file,
}

module _ (e : External) (env : Env) (x : CompactionExternal e env) (is_ok : Status → Bool)
    (others : State e → State e) where
  -- The file with the moved file's data, at a new address.
  abbrev pub copy_of : File → Store → File
  copy_of f store = record { addr = store.fresh; meta = f.meta }

  -- What Builder::Apply makes of the edit of a move.
  abbrev moved_levels : Compaction → File → Store → Levels
  moved_levels c f store =
      (apply_one e.config.compare (c.level + 1) f.meta
        (apply_deleted ((c.level, f.meta.number) ∷ []) new_levels, store)).0

  abbrev moved_store : Compaction → File → Store → Store
  moved_store c f store =
      (apply_one e.config.compare (c.level + 1) f.meta
        (apply_deleted ((c.level, f.meta.number) ∷ []) new_levels, store)).1

  -- The levels after a move of `f` from level `l` to the next.
  pub record Moved (l : ℕ) (f : File) (store : Store) (before after : Files) : Type 0 where
    pub from_level : l < e.config.num_levels → after l ≡ kept (f.meta.number ∷ []) (before l)
    pub to_level :
        l + 1 < e.config.num_levels
        → after (l + 1)
          ≡ merge (by_smallest e.config.compare) (before (l + 1)) (copy_of f store ∷ [])
    pub other_levels : (k : ℕ) → k < e.config.num_levels → k ≢ l → k ≢ l + 1 → after k ≡ before k

  moved_edit-apply :
      (c : Compaction) (f : File) (pointer pointer' : ℕ → Bytes) (store : Store)
      → c.edit.deleted_files ≡ []
      → c.edit.new_files ≡ []
      → apply_pointers c.edit.compact_pointers pointer ≡ some pointer'
      → apply e.config.compare (moved_edit c f) pointer new_levels store
        ≡ some (pointer', moved_levels c f store, moved_store c f store)
  unfolding apply moved_edit add_file remove_file apply_new apply_deleted
  moved_edit-apply c f pointer pointer' store no_deleted no_new pointers =
      rw (apply, no_deleted, no_new, pointers) refl

  abbrev change : List ℕ → List File → LevelState
  change deleted added = record { deleted_files = deleted; added_files = added }

  moved_levels_lem :
      (c : Compaction) (f : File) (store : Store)
      → (moved_levels c f store c.level ≡ change (f.meta.number ∷ []) [])
        × (moved_levels c f store (c.level + 1) ≡ change [] (copy_of f store ∷ []))
        × ((k : ℕ) → k ≢ c.level → k ≢ c.level + 1 → moved_levels c f store k ≡ change [] [])
  unfolding apply_one apply_deleted new_levels insert_file
  moved_levels_lem c f store = (ground arith, ground arith, λ k h h'. ground (arith, h, h'))

  -- The files of a level where it is known what changes there.
  level_files_cong :
      (before : Files) (levels : Levels) (l : ℕ) {deleted : List ℕ} {added : List File}
      → levels l ≡ change deleted added
      → level_files e.config.compare before levels l
        ≡ kept deleted (merge (by_smallest e.config.compare) (before l) added)
  level_files_cong before levels l h =
      ap
        (λ (ls : LevelState).
          kept ls.deleted_files (merge (by_smallest e.config.compare) (before l) ls.added_files))
        h

  module _ (k : KeepsImm e env x.flush is_ok others) where
    move_file-Applied :
        (c : Compaction) (f : File) (s : State e) (w : env.World) {status : Status} {s' : State e}
        {w' : env.World}
        → c.inputs 0 ≡ f ∷ []
        → move_file e env x is_ok others c s w ≡ some (status, s', w')
        → is_ok status ≡ true
        → (edit' : VersionEdit) × (log_and_apply e.config env is_ok
              (on_versions e others s)
              (moved_edit c f)
              s.versions
              w
            ≡ some (status, edit', s'.versions, w'))
    unfolding move_file
    move_file-Applied c f s w {status} {s'} {w'} one =
        rw (move_file, one)
          (λ h ok.
            >>=-elim (apply_edit e env x.flush is_ok others (moved_edit c f) s w) _
              (λ r ran end.
                let (edit', applied, _) =
                  apply_edit-Applied e env x.flush is_ok others k (moved_edit c f) s w ran in
                let same : (r.0, note_error e env x is_ok others r.0 r.1, r.2) ≡ (status, s', w') =
                  some_inj end in
                let fine : is_ok r.0 ≡ true =
                  ap (λ (t : Status × State e × env.World). is_ok t.0) same ∙ ok in
                let quiet : note_error e env x is_ok others r.0 r.1 ≡ r.1 = rw fine refl in
                let whole = ap (λ (u : State e). (r.0, u, r.2)) (sym quiet) ∙ same in
                (
                  edit',
                  subst
                      (λ (t : Status × State e × env.World).
                        log_and_apply e.config env is_ok (on_versions e others s) (moved_edit c f)
                          s.versions w
                        ≡ some (t.0, edit', t.1.versions, t.2))
                      whole applied,
                ))
              h)

    -- A trivial move of a file that ends with an ok status makes a version current where the file is
    -- gone from its level, stands among those of the next level by its smallest key, as a copy with the
    -- same data, and every other level is as before. The edit of the compaction has no files before, and
    -- its compaction pointers are valid keys. Versions that are deleted are taken to stay at their
    -- address, and other threads to install no version and leave the files of versions alone.
    pub move_file-Moved :
        (c : Compaction) (f : File) (s : State e) (w : env.World) (base : ℕ) {status : Status}
        {s' : State e} {w' : env.World} {pointer : ℕ → Bytes}
        → c.inputs 0 ≡ f ∷ []
        → c.edit.deleted_files ≡ []
        → c.edit.new_files ≡ []
        → apply_pointers c.edit.compact_pointers s.versions.compact_pointer ≡ some pointer
        → s.versions.current ≡ some base
        → move_file e env x is_ok others c s w ≡ some (status, s', w')
        → is_ok status ≡ true
        → (v : ℕ) × (s'.versions.current ≡ some v)
          × Moved c.level f s.versions.store
              (s.versions.versions.object base).files
              (s'.versions.versions.object v).files
    unfolding merge
    move_file-Moved c f s w base {pointer} one no_deleted no_new pointers cur ran ok =
        let store = s.versions.store in
        let before = (s.versions.versions.object base).files in
        let (edit', applied) = move_file-Applied c f s w one ran ok in
        let (v, now, files) =
          log_and_apply-level_files e.config env is_ok (on_versions e others s)
            (on_versions-KeepsFiles e env x.flush is_ok others k s) (moved_edit c f) s.versions w
            base cur
            (moved_edit-apply c f s.versions.compact_pointer pointer store no_deleted no_new
              pointers)
            applied ok in
        let (from, to, other) = moved_levels_lem c f store in
        (
          v,
          now,
          record {
            from_level = λ lt.
                files c.level lt ∙ level_files_cong before (moved_levels c f store) c.level from;
            to_level = λ lt.
                files (c.level + 1) lt
                ∙ level_files_cong before (moved_levels c f store) (c.level + 1) to
                ∙ kept-nil _;
            other_levels = λ l lt h h'.
                files l lt
                ∙ level_files_cong before (moved_levels c f store) l (other l h h')
                ∙ kept-nil _;
          },
        )
