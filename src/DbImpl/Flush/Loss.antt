-- ===== src/DbImpl/Flush/Loss.antt =====
-- What CompactMemtable of leveldb/db/db_impl.cc makes of the contents of the memtable.
use leveldb_study.Base.{
  >>=-elim, ℕ, ◌<◌, ◌≡◌, refl, sym, ap, ◌∙◌, Bool, true, false, ◌&&◌, none, some, some_inj, arith,
  if◌then◌else◌, Bool-cases, inl, inr, subst,
}
use leveldb_study.Status.{Status, Bytes}
use leveldb_study.Env.{Env}
use leveldb_study.VersionEdit.{VersionEdit, new_edit, set_log_number, set_prev_log_number}
use leveldb_study.VersionSet.Version.{Files, Store}
use leveldb_study.VersionSet.State.{VersionSet}
use leveldb_study.VersionSet.Builder.{new_levels, apply, apply_pointers, apply_deleted, apply_new}
use leveldb_study.VersionSet.Builder.Levels.{level_files}
use leveldb_study.VersionSet.Builder.Saved.{kept-nil}
use leveldb_study.VersionSet.Merge.{merge}
use leveldb_study.VersionSet.LogAndApply.{log_and_apply}
use leveldb_study.VersionSet.LogAndApply.NewVersion.{KeepsFiles, log_and_apply-level_files}
use leveldb_study.DbImpl.{External, State}
use leveldb_study.DbImpl.Flush.Written.{KeepsImm, write_imm-Flushed, apply_edit-Applied}
use leveldb_study.DbImpl.Flush.{
  FlushExternal, on_versions, write_imm, finish_flush, install_table, shutdown_error,
  compact_memtable,
}

-- Without a change every level keeps its files.
level_files-new_levels :
    (e : External) (base : Files) (l : ℕ) → level_files e.config.compare base new_levels l ≡ base l
unfolding new_levels merge
level_files-new_levels e base l = kept-nil (base l)

module _ (e : External) (env : Env) (f : FlushExternal e env) (is_ok : Status → Bool)
    (others : State e → State e) where
  module _ (k : KeepsImm e env f is_ok others) where
    -- The edit that CompactMemtable applies.
    abbrev flush_edit : State e → VersionEdit
    flush_edit s = set_log_number s.logfile_number (set_prev_log_number 0 new_edit)

    install_table-imm :
        (imm : e.MemTable) (status : Status) (edit : VersionEdit) (s : State e) (w : env.World)
        (st : Status) (s2 : State e) (w2 : env.World)
        → s.imm ≡ some imm
        → install_table e env f is_ok others status edit s w ≡ some (st, s2, w2)
        → s2.imm ≡ some imm
    unfolding install_table
    install_table-imm imm status edit s w st s2 w2 h =
        elim (Bool-cases (
          is_ok (
            if is_ok status && s.shutting_down
            then shutdown_error e env f is_ok others
            else status))) [
              | inl x ↦ rw x (λ r.
                  (apply_edit-Applied e env f is_ok others k _ s w r).2 ∙ k.others_imm imm s h)
              | inr x ↦
                  rw x
                    (λ r. ap (λ (t : Status × State e × env.World). t.1.imm) (sym (some_inj r)) ∙ h)
            ]

    install_table-Applied :
        (status : Status) (s : State e) (w : env.World) (st : Status) (s2 : State e)
        (w2 : env.World)
        → install_table e env f is_ok others status new_edit s w ≡ some (st, s2, w2)
        → is_ok st ≡ true
        → (edit' : VersionEdit) × (log_and_apply e.config env is_ok
              (on_versions e others s)
              (flush_edit s)
              s.versions
              w
            ≡ some (st, edit', s2.versions, w2))
    unfolding install_table
    install_table-Applied status s w st s2 w2 =
        elim (Bool-cases (
          is_ok (
            if is_ok status && s.shutting_down
            then shutdown_error e env f is_ok others
            else status))) [
              | inl x ↦
                  rw x
                    (λ r h. let a = apply_edit-Applied e env f is_ok others k _ s w r in (a.0, a.1))
              | inr x ↦ rw x (λ r h.
                  let same = ap (λ (t : Status × State e × env.World). is_ok t.0) (some_inj r) in
                  absurd (ground (arith, same)))
            ]

    pub on_versions-KeepsFiles : (s : State e) → KeepsFiles e.config (on_versions e others s)
    on_versions-KeepsFiles s = record {
      ref_files = k.ref_files;
      unref_files = λ a v vs ne. k.unref_files a v vs;
      others_files = λ v vs. k.others_files v (record s { versions = vs });
    }

    flush_edit-apply :
        (s : State e) (pointer : ℕ → Bytes) (store : Store)
        → apply e.config.compare (flush_edit s) pointer new_levels store
          ≡ some (pointer, new_levels, store)
    unfolding apply apply_pointers apply_deleted apply_new new_levels set_log_number
        set_prev_log_number new_edit
    flush_edit-apply s pointer store = refl

    -- What the rest of CompactMemtable makes of what `install_table` returns.
    Lost : ℕ → State e → State e → Type 0
    Lost base s s' =
        (v : ℕ) × (s'.versions.current ≡ some v)
        × ((l : ℕ)
            → l < e.config.num_levels
            → (s'.versions.versions.object v).files l ≡ (s.versions.versions.object base).files l)

    finish_flush-Lost :
        (base : ℕ) (imm : e.MemTable) (status : Status) (s : State e) (w : env.World) (st : Status)
        (s2 : State e) (w2 : env.World) (s' : State e)
        → s.imm ≡ some imm
        → s.versions.current ≡ some base
        → install_table e env f is_ok others status new_edit s w ≡ some (st, s2, w2)
        → (finish_flush e env f is_ok others (st, s2, w2)).0 ≡ s'
        → s'.imm ≡ none
        → Lost base s s'
    unfolding finish_flush Lost
    finish_flush-Lost base imm status s w st s2 w2 s' has_imm cur ran =
        elim (Bool-cases (is_ok st)) [
          | inr x ↦ rw x (λ end gone.
              let still : s'.imm ≡ some imm =
                ap (λ (t : State e). t.imm) (sym end)
                ∙ k.error_imm st s2
                ∙ install_table-imm imm status new_edit s w st s2 w2 has_imm ran in
              absurd (ground arith))
          | inl x ↦ rw x (λ end gone.
              let (edit', applied) = install_table-Applied status s w st s2 w2 ran x in
              let (v, now, files) =
                log_and_apply-level_files e.config env is_ok (on_versions e others s)
                  (on_versions-KeepsFiles s) (flush_edit s) s.versions w base cur
                  (flush_edit-apply s s.versions.compact_pointer s.versions.store) applied x in
              let kept_versions : s'.versions ≡ s2.versions =
                ap (λ (t : State e). t.versions) (sym end)
                ∙ k.remove_versions (record s2 { imm = none; has_imm = false }) w2 in
              (
                v,
                ap (λ (u : VersionSet e.config.D). u.current) kept_versions ∙ now,
                λ l lt.
                    ap (λ (u : VersionSet e.config.D). (u.versions.object v).files l) kept_versions
                    ∙ files l lt
                    ∙ level_files-new_levels e (s.versions.versions.object base).files l,
              ))
        ]

    -- CompactMemtable loses what the memtable holds: if it gives up the immutable memtable, the
    -- version that is then current has on every level the same files as before.
    pub compact_memtable-loses :
        (s : State e) (w : env.World) (base : ℕ) {s' : State e} {w' : env.World}
        → s.versions.current ≡ some base
        → compact_memtable e env f is_ok others s w ≡ some (s', w')
        → s'.imm ≡ none
        → (v : ℕ) × (s'.versions.current ≡ some v)
          × ((l : ℕ)
              → l < e.config.num_levels
              → (s'.versions.versions.object v).files l ≡ (s.versions.versions.object base).files l)
    unfolding compact_memtable Lost
    compact_memtable-loses s w base {s'} cur h gone =
        >>=-elim s.imm _
          (λ m m_eq after_m.
            >>=-elim s.versions.current _
              (λ b b_eq after_b.
                >>=-elim (write_imm e env f is_ok others m b s w) _
                  (λ r written after_r.
                    let kept = write_imm-Flushed e env f is_ok others k m b s w written in
                    >>=-elim (install_table e env f is_ok others r.0 r.1 r.2 r.3) _
                      (λ q ran end.
                        let ran' =
                          subst
                            (λ (ed : VersionEdit).
                              install_table e env f is_ok others r.0 ed r.2 r.3 ≡ some q)
                            kept.same_edit ran in
                        let (v, now, files) =
                          finish_flush-Lost b m r.0 r.2 r.3 q.0 q.1 q.2 s' (kept.same_imm m m_eq)
                            (kept.same_current ∙ b_eq) ran'
                            (ap (λ (t : State e × env.World). t.0) (some_inj end)) gone in
                        let same_base : b ≡ base = some_inj (sym b_eq ∙ cur) in
                        (
                          v,
                          now,
                          λ l lt.
                              files l lt
                              ∙ ap (λ (fs : Files). fs l) (kept.same_files b)
                              ∙ ap (λ (a : ℕ). (s.versions.versions.object a).files l) same_base,
                        ))
                      after_r)
                  after_b)
              after_m)
          h
