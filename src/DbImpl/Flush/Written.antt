-- ===== src/DbImpl/Flush/Written.antt =====
-- What WriteLevel0Table and LogAndApply leave to CompactMemtable of leveldb/db/db_impl.cc.
use leveldb_study.Base.{>>=-elim, ℕ, ◌≡◌, refl, ◌∙◌, Bool, some, some_inj, [], arith, subst}
use leveldb_study.Status.{Status}
use leveldb_study.Env.{Env}
use leveldb_study.VersionEdit.{VersionEdit, FileMetaData, new_edit}
use leveldb_study.VersionSet.State.{Version, Versions}
use leveldb_study.VersionSet.LogAndApply.{log_and_apply}
use leveldb_study.TableBuilder.BuildTable.{build_table, build_table-file_size}
use leveldb_study.DbImpl.{External, State}
use leveldb_study.DbImpl.Flush.{
  FlushExternal, on_versions, add_level0_file, write_level0_table, apply_edit, write_imm,
}

module _ (e : External) (env : Env) (f : FlushExternal e env) (is_ok : Status → Bool)
    (others : State e → State e) where
  -- Versions that are deleted stay at their address; other threads install no version, and leave
  -- the files of versions and an immutable memtable alone; so does the recording of an error, and
  -- the removal of files leaves the version set alone.
  pub record KeepsImm : Type 0 where
    pub ref_files :
        (a v : ℕ) (vs : Versions e.config.D)
        → ((e.config.ref a vs).object v).files ≡ (vs.object v).files
    pub unref_files :
        (a v : ℕ) (vs : Versions e.config.D)
        → ((e.config.unref a vs).object v).files ≡ (vs.object v).files
    pub others_files :
        (v : ℕ) (s : State e)
        → ((others s).versions.versions.object v).files ≡ (s.versions.versions.object v).files
    pub others_current : (s : State e) → (others s).versions.current ≡ s.versions.current
    pub others_imm : (m : e.MemTable) (s : State e) → s.imm ≡ some m → (others s).imm ≡ some m
    pub error_imm :
        (status : Status) (s : State e) → (e.record_background_error status s).imm ≡ s.imm
    pub remove_versions :
        (s : State e) (w : env.World) → (f.remove_obsolete_files s w).0.versions ≡ s.versions

  -- What is there once the table is written.
  pub record Flushed (base : ℕ) (s : State e) (edit : VersionEdit) (s' : State e) : Type 0 where
    pub same_edit : edit ≡ new_edit
    pub same_current : s'.versions.current ≡ s.versions.current
    pub same_imm : (m : e.MemTable) → s.imm ≡ some m → s'.imm ≡ some m
    pub same_files :
        (v : ℕ) → (s'.versions.versions.object v).files ≡ (s.versions.versions.object v).files

  -- The base version is no longer referred to.
  abbrev unreferred : ℕ → State e → State e
  unreferred base s = record s {
    versions = record s.versions { versions = e.config.unref base s.versions.versions };
  }

  add_level0_file-empty :
      (status : Status) (meta : FileMetaData) (v : Version e.config.D)
      → meta.file_size ≡ 0
      → add_level0_file e env f is_ok others status meta v new_edit ≡ new_edit
  unfolding add_level0_file
  add_level0_file-empty status meta v h = ground (arith, h)

  module _ (k : KeepsImm) where
    pub write_imm-Flushed :
        (imm : e.MemTable) (base : ℕ) (s : State e) (w : env.World)
        {r : Status × VersionEdit × State e × env.World}
        → write_imm e env f is_ok others imm base s w ≡ some r
        → Flushed base s r.1 r.2
    unfolding write_imm write_level0_table
    write_imm-Flushed imm base s w h =
        let meta : FileMetaData = record {
          number = s.versions.next_file_number;
          file_size = 0;
          smallest = record { rep = [] };
          largest = record { rep = [] };
        } in
        let s1 = record s {
          versions = record s.versions { versions = e.config.ref base s.versions.versions };
        } in
        >>=-elim (write_level0_table e env f is_ok others imm new_edit base s1 w) _
          (λ q q_eq end.
            >>=-elim (build_table env f.tables is_ok e.config.dbname (f.new_iterator imm) meta w) _
              (λ b b_eq end_b.
                subst
                  (λ (r' : Status × VersionEdit × State e × env.World). Flushed base s r'.1 r'.2)
                  (some_inj end)
                  (subst
                    (λ (q' : Status × VersionEdit × State e × env.World).
                      Flushed base s q'.1 (unreferred base q'.2))
                    (some_inj end_b)
                    (record {
                      same_edit = add_level0_file-empty b.0 b.1 _ (
                          build_table-file_size env f.tables is_ok e.config.dbname
                            (f.new_iterator imm) meta w b_eq);
                      same_current = k.others_current _;
                      same_imm = λ m there. k.others_imm m _ there;
                      same_files = λ v.
                          k.unref_files base v _
                          ∙ k.others_files v _
                          ∙ k.ref_files base v s.versions.versions;
                    })))
              q_eq)
          h

    pub apply_edit-Applied :
        (edit : VersionEdit) (s : State e) (w : env.World) {st : Status} {s2 : State e}
        {w2 : env.World}
        → apply_edit e env f is_ok others edit s w ≡ some (st, s2, w2)
        → (edit' : VersionEdit) × (log_and_apply e.config env is_ok
              (on_versions e others s)
              edit
              s.versions
              w
            ≡ some (st, edit', s2.versions, w2))
          × (s2.imm ≡ (others s).imm)
    unfolding apply_edit
    apply_edit-Applied edit s w h =
        >>=-elim (log_and_apply e.config env is_ok (on_versions e others s) edit s.versions w) _
          (λ r p end.
            subst
              (λ (t : Status × State e × env.World).
                (edit' : VersionEdit) × (log_and_apply e.config env is_ok (on_versions e others s)
                    edit s.versions w
                  ≡ some (t.0, edit', t.1.versions, t.2))
                × (t.1.imm ≡ (others s).imm))
              (some_inj end) (r.1, p, refl))
          h
