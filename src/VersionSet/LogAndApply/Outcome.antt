-- ===== src/VersionSet/LogAndApply/Outcome.antt =====
-- What an ok LogAndApply of leveldb/db/version_set.cc leaves behind.
use leveldb_study.Base.{ℕ, ◌≤◌, ◌≡◌, ap, ◌∙◌, Bool, true, some, arith, if◌then◌else◌}
use leveldb_study.Status.{Status}
use leveldb_study.Env.{Env}
use leveldb_study.VersionEdit.{VersionEdit}
use leveldb_study.VersionSet.Version.{Files}
use leveldb_study.VersionSet.State.{Versions, VersionSet, Config}
use leveldb_study.VersionSet.LogAndApply.{build, place_version, log_and_apply}
use leveldb_study.VersionSet.LogAndApply.Steps.{prepare_lem, install-ok, Run, log_and_apply-Run}

module _ (c : Config) (env : Env) (is_ok : Status → Bool) where
  pub build-versions :
      (e : VersionEdit) (base : ℕ) (vs : VersionSet c.D) {vs' : VersionSet c.D} {files : Files}
      → build c e base vs ≡ some (vs', files)
      → vs'.versions ≡ c.unref base (c.ref base vs.versions)
  unfolding build
  build-versions e base vs h = ground arith

  fresh_eq :
      {others : VersionSet c.D → VersionSet c.D} {e : VersionEdit} {vs : VersionSet c.D}
      {s : Status} {e' : VersionEdit} {vs' : VersionSet c.D}
      (r : Run c env is_ok others e vs s e' vs')
      → some (place_version c r.files r.built).0
        ≡ some (c.unref r.base (c.ref r.base vs.versions)).fresh
  unfolding place_version
  fresh_eq {vs} r =
      ap (λ (u : Versions c.D). some u.fresh) (build-versions r.prepared r.base vs r.build_eq)

  -- When LogAndApply answers ok, the log numbers of the set are the edit's where the edit gave them,
  -- and otherwise stay; the log number does not fall; and the current version is a new one.
  pub log_and_apply-ok :
      (others : VersionSet c.D → VersionSet c.D) (e : VersionEdit) (vs : VersionSet c.D)
      (w : env.World) {s : Status} {e' : VersionEdit} {vs' : VersionSet c.D} {w' : env.World}
      → log_and_apply c env is_ok others e vs w ≡ some (s, e', vs', w')
      → is_ok s ≡ true
      → (vs'.log_number ≡ (if e.has_log_number then e.log_number else vs.log_number))
        × (vs'.prev_log_number
            ≡ (if e.has_prev_log_number then e.prev_log_number else vs.prev_log_number))
        × (vs.log_number ≤ vs'.log_number)
        × ((base : ℕ) × (vs.current ≡ some base)
            × (vs'.current ≡ some (c.unref base (c.ref base vs.versions)).fresh))
  log_and_apply-ok others e vs w {s} {e'} {vs'} h k =
      let r = log_and_apply-Run c env is_ok others e vs w h in
      let v = (place_version c r.files r.built).0 in
      let (log, prev, cur) = install-ok c env is_ok s r.name e' v r.before r.world k r.install_eq in
      let (l, p, n, q, up) = prepare_lem e vs r.prepare_eq in
      (
        log ∙ r.logs.0 ∙ l,
        prev ∙ r.logs.1 ∙ p,
        omega (arith, log, r.logs.0, up),
        (r.base, r.base_eq, cur ∙ fresh_eq r),
      )
