-- ===== src/VersionSet/LogAndApply/Picked.antt =====
-- The level that Finalize picks for the version that LogAndApply of leveldb/db/version_set.cc installs.
use leveldb_study.Base.{
  >>=-elim, ℕ, ◌-◌, ◌<◌, ◌≡◌, ◌≢◌, refl, subst, sym, ap, ◌∙◌, Bool, true, false, Option, none, some,
  arith, some_inj, update_self,
}
use leveldb_study.Status.{Status, Bytes}
use leveldb_study.Env.{Env}
use leveldb_study.Order.{IsWeakOrder}
use leveldb_study.VersionEdit.{VersionEdit}
use leveldb_study.VersionSet.Version.{Files}
use leveldb_study.VersionSet.Append.{append_version, link, release_current, is_at}
use leveldb_study.VersionSet.Finalize.{finalize, score, IsPick, finalize-IsPick}
use leveldb_study.VersionSet.State.{Version, Versions, VersionSet, Config}
use leveldb_study.VersionSet.LogAndApply.{place_version, install, log_and_apply}
use leveldb_study.VersionSet.LogAndApply.Steps.{install-ok, log_and_apply-Run}

module _ (c : Config) where
  -- A version without its links and references.
  abbrev pub View : Type 0
  View = Files × Option ℕ × c.D

  abbrev pub view : Version c.D → View
  view v = (v.files, v.compaction_level, v.compaction_score)

  -- References to a version leave all of it but the count alone, unless it is deleted, and other
  -- threads leave versions alone.
  pub record KeepsViews (others : VersionSet c.D → VersionSet c.D) : Type 0 where
    pub ref_view : (a v : ℕ) (vs : Versions c.D) → view ((c.ref a vs).object v) ≡ view (vs.object v)
    pub unref_view :
        (a v : ℕ) (vs : Versions c.D) → a ≢ v → view ((c.unref a vs).object v) ≡ view (vs.object v)
    pub others_view :
        (v : ℕ) (vs : VersionSet c.D)
        → view ((others vs).versions.object v) ≡ view (vs.versions.object v)

  -- The picked level has the first of the greatest scores of the files.
  abbrev pub IsPicked : View → Type 0
  IsPicked (files, level, s) =
      IsPick c files (c.num_levels - 1) level s
      × ((l : ℕ) → l < c.num_levels - 1 → c.less s (score c files l) ≡ false)

  finalize-IsPicked : IsWeakOrder c.less → (v : Version c.D) → IsPicked (view (finalize c v))
  unfolding finalize
  finalize-IsPicked o v = finalize-IsPick c o v

  place_version-IsPicked :
      IsWeakOrder c.less
      → (files : Files) (vs : VersionSet c.D)
      → let r = place_version c files vs in IsPicked (view (r.1.versions.object r.0))
  unfolding place_version
  place_version-IsPicked o files vs = rw (update_self vs.versions.object vs.versions.fresh _) (
      finalize-IsPicked o (record {
        files = files;
        compaction_score = c.minus_one;
        compaction_level = none;
        refs = 0;
      }))

  module _ (env : Env) (is_ok : Status → Bool) (others : VersionSet c.D → VersionSet c.D)
      (keeps : KeepsViews others) where
    release-view :
        (cur : Option ℕ) (v : ℕ) (vs : Versions c.D)
        → is_at cur v ≡ false
        → view ((release_current c cur vs).object v) ≡ view (vs.object v)
    release-view none v vs h = refl
    release-view (some a) v vs h = keeps.unref_view a v vs (ground arith)

    append-view :
        (v : ℕ) (vs : VersionSet c.D) {vs' : VersionSet c.D}
        → append_version c v vs ≡ some vs'
        → view (vs'.versions.object v) ≡ view (vs.versions.object v)
    unfolding append_version link
    append-view v vs h = ground (
      arith,
      release-view vs.current v vs.versions,
      keeps.ref_view v v (release_current c vs.current vs.versions),
    )

    install-view :
        (s : Status) (name : Option Bytes) (e : VersionEdit) (v : ℕ) (vs : VersionSet c.D)
        (w : env.World) {vs' : VersionSet c.D} {w' : env.World}
        → is_ok s ≡ true
        → install c env is_ok s name e v vs w ≡ some (vs', w')
        → view (vs'.versions.object v) ≡ view (vs.versions.object v)
    unfolding install
    install-view s name e v vs w k = rw k (
        >>=-elim (append_version c v vs) _ λ vs1 p end.
          ap (λ (r : VersionSet c.D × env.World). view (r.0.versions.object v)) (sym (some_inj end))
          ∙ append-view v vs p)

    -- The version that an ok LogAndApply makes current has a compaction score that no level of its own
    -- files but the last exceeds, and its compaction level is the first with that score, or none if
    -- all score -1 or less. Scores are weakly ordered; references and other threads are taken to leave
    -- versions alone.
    pub log_and_apply-IsPicked :
        (e : VersionEdit) (vs : VersionSet c.D) (w : env.World) {s : Status} {e' : VersionEdit}
        {vs' : VersionSet c.D} {w' : env.World}
        → IsWeakOrder c.less
        → log_and_apply c env is_ok others e vs w ≡ some (s, e', vs', w')
        → is_ok s ≡ true
        → (v : ℕ) × (vs'.current ≡ some v) × IsPicked (view (vs'.versions.object v))
    log_and_apply-IsPicked e vs w {s} {e'} {vs'} o h k =
        let r = log_and_apply-Run c env is_ok others e vs w h in
        let v = (place_version c r.files r.built).0 in
        let cur = install-ok c env is_ok s r.name e' v r.before r.world k r.install_eq in
        let kept =
          install-view s r.name e' v r.before r.world k r.install_eq
          ∙ ap (λ (u : Versions c.D). view (u.object v)) r.before_versions
          ∙ keeps.others_view v r.described
          ∙ ap (λ (u : Versions c.D). view (u.object v)) r.described_versions in
        (v, cur.2, subst IsPicked (sym kept) (place_version-IsPicked o r.files r.built))
