-- ===== src/VersionSet/LogAndApply/NewVersion.antt =====
-- The files of the version that LogAndApply of leveldb/db/version_set.cc installs.
use leveldb_study.Base.{
  >>=-elim, ℕ, ◌<◌, ◌≡◌, ◌≢◌, refl, subst, sym, ap, ◌∙◌, Bool, true, false, Option, none, some,
  arith, some_inj, lt→ltb,
}
use leveldb_study.Status.{Status, Bytes}
use leveldb_study.Env.{Env}
use leveldb_study.VersionEdit.{
  VersionEdit, set_log_number, set_prev_log_number, set_next_file, set_last_sequence,
}
use leveldb_study.VersionSet.Version.{Files, Store, by_smallest}
use leveldb_study.VersionSet.Builder.{Levels, new_levels, apply}
use leveldb_study.VersionSet.Builder.Levels.{
  level_files, below, save_to-level_files, level_files-Ordered,
}
use leveldb_study.VersionSet.Builder.Order.{AllOrdered, apply-Ordered}
use leveldb_study.VersionSet.Merge.{Ordered}
use leveldb_study.Order.{IsOrder}
use leveldb_study.VersionSet.Append.{append_version, link, release_current, is_at}
use leveldb_study.VersionSet.Finalize.{finalize}
use leveldb_study.VersionSet.State.{Versions, VersionSet, Config}
use leveldb_study.VersionSet.LogAndApply.{prepare, build, place_version, install, log_and_apply}
use leveldb_study.VersionSet.LogAndApply.Steps.{install-ok, log_and_apply-Run}

-- References to one version leave the files of the others alone, and so do other threads.
pub record KeepsFiles (c : Config) (others : VersionSet c.D → VersionSet c.D) : Type 0 where
  pub ref_files :
      (a v : ℕ) (vs : Versions c.D) → ((c.ref a vs).object v).files ≡ (vs.object v).files
  pub unref_files :
      (a v : ℕ) (vs : Versions c.D) → a ≢ v → ((c.unref a vs).object v).files ≡ (vs.object v).files
  pub others_files :
      (v : ℕ) (vs : VersionSet c.D)
      → ((others vs).versions.object v).files ≡ (vs.versions.object v).files

pub prepare-apply :
    (c : Config) (e : VersionEdit) (vs : VersionSet c.D) {e' : VersionEdit}
    → prepare e vs ≡ some e'
    → apply c.compare e' vs.compact_pointer new_levels vs.store
      ≡ apply c.compare e vs.compact_pointer new_levels vs.store
unfolding prepare apply set_log_number set_prev_log_number set_next_file set_last_sequence
prepare-apply c e vs h = ground arith

build-files :
    (c : Config) (e : VersionEdit) (base : ℕ) (vs : VersionSet c.D) {vs' : VersionSet c.D}
    {files : Files} {pointer : ℕ → Bytes} {levels : Levels} {store : Store}
    → apply c.compare e vs.compact_pointer new_levels vs.store ≡ some (pointer, levels, store)
    → build c e base vs ≡ some (vs', files)
    → files ≡ below c.compare ((c.ref base vs.versions).object base).files levels c.num_levels
unfolding build
build-files c e base vs {levels} {store} a h = ground (
  arith,
  save_to-level_files c.compare ((c.ref base vs.versions).object base).files levels c.num_levels
      store.refs,
)

place_version-files :
    (c : Config) (files : Files) (vs : VersionSet c.D)
    → let r = place_version c files vs in (r.1.versions.object r.0).files ≡ files
unfolding place_version finalize
place_version-files c files vs = ground arith

module _ (c : Config) (env : Env) (is_ok : Status → Bool) where
  module _ (others : VersionSet c.D → VersionSet c.D) (keeps : KeepsFiles c others) where
    release-files :
        (cur : Option ℕ) (v : ℕ) (vs : Versions c.D)
        → is_at cur v ≡ false
        → ((release_current c cur vs).object v).files ≡ (vs.object v).files
    release-files none v vs h = refl
    release-files (some a) v vs h = keeps.unref_files a v vs (ground arith)

    append-files :
        (v : ℕ) (vs : VersionSet c.D) {vs' : VersionSet c.D}
        → append_version c v vs ≡ some vs'
        → (vs'.versions.object v).files ≡ (vs.versions.object v).files
    unfolding append_version link
    append-files v vs h = ground (
      arith,
      release-files vs.current v vs.versions,
      keeps.ref_files v v (release_current c vs.current vs.versions),
    )

    install-files :
        (s : Status) (name : Option Bytes) (e : VersionEdit) (v : ℕ) (vs : VersionSet c.D)
        (w : env.World) {vs' : VersionSet c.D} {w' : env.World}
        → is_ok s ≡ true
        → install c env is_ok s name e v vs w ≡ some (vs', w')
        → (vs'.versions.object v).files ≡ (vs.versions.object v).files
    unfolding install
    install-files s name e v vs w k = rw k (
        >>=-elim (append_version c v vs) _ λ vs1 p end.
          ap (λ (r : VersionSet c.D × env.World). (r.0.versions.object v).files)
            (sym (some_inj end))
          ∙ append-files v vs p)

    -- The version that an ok LogAndApply makes current holds on every level the merge of the old
    -- version's files and the added ones by smallest key, less the deleted ones.
    pub log_and_apply-level_files :
        (e : VersionEdit) (vs : VersionSet c.D) (w : env.World) (base : ℕ) {s : Status}
        {e' : VersionEdit} {vs' : VersionSet c.D} {w' : env.World} {pointer : ℕ → Bytes}
        {levels : Levels} {store : Store}
        → vs.current ≡ some base
        → apply c.compare e vs.compact_pointer new_levels vs.store ≡ some (pointer, levels, store)
        → log_and_apply c env is_ok others e vs w ≡ some (s, e', vs', w')
        → is_ok s ≡ true
        → (v : ℕ) × (vs'.current ≡ some v)
          × ((l : ℕ)
              → l < c.num_levels
              → (vs'.versions.object v).files l
                ≡ level_files c.compare (vs.versions.object base).files levels l)
    log_and_apply-level_files e vs w base {s} {e'} {vs'} {levels} b a h k =
        let r = log_and_apply-Run c env is_ok others e vs w h in
        let v = (place_version c r.files r.built).0 in
        let cur = install-ok c env is_ok s r.name e' v r.before r.world k r.install_eq in
        let same_base : r.base ≡ base = some_inj (sym r.base_eq ∙ b) in
        let built =
          build-files c r.prepared r.base vs (prepare-apply c e vs r.prepare_eq ∙ a) r.build_eq in
        let kept_files =
          install-files s r.name e' v r.before r.world k r.install_eq
          ∙ ap (λ (u : Versions c.D). (u.object v).files) r.before_versions
          ∙ keeps.others_files v r.described
          ∙ ap (λ (u : Versions c.D). (u.object v).files) r.described_versions
          ∙ place_version-files c r.files r.built
          ∙ built
          ∙ ap (λ (f : Files). below c.compare f levels c.num_levels)
              (keeps.ref_files r.base r.base vs.versions)
          ∙ ap (λ (b' : ℕ). below c.compare (vs.versions.object b').files levels c.num_levels)
              same_base in
        (v, cur.2, λ l lt. ap (λ (f : Files). f l) kept_files ∙ below-lt l lt)
      where
        below-lt :
            (l : ℕ)
            → l < c.num_levels
            → below c.compare (vs.versions.object base).files levels c.num_levels l
              ≡ level_files c.compare (vs.versions.object base).files levels l
        below-lt l lt = rw (lt→ltb l c.num_levels lt) refl

    -- If the comparator is an order and every level of the current version is ordered by smallest key,
    -- so is every level of the version that an ok LogAndApply makes current. References to a version and
    -- other threads are taken to leave the files of versions alone.
    pub log_and_apply-Ordered :
        (e : VersionEdit) (vs : VersionSet c.D) (w : env.World) (base : ℕ) {s : Status}
        {e' : VersionEdit} {vs' : VersionSet c.D} {w' : env.World} {pointer : ℕ → Bytes}
        {levels : Levels} {store : Store}
        → IsOrder c.compare
        → ((l : ℕ) → Ordered (by_smallest c.compare) ((vs.versions.object base).files l))
        → vs.current ≡ some base
        → apply c.compare e vs.compact_pointer new_levels vs.store ≡ some (pointer, levels, store)
        → log_and_apply c env is_ok others e vs w ≡ some (s, e', vs', w')
        → is_ok s ≡ true
        → (v : ℕ) × (vs'.current ≡ some v)
          × ((l : ℕ)
              → l < c.num_levels
              → Ordered (by_smallest c.compare) ((vs'.versions.object v).files l))
    log_and_apply-Ordered e vs w base {levels} o sorted b a h k =
        let (v, cur, files) = log_and_apply-level_files e vs w base b a h k in
        (
          v,
          cur,
          λ l lt. subst (Ordered (by_smallest c.compare)) (sym (files l lt)) (
              level_files-Ordered o (vs.versions.object base).files levels l (sorted l)
                (apply-Ordered o e vs.compact_pointer new_levels vs.store a new_levels-Ordered l)),
        )
      where
        new_levels-Ordered : AllOrdered o new_levels
        new_levels-Ordered l = unfold new_levels in tt
