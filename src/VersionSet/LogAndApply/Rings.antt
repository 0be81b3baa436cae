-- ===== src/VersionSet/LogAndApply/Rings.antt =====
-- The ring of versions under LogAndApply of leveldb/db/version_set.cc.
use leveldb_study.Base.{
  >>=-elim, ℕ, suc, ◌<◌, ◌≤◌, ◌≡◌, ◌≢◌, subst, sym, ap, Bool, true, Option, none, some, List, [],
  ◌∷◌, ◌++◌, All, All-append, arith, some_inj,
}
use leveldb_study.Status.{Status, Bytes}
use leveldb_study.Env.{Env}
use leveldb_study.VersionEdit.{VersionEdit}
use leveldb_study.VersionSet.Version.{Files}
use leveldb_study.VersionSet.Append.{append_version, link, release_current}
use leveldb_study.VersionSet.Append.Ring.{IsRing, Distinct, link-IsRing}
use leveldb_study.VersionSet.State.{Versions, VersionSet, Config, dummy}
use leveldb_study.VersionSet.LogAndApply.{place_version, install, log_and_apply}
use leveldb_study.VersionSet.LogAndApply.Steps.{install-ok, log_and_apply-Run}
use leveldb_study.VersionSet.LogAndApply.Outcome.{build-versions}

-- The versions of the list are those on the ring, each once, and all of them are allocated.
pub record OnRing {D : Type 0} (vs : Versions D) (xs : List ℕ) : Type 0 where
  pub ring : IsRing vs xs
  pub distinct : Distinct (dummy ∷ xs)
  pub bound : All (λ x. x < vs.fresh) (dummy ∷ xs)

-- Versions may leave the ring and none comes on it.
pub record Shrunk {D : Type 0} (vs vs' : Versions D) (xs : List ℕ) : Type 0 where
  pub left : List ℕ
  pub on : OnRing vs' left
  pub fewer : (n : ℕ) → All (λ x. n ≢ x) xs → All (λ x. n ≢ x) left
  pub grown : vs.fresh ≤ vs'.fresh

Shrunk-trans :
    {D : Type 0} {us vs ws : Versions D} {xs : List ℕ} (r : Shrunk us vs xs)
    → Shrunk vs ws r.left
    → Shrunk us ws xs
Shrunk-trans r q = record {
  left = q.left;
  on = q.on;
  fewer = λ n h. q.fewer n (r.fewer n h);
  grown = omega (arith, r.grown, q.grown);
}

ne_of_bound : (n : ℕ) (xs : List ℕ) → All (λ x. x < n) xs → All (λ x. n ≢ x) xs
ne_of_bound n [] h = tt
ne_of_bound n (x ∷ xs) h = (omega (arith, h.0), ne_of_bound n xs h.1)

bound_le : (n m : ℕ) (xs : List ℕ) → n ≤ m → All (λ x. x < n) xs → All (λ x. x < m) xs
bound_le n m [] le h = tt
bound_le n m (x ∷ xs) le h = (omega (arith, le, h.0), bound_le n m xs le h.1)

Distinct-snoc : (v : ℕ) (xs : List ℕ) → Distinct xs → All (λ x. v ≢ x) xs → Distinct (xs ++ v ∷ [])
Distinct-snoc v [] d h = (tt, tt)
Distinct-snoc v (x ∷ xs) d h =
    (All-append (λ y. x ≢ y) xs (v ∷ []) d.0 ((λ e. h.0 (sym e)), tt), Distinct-snoc v xs d.1 h.1)

link-OnRing :
    {D : Type 0} (vs : Versions D) (v : ℕ) (xs : List ℕ)
    → OnRing vs xs
    → All (λ x. v ≢ x) (dummy ∷ xs)
    → v < vs.fresh
    → OnRing (link v vs) (xs ++ v ∷ [])
unfolding link
link-OnRing vs v xs o new b = record {
  ring = link-IsRing vs v xs o.ring new.0 new.1 o.distinct;
  distinct = Distinct-snoc v (dummy ∷ xs) o.distinct new;
  bound = All-append (λ x. x < vs.fresh) (dummy ∷ xs) (v ∷ []) o.bound (b, tt);
}

module _ (c : Config) where
  -- References to a version take at most it off the ring, and other threads only drop references.
  pub record KeepsRing (others : VersionSet c.D → VersionSet c.D) : Type 0 where
    pub ref_ring :
        (a : ℕ) (vs : Versions c.D) (xs : List ℕ) → OnRing vs xs → Shrunk vs (c.ref a vs) xs
    pub unref_ring :
        (a : ℕ) (vs : Versions c.D) (xs : List ℕ) → OnRing vs xs → Shrunk vs (c.unref a vs) xs
    pub others_ring :
        (vs : VersionSet c.D) (xs : List ℕ)
        → OnRing vs.versions xs
        → Shrunk vs.versions (others vs).versions xs

  place_version-OnRing :
      (files : Files) (vs : VersionSet c.D) (xs : List ℕ)
      → OnRing vs.versions xs
      → let r = place_version c files vs in
        OnRing r.1.versions xs × All (λ x. r.0 ≢ x) (dummy ∷ xs) × (r.0 < r.1.versions.fresh)
  unfolding place_version
  place_version-OnRing files vs xs o =
      let n = vs.versions.fresh in
      (
        record {
          ring = o.ring;
          distinct = o.distinct;
          bound = bound_le n (suc n) (dummy ∷ xs) (omega arith) o.bound;
        },
        ne_of_bound n (dummy ∷ xs) o.bound,
        omega arith,
      )

  module _ (env : Env) (is_ok : Status → Bool) (others : VersionSet c.D → VersionSet c.D)
      (keeps : KeepsRing others) where
    release-Shrunk :
        (cur : Option ℕ) (vs : Versions c.D) (xs : List ℕ)
        → OnRing vs xs
        → Shrunk vs (release_current c cur vs) xs
    release-Shrunk none vs xs o = record {
      left = xs;
      on = o;
      fewer = λ n h. h;
      grown = omega arith;
    }
    release-Shrunk (some a) vs xs o = keeps.unref_ring a vs xs o

    -- The ring that AppendVersion leaves.
    abbrev Appended : VersionSet c.D → ℕ → List ℕ → Type 0
    Appended vs v xs =
        (left : List ℕ) × OnRing vs.versions (left ++ v ∷ [])
        × ((n : ℕ) → All (λ x. n ≢ x) xs → All (λ x. n ≢ x) left)

    append-Appended :
        (v : ℕ) (vs : VersionSet c.D) (xs : List ℕ) {vs' : VersionSet c.D}
        → OnRing vs.versions xs
        → All (λ x. v ≢ x) (dummy ∷ xs)
        → v < vs.versions.fresh
        → append_version c v vs ≡ some vs'
        → Appended vs' v xs
    unfolding append_version
    append-Appended v vs xs {vs'} o new b h =
        let r = release-Shrunk vs.current vs.versions xs o in
        let q =
          Shrunk-trans r
            (keeps.ref_ring v (release_current c vs.current vs.versions) r.left r.on) in
        let same : vs'.versions ≡ link v (c.ref v (release_current c vs.current vs.versions)) =
          ground arith in
        (
          q.left,
          subst (λ (u : Versions c.D). OnRing u (q.left ++ v ∷ [])) (sym same)
              (link-OnRing _ v q.left q.on (new.0, q.fewer v new.1) (omega (arith, q.grown, b))),
          q.fewer,
        )

    install-Appended :
        (s : Status) (name : Option Bytes) (e : VersionEdit) (v : ℕ) (vs : VersionSet c.D)
        (w : env.World) (xs : List ℕ) {vs' : VersionSet c.D} {w' : env.World}
        → is_ok s ≡ true
        → OnRing vs.versions xs
        → All (λ x. v ≢ x) (dummy ∷ xs)
        → v < vs.versions.fresh
        → install c env is_ok s name e v vs w ≡ some (vs', w')
        → Appended vs' v xs
    unfolding install
    install-Appended s name e v vs w xs k o new b = rw k (
        >>=-elim (append_version c v vs) _ λ vs1 p end.
          subst (λ (r : VersionSet c.D × env.World). Appended r.0 v xs) (some_inj end)
            (append-Appended v vs xs o new b p))

    -- An ok LogAndApply leaves a doubly linked ring of distinct versions that the new current version
    -- ends, and no version is before it that was not on the ring. Version::Ref and Unref and other
    -- threads are taken to keep a ring one and to put no version on it.
    pub log_and_apply-OnRing :
        (e : VersionEdit) (vs : VersionSet c.D) (w : env.World) (xs : List ℕ) {s : Status}
        {e' : VersionEdit} {vs' : VersionSet c.D} {w' : env.World}
        → OnRing vs.versions xs
        → log_and_apply c env is_ok others e vs w ≡ some (s, e', vs', w')
        → is_ok s ≡ true
        → (v : ℕ) × (left : List ℕ) × (vs'.current ≡ some v)
          × OnRing vs'.versions (left ++ v ∷ [])
          × ((n : ℕ) → All (λ x. n ≢ x) xs → All (λ x. n ≢ x) left)
    log_and_apply-OnRing e vs w xs {s} {e'} {vs'} o h k =
        let r = log_and_apply-Run c env is_ok others e vs w h in
        let v = (place_version c r.files r.built).0 in
        let held = keeps.ref_ring r.base vs.versions xs o in
        let freed =
          Shrunk-trans held
            (keeps.unref_ring r.base (c.ref r.base vs.versions) held.left held.on) in
        let built : OnRing r.built.versions freed.left =
          subst (λ (u : Versions c.D). OnRing u freed.left)
            (sym (build-versions c env is_ok r.prepared r.base vs r.build_eq)) freed.on in
        let (placed, new, b) = place_version-OnRing r.files r.built freed.left built in
        let described =
          subst (λ (u : Versions c.D). OnRing u freed.left) (sym r.described_versions) placed in
        let q = keeps.others_ring r.described freed.left described in
        let before = subst (λ (u : Versions c.D). OnRing u q.left) (sym r.before_versions) q.on in
        let grown : v < r.before.versions.fresh = omega (
          arith,
          b,
          q.grown,
          ap (λ (u : Versions c.D). u.fresh) r.described_versions,
          ap (λ (u : Versions c.D). u.fresh) r.before_versions,
        ) in
        let cur = install-ok c env is_ok s r.name e' v r.before r.world k r.install_eq in
        let (left, on, fewer) =
          install-Appended s r.name e' v r.before r.world q.left k before (new.0, q.fewer v new.1)
            grown r.install_eq in
        (v, left, cur.2, on, λ n a. fewer n (q.fewer n (freed.fewer n a)))
