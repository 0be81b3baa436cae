-- ===== src/VersionSet/Builder/Levels.antt =====
-- What VersionSet::Builder::SaveTo of leveldb/db/version_set.cc leaves on all levels.

use leveldb_study.Base.{
  ℕ, zero, suc, ◌≡◌, refl, fun_ext, ap, Bool, true, false, ◌&&◌, ◌||◌, Ordering, none, some, List,
  [], ◌∷◌, arith, if◌then◌else◌, ltb, ◌==◌, update, keep, All, Bool-cases, inl, inr,
}
use leveldb_study.Order.{IsOrder}
use leveldb_study.VersionEdit.{InternalKey}
use leveldb_study.VersionSet.Version.{File, Files, by_smallest}
use leveldb_study.VersionSet.Merge.{merge, Ordered, merge-Ordered}
use leveldb_study.VersionSet.Builder.{Levels, save_level, save_to}
use leveldb_study.VersionSet.Builder.Saved.{kept, ref_all, disjoint, save_level-merge, add_all-kept}
use leveldb_study.VersionSet.Builder.Order.{by_smallest-IsWeakOrder}

module _ (compare : InternalKey → InternalKey → Ordering) (base : Files) (levels : Levels) where
  -- What a level should hold: its old and its new files by smallest key, less the deleted ones.
  abbrev pub level_files : Files
  level_files l =
      kept (levels l).deleted_files (merge (by_smallest compare) (base l) (levels l).added_files)

  -- Whether the assertion holds on each level below a number.
  abbrev pub all_disjoint : ℕ → Bool
  all_disjoint zero = true
  all_disjoint (suc l) = all_disjoint l && (l == 0 || disjoint compare (level_files l))

  -- The reference counts, with one more for each file on each level below a number.
  abbrev pub level_refs : ℕ → (ℕ → ℕ) → ℕ → ℕ
  level_refs zero refs = refs
  level_refs (suc l) refs = ref_all (level_files l) (level_refs l refs)

  abbrev pub below : ℕ → Files
  below n l = if ltb l n then level_files l else []

  below-zero : (l : ℕ) → [] ≡ below 0 l
  below-zero l = ground arith

  below_self : (n : ℕ) → below n n ≡ []
  below_self n = ground arith

  below-suc : (n : ℕ) → update (below n) n (level_files n) ≡ below (suc n)
  below-suc n = fun_ext λ l. ground arith

  save_level-kept :
      (l : ℕ) (refs : ℕ → ℕ)
      → save_level compare l (levels l).deleted_files (base l) (levels l).added_files ([], refs) ≡ (
          if l == 0 || disjoint compare (level_files l)
          then some (level_files l, ref_all (level_files l) refs)
          else none)
  save_level-kept l refs =
      rw (save_level-merge compare l (levels l).deleted_files (base l) (levels l).added_files)
        (add_all-kept compare l (levels l).deleted_files _ refs)

  -- SaveTo into an empty version gives each level the merge of its old and its added files less the
  -- deleted ones, and counts one reference for each; its assertion fails exactly when two
  -- neighbours on a level above 0 overlap.
  pub save_to-level_files :
      (n : ℕ) (refs : ℕ → ℕ)
      → save_to compare n base levels (λ _. [], refs)
        ≡ (if all_disjoint n then some (below n, level_refs n refs) else none)
  unfolding save_to
  save_to-level_files zero refs = ap (λ v. some (v, refs)) (fun_ext λ l. below-zero l)
  save_to-level_files (suc l) refs = elim (Bool-cases (all_disjoint l)) [
    | inl e ↦
        rw (save_to-level_files l refs, e, below_self l, save_level-kept l (level_refs l refs))
          (ground (arith, below-suc l))
    | inr e ↦ rw (save_to-level_files l refs, e) refl
  ]

module _ {compare : InternalKey → InternalKey → Ordering} (o : IsOrder compare) where
  keep-All : (P : File → Type 0) (p : File → Bool) (fs : List File) → All P fs → All P (keep p fs)
  keep-All P p [] h = tt
  keep-All P p (f ∷ fs) h = elim (Bool-cases (p f)) [
    | inl e ↦ rw e (h.0, keep-All P p fs h.1)
    | inr e ↦ rw e (keep-All P p fs h.1)
  ]

  keep-Ordered :
      (p : File → Bool) (fs : List File)
      → Ordered (by_smallest compare) fs
      → Ordered (by_smallest compare) (keep p fs)
  keep-Ordered p [] h = tt
  keep-Ordered p (f ∷ fs) h = elim (Bool-cases (p f)) [
    | inl e ↦ rw e (keep-All (λ y. by_smallest compare y f ≡ false) p fs h.0, keep-Ordered p fs h.1)
    | inr e ↦ rw e (keep-Ordered p fs h.1)
  ]

  -- A level is ordered if its old and its added files are.
  pub level_files-Ordered :
      (base : Files) (levels : Levels) (l : ℕ)
      → Ordered (by_smallest compare) (base l)
      → Ordered (by_smallest compare) (levels l).added_files
      → Ordered (by_smallest compare) (level_files compare base levels l)
  level_files-Ordered base levels l h k = keep-Ordered _ _ (
      merge-Ordered (by_smallest compare) (by_smallest-IsWeakOrder o) (base l)
        (levels l).added_files h k)
