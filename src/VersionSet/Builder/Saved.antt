-- ===== src/VersionSet/Builder/Saved.antt =====
-- What VersionSet::Builder::SaveTo of leveldb/db/version_set.cc leaves on a level.
use leveldb_study.Base.{
  ◌>>=◌, >>=_assoc, >>=_cong, ℕ, ◌+◌, ◌≡◌, refl, sym, ◌∙◌, Bool, true, not, ◌&&◌, ◌||◌, Ordering,
  none, some, List, [], ◌∷◌, ◌++◌, arith, if◌then◌else◌, ◌==◌, update, has, keep, append-nil,
  append_assoc,
}
use leveldb_study.Order.{is_lt}
use leveldb_study.VersionEdit.{InternalKey}
use leveldb_study.VersionSet.Version.{File, by_smallest}
use leveldb_study.VersionSet.Merge.{merge, before_upper, from_upper}
use leveldb_study.VersionSet.Builder.{follows, maybe_add_file, add_all, save_level}

-- The files that a level's deletions leave.
abbrev pub kept : List ℕ → List File → List File
kept deleted = keep (λ f. not (has f.meta.number deleted))

pub kept-nil : (fs : List File) → kept [] fs ≡ fs
kept-nil [] = refl
kept-nil (f ∷ fs) = ground (arith, kept-nil fs)

-- One more reference for each file of the list.
unfoldable pub ref_all : List File → (ℕ → ℕ) → ℕ → ℕ
ref_all [] refs = refs
ref_all (f ∷ fs) refs = ref_all fs (update refs f.addr (refs f.addr + 1))

module _ (compare : InternalKey → InternalKey → Ordering) where
  -- Each file ends before the next one begins, the first one behind `g`.
  abbrev pub disjoint_after : File → List File → Bool
  disjoint_after g [] = true
  disjoint_after g (f ∷ fs) = is_lt (compare g.meta.largest f.meta.smallest) && disjoint_after f fs

  abbrev pub disjoint : List File → Bool
  disjoint [] = true
  disjoint (f ∷ fs) = disjoint_after f fs

  follows-append :
      (fs : List File) (g f : File)
      → follows compare (fs ++ g ∷ []) f ≡ is_lt (compare g.meta.largest f.meta.smallest)
  unfolding follows
  follows-append [] g f = refl
  follows-append (h ∷ []) g f = refl
  follows-append (h ∷ k ∷ fs) g f = follows-append (k ∷ fs) g f

  add_all-append :
      (level : ℕ) (deleted : List ℕ) (fs gs : List File) (s : List File × (ℕ → ℕ))
      → add_all compare level deleted (fs ++ gs) s
        ≡ (add_all compare level deleted fs s >>= add_all compare level deleted gs)
  unfolding add_all
  add_all-append level deleted [] gs s = refl
  add_all-append level deleted (f ∷ fs) gs s =
      let step = maybe_add_file compare level deleted s f in
      >>=_cong step _ _ (add_all-append level deleted fs gs)
      ∙ sym (>>=_assoc step (add_all compare level deleted fs) (add_all compare level deleted gs))

  -- The interleaving of the loops in SaveTo is one run of MaybeAddFile over the merge.
  pub save_level-merge :
      (level : ℕ) (deleted : List ℕ) (base added : List File) (s : List File × (ℕ → ℕ))
      → save_level compare level deleted base added s
        ≡ add_all compare level deleted (merge (by_smallest compare) base added) s
  unfolding save_level merge add_all
  save_level-merge level deleted base [] s = refl
  save_level-merge level deleted base (f ∷ added) s =
      let less = by_smallest compare in
      let front = before_upper less f base in
      let back = from_upper less f base in
      >>=_cong (add_all compare level deleted front s) _ _ (λ s1.
        >>=_cong (maybe_add_file compare level deleted s1 f) _ _
          (save_level-merge level deleted back added))
      ∙ sym (add_all-append level deleted front (f ∷ merge less back added) s)

  add_all_after :
      (level : ℕ) (deleted : List ℕ) (fs before : List File) (g : File) (refs : ℕ → ℕ)
      → add_all compare level deleted fs (before ++ g ∷ [], refs) ≡ (
          if level == 0 || disjoint_after g (kept deleted fs)
          then some ((before ++ g ∷ []) ++ kept deleted fs, ref_all (kept deleted fs) refs)
          else none)
  unfolding add_all maybe_add_file ref_all
  add_all_after level deleted [] before g refs = ground (arith, append-nil (before ++ g ∷ []))
  add_all_after level deleted (f ∷ fs) before g refs =
      let refs' = update refs f.addr (refs f.addr + 1) in
      ground (
        arith,
        follows-append before g f,
        add_all_after level deleted fs before g refs,
        add_all_after level deleted fs (before ++ g ∷ []) f refs',
        append_assoc (before ++ g ∷ []) (f ∷ []) (kept deleted fs),
      )

  -- On an empty level, MaybeAddFile over a list keeps the files that are not deleted, in order,
  -- and takes a reference to each; above level 0 it asserts that these are disjoint.
  pub add_all-kept :
      (level : ℕ) (deleted : List ℕ) (fs : List File) (refs : ℕ → ℕ)
      → add_all compare level deleted fs ([], refs) ≡ (
          if level == 0 || disjoint (kept deleted fs)
          then some (kept deleted fs, ref_all (kept deleted fs) refs)
          else none)
  unfolding add_all maybe_add_file ref_all follows
  add_all-kept level deleted [] refs = ground arith
  add_all-kept level deleted (f ∷ fs) refs = ground (
    arith,
    add_all-kept level deleted fs refs,
    add_all_after level deleted fs [] f (update refs f.addr (refs f.addr + 1)),
  )
