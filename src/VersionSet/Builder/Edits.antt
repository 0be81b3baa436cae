-- ===== src/VersionSet/Builder/Edits.antt =====
-- What VersionSet::Builder::Apply of leveldb/db/version_set.cc collects, by the files that the edit
-- names.
use leveldb_study.Base.{
  ℕ, ◌≡◌, refl, ◌∙◌, ap, sym, subst, Bool, true, false, not, ◌&&◌, ◌||◌, Ordering, some, List, [],
  ◌∷◌, arith, has, put, erase, ◌==◌, All, Bool-cases, inl, inr, ◌⊎◌,
}
use leveldb_study.Order.{IsOrder}
use leveldb_study.Status.{Bytes}
use leveldb_study.VersionEdit.{InternalKey, FileMetaData, VersionEdit, has_pair}
use leveldb_study.VersionSet.Version.{File, Store, by_smallest}
use leveldb_study.VersionSet.Builder.{
  Levels, new_levels, insert_file, apply_one, apply_new, apply_deleted, apply,
}
use leveldb_study.VersionSet.Builder.Order.{by_smallest-IsWeakOrder, All-insert_file}

-- A file of this number is among the new files of the level.
abbrev pub is_new : ℕ → ℕ → List (ℕ × FileMetaData) → Bool
is_new l n [] = false
is_new l n ((k, m) ∷ fs) = (l == k && n == m.number) || is_new l n fs

-- The file with this data is among the new files of the level.
abbrev pub Listed : ℕ → FileMetaData → List (ℕ × FileMetaData) → Type 0
Listed l meta [] = true ≡ false
Listed l meta ((k, m) ∷ fs) = ((k ≡ l) × (m ≡ meta)) ⊎ Listed l meta fs

has-put : (n m : ℕ) (s : List ℕ) → has n (put m s) ≡ (n == m || has n s)
has-put n m s = elim (Bool-cases (n == m)) [
  | inl e ↦
      let same : n ≡ m = ground arith in
      subst (λ k. has n (put k s) ≡ (n == k || has n s)) same (ground arith)
  | inr e ↦ rw e (ground arith)
]

has-erase : (n m : ℕ) (s : List ℕ) → has n (erase m s) ≡ (not (n == m) && has n s)
has-erase n m [] = ground arith
has-erase n m (k ∷ s) = ground (arith, has-erase n m s)

has-apply_deleted :
    (l n : ℕ) (ds : List (ℕ × ℕ)) (levels : Levels)
    → has n (apply_deleted ds levels l).deleted_files
      ≡ (has_pair l n ds || has n (levels l).deleted_files)
unfolding apply_deleted
has-apply_deleted l n [] levels = refl
has-apply_deleted l n ((level, number) ∷ ds) levels =
    has-apply_deleted l n ds _ ∙ elim (Bool-cases (l == level)) [
      | inl e ↦
          let same : levels level ≡ levels l = ap levels (ground arith) in
          rw (e, same) (ground (arith, has-put n number (levels l).deleted_files))
      | inr e ↦ rw e refl
    ]

apply_deleted-added :
    (l : ℕ) (ds : List (ℕ × ℕ)) (levels : Levels)
    → (apply_deleted ds levels l).added_files ≡ (levels l).added_files
unfolding apply_deleted
apply_deleted-added l [] levels = refl
apply_deleted-added l ((level, number) ∷ ds) levels =
    apply_deleted-added l ds _ ∙ elim (Bool-cases (l == level)) [
      | inl e ↦ let same : levels level ≡ levels l = ap levels (ground arith) in rw (e, same) refl
      | inr e ↦ rw e refl
    ]

none_added : (l : ℕ) (ds : List (ℕ × ℕ)) → (apply_deleted ds new_levels l).added_files ≡ []
unfolding new_levels
none_added l ds = apply_deleted-added l ds new_levels

module _ (compare : InternalKey → InternalKey → Ordering) where
  has-apply_new :
      (l n : ℕ) (fs : List (ℕ × FileMetaData)) (levels : Levels) (store : Store)
      → has n ((apply_new compare fs (levels, store)).0 l).deleted_files
        ≡ (not (is_new l n fs) && has n (levels l).deleted_files)
  unfolding apply_new apply_one
  has-apply_new l n [] levels store = refl
  has-apply_new l n ((level, meta) ∷ fs) levels store =
      has-apply_new l n fs _ _ ∙ elim (Bool-cases (l == level)) [
        | inl e ↦
            let same : levels level ≡ levels l = ap levels (ground arith) in
            rw (e, same) (ground (arith, has-erase n meta.number (levels l).deleted_files))
        | inr e ↦ rw e refl
      ]

  -- A file that the order does not tell from the one with this data is in the list.
  abbrev pub Stands : FileMetaData → List File → Type 0
  Stands meta [] = true ≡ false
  Stands meta (g ∷ gs) =
      let f : File = record { addr = 0; meta = meta } in
      ((by_smallest compare f g ≡ false) × (by_smallest compare g f ≡ false)) ⊎ Stands meta gs

  -- What an edit makes of the levels: a number is deleted on a level if the edit deletes it there and
  -- adds no file of it there; each added file has the data of a new file of the edit on that level;
  -- and for each of these a file stands there that the order does not tell from it.
  pub record IsEdit (e : VersionEdit) (levels : Levels) : Type 0 where
    pub deleted :
        (l n : ℕ)
        → has n (levels l).deleted_files
          ≡ (has_pair l n e.deleted_files && not (is_new l n e.new_files))
    pub only : (l : ℕ) → All (λ (g : File). Listed l g.meta e.new_files) (levels l).added_files
    pub every :
        (l : ℕ) (meta : FileMetaData)
        → Listed l meta e.new_files
        → Stands meta (levels l).added_files

  module _ (o : IsOrder compare) where
    apply_new-All :
        (P : FileMetaData → Type 0) (l : ℕ) (fs : List (ℕ × FileMetaData)) (levels : Levels)
        (store : Store)
        → All (λ (g : File). P g.meta) (levels l).added_files
        → ((meta : FileMetaData) → Listed l meta fs → P meta)
        → All (λ (g : File). P g.meta) ((apply_new compare fs (levels, store)).0 l).added_files
    unfolding apply_new apply_one
    apply_new-All P l [] levels store h k = h
    apply_new-All P l ((level, meta) ∷ fs) levels store h k =
        let r = apply_one compare level meta (levels, store) in
        apply_new-All P l fs r.0 r.1 (first (Bool-cases (l == level))) (λ m there. k m (inr there))
      where
        first :
            ((l == level) ≡ true) ⊎ ((l == level) ≡ false)
            → All
                (λ (g : File). P g.meta)
                ((apply_one compare level meta (levels, store)).0 l).added_files
        first (inl e) =
            let same : level ≡ l = ground arith in
            rw (e, ap levels same)
              (All-insert_file o (λ (g : File). P g.meta) _ (levels l).added_files
                (k meta (inl (same, refl))) h)
        first (inr e) = rw e h

    irrefl : (f : File) → by_smallest compare f f ≡ false
    irrefl f = elim (Bool-cases (by_smallest compare f f)) [
      | inl e ↦ (by_smallest-IsWeakOrder o).asym f f e
      | inr e ↦ e
    ]

    insert_file-Stands : (f : File) (gs : List File) → Stands f.meta (insert_file compare f gs)
    unfolding insert_file by_smallest
    insert_file-Stands f [] = inl (irrefl f, irrefl f)
    insert_file-Stands f (g ∷ gs) = elim (Bool-cases (by_smallest compare f g)) [
      | inl e ↦ rw e (inl (irrefl f, irrefl f))
      | inr e ↦ elim (Bool-cases (by_smallest compare g f)) [
        | inl p ↦ rw (e, p) (inr (insert_file-Stands f gs))
        | inr p ↦ rw (e, p) (inl (e, p))
      ]
    ]

    Stands-insert_file :
        (meta : FileMetaData) (f : File) (gs : List File)
        → Stands meta gs
        → Stands meta (insert_file compare f gs)
    unfolding insert_file
    Stands-insert_file meta f [] h = inr h
    Stands-insert_file meta f (g ∷ gs) h = elim (Bool-cases (by_smallest compare f g)) [
      | inl e ↦ rw e (inr h)
      | inr e ↦ elim (Bool-cases (by_smallest compare g f)) [
        | inr p ↦ rw (e, p) h
        | inl p ↦ elim h [
          | inl here ↦ rw (e, p) (inl here)
          | inr there ↦ rw (e, p) (inr (Stands-insert_file meta f gs there))
        ]
      ]
    ]

    apply_one-Stands :
        (meta m : FileMetaData) (l level : ℕ) (levels : Levels) (store : Store)
        → Stands meta (levels l).added_files
        → Stands meta ((apply_one compare level m (levels, store)).0 l).added_files
    unfolding apply_one
    apply_one-Stands meta m l level levels store h = elim (Bool-cases (l == level)) [
      | inl e ↦
          let same : level ≡ l = ground arith in
          rw (e, ap levels same) (Stands-insert_file meta _ (levels l).added_files h)
      | inr e ↦ rw e h
    ]

    apply_new-Stands :
        (meta : FileMetaData) (l : ℕ) (fs : List (ℕ × FileMetaData)) (levels : Levels)
        (store : Store)
        → Stands meta (levels l).added_files
        → Stands meta ((apply_new compare fs (levels, store)).0 l).added_files
    unfolding apply_new
    apply_new-Stands meta l [] levels store h = h
    apply_new-Stands meta l ((level, m) ∷ fs) levels store h =
        apply_new-Stands meta l fs _ _ (apply_one-Stands meta m l level levels store h)

    apply_one-new :
        (meta : FileMetaData) (l : ℕ) (levels : Levels) (store : Store)
        → Stands meta ((apply_one compare l meta (levels, store)).0 l).added_files
    unfolding apply_one
    apply_one-new meta l levels store =
        let here : (l == l) ≡ true = ground arith in
        rw here
          (insert_file-Stands (record { addr = store.fresh; meta = meta }) (levels l).added_files)

    Listed-Stands :
        (meta : FileMetaData) (l : ℕ) (fs : List (ℕ × FileMetaData)) (levels : Levels)
        (store : Store)
        → Listed l meta fs
        → Stands meta ((apply_new compare fs (levels, store)).0 l).added_files
    unfolding apply_new
    Listed-Stands meta l [] levels store h = cc
    Listed-Stands meta l ((level, m) ∷ fs) levels store (inl (at, same)) =
        let r = apply_one compare level m (levels, store) in
        apply_new-Stands meta l fs r.0 r.1 (
          subst (λ k. Stands meta ((apply_one compare k m (levels, store)).0 l).added_files)
            (sym at)
            (subst (λ x. Stands x ((apply_one compare l m (levels, store)).0 l).added_files) same
              (apply_one-new m l levels store)))
    Listed-Stands meta l ((level, m) ∷ fs) levels store (inr there) =
        Listed-Stands meta l fs _ _ there

    pub apply-IsEdit :
        (e : VersionEdit) (pointer : ℕ → Bytes) (store : Store) {pointer' : ℕ → Bytes}
        {levels : Levels} {store' : Store}
        → apply compare e pointer new_levels store ≡ some (pointer', levels, store')
        → IsEdit e levels
    unfolding apply new_levels
    apply-IsEdit e pointer store {levels} h =
        let mid = apply_deleted e.deleted_files new_levels in
        let same : (apply_new compare e.new_files (mid, store)).0 ≡ levels = ground arith in
        subst (IsEdit e) same (record {
          deleted = λ l n.
              has-apply_new l n e.new_files mid store
              ∙ rw (has-apply_deleted l n e.deleted_files new_levels) (ground arith);
          only = λ l.
              apply_new-All (λ meta. Listed l meta e.new_files) l e.new_files mid store
                (subst (All (λ (g : File). Listed l g.meta e.new_files))
                  (sym (none_added l e.deleted_files)) tt)
                (λ meta there. there);
          every = λ l meta there. Listed-Stands meta l e.new_files mid store there;
        })
