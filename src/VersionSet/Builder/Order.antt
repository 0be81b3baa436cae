-- ===== src/VersionSet/Builder/Order.antt =====
-- The order of files in leveldb/db/version_set.cc: `BySmallestKey` and the sets that it orders.
use leveldb_study.Base.{
  ℕ, ◌≡◌, subst, false, Ordering, List, [], ◌∷◌, arith, All, Bool-cases, inl, inr, ◌==◌, some,
}
use leveldb_study.Order.{IsOrder, IsWeakOrder, flip_eq, eq_right}
use leveldb_study.VersionEdit.{InternalKey, FileMetaData, VersionEdit}
use leveldb_study.VersionSet.Version.{File, Store, by_smallest}
use leveldb_study.VersionSet.Merge.{Ordered, All-le_trans}
use leveldb_study.Status.{Bytes}
use leveldb_study.VersionSet.Builder.{
  insert_file, Levels, apply_one, apply_new, apply_deleted, apply,
}

module _ {compare : InternalKey → InternalKey → Ordering} (o : IsOrder compare) where
  -- `BySmallestKey` is a strict weak order, as std::set and std::upper_bound require.
  pub by_smallest-IsWeakOrder : IsWeakOrder (by_smallest compare)
  unfolding by_smallest
  by_smallest-IsWeakOrder = record {
    asym = λ a b e. ground (
      arith,
      o.flip_lt a.meta.smallest b.meta.smallest,
      flip_eq o a.meta.smallest b.meta.smallest,
    );
    le_trans = λ a b c p q.
        let x = a.meta.smallest in
        let y = b.meta.smallest in
        let z = c.meta.smallest in
        ground (
          arith,
          o.flip_gt y x,
          o.flip_gt z y,
          o.lt_trans x y z,
          o.flip_lt x z,
          o.eq_left z y x,
          eq_right o y x z,
        );
  }

  pub All-insert_file :
      (P : File → Type 0) (f : File) (fs : List File)
      → P f
      → All P fs
      → All P (insert_file compare f fs)
  unfolding insert_file
  All-insert_file P f [] p h = (p, tt)
  All-insert_file P f (g ∷ gs) p h = ground (arith, All-insert_file P f gs)

  -- Inserting a file keeps the set ordered.
  pub insert_file-Ordered :
      (f : File) (fs : List File)
      → Ordered (by_smallest compare) fs
      → Ordered (by_smallest compare) (insert_file compare f fs)
  unfolding insert_file
  insert_file-Ordered f [] h = (tt, tt)
  insert_file-Ordered f (g ∷ gs) h =
      let w = by_smallest-IsWeakOrder in
      let less = by_smallest compare in
      elim (Bool-cases (less f g)) [
        | inl e ↦ rw e ((w.asym f g e, All-le_trans less w f g gs (w.asym f g e) h.0), h)
        | inr e ↦ rw e (elim (Bool-cases (less g f)) [
          | inl k ↦
              rw k
                (All-insert_file (λ y. less y g ≡ false) f gs e h.0, insert_file-Ordered f gs h.1)
          | inr k ↦ rw k h
        ])
      ]

  abbrev pub AllOrdered : Levels → Type 0
  AllOrdered levels = (l : ℕ) → Ordered (by_smallest compare) (levels l).added_files

  apply_one-Ordered :
      (level : ℕ) (meta : FileMetaData) (levels : Levels) (store : Store)
      → AllOrdered levels
      → AllOrdered (apply_one compare level meta (levels, store)).0
  unfolding apply_one
  apply_one-Ordered level meta levels store h l = elim (Bool-cases (l == level)) [
    | inl e ↦ rw e (insert_file-Ordered _ (levels level).added_files (h level))
    | inr e ↦ rw e (h l)
  ]

  apply_new-Ordered :
      (fs : List (ℕ × FileMetaData)) (levels : Levels) (store : Store)
      → AllOrdered levels
      → AllOrdered (apply_new compare fs (levels, store)).0
  unfolding apply_new
  apply_new-Ordered [] levels store h = h
  apply_new-Ordered ((level, meta) ∷ fs) levels store h =
      let r = apply_one compare level meta (levels, store) in
      apply_new-Ordered fs r.0 r.1 (apply_one-Ordered level meta levels store h)

  apply_deleted-Ordered :
      (ds : List (ℕ × ℕ)) (levels : Levels)
      → AllOrdered levels
      → AllOrdered (apply_deleted ds levels)
  unfolding apply_deleted
  apply_deleted-Ordered [] levels h = h
  apply_deleted-Ordered ((level, number) ∷ ds) levels h =
      apply_deleted-Ordered ds _ (λ l. ground (arith, h l, h level))

  -- `Apply` keeps the added files of every level ordered.
  pub apply-Ordered :
      (edit : VersionEdit) (pointer : ℕ → Bytes) (levels : Levels) (store : Store)
      {pointer' : ℕ → Bytes} {levels' : Levels} {store' : Store}
      → apply compare edit pointer levels store ≡ some (pointer', levels', store')
      → AllOrdered levels
      → AllOrdered levels'
  unfolding apply
  apply-Ordered edit pointer levels store {levels'} e h =
      let mid = apply_deleted edit.deleted_files levels in
      let same : (apply_new compare edit.new_files (mid, store)).0 ≡ levels' = ground arith in
      subst AllOrdered same (
        apply_new-Ordered edit.new_files mid store
          (apply_deleted-Ordered edit.deleted_files levels h))
