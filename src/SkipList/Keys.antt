-- ===== src/SkipList/Keys.antt =====
-- The order of the keys behind Insert of leveldb/db/skiplist.h.
use leveldb_study.Base.{
  ℕ, ◌≡◌, true, false, List, [], ◌∷◌, Ordering, All, arith, Bool-cases, inl, inr,
}
use leveldb_study.Order.{IsOrder, is_lt}
use leveldb_study.SkipList.{SkipList, is_eq}
use leveldb_study.SkipList.Chain.{Sorted, below}
use leveldb_study.SkipList.Place.{place, All-place}

module _ {K R : Type 0} (s : SkipList K R) (cmp : K → K → Ordering) (k : K) (f : ℕ) where
  module _ (s' : SkipList K R) where
    All-keys :
        (y : ℕ) (ys : List ℕ)
        → s'.key y ≡ s.key y
        → All (λ z. s'.key z ≡ s.key z) ys
        → All (λ z. is_lt (cmp (s.key y) (s.key z)) ≡ true) ys
        → All (λ z. is_lt (cmp (s'.key y) (s'.key z)) ≡ true) ys
    All-keys y [] e same h = tt
    All-keys y (z ∷ zs) e same h = (rw (e, same.0) h.0, All-keys y zs e same.1 h.1)

    pub Sorted-same :
        (ys : List ℕ) → All (λ z. s'.key z ≡ s.key z) ys → Sorted s cmp ys → Sorted s' cmp ys
    Sorted-same [] same h = tt
    Sorted-same (y ∷ ys) same h = (All-keys y ys same.0 same.1 h.0, Sorted-same ys same.1 h.1)

    All-above :
        (y : ℕ) (ys : List ℕ)
        → IsOrder cmp
        → is_lt (cmp k (s.key y)) ≡ true
        → All (λ z. is_lt (cmp (s.key y) (s.key z)) ≡ true) ys
        → s'.key f ≡ k
        → All (λ z. s'.key z ≡ s.key z) ys
        → All (λ z. is_lt (cmp (s'.key f) (s'.key z)) ≡ true) ys
    All-above y [] o b h e same = tt
    All-above y (z ∷ zs) o b h e same = (
      rw (e, same.0) (ground (arith, o.lt_trans k (s.key y) (s.key z), h.0)),
      All-above y zs o b h.1 e same.1,
    )

  pub above_of_new :
      (y : ℕ)
      → IsOrder cmp
      → below s cmp k y ≡ false
      → is_eq (cmp k (s.key y)) ≡ false
      → is_lt (cmp k (s.key y)) ≡ true
  above_of_new y o b e = ground (arith, o.flip_gt k (s.key y))

  -- The new node keeps the order of the keys.
  pub place-Sorted :
      (s' : SkipList K R) (ys : List ℕ)
      → IsOrder cmp
      → s'.key f ≡ k
      → All (λ y. s'.key y ≡ s.key y) ys
      → All (λ y. is_eq (cmp k (s.key y)) ≡ false) ys
      → Sorted s cmp ys
      → Sorted s' cmp (place s cmp k f ys)
  place-Sorted s' [] o kf same new h = (tt, tt)
  place-Sorted s' (y ∷ ys) o kf same new h = elim (Bool-cases (below s cmp k y)) [
    | inl b ↦
        let first : is_lt (cmp (s'.key y) (s'.key f)) ≡ true = rw (same.0, kf) b in
        rw b (
          All-place s cmp k f (λ z. is_lt (cmp (s'.key y) (s'.key z)) ≡ true) ys first
              (All-keys s' y ys same.0 same.1 h.0),
          place-Sorted s' ys o kf same.1 new.1 h.1,
        )
    | inr b ↦
        let first : is_lt (cmp k (s.key y)) ≡ true = above_of_new y o b new.0 in
        rw b (
          (rw (kf, same.0) first, All-above s' y ys o first h.0 kf same.1),
          Sorted-same s' (y ∷ ys) same h,
        )
  ]
