-- ===== src/SkipList/Last.antt =====
-- FindLast of leveldb/db/skiplist.h on a well-formed list.
use leveldb_study.Base.{
  ℕ, zero, suc, ◌+◌, ◌-◌, ◌<◌, ◌≡◌, refl, none, some, List, [], ◌∷◌, Ordering, All, length, arith,
  Option-cases, inl, inr,
}
use leveldb_study.Order.{IsOrder}
use leveldb_study.SkipList.{SkipList, head, find_last_loop, find_last}
use leveldb_study.SkipList.Chain.{tall_from, tall_from-length}
use leveldb_study.SkipList.Search.{At, load-ok, At-down, At-next}
use leveldb_study.SkipList.Valid.{IsValid, At-head}

-- The last node, or the one at hand where there is none.
abbrev pub last_of : ℕ → List ℕ → ℕ
last_of x [] = x
last_of x (y ∷ ys) = last_of y ys

module _ {K R : Type 0} (s : SkipList K R) where
  last_of-tall :
      (i x : ℕ) (ys : List ℕ) (y : ℕ) (ws : List ℕ)
      → tall_from s i ys ≡ some (y, ws)
      → last_of x ys ≡ last_of y ws
  unfolding tall_from
  last_of-tall i x [] y ws e = cc
  last_of-tall i x (z ∷ zs) y ws e = ground (arith, last_of-tall i z zs y ws)

  last_of-end :
      (x : ℕ) (ys : List ℕ)
      → All (λ a. 0 < s.height a) ys
      → tall_from s 0 ys ≡ none
      → last_of x ys ≡ x
  unfolding tall_from
  last_of-end x [] t e = refl
  last_of-end x (y ∷ ys) t e = ground (arith, t.0)

  module _ (cmp : K → K → Ordering) (o : IsOrder cmp) (k : K) where
    find_last_loop-last_of :
        (fuel level x : ℕ) (ys : List ℕ)
        → At s cmp o k level x ys
        → length ys + level < fuel
        → find_last_loop fuel s x level ≡ some (last_of x ys)
    unfolding find_last_loop
    find_last_loop-last_of zero level x ys at h = absurd (omega arith)
    find_last_loop-last_of (suc fuel) zero x ys at h =
        rw (load-ok s cmp o k 0 x ys at, find_last_loop)
          (elim (Option-cases (tall_from s 0 ys)) [
            | inl e ↦ rw (e, last_of-end x ys at.tall e) refl
            | inr ((y, ws), e) ↦
                rw (e, last_of-tall 0 x ys y ws e)
                  (find_last_loop-last_of fuel 0 y ws (At-next s cmp o k 0 x ys y ws e at)
                    (omega (arith, tall_from-length s 0 ys y ws e)))
          ])
    find_last_loop-last_of (suc fuel) (suc level) x ys at h =
        rw (load-ok s cmp o k (suc level) x ys at, find_last_loop)
          (elim (Option-cases (tall_from s (suc level) ys)) [
            | inl e ↦
                rw (e, find_last_loop)
                  (find_last_loop-last_of fuel level x ys (At-down s cmp o k level x ys at)
                    (omega arith))
            | inr ((y, ws), e) ↦
                rw (e, last_of-tall (suc level) x ys y ws e)
                  (find_last_loop-last_of fuel (suc level) y ws
                    (At-next s cmp o k (suc level) x ys y ws e at)
                    (omega (arith, tall_from-length s (suc level) ys y ws e)))
          ])

  -- FindLast returns the last node, and the head of an empty list.
  pub find_last-last_of :
      {cmp : K → K → Ordering} {xs : List ℕ}
      → IsOrder cmp
      → IsValid cmp s xs
      → find_last s ≡ some (last_of head xs)
  unfolding find_last
  find_last-last_of {cmp} {xs} o v =
      find_last_loop-last_of cmp o (s.key head) (s.fresh + s.max_height) (s.max_height - 1) head xs
        (At-head o v (s.key head)) (omega (arith, v.count, v.levels.0))
