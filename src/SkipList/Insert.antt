-- ===== src/SkipList/Insert.antt =====
-- Insert of leveldb/db/skiplist.h keeps the invariant, for every height that RandomHeight may draw.
use leveldb_study.Base.{
  ℕ, zero, suc, ◌+◌, ◌≤◌, ◌<◌, ◌≡◌, refl, true, false, some, List, [], ◌∷◌, Ordering, All, arith,
}
use leveldb_study.Order.{IsOrder}
use leveldb_study.SkipList.{SkipList, limit, is_eq, random_height, insert_at, insert, is_new}
use leveldb_study.SkipList.Chain.{first_ge}
use leveldb_study.SkipList.Place.{place}
use leveldb_study.SkipList.Valid.{IsValid, find_greater_or_equal-first_ge}
use leveldb_study.SkipList.Splice.{inserted}

-- A drawn height lies between the one at hand and that plus the rounds.
pub random_height_bounds :
    {R : Type 0} (draw : R → ℕ × R) (rounds height : ℕ) (r : R)
    → (height ≤ (random_height draw rounds height r).0)
      × ((random_height draw rounds height r).0 ≤ height + rounds)
unfolding random_height
random_height_bounds draw zero height r = omega arith
random_height_bounds draw (suc rounds) height r =
    ground (arith, random_height_bounds draw rounds (height + 1) (draw r).1)

module _ {K R : Type 0} {cmp : K → K → Ordering} (o : IsOrder cmp) (k : K) where
  is_new-first_ge :
      (s : SkipList K R) (xs : List ℕ)
      → All (λ y. is_eq (cmp k (s.key y)) ≡ false) xs
      → is_new cmp s k (first_ge s cmp k xs) ≡ true
  unfolding is_new
  is_new-first_ge s [] h = refl
  is_new-first_ge s (y ∷ ys) h = ground (arith, h.0, is_new-first_ge s ys h.1)

  reseed :
      (s : SkipList K R) (r : R) (xs : List ℕ)
      → IsValid cmp s xs
      → IsValid cmp (record s { rnd = r }) xs
  reseed s r xs v = record {
    links = v.links;
    sorted = v.sorted;
    tall = v.tall;
    short = v.short;
    old = v.old;
    bounded = v.bounded;
    distinct = v.distinct;
    count = v.count;
    levels = v.levels;
    head_height = v.head_height;
  }

  -- Where the invariant holds and no node has an equal key, Insert ends without a failed assertion,
  -- and leaves a valid list with the new node, which has the key, behind the smaller keys, and the
  -- old keys at the old nodes.
  pub insert-IsValid :
      (draw : R → ℕ × R) (uninit : ℕ → ℕ) (s : SkipList K R) (xs : List ℕ)
      → IsValid cmp s xs
      → All (λ y. is_eq (cmp k (s.key y)) ≡ false) xs
      → (s' : SkipList K R) × (insert cmp draw uninit k s ≡ some s')
        × (s'.key s.fresh ≡ k)
        × All (λ y. s'.key y ≡ s.key y) xs
        × IsValid cmp s' (place s cmp k s.fresh xs)
  unfolding insert insert_at
  insert-IsValid draw uninit s xs v new =
      let (p', found, (q, is, low, high)) = find_greater_or_equal-first_ge o v k (some uninit) in
      let r = random_height draw 11 1 s.rnd in
      let bounds = random_height_bounds draw 11 1 s.rnd in
      let low_r : 0 < r.0 = omega arith in
      let high_r : r.0 ≤ limit = omega arith in
      let (s', e, is_k, same, w) =
        inserted o k (record s { rnd = r.1 }) xs (reseed s r.1 xs v) r.0 low_r high_r q low new in
      (s', rw (found, is, is_new-first_ge s xs new) e, is_k, same, w)
