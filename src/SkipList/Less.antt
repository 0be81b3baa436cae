-- ===== src/SkipList/Less.antt =====
-- FindLessThan of leveldb/db/skiplist.h on a well-formed list.
use leveldb_study.Base.{
  ℕ, zero, suc, ◌+◌, ◌-◌, ◌<◌, ◌≡◌, ◌≢◌, refl, true, false, ◌||◌, Option, none, some, List, [], ◌∷◌,
  Ordering, if◌then◌else◌, ◌==◌, All, length, arith, Bool-cases, Option-cases, inl, inr, ◌∙◌, ap,
}
use leveldb_study.Order.{IsOrder, is_lt, flip_eq}
use leveldb_study.SkipList.{SkipList, head, is_eq, is_past, node_or, find_lt_loop, find_less_than}
use leveldb_study.SkipList.Chain.{
  Sorted, below, last_below, tall_from, first_of_tall, tall_from-length, tall_from-All, tall_below,
  tall_cases, below_trans, last_below-none, last_below-stop,
}
use leveldb_study.SkipList.Search.{At, load-ok, At-down, At-next}
use leveldb_study.SkipList.Valid.{IsValid, At-head, holds, holds-above}

module _ {K R : Type 0} (s : SkipList K R) (cmp : K → K → Ordering) (o : IsOrder cmp) (k : K) where
  -- What the search answers from `x` on.
  abbrev answer : ℕ → List ℕ → Option ℕ
  answer x ys = if holds s cmp k ys then none else some (last_below s cmp k 0 x ys)

  holds-tall :
      (i : ℕ) (ys : List ℕ) (y : ℕ) (ws : List ℕ)
      → tall_from s i ys ≡ some (y, ws)
      → Sorted s cmp ys
      → below s cmp k y ≡ true
      → holds s cmp k ys ≡ holds s cmp k ws
  unfolding tall_from
  holds-tall i [] y ws e h b = cc
  holds-tall i (z ∷ zs) y ws e h b = elim (tall_cases s i z zs y ws e) [
    | inl (t, same) ↦
        let bz : below s cmp k z ≡ true = ap (λ (p : ℕ × List ℕ). below s cmp k p.0) same ∙ b in
        rw (not_equal z bz) (ap (λ (p : ℕ × List ℕ). holds s cmp k p.1) same)
    | inr (t, e') ↦
        let lt =
          (tall_from-All s (λ v. is_lt (cmp (s.key z) (s.key v)) ≡ true) i zs y ws e' h.0).0 in
        rw (not_equal z (below_trans s cmp k o z y lt b)) (holds-tall i zs y ws e' h.1 b)
  ]
    where
      not_equal : (z : ℕ) → below s cmp k z ≡ true → is_eq (cmp k (s.key z)) ≡ false
      not_equal z b = ground (arith, flip_eq o k (s.key z))

  holds-equal :
      (i : ℕ) (ys : List ℕ) (y : ℕ) (ws : List ℕ)
      → tall_from s i ys ≡ some (y, ws)
      → is_eq (cmp (s.key y) k) ≡ true
      → holds s cmp k ys ≡ true
  unfolding tall_from
  holds-equal i [] y ws e h = cc
  holds-equal i (z ∷ zs) y ws e h = ground (arith, holds-equal i zs y ws, flip_eq o (s.key y) k)

  holds-past :
      (ys : List ℕ)
      → All (λ a. 0 < s.height a) ys
      → Sorted s cmp ys
      → is_past cmp s k (first_of_tall s (tall_from s 0 ys)) ≡ true
      → holds s cmp k ys ≡ false
  unfolding tall_from is_past
  holds-past [] t h p = refl
  holds-past (y ∷ ys) t h p =
      ground (arith, t.0, holds-above s cmp k o y ys, h.0, o.flip_gt (s.key y) k)

  last_below-past :
      (level x : ℕ) (ys : List ℕ)
      → is_past cmp s k (first_of_tall s (tall_from s level ys)) ≡ true
      → last_below s cmp k level x ys ≡ x
  unfolding is_past
  last_below-past level x ys h = elim (Option-cases (tall_from s level ys)) [
    | inl e ↦ last_below-none s cmp k level x ys e
    | inr ((y, ws), e) ↦ last_below-stop s cmp k level x ys y ws e (ground arith)
  ]

  answer-past :
      (x : ℕ) (ys : List ℕ)
      → At s cmp o k 0 x ys
      → is_past cmp s k (first_of_tall s (tall_from s 0 ys)) ≡ true
      → answer x ys ≡ some x
  answer-past x ys at p = rw (holds-past ys at.tall at.sorted p, last_below-past 0 x ys p) refl

  find_lt_loop-stops :
      (fuel level y : ℕ)
      → 0 < fuel
      → (y == head || below s cmp k y) ≡ false
      → find_lt_loop cmp fuel s k y level ≡ none
  unfolding find_lt_loop
  find_lt_loop-stops zero level y h b = absurd (omega arith)
  find_lt_loop-stops (suc fuel) level y h b = rw (b, find_lt_loop) refl

  -- The step to the next tall node keeps the answer, where that node is not past the key.
  answer-follow :
      (fuel level x : ℕ) (ys : List ℕ)
      → At s cmp o k level x ys
      → All (λ a. head ≢ a) ys
      → length ys + level < suc fuel
      → is_past cmp s k (first_of_tall s (tall_from s level ys)) ≡ false
      → ((y : ℕ) (ws : List ℕ)
          → tall_from s level ys ≡ some (y, ws)
          → below s cmp k y ≡ true
          → find_lt_loop cmp fuel s k y level ≡ answer y ws)
      → find_lt_loop cmp fuel s k (node_or (first_of_tall s (tall_from s level ys)) x) level
        ≡ answer x ys
  unfolding is_past
  answer-follow fuel level x ys at nh h p rest = elim (Option-cases (tall_from s level ys)) [
    | inl e ↦ let p' = rw e at p in cc
    | inr ((y, ws), e) ↦ elim (Bool-cases (below s cmp k y)) [
      | inl b ↦
          let same = tall_below s cmp k o level 0 x ys y ws e at.sorted b (omega arith) in
          rw (e, holds-tall level ys y ws e at.sorted b, same.1) (rest y ws e b)
      | inr b ↦
          let ne : head ≢ y = (tall_from-All s (λ a. head ≢ a) level ys y ws e nh).0 in
          let p' = rw e at p in
          let equal : is_eq (cmp (s.key y) k) ≡ true = ground arith in
          let stops : (y == head || below s cmp k y) ≡ false = ground (arith, b) in
          let more : 0 < fuel = omega (arith, tall_from-length s level ys y ws e) in
          rw (e, holds-equal level ys y ws e equal) (find_lt_loop-stops fuel level y more stops)
    ]
  ]

  find_lt_loop-answer :
      (fuel level x : ℕ) (ys : List ℕ)
      → At s cmp o k level x ys
      → All (λ a. head ≢ a) ys
      → (x == head || below s cmp k x) ≡ true
      → length ys + level < fuel
      → find_lt_loop cmp fuel s k x level ≡ answer x ys
  unfolding find_lt_loop
  find_lt_loop-answer zero level x ys at nh b h = absurd (omega arith)
  find_lt_loop-answer (suc fuel) zero x ys at nh b h =
      let test = is_past cmp s k (first_of_tall s (tall_from s 0 ys)) in
      rw (b, load-ok s cmp o k 0 x ys at, find_lt_loop)
        (elim (Bool-cases test) [
          | inl stop ↦ rw (stop, answer-past x ys at stop) refl
          | inr go ↦ rw go (
              answer-follow fuel 0 x ys at nh h go λ y ws e below_y.
                let nh' = (tall_from-All s (λ a. head ≢ a) 0 ys y ws e nh).1 in
                find_lt_loop-answer fuel 0 y ws (At-next s cmp o k 0 x ys y ws e at) nh'
                  (ground (arith, below_y)) (omega (arith, tall_from-length s 0 ys y ws e)))
        ])
  find_lt_loop-answer (suc fuel) (suc level) x ys at nh b h =
      let test = is_past cmp s k (first_of_tall s (tall_from s (suc level) ys)) in
      rw (b, load-ok s cmp o k (suc level) x ys at, find_lt_loop)
        (elim (Bool-cases test) [
          | inl stop ↦ rw stop (
              find_lt_loop-answer fuel level x ys (At-down s cmp o k level x ys at) nh b
                (omega arith))
          | inr go ↦ rw go (
              answer-follow fuel (suc level) x ys at nh h go λ y ws e below_y.
                let nh' = (tall_from-All s (λ a. head ≢ a) (suc level) ys y ws e nh).1 in
                find_lt_loop-answer fuel (suc level) y ws
                  (At-next s cmp o k (suc level) x ys y ws e at) nh' (ground (arith, below_y))
                  (omega (arith, tall_from-length s (suc level) ys y ws e)))
        ])

-- FindLessThan, which ends on every valid list: if no key is equal it returns the last node below the
-- key, or the head; if some key is equal its assertion fails.
pub find_less_than-answer :
    {K R : Type 0} {cmp : K → K → Ordering} (s : SkipList K R) {xs : List ℕ} (o : IsOrder cmp)
    → IsValid cmp s xs
    → (k : K)
    → find_less_than cmp s k
      ≡ (if holds s cmp k xs then none else some (last_below s cmp k 0 head xs))
unfolding find_less_than
find_less_than-answer {cmp} s {xs} o v k =
    find_lt_loop-answer s cmp o k (s.fresh + s.max_height) (s.max_height - 1) head xs
      (At-head o v k) v.distinct.0 refl (omega (arith, v.count, v.levels.0))
