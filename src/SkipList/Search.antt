-- ===== src/SkipList/Search.antt =====
-- FindGreaterOrEqual of leveldb/db/skiplist.h on a well-formed list.
use leveldb_study.Base.{
  ℕ, zero, suc, ◌+◌, ◌≤◌, ◌<◌, ◌≡◌, refl, sym, true, false, Option, none, some, List, [], ◌∷◌,
  Ordering, All, length, arith, Bool-cases, Option-cases, inl, inr, ◌∙◌, update, update_self,
}
use native.Mathlib.Decide.{ℕ_discrete}
use leveldb_study.Order.{IsOrder}
use leveldb_study.SkipList.{SkipList, load, set_prev, node_or, key_is_after_node, find_ge_loop}
use leveldb_study.SkipList.Chain.{
  Links, Links-next, Links-tall, tall_from, first_of_tall, tall_from-length, tall_from-All,
  tall_from-Sorted, Sorted, below, first_ge, last_below, last_below-none, last_below-stop,
  tall_below,
}

module _ {K R : Type 0} (s : SkipList K R) (cmp : K → K → Ordering) (o : IsOrder cmp) (k : K) where
  -- What the search leaves in `prev`: nothing if it is null, and otherwise the last node below the
  -- key on every level that the search has passed.
  abbrev pub Recorded : ℕ → ℕ → List ℕ → Option (ℕ → ℕ) → Option (ℕ → ℕ) → Type 0
  Recorded level x ys none p' = p' ≡ none
  Recorded level x ys (some q) p' =
      (q' : ℕ → ℕ) × (p' ≡ some q')
      × ((j : ℕ) → j ≤ level → q' j ≡ last_below s cmp k j x ys)
      × ((j : ℕ) → level < j → q' j ≡ q j)

  abbrev pub Found : ℕ → ℕ → List ℕ → Option (ℕ → ℕ) → Option (Option ℕ × Option (ℕ → ℕ)) → Type 0
  Found level x ys prev r =
      (p' : Option (ℕ → ℕ)) × (r ≡ some (first_ge s cmp k ys, p')) × Recorded level x ys prev p'

  -- What the search knows at node `x`, with the nodes of `ys` before it.
  pub record At (level x : ℕ) (ys : List ℕ) : Type 0 where
    pub links : (j : ℕ) → j ≤ level → Links s j x ys
    pub sorted : Sorted s cmp ys
    pub tall : All (λ a. 0 < s.height a) ys

  pub load-ok :
      (level x : ℕ) (ys : List ℕ)
      → At level x ys
      → load s x level ≡ some (first_of_tall s (tall_from s level ys))
  unfolding load
  load-ok level x ys at =
      let (fits, value) = Links-next s level x ys (at.links level (omega arith)) in ground arith

  pub first_ge-zero :
      (ys : List ℕ)
      → All (λ a. 0 < s.height a) ys
      → key_is_after_node cmp s k (first_of_tall s (tall_from s 0 ys)) ≡ false
      → first_ge s cmp k ys ≡ first_of_tall s (tall_from s 0 ys)
  unfolding tall_from key_is_after_node
  first_ge-zero [] t h = refl
  first_ge-zero (y ∷ ys) t h = ground (arith, t.0)

  last_below-level :
      (level x : ℕ) (ys : List ℕ)
      → key_is_after_node cmp s k (first_of_tall s (tall_from s level ys)) ≡ false
      → last_below s cmp k level x ys ≡ x
  unfolding key_is_after_node
  last_below-level level x ys h = elim (Option-cases (tall_from s level ys)) [
    | inl e ↦ last_below-none s cmp k level x ys e
    | inr ((y, ws), e) ↦ last_below-stop s cmp k level x ys y ws e (ground arith)
  ]

  pub At-down : (level x : ℕ) (ys : List ℕ) → At (suc level) x ys → At level x ys
  At-down level x ys at = record {
    links = λ j le. at.links j (omega arith);
    sorted = at.sorted;
    tall = at.tall;
  }

  pub At-next :
      (level x : ℕ) (ys : List ℕ) (y : ℕ) (ws : List ℕ)
      → tall_from s level ys ≡ some (y, ws)
      → At level x ys
      → At level y ws
  At-next level x ys y ws e at = record {
    links = λ j le. Links-tall s level j x ys y ws e le (at.links j le);
    sorted = tall_from-Sorted s cmp level ys y ws e at.sorted;
    tall = (tall_from-All s (λ a. 0 < s.height a) level ys y ws e at.tall).1;
  }

  -- A find from the next tall node is one from here, if that node is below the key.
  Found-next :
      (level x : ℕ) (ys : List ℕ) (y : ℕ) (ws : List ℕ) (prev : Option (ℕ → ℕ))
      {r : Option (Option ℕ × Option (ℕ → ℕ))}
      → tall_from s level ys ≡ some (y, ws)
      → below s cmp k y ≡ true
      → At level x ys
      → Found level y ws prev r
      → Found level x ys prev r
  Found-next level x ys y ws none e b at (p', f, rec) =
      let same = tall_below s cmp k o level level x ys y ws e at.sorted b (omega arith) in
      (p', rw same.0 f, rec)
  Found-next level x ys y ws (some q) e b at (p', f, (q', is, low, high)) =
      let same = tall_below s cmp k o level level x ys y ws e at.sorted b (omega arith) in
      (
        p',
        rw same.0 f,
        (
          q',
          is,
          (λ j le. low j le ∙ sym (tall_below s cmp k o level j x ys y ws e at.sorted b le).1),
          high,
        ),
      )

  Recorded-down :
      (level x : ℕ) (ys : List ℕ) (prev p' : Option (ℕ → ℕ))
      → last_below s cmp k (suc level) x ys ≡ x
      → Recorded level x ys (set_prev prev (suc level) x) p'
      → Recorded (suc level) x ys prev p'
  Recorded-down level x ys none p' e rec = rec
  Recorded-down level x ys (some q) p' e (q', is, low, high) = (
    q',
    is,
    (λ j le. elim (ℕ_discrete j (suc level)) [
      | yes j_eq ↦ rw j_eq (high (suc level) (omega arith) ∙ update_self q (suc level) x ∙ sym e)
      | no ne ↦ low j (omega arith)
    ]),
    λ j lt. high j (omega arith) ∙ ground arith,
  )

  Recorded-zero :
      (x : ℕ) (ys : List ℕ) (prev : Option (ℕ → ℕ))
      → last_below s cmp k 0 x ys ≡ x
      → Recorded 0 x ys prev (set_prev prev zero x)
  Recorded-zero x ys none e = refl
  Recorded-zero x ys (some q) e = (
    update q 0 x,
    refl,
    (λ j le. let j_eq : j ≡ 0 = omega arith in rw j_eq (update_self q 0 x ∙ sym e)),
    λ j lt. ground arith,
  )

  Found-follow :
      (fuel level x : ℕ) (ys : List ℕ) (prev : Option (ℕ → ℕ))
      → At level x ys
      → key_is_after_node cmp s k (first_of_tall s (tall_from s level ys)) ≡ true
      → ((y : ℕ) (ws : List ℕ)
          → tall_from s level ys ≡ some (y, ws)
          → Found level y ws prev (find_ge_loop cmp fuel s k y level prev))
      → Found level x ys prev (
          find_ge_loop cmp fuel s k (node_or (first_of_tall s (tall_from s level ys)) x) level prev)
  unfolding key_is_after_node
  Found-follow fuel level x ys prev at go rest = elim (Option-cases (tall_from s level ys)) [
    | inl e ↦ let go' = rw e at go in cc
    | inr ((y, ws), e) ↦
        let go' = rw e at go in rw e (Found-next level x ys y ws prev e go' at (rest y ws e))
  ]

  -- With enough fuel the loop ends, reads no slot that a node does not have, and returns the
  -- earliest node that is not below the key.
  pub find_ge_loop-Found :
      (fuel level x : ℕ) (ys : List ℕ) (prev : Option (ℕ → ℕ))
      → At level x ys
      → length ys + level < fuel
      → Found level x ys prev (find_ge_loop cmp fuel s k x level prev)
  unfolding find_ge_loop
  find_ge_loop-Found zero level x ys prev at h = absurd (omega arith)
  find_ge_loop-Found (suc fuel) zero x ys prev at h =
      let test = key_is_after_node cmp s k (first_of_tall s (tall_from s 0 ys)) in
      rw (load-ok 0 x ys at, find_ge_loop)
        (elim (Bool-cases test) [
          | inl go ↦
              rw (go, find_ge_loop)
                (Found-follow fuel 0 x ys prev at go λ y ws e.
                  find_ge_loop-Found fuel 0 y ws prev (At-next 0 x ys y ws e at)
                    (omega (arith, tall_from-length s 0 ys y ws e)))
          | inr stop ↦
              rw (stop, find_ge_loop)
                (
                  set_prev prev zero x,
                  rw (first_ge-zero ys at.tall stop) refl,
                  Recorded-zero x ys prev (last_below-level 0 x ys stop),
                )
        ])
  find_ge_loop-Found (suc fuel) (suc level) x ys prev at h =
      let test = key_is_after_node cmp s k (first_of_tall s (tall_from s (suc level) ys)) in
      rw (load-ok (suc level) x ys at, find_ge_loop)
        (elim (Bool-cases test) [
          | inl go ↦
              rw (go, find_ge_loop)
                (Found-follow fuel (suc level) x ys prev at go λ y ws e.
                  find_ge_loop-Found fuel (suc level) y ws prev (At-next (suc level) x ys y ws e at)
                    (omega (arith, tall_from-length s (suc level) ys y ws e)))
          | inr stop ↦
              let (p', found, rec) =
                find_ge_loop-Found fuel level x ys (set_prev prev (suc level) x)
                  (At-down level x ys at) (omega arith) in
              rw (stop, find_ge_loop)
                (
                  p',
                  found,
                  Recorded-down level x ys prev p' (last_below-level (suc level) x ys stop) rec,
                )
        ])
