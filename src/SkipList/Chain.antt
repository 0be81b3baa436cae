-- ===== src/SkipList/Chain.antt =====
-- What a list of nodes says of the links of leveldb/db/skiplist.h, level by level.
use leveldb_study.Base.{
  ℕ, ◌≤◌, ◌<◌, ◌≡◌, refl, Bool, true, false, Option, none, some, List, [], ◌∷◌, Ordering,
  if◌then◌else◌, ltb, All, length, arith, Bool-cases, inl, inr, ◌⊎◌, subst, ap, ◌∙◌,
}
use leveldb_study.Order.{IsOrder, is_lt}
use leveldb_study.SkipList.{SkipList}

ltb_mono : (j i h : ℕ) → j ≤ i → ltb i h ≡ true → ltb j h ≡ true
ltb_mono j i h le e = ground arith

module _ {K R : Type 0} (s : SkipList K R) where
  -- From `x` the links of level `i` lead through the nodes of the list that are taller than `i`.
  abbrev pub Links : ℕ → ℕ → List ℕ → Type 0
  Links i x [] = (i < s.height x) × (s.next x i ≡ none)
  Links i x (y ∷ ys) =
      if ltb i (s.height y)
      then (i < s.height x) × (s.next x i ≡ some y) × Links i y ys
      else Links i x ys

  -- The first node taller than `i`, and what follows it.
  unfoldable pub tall_from : ℕ → List ℕ → Option (ℕ × List ℕ)
  tall_from i [] = none
  tall_from i (y ∷ ys) = if ltb i (s.height y) then some (y, ys) else tall_from i ys

  abbrev pub first_of_tall : Option (ℕ × List ℕ) → Option ℕ
  first_of_tall none = none
  first_of_tall (some (y, ys)) = some y

  pub Links-next :
      (i x : ℕ) (ys : List ℕ)
      → Links i x ys
      → (i < s.height x) × (s.next x i ≡ first_of_tall (tall_from i ys))
  unfolding tall_from
  Links-next i x [] h = h
  Links-next i x (y ∷ ys) h = elim (Bool-cases (ltb i (s.height y))) [
    | inl e ↦ let h' = rw e at h in rw e (h'.0, h'.1)
    | inr e ↦ rw e (Links-next i x ys (rw e at h))
  ]

  pub tall_cases :
      (i z : ℕ) (zs : List ℕ) (y : ℕ) (ws : List ℕ)
      → tall_from i (z ∷ zs) ≡ some (y, ws)
      → ((ltb i (s.height z) ≡ true) × (◌≡◌ {A = ℕ × List ℕ} (z, zs) (y, ws)))
        ⊎ ((ltb i (s.height z) ≡ false) × (tall_from i zs ≡ some (y, ws)))
  unfolding tall_from
  tall_cases i z zs y ws e = elim (Bool-cases (ltb i (s.height z))) [
    | inl k ↦ inl (k, ground arith)
    | inr k ↦ inr (k, ground arith)
  ]

  -- Going to the first tall node keeps the links of every level at or below.
  pub Links-tall :
      (i j x : ℕ) (ys : List ℕ) (y : ℕ) (ws : List ℕ)
      → tall_from i ys ≡ some (y, ws)
      → j ≤ i
      → Links j x ys
      → Links j y ws
  unfolding tall_from
  Links-tall i j x [] y ws e le h = cc
  Links-tall i j x (z ∷ zs) y ws e le h = elim (tall_cases i z zs y ws e) [
    | inl (k, same) ↦
        let h' = rw (ltb_mono j i (s.height z) le k) at h in
        subst (λ (p : ℕ × List ℕ). Links j p.0 p.1) same h'.2
    | inr (k, e') ↦ elim (Bool-cases (ltb j (s.height z))) [
      | inl m ↦ let h' = rw m at h in Links-tall i j z zs y ws e' le h'.2
      | inr m ↦ Links-tall i j x zs y ws e' le (rw m at h)
    ]
  ]

  pub tall_from-length :
      (i : ℕ) (ys : List ℕ) (y : ℕ) (ws : List ℕ)
      → tall_from i ys ≡ some (y, ws)
      → length ws < length ys
  unfolding tall_from
  tall_from-length i [] y ws e = cc
  tall_from-length i (z ∷ zs) y ws e = ground (arith, tall_from-length i zs y ws)

  pub tall_from-All :
      (P : ℕ → Type 0) (i : ℕ) (ys : List ℕ) (y : ℕ) (ws : List ℕ)
      → tall_from i ys ≡ some (y, ws)
      → All P ys
      → P y × All P ws
  unfolding tall_from
  tall_from-All P i [] y ws e h = cc
  tall_from-All P i (z ∷ zs) y ws e h = elim (tall_cases i z zs y ws e) [
    | inl (k, same) ↦ subst (λ (p : ℕ × List ℕ). P p.0 × All P p.1) same h
    | inr (k, e') ↦ tall_from-All P i zs y ws e' h.1
  ]

  module _ (cmp : K → K → Ordering) where
    -- Every node has a smaller key than every later one.
    abbrev pub Sorted : List ℕ → Type 0
    Sorted [] = Unit
    Sorted (y ∷ ys) = All (λ z. is_lt (cmp (s.key y) (s.key z)) ≡ true) ys × Sorted ys

    pub tall_from-Sorted :
        (i : ℕ) (ys : List ℕ) (y : ℕ) (ws : List ℕ)
        → tall_from i ys ≡ some (y, ws)
        → Sorted ys
        → Sorted ws
    unfolding tall_from
    tall_from-Sorted i [] y ws e h = cc
    tall_from-Sorted i (z ∷ zs) y ws e h = elim (tall_cases i z zs y ws e) [
      | inl (k, same) ↦ subst (λ (p : ℕ × List ℕ). Sorted p.1) same h.1
      | inr (k, e') ↦ tall_from-Sorted i zs y ws e' h.1
    ]

    module _ (k : K) where
      abbrev pub below : ℕ → Bool
      below a = is_lt (cmp (s.key a) k)

      -- The earliest node that is not below the key.
      abbrev pub first_ge : List ℕ → Option ℕ
      first_ge [] = none
      first_ge (y ∷ ys) = if below y then first_ge ys else some y

      -- The last node below the key among `x` and the nodes taller than `i`.
      abbrev pub last_below : ℕ → ℕ → List ℕ → ℕ
      last_below i x [] = x
      last_below i x (y ∷ ys) =
          if below y then last_below i (if ltb i (s.height y) then y else x) ys else x

      pub last_below-none : (i x : ℕ) (ys : List ℕ) → tall_from i ys ≡ none → last_below i x ys ≡ x
      unfolding tall_from
      last_below-none i x [] e = refl
      last_below-none i x (z ∷ zs) e = ground (arith, last_below-none i x zs)

      pub last_below-stop :
          (i x : ℕ) (ys : List ℕ) (y : ℕ) (ws : List ℕ)
          → tall_from i ys ≡ some (y, ws)
          → below y ≡ false
          → last_below i x ys ≡ x
      unfolding tall_from
      last_below-stop i x [] y ws e b = refl
      last_below-stop i x (z ∷ zs) y ws e b = ground (arith, last_below-stop i x zs y ws)

      module _ (o : IsOrder cmp) where
        pub below_trans :
            (z y : ℕ) → is_lt (cmp (s.key z) (s.key y)) ≡ true → below y ≡ true → below z ≡ true
        below_trans z y a b = ground (arith, o.lt_trans (s.key z) (s.key y) k)

        -- Up to a tall node below the key nothing is found, and no later predecessor is lost.
        pub tall_below :
            (i j x : ℕ) (ys : List ℕ) (y : ℕ) (ws : List ℕ)
            → tall_from i ys ≡ some (y, ws)
            → Sorted ys
            → below y ≡ true
            → j ≤ i
            → (first_ge ys ≡ first_ge ws) × (last_below j x ys ≡ last_below j y ws)
        unfolding tall_from
        tall_below i j x [] y ws e h b le = cc
        tall_below i j x (z ∷ zs) y ws e h b le = elim (tall_cases i z zs y ws e) [
          | inl (t, same) ↦
              let bz : below z ≡ true = ap (λ (p : ℕ × List ℕ). below p.0) same ∙ b in
              subst
                (λ (p : ℕ × List ℕ).
                  (first_ge (z ∷ zs) ≡ first_ge p.1)
                  × (last_below j x (z ∷ zs) ≡ last_below j p.0 p.1))
                same (rw (bz, ltb_mono j i (s.height z) le t) (refl, refl))
          | inr (t, e') ↦
              let lt =
                (tall_from-All (λ v. is_lt (cmp (s.key z) (s.key v)) ≡ true) i zs y ws e' h.0).0 in
              rw (below_trans z y lt b)
                (tall_below i j (if ltb j (s.height z) then z else x) zs y ws e' h.1 b le)
        ]
