-- ===== src/SkipList/Place.antt =====
-- Insert of leveldb/db/skiplist.h seen as a list: where the new node comes to stand.
use leveldb_study.Base.{
  ℕ, suc, ◌<◌, ◌≡◌, ◌≢◌, refl, sym, true, false, some, List, [], ◌∷◌, Ordering, if◌then◌else◌, ltb,
  All, length, arith, Bool-cases, inl, inr, ◌∙◌, subst, ltb→lt,
}
use leveldb_study.SkipList.{SkipList}
use leveldb_study.SkipList.Chain.{Links, below, last_below}

abbrev pub Distinct : List ℕ → Type 0
Distinct [] = Unit
Distinct (x ∷ xs) = All (λ y. x ≢ y) xs × Distinct xs

module _ {K R : Type 0} (s : SkipList K R) (cmp : K → K → Ordering) (k : K) (f : ℕ) where
  -- Behind the nodes below the key.
  abbrev pub place : List ℕ → List ℕ
  place [] = f ∷ []
  place (y ∷ ys) = if below s cmp k y then y ∷ place ys else f ∷ y ∷ ys

  pub All-place : (P : ℕ → Type 0) (ys : List ℕ) → P f → All P ys → All P (place ys)
  All-place P [] p h = (p, tt)
  All-place P (y ∷ ys) p h = elim (Bool-cases (below s cmp k y)) [
    | inl e ↦ rw e (h.0, All-place P ys p h.1)
    | inr e ↦ rw e (p, h)
  ]

  pub length-place : (ys : List ℕ) → length (place ys) ≡ suc (length ys)
  length-place [] = refl
  length-place (y ∷ ys) = ground (arith, length-place ys)

  pub place-Distinct : (ys : List ℕ) → All (λ y. f ≢ y) ys → Distinct ys → Distinct (place ys)
  place-Distinct [] h d = (tt, tt)
  place-Distinct (y ∷ ys) h d = elim (Bool-cases (below s cmp k y)) [
    | inl e ↦ rw e (All-place (λ z. y ≢ z) ys (λ q. h.0 (sym q)) d.0, place-Distinct ys h.1 d.1)
    | inr e ↦ rw e (h, d)
  ]

  pub last_below-ne :
      (i c y : ℕ) (ys : List ℕ) → c ≢ y → All (λ z. c ≢ z) ys → c ≢ last_below s cmp k i y ys
  last_below-ne i c y [] n h = n
  last_below-ne i c y (z ∷ zs) n h = elim (Bool-cases (below s cmp k z)) [
    | inl e ↦ elim (Bool-cases (ltb i (s.height z))) [
      | inl t ↦ rw (e, t) (last_below-ne i c z zs h.0 h.1)
      | inr t ↦ rw (e, t) (last_below-ne i c y zs n h.1)
    ]
    | inr e ↦ rw e n
  ]

  -- A level on which the new node has been put behind `p`.
  pub record Level (s' : SkipList K R) (i p : ℕ) : Type 0 where
    pub heights : (a : ℕ) → a ≢ f → s'.height a ≡ s.height a
    pub fits : ltb i (s'.height f) ≡ true
    pub at_new : s'.next f i ≡ s.next p i
    pub at_prev : s'.next p i ≡ some f
    pub elsewhere : (a : ℕ) → a ≢ f → a ≢ p → s'.next a i ≡ s.next a i

  module _ (s' : SkipList K R) (i p : ℕ) (l : Level s' i p) where
    Links-move :
        (a b : ℕ) (ys : List ℕ)
        → Links s i a ys
        → s'.next b i ≡ s.next a i
        → i < s'.height b
        → All (λ y. f ≢ y) ys
        → All (λ y. p ≢ y) ys
        → Links s' i b ys
    Links-move a b [] h e t m n = (t, e ∙ h.1)
    Links-move a b (y ∷ ys) h e t m n =
        let same : s'.height y ≡ s.height y = l.heights y (λ q. m.0 (sym q)) in
        elim (Bool-cases (ltb i (s.height y))) [
          | inl tall ↦
              let h' = rw tall at h in
              rw (same, tall)
                (
                  t,
                  e ∙ h'.1,
                  Links-move y y ys h'.2 (l.elsewhere y (λ q. m.0 (sym q)) (λ q. n.0 (sym q)))
                      (ltb→lt i (s'.height y) (rw same tall)) m.1 n.1,
                )
          | inr short ↦ rw (same, short) (Links-move a b ys (rw short at h) e t m.1 n.1)
        ]

    -- The links of that level lead through the old nodes and the new one.
    pub Links-place :
        (x : ℕ) (ys : List ℕ)
        → Links s i x ys
        → i < s'.height x
        → f ≢ x
        → All (λ y. f ≢ y) ys
        → Distinct (x ∷ ys)
        → p ≡ last_below s cmp k i x ys
        → Links s' i x (place ys)
    Links-place x [] h t ne m d e =
        let q : s'.next x i ≡ some f = subst (λ (j : ℕ). s'.next j i ≡ some f) e l.at_prev in
        let r : s'.next f i ≡ s.next x i = subst (λ (j : ℕ). s'.next f i ≡ s.next j i) e l.at_new in
        rw l.fits (t, q, (ltb→lt i (s'.height f) l.fits, r ∙ h.1))
    Links-place x (y ∷ ys) h t ne m d e = elim (Bool-cases (below s cmp k y)) [
      | inl b ↦ elim (Bool-cases (ltb i (s.height y))) [
        | inl tall ↦
            let e' : p ≡ last_below s cmp k i y ys = rw (b, tall) at e in
            let h' = rw tall at h in
            let same : s'.height y ≡ s.height y = l.heights y (λ q. m.0 (sym q)) in
            let far : x ≢ p = rw e' (last_below-ne i x y ys d.0.0 d.0.1) in
            rw (b, same, tall)
              (
                t,
                l.elsewhere x (λ q. ne (sym q)) far ∙ h'.1,
                Links-place y ys h'.2 (ltb→lt i (s'.height y) (rw same tall)) m.0 m.1 d.1 e',
              )
        | inr short ↦
            let e' : p ≡ last_below s cmp k i x ys = rw (b, short) at e in
            let same : s'.height y ≡ s.height y = l.heights y (λ q. m.0 (sym q)) in
            rw (b, same, short) (Links-place x ys (rw short at h) t ne m.1 (d.0.1, d.1.1) e')
      ]
      | inr b ↦
          let e' : p ≡ x = rw b at e in
          let q : s'.next x i ≡ some f = subst (λ (j : ℕ). s'.next j i ≡ some f) e' l.at_prev in
          let r : s'.next f i ≡ s.next x i =
            subst (λ (j : ℕ). s'.next f i ≡ s.next j i) e' l.at_new in
          rw (b, l.fits)
            (
              t,
              q,
              Links-move x f (y ∷ ys) h r (ltb→lt i (s'.height f) l.fits) m
                  (subst (λ (j : ℕ). All (λ z. j ≢ z) (y ∷ ys)) (sym e') d.0),
            )
    ]

  pub Links-same :
      (s' : SkipList K R) (i x : ℕ) (ys : List ℕ)
      → ((a : ℕ) → a ≢ f → s'.height a ≡ s.height a)
      → ((a : ℕ) → s'.next a i ≡ s.next a i)
      → f ≢ x
      → All (λ y. f ≢ y) ys
      → Links s i x ys
      → Links s' i x ys
  Links-same s' i x [] hs same ne m h =
      let hx : s'.height x ≡ s.height x = hs x (λ q. ne (sym q)) in
      (omega (arith, hx, h.0), same x ∙ h.1)
  Links-same s' i x (y ∷ ys) hs same ne m h =
      let hx : s'.height x ≡ s.height x = hs x (λ q. ne (sym q)) in
      let hy : s'.height y ≡ s.height y = hs y (λ q. m.0 (sym q)) in
      elim (Bool-cases (ltb i (s.height y))) [
        | inl tall ↦
            let h' = rw tall at h in
            let fits : i < s'.height x = omega (arith, hx, h'.0) in
            rw (hy, tall) (fits, same x ∙ h'.1, Links-same s' i y ys hs same m.0 m.1 h'.2)
        | inr low ↦ rw (hy, low) (Links-same s' i x ys hs same ne m.1 (rw low at h))
      ]

  -- A level that the new node does not reach.
  pub Links-skip :
      (s' : SkipList K R) (i x : ℕ) (ys : List ℕ)
      → ((a : ℕ) → a ≢ f → s'.height a ≡ s.height a)
      → ltb i (s'.height f) ≡ false
      → ((a : ℕ) → s'.next a i ≡ s.next a i)
      → f ≢ x
      → All (λ y. f ≢ y) ys
      → Links s i x ys
      → Links s' i x (place ys)
  Links-skip s' i x [] hs short same ne m h = rw short (Links-same s' i x [] hs same ne m h)
  Links-skip s' i x (y ∷ ys) hs short same ne m h = elim (Bool-cases (below s cmp k y)) [
    | inl b ↦
        let hx : s'.height x ≡ s.height x = hs x (λ q. ne (sym q)) in
        let hy : s'.height y ≡ s.height y = hs y (λ q. m.0 (sym q)) in
        elim (Bool-cases (ltb i (s.height y))) [
          | inl tall ↦
              let h' = rw tall at h in
              let fits : i < s'.height x = omega (arith, hx, h'.0) in
              rw (b, hy, tall)
                (fits, same x ∙ h'.1, Links-skip s' i y ys hs short same m.0 m.1 h'.2)
          | inr low ↦ rw (b, hy, low) (Links-skip s' i x ys hs short same ne m.1 (rw low at h))
        ]
    | inr b ↦ rw (b, short) (Links-same s' i x (y ∷ ys) hs same ne m h)
  ]
