-- ===== src/SkipList/Readers/Behind.antt =====
-- What stands behind a node in a list of leveldb/db/skiplist.h.
use leveldb_study.Base.{
  ℕ, ◌<◌, ◌≡◌, ◌≢◌, refl, true, some, List, [], ◌∷◌, Ordering, if◌then◌else◌, ltb, ◌==◌, has, All,
  length, arith, Bool-cases, inl, inr, subst,
}
use leveldb_study.SkipList.{SkipList}
use leveldb_study.SkipList.Chain.{Links, tall_from, Sorted}
use leveldb_study.SkipList.Place.{Distinct}

-- What stands behind a node.
abbrev pub after : ℕ → List ℕ → List ℕ
after x [] = []
after x (y ∷ ys) = if y == x then ys else after x ys

pub length-after : (x : ℕ) (ys : List ℕ) → has x ys ≡ true → length (after x ys) < length ys
length-after x [] h = cc
length-after x (y ∷ ys) h = ground (arith, length-after x ys)

pub All-after : (P : ℕ → Type 0) (x : ℕ) (ys : List ℕ) → All P ys → All P (after x ys)
All-after P x [] h = tt
All-after P x (y ∷ ys) h = elim (Bool-cases (y == x)) [
  | inl e ↦ rw e h.1
  | inr e ↦ rw e (All-after P x ys h.1)
]

pub All-has : (P : ℕ → Type 0) (x : ℕ) (ys : List ℕ) → has x ys ≡ true → All P ys → P x
All-has P x [] h a = cc
All-has P x (y ∷ ys) h a = elim (Bool-cases (x == y)) [
  | inl e ↦ let same : y ≡ x = ground arith in subst P same a.0
  | inr e ↦ All-has P x ys (ground arith) a.1
]

-- A node behind one is behind it in the whole list.
pub has-after : (x y : ℕ) (ys : List ℕ) → has y (after x ys) ≡ true → has y ys ≡ true
has-after x y [] h = h
has-after x y (z ∷ zs) h = ground (arith, has-after x y zs)

pub after-after :
    (x y : ℕ) (ys : List ℕ)
    → Distinct ys
    → has y (after x ys) ≡ true
    → after y ys ≡ after y (after x ys)
after-after x y [] d h = refl
after-after x y (z ∷ zs) d h =
    let there : has y zs ≡ true = ground (arith, has-after x y zs) in
    let apart : z ≢ y = All-has (λ a. z ≢ a) y zs there d.0 in
    ground (arith, after-after x y zs d.1)

module _ {K R : Type 0} (s : SkipList K R) where
  pub Links-after :
      (i z x : ℕ) (ys : List ℕ)
      → Links s i z ys
      → has x ys ≡ true
      → i < s.height x
      → Links s i x (after x ys)
  Links-after i z x [] l h t = cc
  Links-after i z x (y ∷ ys) l h t = elim (Bool-cases (y == x)) [
    | inl e ↦
        let same : y ≡ x = ground arith in
        let tall : ltb i (s.height y) ≡ true = ground (arith, t) in
        rw e (subst (λ a. Links s i a ys) same (rw tall at l).2)
    | inr e ↦ elim (Bool-cases (ltb i (s.height y))) [
      | inl tall ↦ rw e (Links-after i y x ys (rw tall at l).2 (ground arith) t)
      | inr low ↦ rw e (Links-after i z x ys (rw low at l) (ground arith) t)
    ]
  ]

  pub Sorted-after :
      (cmp : K → K → Ordering) (x : ℕ) (ys : List ℕ) → Sorted s cmp ys → Sorted s cmp (after x ys)
  Sorted-after cmp x [] h = tt
  Sorted-after cmp x (y ∷ ys) h = elim (Bool-cases (y == x)) [
    | inl e ↦ rw e h.1
    | inr e ↦ rw e (Sorted-after cmp x ys h.1)
  ]

  pub has-tall_from :
      (i : ℕ) (ys : List ℕ) (y : ℕ) (ws : List ℕ)
      → tall_from s i ys ≡ some (y, ws)
      → (has y ys ≡ true) × (i < s.height y)
  unfolding tall_from
  has-tall_from i [] y ws e = cc
  has-tall_from i (z ∷ zs) y ws e = ground (arith, has-tall_from i zs y ws)
