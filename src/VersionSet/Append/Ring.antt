-- ===== src/VersionSet/Append/Ring.antt =====
-- The doubly linked ring of versions under VersionSet::AppendVersion of leveldb/db/version_set.cc.
use leveldb_study.Base.{ℕ, ◌≡◌, ◌≢◌, List, [], ◌∷◌, ◌++◌, arith, All}
use leveldb_study.VersionSet.State.{Versions, dummy}
use leveldb_study.VersionSet.Append.{link}

-- From `a` the `next` fields lead through the versions of the list to `b`, and the `prev` fields
-- lead back.
abbrev pub Segment : (ℕ → ℕ) → (ℕ → ℕ) → ℕ → List ℕ → ℕ → Type 0
Segment next prev a [] b = (next a ≡ b) × (prev b ≡ a)
Segment next prev a (x ∷ xs) b = (next a ≡ x) × (prev x ≡ a) × Segment next prev x xs b

abbrev pub Distinct : List ℕ → Type 0
Distinct [] = Unit
Distinct (x ∷ xs) = All (λ y. x ≢ y) xs × Distinct xs

-- The versions on the ring, oldest first.
abbrev pub IsRing : {D : Type 0} → Versions D → List ℕ → Type 0
IsRing vs xs = Segment vs.next vs.prev dummy xs dummy

-- What differs from every version of a segment differs from its last.
last_ne :
    (next prev : ℕ → ℕ) (c a : ℕ) (xs : List ℕ)
    → Segment next prev a xs dummy
    → c ≢ a
    → All (λ y. c ≢ y) xs
    → c ≢ prev dummy
last_ne next prev c a [] s h f = ground arith
last_ne next prev c a (x ∷ xs) s h f = last_ne next prev c x xs s.2 f.0 f.1

module _ {D : Type 0} (vs : Versions D) (v : ℕ) (fresh : v ≢ vs.prev dummy) (ne : v ≢ dummy) where
  link-Segment :
      (a : ℕ) (xs : List ℕ)
      → Segment vs.next vs.prev a xs dummy
      → v ≢ a
      → All (λ x. v ≢ x) xs
      → All (λ x. dummy ≢ x) xs
      → Distinct (a ∷ xs)
      → Segment (link v vs).next (link v vs).prev a (xs ++ v ∷ []) dummy
  unfolding link
  link-Segment a [] s k f z d = ground arith
  link-Segment a (x ∷ xs) s k f z d =
      let last : a ≢ vs.prev dummy = last_ne vs.next vs.prev a x xs s.2 d.0.0 d.0.1 in
      (ground arith, ground arith, link-Segment x xs s.2 f.0 f.1 z.1 d.1)

-- AppendVersion's writes put a new version at the end of the ring: the versions that were on it keep
-- their order, in both directions.
pub link-IsRing :
    {D : Type 0} (vs : Versions D) (v : ℕ) (xs : List ℕ)
    → IsRing vs xs
    → v ≢ dummy
    → All (λ x. v ≢ x) xs
    → Distinct (dummy ∷ xs)
    → IsRing (link v vs) (xs ++ v ∷ [])
link-IsRing vs v xs r h f d =
    link-Segment vs v (last_ne vs.next vs.prev v dummy xs r h f) h dummy xs r h f d.0 d
