-- ===== src/VersionSet/Merge.antt =====
-- The merge of two ordered lists that VersionSet::Builder::SaveTo makes by std::upper_bound.
use mathlib.Core.List.{Perm, perm_middle}
use mathlib.Core.List.Perm
use leveldb_study.Base.{
  ◌≡◌, refl, ap, Bool, false, List, [], ◌∷◌, ◌++◌, arith, if◌then◌else◌, All, All-append,
  Bool-cases, inl, inr, append-nil, append_assoc, sym, ◌∙◌,
}
use leveldb_study.Order.{IsWeakOrder}

module _ {ℓ} {A : Type ℓ} (less : A → A → Bool) where
  -- The elements of an ordered range before `std::upper_bound(first, last, a, less)`, and those
  -- from there on.
  unfoldable pub before_upper : A → List A → List A
  before_upper a [] = []
  before_upper a (b ∷ bs) = if less a b then [] else b ∷ before_upper a bs

  unfoldable pub from_upper : A → List A → List A
  from_upper a [] = []
  from_upper a (b ∷ bs) = if less a b then b ∷ bs else from_upper a bs

  -- Each of the second list behind those of the first that it does not precede.
  unfoldable pub merge : List A → List A → List A
  merge base [] = base
  merge base (a ∷ added) = before_upper a base ++ a ∷ merge (from_upper a base) added

  abbrev pub Ordered : List A → Type 0
  Ordered [] = Unit
  Ordered (x ∷ xs) = All (λ y. less y x ≡ false) xs × Ordered xs

  pub before-append-from : (a : A) (bs : List A) → before_upper a bs ++ from_upper a bs ≡ bs
  unfolding before_upper from_upper
  before-append-from a [] = refl
  before-append-from a (b ∷ bs) = ground (arith, before-append-from a bs)

  pub merge-perm : (base added : List A) → Perm (merge base added) (base ++ added)
  unfolding merge
  merge-perm base [] = rw append-nil (Perm.refl base)
  merge-perm base (a ∷ added) =
      let front = before_upper a base in
      let back = from_upper a base in
      let joined : front ++ (back ++ added) ≡ base ++ added =
        sym (append_assoc front back added) ∙ ap (λ l. l ++ added) (before-append-from a base) in
      Perm.trans (Perm.append_left front (Perm.cons a (merge-perm back added))) (
        Perm.trans (perm_middle front (back ++ added))
          (rw joined (Perm.symm (perm_middle base added))))

  module _ {κ} (P : A → Type κ) where
    All-before : (a : A) (bs : List A) → All P bs → All P (before_upper a bs)
    unfolding before_upper
    All-before a [] h = tt
    All-before a (b ∷ bs) h = elim (Bool-cases (less a b)) [
      | inl e ↦ rw e tt
      | inr e ↦ rw e (h.0, All-before a bs h.1)
    ]

    All-from : (a : A) (bs : List A) → All P bs → All P (from_upper a bs)
    unfolding from_upper
    All-from a [] h = tt
    All-from a (b ∷ bs) h = elim (Bool-cases (less a b)) [
      | inl e ↦ rw e h
      | inr e ↦ rw e (All-from a bs h.1)
    ]

    pub All-merge : (base added : List A) → All P base → All P added → All P (merge base added)
    unfolding merge
    All-merge base [] h k = h
    All-merge base (a ∷ added) h k =
        All-append P (before_upper a base) _ (All-before a base h)
          (k.0, All-merge (from_upper a base) added (All-from a base h) k.1)

  Ordered-append :
      (xs ys : List A)
      → Ordered xs
      → All (λ x. All (λ y. less y x ≡ false) ys) xs
      → Ordered ys
      → Ordered (xs ++ ys)
  Ordered-append [] ys o h p = p
  Ordered-append (x ∷ xs) ys o h p =
      (All-append (λ y. less y x ≡ false) xs ys o.0 h.0, Ordered-append xs ys o.1 h.1 p)

  Ordered-before : (a : A) (bs : List A) → Ordered bs → Ordered (before_upper a bs)
  unfolding before_upper
  Ordered-before a [] o = tt
  Ordered-before a (b ∷ bs) o = elim (Bool-cases (less a b)) [
    | inl e ↦ rw e tt
    | inr e ↦ rw e (All-before (λ y. less y b ≡ false) a bs o.0, Ordered-before a bs o.1)
  ]

  Ordered-from : (a : A) (bs : List A) → Ordered bs → Ordered (from_upper a bs)
  unfolding from_upper
  Ordered-from a [] o = tt
  Ordered-from a (b ∷ bs) o = elim (Bool-cases (less a b)) [
    | inl e ↦ rw e o
    | inr e ↦ rw e (Ordered-from a bs o.1)
  ]

  before-le : (a : A) (bs : List A) → All (λ b. less a b ≡ false) (before_upper a bs)
  unfolding before_upper
  before-le a [] = tt
  before-le a (b ∷ bs) = elim (Bool-cases (less a b)) [
    | inl e ↦ rw e tt
    | inr e ↦ rw e (e, before-le a bs)
  ]

  module _ (w : IsWeakOrder less) where
    pub All-le_trans :
        (a b : A) (ys : List A)
        → less b a ≡ false
        → All (λ y. less y b ≡ false) ys
        → All (λ y. less y a ≡ false) ys
    All-le_trans a b [] e h = tt
    All-le_trans a b (y ∷ ys) e h = (w.le_trans a b y e h.0, All-le_trans a b ys e h.1)

    from-ge : (a : A) (bs : List A) → Ordered bs → All (λ y. less y a ≡ false) (from_upper a bs)
    unfolding from_upper
    from-ge a [] o = tt
    from-ge a (b ∷ bs) o = elim (Bool-cases (less a b)) [
      | inl e ↦ rw e (w.asym a b e, All-le_trans a b bs (w.asym a b e) o.0)
      | inr e ↦ rw e (from-ge a bs o.1)
    ]

    below-rest :
        (a : A) (ys zs : List A)
        → All (λ b. less a b ≡ false) zs
        → All (λ y. less y a ≡ false) ys
        → All (λ x. All (λ y. less y x ≡ false) (a ∷ ys)) zs
    below-rest a ys [] h k = tt
    below-rest a ys (z ∷ zs) h k = ((h.0, All-le_trans z a ys h.0 k), below-rest a ys zs h.1 k)

    -- The merge of two ordered lists is ordered.
    pub merge-Ordered :
        (base added : List A) → Ordered base → Ordered added → Ordered (merge base added)
    unfolding merge
    merge-Ordered base [] o p = o
    merge-Ordered base (a ∷ added) o p =
        let rest = merge (from_upper a base) added in
        let above : All (λ y. less y a ≡ false) rest =
          All-merge (λ y. less y a ≡ false) (from_upper a base) added (from-ge a base o) p.0 in
        Ordered-append (before_upper a base) (a ∷ rest) (Ordered-before a base o)
          (below-rest a rest (before_upper a base) (before-le a base) above)
          (above, merge-Ordered (from_upper a base) added (Ordered-from a base o) p.1)
