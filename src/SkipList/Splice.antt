-- ===== src/SkipList/Splice.antt =====
-- The part of Insert of leveldb/db/skiplist.h behind the search keeps the invariant.
use leveldb_study.Base.{
  ℕ, zero, suc, ◌+◌, ◌-◌, ◌≤◌, ◌<◌, ◌≡◌, ◌≢◌, refl, sym, false, ◌&&◌, some, List, [], ◌∷◌, Ordering,
  if◌then◌else◌, ltb, leb, All, All-map₂, arith, Bool-cases, inl, inr, ◌∙◌, update, update_self,
  subst, ap, ltb→lt, lt→ltb,
}
use leveldb_study.Order.{IsOrder}
use leveldb_study.SkipList.{SkipList, head, limit, is_eq, raise, new_node, insert_at}
use leveldb_study.SkipList.Chain.{Links, last_below}
use leveldb_study.SkipList.Place.{
  place, All-place, length-place, place-Distinct, last_below-ne, Level, Links-place, Links-skip,
}
use leveldb_study.SkipList.Keys.{place-Sorted}
use leveldb_study.SkipList.Insertion.{Linked, link_node-Linked}
use leveldb_study.SkipList.Valid.{IsValid}

raise_lem :
    (prev : ℕ → ℕ) (level rounds j : ℕ)
    → raise prev level rounds j ≡ (if leb level j && ltb j (level + rounds) then head else prev j)
unfolding raise
raise_lem prev level zero j = ground arith
raise_lem prev level (suc rounds) j =
    ground (arith, raise_lem (update prev level head) (level + 1) rounds j)

module _ {K R : Type 0} {cmp : K → K → Ordering} (o : IsOrder cmp) (k : K) where
  last_below-high :
      (s : SkipList K R) (i x : ℕ) (ys : List ℕ)
      → All (λ a. s.height a ≤ i) ys
      → last_below s cmp k i x ys ≡ x
  last_below-high s i x [] h = refl
  last_below-high s i x (y ∷ ys) h = ground (arith, last_below-high s i x ys h.1, h.0)

  last_below-fits :
      (s : SkipList K R) (i x : ℕ) (ys : List ℕ)
      → i < s.height x
      → i < s.height (last_below s cmp k i x ys)
  last_below-fits s i x [] h = h
  last_below-fits s i x (y ∷ ys) h =
      ground (arith, last_below-fits s i x ys, last_below-fits s i y ys)

  module _ (s : SkipList K R) (xs : List ℕ) (v : IsValid cmp s xs) (height : ℕ) (low : 0 < height)
      (high : height ≤ limit) where
    abbrev pub max_of : ℕ
    max_of = if ltb s.max_height height then height else s.max_height

    abbrev pub raised : (ℕ → ℕ) → ℕ → ℕ
    raised prev =
        if ltb s.max_height height then raise prev s.max_height (height - s.max_height) else prev

    pub raised_lem :
        (prev : ℕ → ℕ) (i : ℕ)
        → ((j : ℕ) → j ≤ s.max_height - 1 → prev j ≡ last_below s cmp k j head xs)
        → i < height
        → raised prev i ≡ last_below s cmp k i head xs
    raised_lem prev i h lt = elim (Bool-cases (ltb i s.max_height)) [
      | inl e ↦
          let lt' : i < s.max_height = ltb→lt i s.max_height e in
          ground (arith, h i, raise_lem prev s.max_height (height - s.max_height) i)
      | inr e ↦
          let ge : s.max_height ≤ i = ground arith in
          let top =
            last_below-high s i head xs (All-map₂ xs (λ a p _. omega arith) v.short v.short) in
          ground (arith, top, raise_lem prev s.max_height (height - s.max_height) i)
    ]

    abbrev pub allocated : SkipList K R
    allocated = new_node (record s { max_height = max_of }) k height

    allocated-height : (a : ℕ) → a ≢ s.fresh → allocated.height a ≡ s.height a
    unfolding new_node
    allocated-height a ne = ground arith

    allocated_fits : (i : ℕ) → i < height → i < allocated.height s.fresh
    unfolding new_node
    allocated_fits i lt = omega (arith, update_self s.height s.fresh height)

    pub prev-fits :
        (prev : ℕ → ℕ) (i : ℕ)
        → prev i ≡ last_below s cmp k i head xs
        → i < height
        → (i < allocated.height s.fresh) × (i < allocated.height (prev i)) × (prev i ≢ s.fresh)
    prev-fits prev i e lt =
        let far : s.fresh ≢ last_below s cmp k i head xs =
          last_below-ne s cmp k s.fresh i s.fresh head xs (omega (arith, v.count)) v.old in
        let ne : prev i ≢ s.fresh = λ q. far (sym q ∙ e) in
        let tall : i < s.height (last_below s cmp k i head xs) =
          last_below-fits s i head xs (omega (arith, v.head_height)) in
        (
          allocated_fits i lt,
          subst (λ (h : ℕ). i < h) (sym (allocated-height (prev i) ne ∙ ap s.height e)) tall,
          ne,
        )

    -- What the loop of Insert leaves is a valid list with the new node behind the smaller keys.
    module _ (prev : ℕ → ℕ) (at : (i : ℕ) → i < height → prev i ≡ last_below s cmp k i head xs)
        (new : All (λ y. is_eq (cmp k (s.key y)) ≡ false) xs) (s' : SkipList K R)
        (l : Linked prev s.fresh 0 height allocated s') where
      abbrev after : List ℕ
      after = place s cmp k s.fresh xs

      old_height : (a : ℕ) → a ≢ s.fresh → s'.height a ≡ s.height a
      old_height a ne = ap (λ (h : ℕ → ℕ). h a) l.same_height ∙ allocated-height a ne

      new_height : s'.height s.fresh ≡ height
      unfolding new_node
      new_height = ap (λ (h : ℕ → ℕ). h s.fresh) l.same_height ∙ update_self s.height s.fresh height

      old_key : (a : ℕ) → s.fresh ≢ a → s'.key a ≡ s.key a
      unfolding new_node
      old_key a ne = ap (λ (h : ℕ → K). h a) l.same_key ∙ ground arith

      new_key : s'.key s.fresh ≡ k
      unfolding new_node
      new_key = ap (λ (h : ℕ → K). h s.fresh) l.same_key ∙ update_self s.key s.fresh k

      reached : (i : ℕ) → i < height → Level s cmp k s.fresh s' i (prev i)
      unfolding new_node
      reached i lt = record {
        heights = old_height;
        fits = lt→ltb i (s'.height s.fresh) (omega (arith, new_height));
        at_new = l.at_new i (omega arith) (omega arith);
        at_prev = l.at_prev i (omega arith) (omega arith);
        elsewhere = λ a n m. l.elsewhere i a (omega arith) (omega arith) n m;
      }

      head_ne : s.fresh ≢ head
      head_ne = omega (arith, v.count)

      Links-after : (i : ℕ) → i < limit → Links s' i head after
      unfolding new_node
      Links-after i lt = elim (Bool-cases (ltb i height)) [
        | inl e ↦
            let in_range : i < height = ltb→lt i height e in
            Links-place s cmp k s.fresh s' i (prev i) (reached i in_range) head xs (v.links i lt)
              (omega (arith, old_height head (λ q. head_ne (sym q)), v.head_height)) head_ne v.old
              v.distinct (at i in_range)
        | inr e ↦
            Links-skip s cmp k s.fresh s' i head xs old_height (ground (arith, new_height))
              (λ a. l.above i a (ground arith)) head_ne v.old (v.links i lt)
      ]

      insert_at-IsValid : IsValid cmp s' after
      unfolding new_node
      insert_at-IsValid = record {
        links = Links-after;
        sorted =
            place-Sorted s cmp k s.fresh s' xs o new_key
              (All-map₂ xs (λ a p _. old_key a p) v.old v.old) new v.sorted;
        tall =
            All-place s cmp k s.fresh (λ a. 0 < s'.height a) xs (omega (arith, new_height))
              (All-map₂ xs (λ a p q. omega (arith, old_height a (λ r. q (sym r)), p)) v.tall v.old);
        short =
            All-place s cmp k s.fresh (λ a. s'.height a ≤ s'.max_height) xs
              (ground (arith, new_height, l.same_max_height))
              (All-map₂ xs
                (λ a p q. ground (arith, old_height a (λ r. q (sym r)), l.same_max_height)) v.short
                v.old);
        old =
            All-place s cmp k s.fresh (λ a. s'.fresh ≢ a) xs (omega (arith, l.same_fresh))
              (All-map₂ xs (λ a p _. omega (arith, l.same_fresh, p)) v.bounded v.bounded);
        bounded =
            All-place s cmp k s.fresh (λ a. a < s'.fresh) xs (omega (arith, l.same_fresh))
              (All-map₂ xs (λ a p _. omega (arith, l.same_fresh, p)) v.bounded v.bounded);
        distinct = (
          All-place s cmp k s.fresh (λ a. head ≢ a) xs (λ q. head_ne (sym q)) v.distinct.0,
          place-Distinct s cmp k s.fresh xs v.old v.distinct.1,
        );
        count = omega (arith, l.same_fresh, v.count, length-place s cmp k s.fresh xs);
        levels = ground (arith, l.same_max_height, v.levels.0, v.levels.1);
        head_height = old_height head (λ q. head_ne (sym q)) ∙ v.head_height;
      }

    pub inserted :
        (prev : ℕ → ℕ)
        → ((j : ℕ) → j ≤ s.max_height - 1 → prev j ≡ last_below s cmp k j head xs)
        → All (λ y. is_eq (cmp k (s.key y)) ≡ false) xs
        → (s' : SkipList K R) × (insert_at k prev height s ≡ some s')
          × (s'.key s.fresh ≡ k)
          × All (λ y. s'.key y ≡ s.key y) xs
          × IsValid cmp s' (place s cmp k s.fresh xs)
    unfolding insert_at
    inserted prev low_prev new =
        let at : (i : ℕ) → i < height → raised prev i ≡ last_below s cmp k i head xs =
          λ i lt. raised_lem prev i low_prev lt in
        let (s', e, l) = link_node-Linked (raised prev) s.fresh height 0 allocated (λ i _ lt.
          let lt0 : i < height = omega arith in prev-fits (raised prev) i (at i lt0) lt0) in
        (
          s',
          e,
          new_key (raised prev) at new s' l,
          All-map₂ xs (λ a p _. old_key (raised prev) at new s' l a p) v.old v.old,
          insert_at-IsValid (raised prev) at new s' l,
        )
