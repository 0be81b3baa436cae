-- ===== src/SkipList/Readers/Shape.antt =====
-- The list of leveldb/db/skiplist.h between two rounds of the loop of Insert: a reader finds the old
-- list before the first round, and the new one after it, with a node that grows by a level each round.
use leveldb_study.Base.{
  ℕ, zero, suc, ◌≤◌, ◌<◌, ◌≡◌, ◌≢◌, sym, false, List, [], ◌∷◌, Ordering, ltb, All, All-map₂, arith,
  Bool-cases, inl, inr, ◌∙◌, ap, update, update_self, ltb→lt,
}
use leveldb_study.Order.{IsOrder}
use leveldb_study.SkipList.{SkipList, head, limit, is_eq, new_node}
use leveldb_study.SkipList.Chain.{Links, last_below}
use leveldb_study.SkipList.Insertion.{Linked}
use leveldb_study.SkipList.Place.{
  place, All-place, place-Distinct, Level, Links-place, Links-skip, Links-same,
}
use leveldb_study.SkipList.Keys.{Sorted-same, place-Sorted}
use leveldb_study.SkipList.Valid.{IsValid}
use leveldb_study.SkipList.Readers.Stands.{IsReadable}

module _ {K R : Type 0} where
  -- The list as a reader finds it, where the new node `f` has `j` levels so far.
  abbrev pub seen : SkipList K R → (f j : ℕ) → SkipList K R
  seen s f j = record s { height = update s.height f j }

  Links-agree :
      (s s' : SkipList K R) (i x : ℕ) (L : List ℕ)
      → s'.height ≡ s.height
      → ((a : ℕ) → i < s.height a → s'.next a i ≡ s.next a i)
      → Links s i x L
      → Links s' i x L
  Links-agree s s' i x [] h n l = (rw h l.0, n x l.0 ∙ l.1)
  Links-agree s s' i x (y ∷ ys) h n l = elim (Bool-cases (ltb i (s.height y))) [
    | inl e ↦
        let l' = rw e at l in rw (h, e) (l'.0, n x l'.0 ∙ l'.1, Links-agree s s' i y ys h n l'.2)
    | inr e ↦ rw (h, e) (Links-agree s s' i x ys h n (rw e at l))
  ]

  module _ {cmp : K → K → Ordering} (o : IsOrder cmp) (kr : K) where
    -- Only the slots below the height of a node are read.
    pub IsReadable-agree :
        (s s' : SkipList K R) (L : List ℕ)
        → s'.key ≡ s.key
        → s'.height ≡ s.height
        → ((a i : ℕ) → i < s.height a → s'.next a i ≡ s.next a i)
        → IsReadable s cmp o kr L
        → IsReadable s' cmp o kr L
    IsReadable-agree s s' L k h n r = record {
      links = λ i lt. Links-agree s s' i head L h (λ a. n a i) (r.links i lt);
      sorted = rw k r.sorted;
      tall = rw h r.tall;
      low = rw h r.low;
      distinct = r.distinct;
    }

    module _ (k : K) (s : SkipList K R) (xs : List ℕ) (v : IsValid cmp s xs) (height mh : ℕ)
        (prev : ℕ → ℕ) (at : (i : ℕ) → i < height → prev i ≡ last_below s cmp k i head xs)
        (new : All (λ y. is_eq (cmp k (s.key y)) ≡ false) xs) where
      abbrev pub allocated : SkipList K R
      allocated = new_node (record s { max_height = mh }) k height

      -- The nodes that a reader finds after `j` rounds.
      abbrev pub nodes_at : ℕ → List ℕ
      nodes_at zero = xs
      nodes_at (suc j) = place s cmp k s.fresh xs

      head_ne : s.fresh ≢ head
      head_ne = omega (arith, v.count)

      module _ (j : ℕ) (s' : SkipList K R) (l : Linked prev s.fresh 0 j allocated s') where
        old_height : (a : ℕ) → a ≢ s.fresh → (seen s' s.fresh j).height a ≡ s.height a
        unfolding new_node
        old_height a ne = ground arith ∙ ap (λ (h : ℕ → ℕ). h a) l.same_height ∙ ground arith

        old_key : (a : ℕ) → s.fresh ≢ a → s'.key a ≡ s.key a
        unfolding new_node
        old_key a ne = ap (λ (h : ℕ → K). h a) l.same_key ∙ ground arith

        new_key : s'.key s.fresh ≡ k
        unfolding new_node
        new_key = ap (λ (h : ℕ → K). h s.fresh) l.same_key ∙ update_self s.key s.fresh k

        old_low : All (λ a. (seen s' s.fresh j).height a ≤ limit) xs
        old_low =
            All-map₂ xs (λ a p q. omega (arith, old_height a (λ r. q (sym r)), p, v.levels.1))
              v.short v.old

        old_tall : All (λ a. 0 < (seen s' s.fresh j).height a) xs
        old_tall =
            All-map₂ xs (λ a p q. omega (arith, old_height a (λ r. q (sym r)), p)) v.tall v.old

        old_keys : All (λ y. s'.key y ≡ s.key y) xs
        old_keys = All-map₂ xs (λ a p _. old_key a p) v.old v.old

      Linked-zero :
          (s' : SkipList K R)
          → Linked prev s.fresh 0 0 allocated s'
          → IsReadable (seen s' s.fresh 0) cmp o kr xs
      unfolding new_node
      Linked-zero s' l = record {
        links = λ i lt.
            Links-same s cmp k s.fresh (seen s' s.fresh 0) i head xs (old_height 0 s' l)
              (λ a. l.above i a (omega arith)) head_ne v.old (v.links i lt);
        sorted = Sorted-same s cmp k s.fresh s' xs (old_keys 0 s' l) v.sorted;
        tall = old_tall 0 s' l;
        low = old_low 0 s' l;
        distinct = v.distinct;
      }

      reached :
          (j : ℕ) (s' : SkipList K R)
          → suc j ≤ height
          → Linked prev s.fresh 0 (suc j) allocated s'
          → (i : ℕ) → i < suc j
          → Level s cmp k s.fresh (seen s' s.fresh (suc j)) i (prev i)
      unfolding new_node
      reached j s' le l i lt = record {
        heights = old_height (suc j) s' l;
        fits = ground arith;
        at_new = l.at_new i (omega arith) (omega arith);
        at_prev = l.at_prev i (omega arith) (omega arith);
        elsewhere = λ a n m. l.elsewhere i a (omega arith) (omega arith) n m;
      }

      Links-suc :
          (j : ℕ) (s' : SkipList K R)
          → suc j ≤ height
          → Linked prev s.fresh 0 (suc j) allocated s'
          → (i : ℕ) → i < limit
          → Links (seen s' s.fresh (suc j)) i head (place s cmp k s.fresh xs)
      unfolding new_node
      Links-suc j s' le l i lt = elim (Bool-cases (ltb i (suc j))) [
        | inl e ↦
            let in_range : i < suc j = ltb→lt i (suc j) e in
            Links-place s cmp k s.fresh (seen s' s.fresh (suc j)) i (prev i)
              (reached j s' le l i in_range) head xs (v.links i lt)
              (omega (arith, old_height (suc j) s' l head (λ q. head_ne (sym q)), v.head_height))
              head_ne v.old v.distinct (at i (omega arith))
        | inr e ↦
            Links-skip s cmp k s.fresh (seen s' s.fresh (suc j)) i head xs (old_height (suc j) s' l)
              (ground arith) (λ a. l.above i a (ground arith)) head_ne v.old (v.links i lt)
      ]

      Linked-suc :
          (j : ℕ) (s' : SkipList K R)
          → suc j ≤ height
          → height ≤ limit
          → Linked prev s.fresh 0 (suc j) allocated s'
          → IsReadable (seen s' s.fresh (suc j)) cmp o kr (place s cmp k s.fresh xs)
      unfolding new_node
      Linked-suc j s' le high l = record {
        links = λ i lt. Links-suc j s' le l i lt;
        sorted =
            place-Sorted s cmp k s.fresh s' xs o (new_key (suc j) s' l) (old_keys (suc j) s' l) new
              v.sorted;
        tall =
            All-place s cmp k s.fresh (λ a. 0 < (seen s' s.fresh (suc j)).height a) xs
              (ground arith) (old_tall (suc j) s' l);
        low =
            All-place s cmp k s.fresh (λ a. (seen s' s.fresh (suc j)).height a ≤ limit) xs
              (ground arith) (old_low (suc j) s' l);
        distinct = (
          All-place s cmp k s.fresh (λ a. head ≢ a) xs (λ q. head_ne (sym q)) v.distinct.0,
          place-Distinct s cmp k s.fresh xs v.old v.distinct.1,
        );
      }

      -- After any number of rounds a reader finds a list.
      pub Linked-IsReadable :
          (j : ℕ) (s' : SkipList K R)
          → j ≤ height
          → height ≤ limit
          → Linked prev s.fresh 0 j allocated s'
          → IsReadable (seen s' s.fresh j) cmp o kr (nodes_at j)
      Linked-IsReadable zero s' le high l = Linked-zero s' l
      Linked-IsReadable (suc j) s' le high l = Linked-suc j s' le high l
