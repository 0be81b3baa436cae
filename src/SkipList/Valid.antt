-- ===== src/SkipList/Valid.antt =====
-- The invariant of leveldb/db/skiplist.h, and what the searches answer where it holds.
use leveldb_study.Base.{
  ℕ, zero, suc, ◌+◌, ◌-◌, ◌≤◌, ◌<◌, ◌≡◌, ◌≢◌, refl, Bool, true, false, ◌||◌, Option, none, some,
  List, [], ◌∷◌, Ordering, ltb, ◌==◌, All, length, arith, Bool-cases, inl, inr, ◌∙◌, update, ap,
}
use leveldb_study.Order.{IsOrder, is_lt}
use leveldb_study.SkipList.{
  SkipList, head, limit, is_eq, find_greater_or_equal, contains, clear_slots, new_list, no_node,
  new_node, store,
}
use leveldb_study.SkipList.Chain.{Links, Sorted, first_ge}
use leveldb_study.SkipList.Place.{Distinct}
use leveldb_study.SkipList.Keys.{above_of_new}
use leveldb_study.SkipList.Search.{At, Recorded, find_ge_loop-Found}

-- The nodes of the list, in order: on every level the links lead through those that are tall
-- enough, keys grow, and no address is used twice.
pub record IsValid {K R : Type 0} (cmp : K → K → Ordering) (s : SkipList K R) (xs : List ℕ)
    : Type 0 where
  pub links : (i : ℕ) → i < limit → Links s i head xs
  pub sorted : Sorted s cmp xs
  pub tall : All (λ a. 0 < s.height a) xs
  pub short : All (λ a. s.height a ≤ s.max_height) xs
  pub old : All (λ a. s.fresh ≢ a) xs
  pub bounded : All (λ a. a < s.fresh) xs
  pub distinct : Distinct (head ∷ xs)
  pub count : s.fresh ≡ suc (length xs)
  pub levels : (0 < s.max_height) × (s.max_height ≤ limit)
  pub head_height : s.height head ≡ limit

module _ {K R : Type 0} where
  -- What the loop of the constructor leaves alone, and the slots that it empties.
  record Cleared (level rounds : ℕ) (s s' : SkipList K R) : Type 0 where
    pub same_key : s'.key ≡ s.key
    pub same_height : s'.height ≡ s.height
    pub same_fresh : s'.fresh ≡ s.fresh
    pub same_max_height : s'.max_height ≡ s.max_height
    pub empty : (i : ℕ) → level ≤ i → i < level + rounds → s'.next head i ≡ none
    pub under : (i : ℕ) → i < level → s'.next head i ≡ s.next head i

  clear_slots-Cleared :
      (rounds level : ℕ) (s : SkipList K R)
      → level + rounds ≤ s.height head
      → (s' : SkipList K R) × (clear_slots level rounds s ≡ some s') × Cleared level rounds s s'
  unfolding clear_slots store
  clear_slots-Cleared zero level s fits = (
    s,
    refl,
    record {
      same_key = refl;
      same_height = refl;
      same_fresh = refl;
      same_max_height = refl;
      empty = λ i le lt. absurd (omega arith);
      under = λ i lt. refl;
    },
  )
  clear_slots-Cleared (suc rounds) level s fits =
      let next1 = update s.next head (update (s.next head) level none) in
      let s1 : SkipList K R = record s { next = next1 } in
      let (s', e, c) = clear_slots-Cleared rounds (level + 1) s1 (omega arith) in
      let room : ltb level (s.height head) ≡ true = ground arith in
      (
        s',
        rw (room, e) refl,
        record {
          same_key = c.same_key;
          same_height = c.same_height;
          same_fresh = c.same_fresh;
          same_max_height = c.same_max_height;
          empty = λ i le lt. elim (Bool-cases (i == level)) [
            | inl q ↦ c.under i (ground arith) ∙ ground arith
            | inr q ↦ c.empty i (ground arith) (omega arith)
          ];
          under = λ i lt. c.under i (omega arith) ∙ ground arith;
        },
      )

module _ {K R : Type 0} {cmp : K → K → Ordering} where
  -- The constructor ends without a failed assertion, whatever the memory held, and its list is valid
  -- and holds no node.
  pub new_list-IsValid :
      (k : K) (memory : ℕ → ℕ → Option ℕ) (seed : R)
      → (s : SkipList K R) × (new_list k memory seed ≡ some s) × IsValid cmp s []
  unfolding new_list new_node
  new_list-IsValid k memory seed =
      let (s, e, c) =
        clear_slots-Cleared limit 0 (new_node (no_node k memory seed) k limit) (omega arith) in
      (
        s,
        e,
        record {
          links = λ i lt. (ground (arith, c.same_height), c.empty i (omega arith) (omega arith));
          sorted = tt;
          tall = tt;
          short = tt;
          old = tt;
          bounded = tt;
          distinct = (tt, tt);
          count = c.same_fresh;
          levels = omega (arith, c.same_max_height);
          head_height = ap (λ (h : ℕ → ℕ). h head) c.same_height;
        },
      )

  module _ {s : SkipList K R} {xs : List ℕ} (o : IsOrder cmp) (v : IsValid cmp s xs) (k : K) where
    pub At-head : At s cmp o k (s.max_height - 1) head xs
    At-head = record {
      links = λ j le. v.links j (omega (arith, v.levels.0, v.levels.1));
      sorted = v.sorted;
      tall = v.tall;
    }

    -- FindGreaterOrEqual ends, reads only slots that exist, returns the earliest node whose key is
    -- not below the given one, and leaves in `prev`, if it is not null, the last node below it on
    -- every level of the list.
    pub find_greater_or_equal-first_ge :
        (prev : Option (ℕ → ℕ))
        → (p' : Option (ℕ → ℕ)) × (find_greater_or_equal cmp s k prev
            ≡ some (first_ge s cmp k xs, p'))
          × Recorded s cmp o k (s.max_height - 1) head xs prev p'
    unfolding find_greater_or_equal
    find_greater_or_equal-first_ge prev =
        find_ge_loop-Found s cmp o k (s.fresh + s.max_height) (s.max_height - 1) head xs prev
          At-head (omega (arith, v.count, v.levels.0))

module _ {K R : Type 0} (s : SkipList K R) (cmp : K → K → Ordering) (k : K) where
  -- Whether some node has a key equal to the given one.
  abbrev pub holds : List ℕ → Bool
  holds [] = false
  holds (y ∷ ys) = is_eq (cmp k (s.key y)) || holds ys

  abbrev is_hit : Option ℕ → Bool
  is_hit none = false
  is_hit (some a) = is_eq (cmp k (s.key a))

  pub holds-above :
      (o : IsOrder cmp) (y : ℕ) (ys : List ℕ)
      → is_lt (cmp k (s.key y)) ≡ true
      → All (λ z. is_lt (cmp (s.key y) (s.key z)) ≡ true) ys
      → holds ys ≡ false
  holds-above o y [] h a = refl
  holds-above o y (z ∷ zs) h a =
      ground (arith, o.lt_trans k (s.key y) (s.key z), a.0, holds-above o y zs h a.1)

  is_hit-first_ge :
      (o : IsOrder cmp) (ys : List ℕ) → Sorted s cmp ys → is_hit (first_ge s cmp k ys) ≡ holds ys
  is_hit-first_ge o [] h = refl
  is_hit-first_ge o (y ∷ ys) h = ground (
    arith,
    is_hit-first_ge o ys h.1,
    o.flip_lt (s.key y) k,
    o.flip_gt k (s.key y),
    above_of_new s cmp k 0 y o,
    holds-above o y ys,
  )

  -- Contains says whether some node of the list has an equal key.
  pub contains-holds :
      {xs : List ℕ} (o : IsOrder cmp) → IsValid cmp s xs → contains cmp s k ≡ some (holds xs)
  unfolding contains
  contains-holds {xs} o v =
      let (p', found, rec) = find_greater_or_equal-first_ge o v k none in
      ground (arith, found, is_hit-first_ge o xs v.sorted)
