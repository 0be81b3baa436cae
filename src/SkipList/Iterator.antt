-- ===== src/SkipList/Iterator.antt =====
-- Iterator of leveldb/db/skiplist.h: its node, or null. `none` as a result is a failed assertion.
use leveldb_study.Base.{
  ◌>>=◌, ℕ, zero, suc, ◌<◌, ◌≡◌, refl, Bool, true, false, ◌||◌, Option, none, some, List, [], ◌∷◌,
  Ordering, if◌then◌else◌, ltb, ◌==◌, All, length, arith, Bool-cases, inl, inr,
}
use leveldb_study.Order.{IsOrder}
use leveldb_study.SkipList.{SkipList, head, load, find_greater_or_equal, find_less_than, find_last}
use leveldb_study.SkipList.Chain.{Links, first_ge}
use leveldb_study.SkipList.Valid.{IsValid, find_greater_or_equal-first_ge, holds}
use leveldb_study.SkipList.Last.{last_of, find_last-last_of}
use leveldb_study.SkipList.Less.{find_less_than-answer}

pub record Iterator : Type 0 where
  pub node : Option ℕ

unfoldable pub new_iterator : Iterator
new_iterator = record { node = none }

unfoldable pub is_valid : Iterator → Bool
is_valid it = elim it.node [ none ↦ false | some a ↦ true ]

-- `if (node_ == list_->head_) node_ = nullptr`.
unfoldable pub drop_head : ℕ → Iterator
drop_head a = record { node = if a == head then none else some a }

module _ {K R : Type 0} (s : SkipList K R) where
  unfoldable pub key_at : Iterator → Option K
  key_at it = elim it.node [ none ↦ none | some a ↦ some (s.key a) ]

  unfoldable pub next : Iterator → Option Iterator
  next it = elim it.node [ none ↦ none | some a ↦ do n ← load s a 0; some (record { node = n }) ]

  unfoldable pub prev : (K → K → Ordering) → Iterator → Option Iterator
  unfolding drop_head
  prev cmp it = elim it.node [
    | none ↦ none
    | some a ↦ do p ← find_less_than cmp s (s.key a); some (drop_head p)
  ]

  unfoldable pub seek : (K → K → Ordering) → K → Option Iterator
  seek cmp k = do (x, _) ← find_greater_or_equal cmp s k none; some (record { node = x })

  unfoldable pub seek_to_first : Option Iterator
  seek_to_first = do n ← load s head 0; some (record { node = n })

  unfoldable pub seek_to_last : Option Iterator
  unfolding drop_head
  seek_to_last = do a ← find_last s; some (drop_head a)

  -- What a client reads that calls Next until the iterator is not valid.
  unfoldable pub read_all : ℕ → Option Iterator → Option (List K)
  unfolding next
  read_all zero it = none
  read_all (suc fuel) none = none
  read_all (suc fuel) (some it) = elim it.node [
    | none ↦ some []
    | some a ↦ do rest ← read_all fuel (next it); some (s.key a ∷ rest)
  ]

  abbrev pub keys_of : List ℕ → List K
  keys_of [] = []
  keys_of (y ∷ ys) = s.key y ∷ keys_of ys

  abbrev pub first_of : List ℕ → Option ℕ
  first_of [] = none
  first_of (y ∷ ys) = some y

  abbrev pub has : ℕ → List ℕ → Bool
  has a [] = false
  has a (y ∷ ys) = a == y || has a ys

  load-first_of :
      (x : ℕ) (ys : List ℕ)
      → All (λ a. 0 < s.height a) ys
      → Links s 0 x ys
      → load s x 0 ≡ some (first_of ys)
  unfolding load
  load-first_of x [] t h = ground (arith, h.0, h.1)
  load-first_of x (y ∷ ys) t h = elim (Bool-cases (ltb 0 (s.height y))) [
    | inl e ↦ let h' = rw e at h in ground (arith, h'.0, h'.1)
    | inr e ↦ absurd (ground (arith, t.0))
  ]

  read_all-keys_of :
      (fuel : ℕ) (x : ℕ) (ys : List ℕ)
      → All (λ a. 0 < s.height a) ys
      → Links s 0 x ys
      → length ys < fuel
      → read_all fuel (some (record { node = first_of ys })) ≡ some (keys_of ys)
  unfolding read_all next
  read_all-keys_of zero x ys t h lt = absurd (omega arith)
  read_all-keys_of (suc fuel) x [] t h lt = refl
  read_all-keys_of (suc fuel) x (y ∷ ys) t h lt = elim (Bool-cases (ltb 0 (s.height y))) [
    | inl e ↦
        let h' = rw e at h in
        rw (load-first_of y ys t.1 h'.2, read_all-keys_of fuel y ys t.1 h'.2 (omega arith)) refl
    | inr e ↦ absurd (ground (arith, t.0))
  ]

  module _ {cmp : K → K → Ordering} {xs : List ℕ} (o : IsOrder cmp) (v : IsValid cmp s xs) where
    -- SeekToFirst, and then Next until the iterator is not valid, reads the keys of the list in order.
    pub read_all-seek_to_first : read_all s.fresh seek_to_first ≡ some (keys_of xs)
    unfolding seek_to_first
    read_all-seek_to_first =
        let start = v.links 0 (omega arith) in
        rw (load-first_of head xs v.tall start)
          (read_all-keys_of s.fresh head xs v.tall start (omega (arith, v.count)))

    -- Seek leaves the iterator at the earliest node whose key is not below the target.
    pub seek-first_ge : (k : K) → seek cmp k ≡ some (record { node = first_ge s cmp k xs })
    unfolding seek
    seek-first_ge k =
        let (p', found, rec) = find_greater_or_equal-first_ge o v k none in rw found refl

    -- SeekToLast leaves the iterator at the last node, and without one it is not valid.
    pub seek_to_last-last_of :
        seek_to_last
        ≡ some (record { node = if last_of head xs == head then none else some (last_of head xs) })
    unfolding seek_to_last drop_head
    seek_to_last-last_of = rw (find_last-last_of s o v) refl

    holds-has : (a : ℕ) (ys : List ℕ) → has a ys ≡ true → holds s cmp (s.key a) ys ≡ true
    holds-has a [] h = cc
    holds-has a (y ∷ ys) h = elim (Bool-cases (a == y)) [
      | inl e ↦
          let same : a ≡ y = ground arith in
          rw same (ground (arith, o.flip_lt (s.key y) (s.key y), o.flip_gt (s.key y) (s.key y)))
      | inr e ↦ ground (arith, holds-has a ys)
    ]

    -- Prev at a node of the list fails the assertion in FindLessThan.
    pub prev-fails : (a : ℕ) → has a xs ≡ true → prev cmp (record { node = some a }) ≡ none
    unfolding prev
    prev-fails a h = rw (find_less_than-answer s o v (s.key a), holds-has a xs h) refl
