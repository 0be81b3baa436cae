-- ===== src/Order.antt =====
-- Three-way comparison, as leveldb's comparators return it (negative, zero, positive), and what the
-- code relies on when it orders keys by one.
use leveldb_study.Base.{◌≡◌, Bool, true, false, Ordering, arith}

-- The documented behaviour of a comparator: a total preorder.
pub record IsOrder {ℓ} {A : Type ℓ} (cmp : A → A → Ordering) : Type ℓ where
  pub flip_lt : (a b : A) → cmp a b ≡ Ordering.lt → cmp b a ≡ Ordering.gt
  pub flip_gt : (a b : A) → cmp a b ≡ Ordering.gt → cmp b a ≡ Ordering.lt
  pub lt_trans : (a b c : A) → cmp a b ≡ Ordering.lt → cmp b c ≡ Ordering.lt → cmp a c ≡ Ordering.lt
  pub eq_left : (a b c : A) → cmp a b ≡ Ordering.eq → cmp a c ≡ cmp b c

-- A Boolean order: irreflexive, transitive, and total up to "neither is less".
pub record IsWeakOrder {ℓ} {A : Type ℓ} (less : A → A → Bool) : Type ℓ where
  pub asym : (a b : A) → less a b ≡ true → less b a ≡ false
  pub le_trans : (a b c : A) → less b a ≡ false → less c b ≡ false → less c a ≡ false

abbrev pub is_lt : Ordering → Bool
is_lt Ordering.lt = true
is_lt Ordering.eq = false
is_lt Ordering.gt = false

module _ {ℓ} {A : Type ℓ} {cmp : A → A → Ordering} (o : IsOrder cmp) where
  pub flip_eq : (a b : A) → cmp a b ≡ Ordering.eq → cmp b a ≡ Ordering.eq
  flip_eq a b e = ground (arith, o.flip_lt b a, o.flip_gt b a)

  pub eq_right : (a b c : A) → cmp a b ≡ Ordering.eq → cmp c a ≡ cmp c b
  eq_right a b c e = ground (
    arith,
    o.eq_left a b c e,
    flip_eq a c,
    flip_eq c b,
    flip_eq b c,
    flip_eq c a,
    o.flip_lt a c,
    o.flip_gt a c,
    o.flip_lt c a,
    o.flip_gt c a,
    o.flip_lt b c,
    o.flip_gt b c,
    o.flip_lt c b,
    o.flip_gt c b,
  )

  pub lt_irrefl : (a : A) → is_lt (cmp a a) ≡ false
  lt_irrefl a = ground (arith, o.flip_lt a a)
