-- ===== src/SkipList/Sequence.antt =====
-- The skip list of leveldb/db/skiplist.h against an abstract one: an ordered list of keys.
use leveldb_study.Base.{
  ◌>>=◌, ℕ, ◌≡◌, refl, true, false, Option, some, List, [], ◌∷◌, ◌++◌, append-nil, subst, Ordering,
  if◌then◌else◌, All, All-map₂, Bool-cases, inl, inr, ◌∙◌, ap,
}
use mathlib.Core.List.{Perm, perm_middle}
use mathlib.Core.List.Perm
use leveldb_study.Order.{IsOrder, is_lt}
use leveldb_study.SkipList.{SkipList, is_eq, insert, new_list}
use leveldb_study.SkipList.Chain.{below, Sorted}
use leveldb_study.SkipList.Place.{place}
use leveldb_study.SkipList.Valid.{IsValid, new_list-IsValid}
use leveldb_study.SkipList.Insert.{insert-IsValid}
use leveldb_study.SkipList.Iterator.{keys_of, read_all, seek_to_first, read_all-seek_to_first}

module _ {K : Type 0} (cmp : K → K → Ordering) where
  -- The key behind the smaller ones.
  abbrev pub insert_key : K → List K → List K
  insert_key k [] = k ∷ []
  insert_key k (y ∷ ys) = if is_lt (cmp y k) then y ∷ insert_key k ys else k ∷ y ∷ ys

  abbrev pub insert_keys : List K → List K → List K
  insert_keys [] acc = acc
  insert_keys (k ∷ ks) acc = insert_keys ks (insert_key k acc)

  -- No two keys are equal.
  abbrev pub AllUnequal : List K → Type 0
  AllUnequal [] = Unit
  AllUnequal (k ∷ ks) = All (λ y. is_eq (cmp y k) ≡ false) ks × AllUnequal ks

  -- None of the keys is equal to one of `acc`.
  abbrev Apart : List K → List K → Type 0
  Apart ks acc = All (λ k. All (λ y. is_eq (cmp k y) ≡ false) acc) ks

  All-insert_key : (P : K → Type 0) (k : K) (ys : List K) → P k → All P ys → All P (insert_key k ys)
  All-insert_key P k [] p h = (p, tt)
  All-insert_key P k (y ∷ ys) p h = elim (Bool-cases (is_lt (cmp y k))) [
    | inl e ↦ rw e (h.0, All-insert_key P k ys p h.1)
    | inr e ↦ rw e (p, h)
  ]

  Apart-insert_key :
      (ks acc : List K) (k : K)
      → All (λ y. is_eq (cmp y k) ≡ false) ks
      → Apart ks acc
      → Apart ks (insert_key k acc)
  Apart-insert_key ks acc k new h =
      All-map₂ ks (λ y p q. All-insert_key (λ z. is_eq (cmp y z) ≡ false) k acc p q) new h

  pub insert_key-perm : (k : K) (ys : List K) → Perm (insert_key k ys) (k ∷ ys)
  insert_key-perm k [] = Perm.refl (k ∷ [])
  insert_key-perm k (y ∷ ys) = elim (Bool-cases (is_lt (cmp y k))) [
    | inl e ↦ rw e (Perm.trans (Perm.cons y (insert_key-perm k ys)) (Perm.swap k y ys))
    | inr e ↦ rw e (Perm.refl (k ∷ y ∷ ys))
  ]

  Perm-insert_keys : (ks acc : List K) → Perm (insert_keys ks acc) (ks ++ acc)
  Perm-insert_keys [] acc = Perm.refl acc
  Perm-insert_keys (k ∷ ks) acc =
      Perm.trans (Perm-insert_keys ks (insert_key k acc))
        (Perm.trans (Perm.append_left ks (insert_key-perm k acc)) (perm_middle ks acc))

  abbrev pub InOrder : List K → Type 0
  InOrder [] = Unit
  InOrder (y ∷ ys) = All (λ z. is_lt (cmp y z) ≡ true) ys × InOrder ys

  module _ {R : Type 0} where
    keys_of_same :
        (s s' : SkipList K R) (xs : List ℕ)
        → All (λ y. s'.key y ≡ s.key y) xs
        → keys_of s' xs ≡ keys_of s xs
    keys_of_same s s' [] same = refl
    keys_of_same s s' (y ∷ ys) same = rw (same.0, keys_of_same s s' ys same.1) refl

    keys_of-place :
        (s s' : SkipList K R) (k : K) (f : ℕ) (xs : List ℕ)
        → s'.key f ≡ k
        → All (λ y. s'.key y ≡ s.key y) xs
        → keys_of s' (place s cmp k f xs) ≡ insert_key k (keys_of s xs)
    keys_of-place s s' k f [] new same = rw new refl
    keys_of-place s s' k f (y ∷ ys) new same = elim (Bool-cases (below s cmp k y)) [
      | inl e ↦ rw (e, same.0, keys_of-place s s' k f ys new same.1) refl
      | inr e ↦ rw (e, new, same.0, keys_of_same s s' ys same.1) refl
    ]

    keys_of-InOrder : (s : SkipList K R) (xs : List ℕ) → Sorted s cmp xs → InOrder (keys_of s xs)
    keys_of-InOrder s [] h = tt
    keys_of-InOrder s (y ∷ ys) h =
        (All-keys_of s (λ k. is_lt (cmp (s.key y) k) ≡ true) ys h.0, keys_of-InOrder s ys h.1)
      where
        All-keys_of :
            (s : SkipList K R) (P : K → Type 0) (zs : List ℕ)
            → All (λ z. P (s.key z)) zs
            → All P (keys_of s zs)
        All-keys_of s P [] h = tt
        All-keys_of s P (z ∷ zs) h = (h.0, All-keys_of s P zs h.1)

    keys_of-All :
        (s : SkipList K R) (P : K → Type 0) (xs : List ℕ)
        → All P (keys_of s xs)
        → All (λ y. P (s.key y)) xs
    keys_of-All s P [] h = tt
    keys_of-All s P (y ∷ ys) h = (h.0, keys_of-All s P ys h.1)

    module _ (draw : R → ℕ × R) (uninit : ℕ → ℕ) where
      -- A run of calls of Insert.
      abbrev pub insert_all : List K → SkipList K R → Option (SkipList K R)
      insert_all [] s = some s
      insert_all (k ∷ ks) s = do s' ← insert cmp draw uninit k s; insert_all ks s'

      insert_all-keys_of :
          (o : IsOrder cmp) (ks : List K) (s : SkipList K R) (xs : List ℕ)
          → IsValid cmp s xs
          → AllUnequal ks
          → Apart ks (keys_of s xs)
          → (s' : SkipList K R) × (xs' : List ℕ) × (insert_all ks s ≡ some s')
            × IsValid cmp s' xs'
            × (keys_of s' xs' ≡ insert_keys ks (keys_of s xs))
      insert_all-keys_of o [] s xs v u a = (s, xs, refl, v, refl)
      insert_all-keys_of o (k ∷ ks) s xs v u a =
          let (s1, e, is_k, same, v1) =
            insert-IsValid o k draw uninit s xs v
              (keys_of-All s (λ y. is_eq (cmp k y) ≡ false) xs a.0) in
          let now = keys_of-place s s1 k s.fresh xs is_k same in
          let apart : Apart ks (keys_of s1 (place s cmp k s.fresh xs)) =
            rw now (Apart-insert_key ks (keys_of s xs) k u.0 a.1) in
          let (s', xs', e', v', keys) =
            insert_all-keys_of o ks s1 (place s cmp k s.fresh xs) v1 u.1 apart in
          (s', xs', rw e e', v', keys ∙ ap (insert_keys ks) now)

      Apart-nil : (ks : List K) → Apart ks []
      Apart-nil [] = tt
      Apart-nil (k ∷ ks) = (tt, Apart-nil ks)

      -- A new list into which keys are inserted, no two of them equal: no call fails an assertion,
      -- whatever heights are drawn and whatever the memory held, and what is read from the first node
      -- on are these keys, each once and in order.
      pub insert_all-read_all :
          (k0 : K) (memory : ℕ → ℕ → Option ℕ) (seed : R) (ks : List K)
          → IsOrder cmp
          → AllUnequal ks
          → (s : SkipList K R) × (s' : SkipList K R) × (l : List K) × (new_list k0 memory seed
              ≡ some s)
            × (insert_all ks s ≡ some s')
            × (read_all s' s'.fresh (seek_to_first s') ≡ some l)
            × Perm l ks
            × InOrder l
      insert_all-read_all k0 memory seed ks o u =
          let (s, e, v) = new_list-IsValid {cmp = cmp} k0 memory seed in
          let (s', xs, e', v', keys) = insert_all-keys_of o ks s [] v u (Apart-nil ks) in
          let perm : Perm (insert_keys ks []) ks =
            subst (λ (l : List K). Perm (insert_keys ks []) l) (append-nil ks)
              (Perm-insert_keys ks []) in
          (
            s,
            s',
            keys_of s' xs,
            e,
            e',
            read_all-seek_to_first s' o v',
            rw keys perm,
            keys_of-InOrder s' xs v'.sorted,
          )
