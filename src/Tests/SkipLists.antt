-- ===== src/Tests/SkipLists.antt =====
-- The skip list of leveldb/db/skiplist.h with two keys: 3 at node 2 of height 2, 5 at node 1 of height 1.
use leveldb_study.Base.{
  ℕ, ◌+◌, ◌<◌, ◌≡◌, refl, Option, none, some, List, All, [], ◌∷◌, arith, if◌then◌else◌, ◌==◌,
  Bool-cases, inl, inr,
}
use Prim.Native.Nat.{compare}
use leveldb_study.Order.{IsOrder}
use leveldb_study.SkipList
use leveldb_study.SkipList.{
  SkipList, new_list, insert, contains, find_greater_or_equal, find_less_than, find_last, head,
  limit,
}
use leveldb_study.SkipList.Chain.{Links}
use leveldb_study.SkipList.Search.{Recorded}
use leveldb_study.SkipList.Valid.{IsValid, find_greater_or_equal-first_ge}
use leveldb_study.SkipList.Insert.{insert-IsValid}
use leveldb_study.SkipList.Sequence.{insert_all, InOrder, insert_all-read_all}
use mathlib.Core.List.{Perm}
use leveldb_study.SkipList.Iterator.{
  seek_to_first, prev, read_all, read_all-seek_to_first, prev-fails,
}

abbrev pub two : SkipList ℕ ℕ
two = record {
  key = λ a. if a == 1 then 5 else if a == 2 then 3 else 0;
  height = λ a. if a == 0 then 12 else if a == 1 then 1 else 2;
  next = λ a level.
      if level == 0
      then if a == 0 then some 2 else if a == 2 then some 1 else none
      else if level == 1
      then if a == 0 then some 2 else none
      else none;
  fresh = 3;
  max_height = 2;
  rnd = 4;
}

two-Links : (i : ℕ) → i < limit → Links two i head (2 ∷ 1 ∷ [])
two-Links i lt = elim (Bool-cases (i == 0)) [
  | inl e ↦
      let z : i ≡ 0 = ground arith in
      rw z (omega arith, refl, (omega arith, refl, (omega arith, refl)))
  | inr e ↦ elim (Bool-cases (i == 1)) [
    | inl d ↦ let z : i ≡ 1 = ground arith in rw z (omega arith, refl, (omega arith, refl))
    | inr d ↦ ground arith
  ]
]

pub compare-IsOrder : IsOrder compare
compare-IsOrder = record {
  flip_lt = λ a b h. ground arith;
  flip_gt = λ a b h. ground arith;
  lt_trans = λ a b c h k. ground arith;
  eq_left = λ a b c h. ground arith;
}

pub two-IsValid : IsValid compare two (2 ∷ 1 ∷ [])
two-IsValid = record {
  links = two-Links;
  sorted = ((refl, tt), (tt, tt));
  tall = (omega arith, (omega arith, tt));
  short = (omega arith, (omega arith, tt));
  old = (omega arith, (omega arith, tt));
  bounded = (omega arith, (omega arith, tt));
  distinct = ((omega arith, (omega arith, tt)), ((omega arith, tt), (tt, tt)));
  count = refl;
  levels = (omega arith, omega arith);
  head_height = refl;
}

-- A random number is the state, and the next state is one more.
abbrev draw : ℕ → ℕ × ℕ
draw r = (r, r + 1)

insert-IsValid_example :
    (s' : SkipList ℕ ℕ) × (insert compare draw (λ i. 9) 4 two ≡ some s')
    × (s'.key 3 ≡ 4)
    × All (λ y. s'.key y ≡ two.key y) (2 ∷ 1 ∷ [])
    × IsValid compare s' (2 ∷ 3 ∷ 1 ∷ [])
insert-IsValid_example =
    insert-IsValid compare-IsOrder 4 draw (λ i. 9) two (2 ∷ 1 ∷ []) two-IsValid (refl, (refl, tt))

find_greater_or_equal-first_ge_example :
    (p' : Option (ℕ → ℕ)) × (find_greater_or_equal compare two 4 (some (λ i. 9))
      ≡ some (some 1, p'))
    × Recorded two compare compare-IsOrder 4 1 head (2 ∷ 1 ∷ []) (some (λ i. 9)) p'
find_greater_or_equal-first_ge_example =
    find_greater_or_equal-first_ge compare-IsOrder two-IsValid 4 (some (λ i. 9))

-- The key 5 is in the list: the search steps onto its node, and the assertion fails.
find_less_than_equal : find_less_than compare two 5 ≡ none
unfolding find_less_than SkipList.find_lt_loop SkipList.is_past SkipList.load
find_less_than_equal = refl

read_all-seek_to_first_example : read_all two 3 (seek_to_first two) ≡ some (3 ∷ 5 ∷ [])
read_all-seek_to_first_example = read_all-seek_to_first two compare-IsOrder two-IsValid

prev-fails_example : prev two compare (record { node = some 1 }) ≡ none
prev-fails_example = prev-fails two compare-IsOrder two-IsValid 1 refl

insert_all-read_all_example :
    (s : SkipList ℕ ℕ) × (s' : SkipList ℕ ℕ) × (l : List ℕ) × (new_list 0 (λ a level. some 7) 4
      ≡ some s)
    × (insert_all compare draw (λ i. 9) (5 ∷ 3 ∷ 4 ∷ []) s ≡ some s')
    × (read_all s' s'.fresh (seek_to_first s') ≡ some l)
    × Perm l (5 ∷ 3 ∷ 4 ∷ [])
    × InOrder compare l
insert_all-read_all_example =
    insert_all-read_all compare draw (λ i. 9) 0 (λ a level. some 7) 4 (5 ∷ 3 ∷ 4 ∷ [])
      compare-IsOrder ((refl, (refl, tt)), ((refl, tt), (tt, tt)))
