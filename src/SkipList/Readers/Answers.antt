-- ===== src/SkipList/Readers/Answers.antt =====
-- What a reader of leveldb/db/skiplist.h answers beside an Insert.
use leveldb_study.Base.{
  ℕ, suc, ◌+◌, ◌-◌, ◌<◌, ◌≤◌, ◌≡◌, refl, Option, some, List, [], ◌∷◌, Ordering, All, false, length,
  arith, inl, ◌⊎◌, subst,
}
use leveldb_study.Order.{IsOrder}
use leveldb_study.SkipList.{SkipList, head, limit, is_eq, find_greater_or_equal, link_node}
use leveldb_study.SkipList.Chain.{last_below, first_ge}
use leveldb_study.SkipList.Place.{place}
use leveldb_study.SkipList.Splice.{raised, raised_lem, allocated}
use leveldb_study.SkipList.Valid.{IsValid, find_greater_or_equal-first_ge}
use leveldb_study.SkipList.Readers.{Reader, Writer, Beside, Turn, take_turns}
use leveldb_study.SkipList.Readers.Shape.{Linked-IsReadable}
use leveldb_study.SkipList.Readers.Turns.{mh, alloc, IsAnswer, IsBeside, read_turn}
use leveldb_study.SkipList.Readers.Stores.{linked, write_turn}

-- How many of the turns are the reader's.
abbrev pub reads : List Turn → ℕ
reads [] = 0
reads (Turn.read ∷ ts) = suc (reads ts)
reads (Turn.write ∷ ts) = reads ts

-- A reader that starts at the head when the new node is not linked.
abbrev pub start : {K R : Type 0} → SkipList K R → ℕ → Beside K R
start s level = record { list = s; writer = Writer.fill 0; reader = Reader.at level head }

module _ {K R : Type 0} {cmp : K → K → Ordering} (o : IsOrder cmp) (kr k : K) (s : SkipList K R)
    (xs : List ℕ) (v : IsValid cmp s xs) (height : ℕ) (low : 0 < height)
    (high : height ≤ limit) where
  minus_zero : (n : ℕ) → n ≡ n - 0
  minus_zero n = omega arith

  minus_suc : (n m : ℕ) → n - 1 - m ≡ n - suc m
  minus_suc n m = omega arith

  module _ (prev : ℕ → ℕ) (at : (i : ℕ) → i < height → prev i ≡ last_below s cmp k i head xs)
      (new : All (λ y. is_eq (cmp k (s.key y)) ≡ false) xs) where
    abbrev IsAt : ℕ → ℕ → Beside K R → Type 0
    IsAt = IsBeside o kr k s xs v height low high prev at new

    take_turns-IsBeside :
        (ts : List Turn) (j n : ℕ) (b : Beside K R)
        → IsAt j n b
        → (j' : ℕ) × (b' : Beside K R) × (take_turns cmp kr prev s.fresh height ts b ≡ some b')
          × IsAt j' (n - reads ts) b'
    unfolding take_turns
    take_turns-IsBeside [] j n b i = (j, b, refl, subst (λ m. IsAt j m b) (minus_zero n) i)
    take_turns-IsBeside (Turn.read ∷ ts) j n b i =
        let (b1, first, i1) =
          read_turn o kr k s xs v height low high prev at new j n b i b.reader refl in
        let (j2, b2, later, i2) = take_turns-IsBeside ts j (n - 1) b1 i1 in
        (j2, b2, rw first later, subst (λ m. IsAt j2 m b2) (minus_suc n (reads ts)) i2)
    take_turns-IsBeside (Turn.write ∷ ts) j n b i =
        let (j1, b1, first, i1) =
          write_turn o kr k s xs v height low high prev at new j n b i b.writer refl in
        let (j2, b2, later, i2) = take_turns-IsBeside ts j1 n b1 i1 in (j2, b2, rw first later, i2)

    start-IsBeside :
        (level : ℕ)
        → level < limit
        → IsAt 0
            (length xs + level + 2)
            (start (alloc o kr k s xs v height low high prev at new) level)
    unfolding link_node
    start-IsBeside level lt = record {
      within = omega arith;
      writing = (refl, refl);
      reading = (inl (refl, lt), omega arith);
      readable =
          Linked-IsReadable o kr k s xs v height (mh o kr k s xs v height low high prev at new) prev
            at new 0 _ (omega arith) high
            (linked o kr k s xs v height low high prev at new 0 _ (omega arith) refl);
      same_key = refl;
      same_height = refl;
    }

    reading-IsAnswer :
        (j n : ℕ) (b : Beside K R)
        → IsAt j n b
        → n ≡ 0
        → (r : Reader) → b.reader ≡ r
        → (a : Option ℕ) × (b.reader ≡ Reader.found a)
          × IsAnswer o kr k s xs v height low high prev at new a
    reading-IsAnswer j n b i none_left (Reader.found a) e = (a, e, rw e at i.reading)
    reading-IsAnswer j n b i none_left (Reader.at level x) e =
        let (st, less) = rw e at i.reading in absurd (omega arith)

    take_turns-IsAnswer :
        (level : ℕ) (ts : List Turn)
        → level < limit
        → length xs + level + 2 ≤ reads ts
        → (b : Beside K R) × (a : Option ℕ) × (take_turns cmp kr prev s.fresh height ts
              (start (alloc o kr k s xs v height low high prev at new) level)
            ≡ some b)
          × (b.reader ≡ Reader.found a)
          × IsAnswer o kr k s xs v height low high prev at new a
    take_turns-IsAnswer level ts lt enough =
        let n = length xs + level + 2 in
        let (j, b, done, i) = take_turns-IsBeside ts 0 n _ (start-IsBeside level lt) in
        let (a, found, is) = reading-IsAnswer j (n - reads ts) b i (omega arith) b.reader refl in
        (b, a, done, found, is)

  -- The `prev` of Insert, where FindGreaterOrEqual has filled it.
  prev-last_below :
      (uninit p : ℕ → ℕ) (x : Option ℕ)
      → find_greater_or_equal cmp s k (some uninit) ≡ some (x, some p)
      → (i : ℕ) → i < height
      → raised o k s xs v height low high p i ≡ last_below s cmp k i head xs
  prev-last_below uninit p x found i lt =
      let (p', found', (q, is, below_q, _)) = find_greater_or_equal-first_ge o v k (some uninit) in
      let same : q ≡ p = cc (found, found', is) in
      raised_lem o k s xs v height low high p i
        (subst (λ (g : ℕ → ℕ). (j : ℕ) → j ≤ s.max_height - 1 → g j ≡ last_below s cmp k j head xs)
          same below_q)
        lt

  -- A search that runs beside an Insert into a valid list without an equal key, from the moment when
  -- the new node is there and not yet linked: its rounds and the single stores of the loop of Insert
  -- may come in any order. It reads only slots that exist, it ends by the round that is two more than
  -- the nodes of the list and the level on which it starts, and it answers the earliest node that is
  -- not below its key, of the list without the new node or of the list with it.
  pub take_turns-first_ge :
      (uninit p : ℕ → ℕ) (x : Option ℕ) (level : ℕ) (ts : List Turn)
      → find_greater_or_equal cmp s k (some uninit) ≡ some (x, some p)
      → All (λ y. is_eq (cmp k (s.key y)) ≡ false) xs
      → level < limit
      → length xs + level + 2 ≤ reads ts
      → let t = allocated o k s xs v height low high in
        (b : Beside K R) × (a : Option ℕ) × (take_turns cmp kr
            (raised o k s xs v height low high p)
            s.fresh
            height
            ts
            (start t level)
          ≡ some b)
        × (b.reader ≡ Reader.found a)
        × ((a ≡ first_ge t cmp kr xs) ⊎ (a ≡ first_ge t cmp kr (place s cmp k s.fresh xs)))
  take_turns-first_ge uninit p x level ts found new lt enough =
      take_turns-IsAnswer (raised o k s xs v height low high p) (prev-last_below uninit p x found)
        new level ts lt enough
