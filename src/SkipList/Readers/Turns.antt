-- ===== src/SkipList/Readers/Turns.antt =====
-- A reader of leveldb/db/skiplist.h that goes on while Insert links its node: where both stand.
use leveldb_study.Base.{
  >>=-elim, ℕ, zero, suc, ◌+◌, ◌-◌, ◌<◌, ◌≤◌, ◌≡◌, ◌≢◌, refl, true, false, Option, none, some, List,
  [], ◌∷◌, Ordering, if◌then◌else◌, has, All, length, arith, inl, inr, ◌⊎◌, ◌∙◌, ap, update_self,
}
use leveldb_study.Order.{IsOrder}
use leveldb_study.SkipList.{
  SkipList, head, limit, is_eq, load, store, link_node, new_node, key_is_after_node, node_or,
}
use leveldb_study.SkipList.Chain.{last_below, first_ge}
use leveldb_study.SkipList.Place.{place}
use leveldb_study.SkipList.Splice.{max_of}
use leveldb_study.SkipList.Valid.{IsValid}
use leveldb_study.SkipList.Readers.{Reader, Writer, Beside, Turn, read_round, take_turn, down}
use leveldb_study.SkipList.Readers.Behind.{after}
use leveldb_study.SkipList.Readers.Stands.{rest_of, Stands, IsNext, IsReadable, read_round-IsNext}
use leveldb_study.SkipList.Readers.Shape.{seen, allocated, nodes_at}

-- A node behind which a new one may be put is still there, with at most one node more behind it.
module _ {K R : Type 0} (s : SkipList K R) (cmp : K → K → Ordering) (k : K) (f : ℕ) where
  pub has-place : (x : ℕ) (xs : List ℕ) → has x xs ≡ true → has x (place s cmp k f xs) ≡ true
  has-place x [] h = cc
  has-place x (y ∷ ys) h = ground (arith, has-place x ys)

  pub length-place-le : (xs : List ℕ) → length (place s cmp k f xs) ≤ length xs + 1
  length-place-le [] = omega arith
  length-place-le (y ∷ ys) = ground (arith, length-place-le ys)

  pub length-after-place :
      (x : ℕ) (xs : List ℕ)
      → f ≢ x
      → has x xs ≡ true
      → length (after x (place s cmp k f xs)) ≤ length (after x xs) + 1
  length-after-place x [] ne h = cc
  length-after-place x (y ∷ ys) ne h =
      ground (arith, length-after-place x ys ne, length-place-le ys)

first_ge-key :
    {K R : Type 0} (cmp : K → K → Ordering) (k : K) (s t : SkipList K R)
    → s.key ≡ t.key
    → (ys : List ℕ) → first_ge s cmp k ys ≡ first_ge t cmp k ys
first_ge-key cmp k s t e [] = refl
first_ge-key cmp k s t e (y ∷ ys) = rw (e, first_ge-key cmp k s t e ys) refl

-- A reader that knows a node by fewer levels reads the same.
read_round-seen :
    {K R : Type 0} (cmp : K → K → Ordering) (s : SkipList K R) (f j : ℕ) (k : K) (level x : ℕ)
    (r : Reader)
    → j ≤ s.height f
    → read_round cmp (seen s f j) k (Reader.at level x) ≡ some r
    → read_round cmp s k (Reader.at level x) ≡ some r
unfolding read_round load key_is_after_node
read_round-seen cmp s f j k level x r le h =
    >>=-elim (load (seen s f j) x level) _
      (λ n loaded ends. rw (load_there n loaded) (
        ap (λ b. some (if b then Reader.at level (node_or n x) else down level x n)) (same n)
        ∙ ends))
      h
  where
    load_there : (n : Option ℕ) → load (seen s f j) x level ≡ some n → load s x level ≡ some n
    load_there n e = ground (arith, le)

    same : (n : Option ℕ) → key_is_after_node cmp s k n ≡ key_is_after_node cmp (seen s f j) k n
    same none = refl
    same (some a) = refl

module _ {K R : Type 0} {cmp : K → K → Ordering} (o : IsOrder cmp) (kr k : K) (s : SkipList K R)
    (xs : List ℕ) (v : IsValid cmp s xs) (height : ℕ) (low : 0 < height) (high : height ≤ limit)
    (prev : ℕ → ℕ) (at : (i : ℕ) → i < height → prev i ≡ last_below s cmp k i head xs)
    (new : All (λ y. is_eq (cmp k (s.key y)) ≡ false) xs) where
  abbrev pub mh : ℕ
  mh = max_of o k s xs v height low high

  -- The list when the new node is there and not linked.
  abbrev pub alloc : SkipList K R
  alloc = allocated o kr k s xs v height mh prev at new

  abbrev pub nodes : ℕ → List ℕ
  nodes = nodes_at o kr k s xs v height mh prev at new

  abbrev pub f : ℕ
  f = s.fresh

  -- The earliest node that is not below the key, of the old list or of the new one.
  abbrev pub IsAnswer : Option ℕ → Type 0
  IsAnswer n =
      (n ≡ first_ge alloc cmp kr xs) ⊎ (n ≡ first_ge alloc cmp kr (place s cmp k s.fresh xs))

  abbrev pub extra : ℕ → ℕ
  extra zero = 1
  extra (suc j) = 0

  -- The reader will make fewer than `n` rounds.
  abbrev pub IsReading : SkipList K R → ℕ → ℕ → Reader → Type 0
  IsReading t j n (Reader.at level x) =
      Stands (seen t f j) cmp o kr (nodes j) level x
      × (length (rest_of (seen t f j) cmp o kr (nodes j) x) + level + extra j < n)
  IsReading t j n (Reader.found a) = IsAnswer a

  abbrev pub IsWriting : SkipList K R → ℕ → Writer → Type 0
  IsWriting t j (Writer.fill i) = (i ≡ j) × (link_node prev f 0 j alloc ≡ some t)
  IsWriting t j (Writer.publish i) =
      (i ≡ j)
      × (j < height)
      × ((t' : SkipList K R) × (link_node prev f 0 j alloc ≡ some t')
          × (store t' f j (t'.next (prev j) j) ≡ some t))

  pub record IsBeside (j n : ℕ) (b : Beside K R) : Type 0 where
    pub within : j ≤ height
    pub writing : IsWriting b.list j b.writer
    pub reading : IsReading b.list j n b.reader
    pub readable : IsReadable (seen b.list f j) cmp o kr (nodes j)
    pub same_key : b.list.key ≡ alloc.key
    pub same_height : b.list.height ≡ alloc.height

  next-IsReading :
      (t : SkipList K R) (j n level x : ℕ) (r : Reader)
      → t.key ≡ alloc.key
      → length (rest_of (seen t f j) cmp o kr (nodes j) x) + level + extra j < n
      → IsNext
          (seen t f j)
          cmp
          o
          kr
          (nodes j)
          (length (rest_of (seen t f j) cmp o kr (nodes j) x) + level)
          r
      → IsReading t j (n - 1) r
  next-IsReading t j n level x (Reader.at level' x') key lt (st, less) = (st, ground arith)
  next-IsReading t zero n level x (Reader.found a) key lt e =
      inl (e ∙ first_ge-key cmp kr (seen t f 0) alloc key xs)
  next-IsReading t (suc j) n level x (Reader.found a) key lt e =
      inr (e ∙ first_ge-key cmp kr (seen t f (suc j)) alloc key (place s cmp k f xs))

  pub alloc-height : alloc.height f ≡ height
  unfolding new_node
  alloc-height = update_self s.height s.fresh height

  found_turn :
      (j n : ℕ) (b : Beside K R) (a : Option ℕ)
      → IsBeside j n b
      → b.reader ≡ Reader.found a
      → (b' : Beside K R) × (take_turn cmp kr prev f height Turn.read b ≡ some b')
        × IsBeside j (n - 1) b'
  unfolding take_turn read_round
  found_turn j n b a i e = (
    record b { reader = Reader.found a },
    rw e refl,
    record {
      within = i.within;
      writing = i.writing;
      reading = rw e at i.reading;
      readable = i.readable;
      same_key = i.same_key;
      same_height = i.same_height;
    },
  )

  at_turn :
      (j n : ℕ) (b : Beside K R) (level x : ℕ)
      → IsBeside j n b
      → b.reader ≡ Reader.at level x
      → (b' : Beside K R) × (take_turn cmp kr prev f height Turn.read b ≡ some b')
        × IsBeside j (n - 1) b'
  unfolding take_turn
  at_turn j n b level x i e =
      let (st, lt) = rw e at i.reading in
      let (r, done, next) =
        read_round-IsNext (seen b.list f j) cmp o kr (nodes j) level x i.readable st in
      let le : j ≤ b.list.height f =
        omega (arith, ap (λ (h : ℕ → ℕ). h f) i.same_height, alloc-height, i.within) in
      let done' = read_round-seen cmp b.list f j kr level x r le done in
      (
        record b { reader = r },
        rw (e, done') refl,
        record {
          within = i.within;
          writing = i.writing;
          reading = next-IsReading b.list j n level x r i.same_key lt next;
          readable = i.readable;
          same_key = i.same_key;
          same_height = i.same_height;
        },
      )

  pub read_turn :
      (j n : ℕ) (b : Beside K R)
      → IsBeside j n b
      → (r : Reader) → b.reader ≡ r
      → (b' : Beside K R) × (take_turn cmp kr prev f height Turn.read b ≡ some b')
        × IsBeside j (n - 1) b'
  read_turn j n b i (Reader.found a) e = found_turn j n b a i e
  read_turn j n b i (Reader.at level x) e = at_turn j n b level x i e
