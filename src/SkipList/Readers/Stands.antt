-- ===== src/SkipList/Readers/Stands.antt =====
-- A reader of leveldb/db/skiplist.h in a list that its links lead through.
use leveldb_study.Base.{
  ℕ, zero, suc, ◌+◌, ◌≤◌, ◌<◌, ◌≡◌, ◌≢◌, refl, sym, true, false, Option, none, some, List, [], ◌∷◌,
  Ordering, if◌then◌else◌, ◌==◌, has, All, length, arith, Bool-cases, inl, inr, ◌⊎◌, ◌∙◌,
}
use leveldb_study.Order.{IsOrder, is_lt}
use leveldb_study.SkipList.{SkipList, head, limit, node_or, key_is_after_node}
use leveldb_study.SkipList.Chain.{
  Links, tall_from, first_of_tall, Sorted, below, first_ge, below_trans,
}
use leveldb_study.SkipList.Search.{At, load-ok, first_ge-zero}
use leveldb_study.SkipList.Place.{Distinct}
use leveldb_study.SkipList.Readers.{Reader, read_round, down}
use leveldb_study.SkipList.Readers.Behind.{
  after, length-after, All-after, All-has, has-after, after-after, Links-after, Sorted-after,
  has-tall_from,
}

module _ {K R : Type 0} (s : SkipList K R) where
  module _ (cmp : K → K → Ordering) (o : IsOrder cmp) (k : K) where
    first_ge-after :
        (x : ℕ) (ys : List ℕ)
        → Sorted s cmp ys
        → has x ys ≡ true
        → below s cmp k x ≡ true
        → first_ge s cmp k ys ≡ first_ge s cmp k (after x ys)
    first_ge-after x [] h there b = cc
    first_ge-after x (y ∷ ys) h there b = elim (Bool-cases (y == x)) [
      | inl e ↦
          let same : y ≡ x = ground arith in
          let b' : below s cmp k y ≡ true = rw same b in rw (e, b') refl
      | inr e ↦
          let later : has x ys ≡ true = ground arith in
          let less = All-has (λ a. is_lt (cmp (s.key y) (s.key a)) ≡ true) x ys later h.0 in
          rw (e, below_trans s cmp k o y x less b) (first_ge-after x ys h.1 later b)
    ]

    -- A search at a node below the key, or at the head, on a level that the node has.
    abbrev pub Stands : List ℕ → ℕ → ℕ → Type 0
    Stands L level x =
        ((x ≡ head) × (level < limit))
        ⊎ ((has x L ≡ true) × (below s cmp k x ≡ true) × (level < s.height x))

    -- What is still before it.
    abbrev pub rest_of : List ℕ → ℕ → List ℕ
    rest_of L x = if x == head then L else after x L

    -- The links of every level lead through the list, whose keys grow.
    pub record IsReadable (L : List ℕ) : Type 0 where
      pub links : (i : ℕ) → i < limit → Links s i head L
      pub sorted : Sorted s cmp L
      pub tall : All (λ a. 0 < s.height a) L
      pub low : All (λ a. s.height a ≤ limit) L
      pub distinct : Distinct (head ∷ L)

    Stands-At :
        (L : List ℕ) (level x : ℕ)
        → IsReadable L
        → Stands L level x
        → At s cmp o k level x (rest_of L x) × (first_ge s cmp k L ≡ first_ge s cmp k (rest_of L x))
    Stands-At L level x r (inl (e, lt)) =
        rw e (
          record { links = λ j le. r.links j (omega arith); sorted = r.sorted; tall = r.tall },
          refl,
        )
    Stands-At L level x r (inr (there, b, t)) =
        let short = All-has (λ a. s.height a ≤ limit) x L there r.low in
        let apart : head ≢ x = All-has (λ a. head ≢ a) x L there r.distinct.0 in
        let rest : (x == head) ≡ false = ground (arith, apart) in
        rw rest (
          record {
            links = λ j le. Links-after s j head x L (r.links j (omega arith)) there (omega arith);
            sorted = Sorted-after s cmp x L r.sorted;
            tall = All-after (λ a. 0 < s.height a) x L r.tall;
          },
          first_ge-after x L r.sorted there b,
        )

    -- What a round leaves: a reader nearer to the end, or the answer.
    abbrev pub IsNext : List ℕ → ℕ → Reader → Type 0
    IsNext L n (Reader.at level x) = Stands L level x × (length (rest_of L x) + level < n)
    IsNext L n (Reader.found a) = a ≡ first_ge s cmp k L

    Stands-down : (L : List ℕ) (level x : ℕ) → Stands L (suc level) x → Stands L level x
    Stands-down L level x (inl (e, lt)) = inl (e, omega arith)
    Stands-down L level x (inr (there, b, t)) = inr (there, b, omega arith)

    Stands-next :
        (L : List ℕ) (level x y : ℕ) (ws : List ℕ)
        → IsReadable L
        → Stands L level x
        → tall_from s level (rest_of L x) ≡ some (y, ws)
        → below s cmp k y ≡ true
        → Stands L level y × (length (rest_of L y) < length (rest_of L x))
    Stands-next L level x y ws r st e b =
        let (near, t) = has-tall_from s level (rest_of L x) y ws e in
        let (there, shorter) = rest_has near in
        let apart : head ≢ y = All-has (λ a. head ≢ a) y L there r.distinct.0 in
        let rest : (y == head) ≡ false = ground (arith, apart) in
        (inr (there, b, t), rw rest shorter)
      where
        rest_has :
            has y (rest_of L x) ≡ true
            → (has y L ≡ true) × (length (after y L) < length (rest_of L x))
        rest_has near = elim (Bool-cases (x == head)) [
          | inl top ↦ let near' = rw top at near in (near', rw top (length-after y L near'))
          | inr inside ↦
              let near' = rw inside at near in
              (
                has-after x y L near',
                rw (inside, after-after x y L r.distinct.1 near')
                    (length-after y (after x L) near'),
              )
        ]

    down-IsNext :
        (L : List ℕ) (level x : ℕ)
        → IsReadable L
        → Stands L level x
        → key_is_after_node cmp s k (first_of_tall s (tall_from s level (rest_of L x))) ≡ false
        → IsNext L
            (length (rest_of L x) + level)
            (down level x (first_of_tall s (tall_from s level (rest_of L x))))
    down-IsNext L zero x r st stop =
        let (here, same) = Stands-At L 0 x r st in
        sym (same ∙ first_ge-zero s cmp o k (rest_of L x) here.tall stop)
    down-IsNext L (suc level) x r st stop = (Stands-down L level x st, omega arith)

    follow-IsNext :
        (L : List ℕ) (level x : ℕ) (next : Option (ℕ × List ℕ))
        → IsReadable L
        → Stands L level x
        → tall_from s level (rest_of L x) ≡ next
        → key_is_after_node cmp s k (first_of_tall s next) ≡ true
        → IsNext L
            (length (rest_of L x) + level)
            (Reader.at level (node_or (first_of_tall s next) x))
    unfolding key_is_after_node
    follow-IsNext L level x none r st e go = cc
    follow-IsNext L level x (some (y, ws)) r st e go =
        let (st', shorter) = Stands-next L level x y ws r st e go in (st', omega arith)

    -- A round reads a slot that exists and leaves a reader nearer to the end, or the earliest node
    -- that is not below the key.
    pub read_round-IsNext :
        (L : List ℕ) (level x : ℕ)
        → IsReadable L
        → Stands L level x
        → (r' : Reader) × (read_round cmp s k (Reader.at level x) ≡ some r')
          × IsNext L (length (rest_of L x) + level) r'
    unfolding read_round
    read_round-IsNext L level x r st =
        let (here, same) = Stands-At L level x r st in
        let next = tall_from s level (rest_of L x) in
        let loaded = load-ok s cmp o k level x (rest_of L x) here in
        elim (Bool-cases (key_is_after_node cmp s k (first_of_tall s next))) [
          | inl go ↦ (
            Reader.at level (node_or (first_of_tall s next) x),
            rw (loaded, go) refl,
            follow-IsNext L level x next r st refl go,
          )
          | inr stop ↦ (
            down level x (first_of_tall s next),
            rw (loaded, stop) refl,
            down-IsNext L level x r st stop,
          )
        ]
