-- ===== src/SkipList.antt =====
-- leveldb/db/skiplist.h: nodes at addresses, linked on several levels. A node is an address; the
-- list gives its key, the number of its link slots and their contents. `none` as a result is a
-- failed assertion, a read or write past a node's slots, or the end of the fuel. The comparator and
-- the random numbers of util/random.h, which is an empty file, are parameters. The memory orders of
-- the atomic fields are not modelled: each function runs by itself.
pub mod Chain
pub mod Search
pub mod Insertion
pub mod Place
pub mod Keys
pub mod Valid
pub mod Splice
pub mod Insert
pub mod Less
pub mod Last
pub mod Iterator
pub mod Sequence
pub mod Readers
use leveldb_study.Base.{
  ◌>>=◌, ℕ, zero, suc, ◌+◌, ◌-◌, ◌%◌, Ordering, Bool, true, false, ◌||◌, ◌&&◌, not, Option, none,
  some, if◌then◌else◌, ltb, leb, ◌==◌, update,
}
use leveldb_study.Order.{is_lt}

pub record SkipList (K R : Type 0) : Type 0 where
  pub key : ℕ → K
  pub height : ℕ → ℕ
  pub next : ℕ → ℕ → Option ℕ
  pub fresh : ℕ
  pub max_height : ℕ
  pub rnd : R

abbrev pub head : ℕ
head = 0

-- `kMaxHeight`.
abbrev pub limit : ℕ
limit = 12

abbrev pub is_gt : Ordering → Bool
is_gt Ordering.lt = false
is_gt Ordering.eq = false
is_gt Ordering.gt = true

abbrev pub is_eq : Ordering → Bool
is_eq Ordering.lt = false
is_eq Ordering.eq = true
is_eq Ordering.gt = false

-- The node that a pointer known not to be null leads to.
abbrev pub node_or : Option ℕ → ℕ → ℕ
node_or none x = x
node_or (some a) x = a

-- `if (prev != nullptr) prev[level] = x`.
abbrev pub set_prev : Option (ℕ → ℕ) → ℕ → ℕ → Option (ℕ → ℕ)
set_prev none level x = none
set_prev (some prev) level x = some (update prev level x)

-- The loop of RandomHeight: `rounds` is what `height` may still grow by.
unfoldable pub random_height : {R : Type 0} → (R → ℕ × R) → (rounds height : ℕ) → R → ℕ × R
random_height draw zero height r = (height, r)
random_height draw (suc rounds) height r =
    let (n, r') = draw r in
    let rest = random_height draw rounds (height + 1) r' in
    if n % 4 == 0 then rest else (height, r')

module _ {K R : Type 0} where
  -- `x->Next(level)`.
  unfoldable pub load : SkipList K R → ℕ → ℕ → Option (Option ℕ)
  load s x level = if ltb level (s.height x) then some (s.next x level) else none

  -- `x->SetNext(level, n)`.
  unfoldable pub store : SkipList K R → ℕ → ℕ → Option ℕ → Option (SkipList K R)
  store s x level n =
      if ltb level (s.height x)
      then some (record s { next = update s.next x (update (s.next x) level n) })
      else none

  module _ (cmp : K → K → Ordering) where
    -- A null node is infinite.
    unfoldable pub key_is_after_node : SkipList K R → K → Option ℕ → Bool
    key_is_after_node s k none = false
    key_is_after_node s k (some a) = is_lt (cmp (s.key a) k)

    -- The loop of FindGreaterOrEqual, from node `x` on a level.
    unfoldable pub find_ge_loop :
        ℕ → SkipList K R → K → ℕ → ℕ → Option (ℕ → ℕ) → Option (Option ℕ × Option (ℕ → ℕ))
    find_ge_loop zero s k x level prev = none
    find_ge_loop (suc fuel) s k x level prev = elim (load s x level) [
      | none ↦ none
      | some n ↦ elim (key_is_after_node s k n) [
        | true ↦ find_ge_loop fuel s k (node_or n x) level prev
        | false ↦ elim level [
          | zero ↦ some (n, set_prev prev zero x)
          | suc below ↦ find_ge_loop fuel s k x below (set_prev prev (suc below) x)
        ]
      ]
    ]

    -- Each round moves along the list, of at most `fresh` nodes, or down a level.
    unfoldable pub find_greater_or_equal :
        SkipList K R → K → Option (ℕ → ℕ) → Option (Option ℕ × Option (ℕ → ℕ))
    unfolding find_ge_loop
    find_greater_or_equal s k prev =
        find_ge_loop (s.fresh + s.max_height) s k head (s.max_height - 1) prev

    -- `next == nullptr || compare_(next->key, key) > 0`.
    unfoldable pub is_past : SkipList K R → K → Option ℕ → Bool
    is_past s k none = true
    is_past s k (some a) = is_gt (cmp (s.key a) k)

    unfoldable pub find_lt_loop : ℕ → SkipList K R → K → ℕ → ℕ → Option ℕ
    find_lt_loop zero s k x level = none
    find_lt_loop (suc fuel) s k x level = elim (x == head || is_lt (cmp (s.key x) k)) [
      | false ↦ none
      | true ↦ elim (load s x level) [
        | none ↦ none
        | some n ↦ elim (is_past s k n) [
          | true ↦ elim level [ zero ↦ some x | suc below ↦ find_lt_loop fuel s k x below ]
          | false ↦ find_lt_loop fuel s k (node_or n x) level
        ]
      ]
    ]

    unfoldable pub find_less_than : SkipList K R → K → Option ℕ
    unfolding find_lt_loop
    find_less_than s k = find_lt_loop (s.fresh + s.max_height) s k head (s.max_height - 1)

    unfoldable pub contains : SkipList K R → K → Option Bool
    unfolding find_greater_or_equal
    contains s k = do
      (x, _) ← find_greater_or_equal s k none
      some (elim x [ none ↦ false | some a ↦ is_eq (cmp k (s.key a)) ])

  unfoldable pub find_last_loop : ℕ → SkipList K R → ℕ → ℕ → Option ℕ
  find_last_loop zero s x level = none
  find_last_loop (suc fuel) s x level = elim (load s x level) [
    | none ↦ none
    | some none ↦ elim level [ zero ↦ some x | suc below ↦ find_last_loop fuel s x below ]
    | some (some a) ↦ find_last_loop fuel s a level
  ]

  unfoldable pub find_last : SkipList K R → Option ℕ
  unfolding find_last_loop
  find_last s = find_last_loop (s.fresh + s.max_height) s head (s.max_height - 1)

-- The loop that lets `prev` start at the head on the levels from `level` on.
unfoldable pub raise : (ℕ → ℕ) → (level rounds : ℕ) → ℕ → ℕ
raise prev level zero = prev
raise prev level (suc rounds) = raise (update prev level head) (level + 1) rounds

module _ {K R : Type 0} where
  -- `NewNode`: the slots of a new node hold what was there.
  unfoldable pub new_node : SkipList K R → K → ℕ → SkipList K R
  new_node s k height = record s {
    key = update s.key s.fresh k;
    height = update s.height s.fresh height;
    fresh = suc s.fresh;
  }

  -- The loop that puts `x` behind `prev[level]`, on the levels from `level` on.
  unfoldable pub link_node : (ℕ → ℕ) → ℕ → (level rounds : ℕ) → SkipList K R → Option (SkipList K R)
  link_node prev x level zero s = some s
  link_node prev x level (suc rounds) s = do
    n ← load s (prev level) level
    s1 ← store s x level n
    s2 ← store s1 (prev level) level (some x)
    link_node prev x (level + 1) rounds s2

  -- `x == nullptr || !Equal(key, x->key)`.
  unfoldable pub is_new : (K → K → Ordering) → SkipList K R → K → Option ℕ → Bool
  is_new cmp s k none = true
  is_new cmp s k (some a) = not (is_eq (cmp k (s.key a)))

  -- The part of Insert behind the search, for a node of some height.
  unfoldable pub insert_at : K → (ℕ → ℕ) → ℕ → SkipList K R → Option (SkipList K R)
  unfolding raise new_node
  insert_at k prev height s =
      let grows = ltb s.max_height height in
      let prev' = if grows then raise prev s.max_height (height - s.max_height) else prev in
      let s1 = record s { max_height = if grows then height else s.max_height } in
      link_node prev' s.fresh 0 height (new_node s1 k height)

  -- `uninit` is what the array `prev` holds at first.
  unfoldable pub insert :
      (K → K → Ordering) → (R → ℕ × R) → (ℕ → ℕ) → K → SkipList K R → Option (SkipList K R)
  insert cmp draw uninit k s = do
    (x, prev) ← find_greater_or_equal cmp s k (some uninit)
    let (height, r) = random_height draw (limit - 1) 1 s.rnd
    p ← prev
    if is_new cmp s k x then insert_at k p height (record s { rnd = r }) else none

  -- The loop of the constructor, on the levels from `level` on.
  unfoldable pub clear_slots : (level rounds : ℕ) → SkipList K R → Option (SkipList K R)
  clear_slots level zero s = some s
  clear_slots level (suc rounds) s = do
    s1 ← store s head level none
    clear_slots (level + 1) rounds s1

  -- An arena with no node, whose memory holds anything.
  abbrev pub no_node : K → (ℕ → ℕ → Option ℕ) → R → SkipList K R
  no_node k memory seed = record {
    key = λ a. k;
    height = λ a. 0;
    next = memory;
    fresh = 0;
    max_height = 1;
    rnd = seed;
  }

  -- The constructor; `k` is any key.
  unfoldable pub new_list : K → (ℕ → ℕ → Option ℕ) → R → Option (SkipList K R)
  unfolding new_node
  new_list k memory seed = clear_slots 0 limit (new_node (no_node k memory seed) k limit)
