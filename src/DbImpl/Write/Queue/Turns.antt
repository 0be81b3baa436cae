-- ===== src/DbImpl/Write/Queue/Turns.antt =====
-- The order of the calls of DBImpl::Write in leveldb/db/db_impl.cc: one at a time, in the order in which
-- they came, and no wake-up is lost.
use leveldb_study.Base.{
  ℕ, ◌≡◌, refl, Bool, true, false, ◌||◌, List, [], ◌∷◌, ◌++◌, has, update, ◌==◌, arith,
}
use leveldb_study.DbImpl.{External, Waiting}
use leveldb_study.DbImpl.Write.{is_front}
use leveldb_study.DbImpl.Write.Queue.{Pc, next_pc, deliver}

-- A call that stands in the queue.
abbrev pub is_busy : Pc → Bool
is_busy Pc.idle = false
is_busy _ = true

-- One that will run or runs.
abbrev pub is_up : Pc → Bool
is_up Pc.awake = true
is_up Pc.leading = true
is_up _ = false

abbrev pub IsUp : List ℕ → (ℕ → Pc) → Type 0
IsUp [] pc = Unit
IsUp (f ∷ _) pc = is_up (pc f) ≡ true

abbrev pub Distinct : List ℕ → Type 0
Distinct [] = Unit
Distinct (a ∷ ws) = (has a ws ≡ false) × Distinct ws

has-append : (j i : ℕ) (ws : List ℕ) → has j (ws ++ i ∷ []) ≡ (has j ws || j == i)
has-append j i [] = ground arith
has-append j i (a ∷ ws) = ground (arith, has-append j i ws)

Distinct-append : (i : ℕ) (ws : List ℕ) → Distinct ws → has i ws ≡ false → Distinct (ws ++ i ∷ [])
Distinct-append i [] d h = (refl, tt)
Distinct-append i (a ∷ ws) d h =
    (ground (arith, has-append a i ws, d.0, h), Distinct-append i ws d.1 (ground (arith, h)))

module _ (e : External) where
  -- The calls in the queue are those that have begun and not returned, each once and none told to be
  -- done; the front one will run or runs, and only it can be past the wait.
  pub record IsQueue (ws : List ℕ) (writer : ℕ → Waiting e.WriteBatch) (pc : ℕ → Pc) : Type 0 where
    pub members : (i : ℕ) → has i ws ≡ is_busy (pc i)
    pub front : IsUp ws pc
    pub leads : (i : ℕ) → pc i ≡ Pc.leading → is_front e i ws ≡ true
    pub distinct : Distinct ws
    pub undone : (i : ℕ) → has i ws ≡ true → (writer i).done ≡ false

  is_front-append :
      (j i : ℕ) (ws : List ℕ) → is_front e j ws ≡ true → is_front e j (ws ++ i ∷ []) ≡ true
  is_front-append j i [] h = cc
  is_front-append j i (a ∷ ws) h = h

  IsUp-append :
      (i : ℕ) (ws : List ℕ) (pc : ℕ → Pc)
      → has i ws ≡ false
      → IsUp ws pc
      → IsUp (ws ++ i ∷ []) (update pc i (next_pc false (is_front e i (ws ++ i ∷ []))))
  IsUp-append i [] pc h u = ground arith
  IsUp-append i (a ∷ ws) pc h u = ground (arith, h, u)

  pub IsQueue-enqueue :
      (i : ℕ) (self : Waiting e.WriteBatch) (ws : List ℕ) (writer : ℕ → Waiting e.WriteBatch)
      (pc : ℕ → Pc)
      → IsQueue ws writer pc
      → pc i ≡ Pc.idle
      → self.done ≡ false
      → IsQueue
          (ws ++ i ∷ [])
          (update writer i self)
          (update pc i (next_pc false (is_front e i (ws ++ i ∷ []))))
  IsQueue-enqueue i self ws writer pc q rest fresh =
      let absent : has i ws ≡ false = ground (arith, q.members i) in
      record {
        members = λ j. ground (arith, has-append j i ws, q.members j);
        front = IsUp-append i ws pc absent q.front;
        leads = λ j h. ground (arith, q.leads j, is_front-append j i ws);
        distinct = Distinct-append i ws q.distinct absent;
        undone = λ j h. ground (arith, has-append j i ws, q.undone j);
      }

  -- A call in the queue goes on to another point.
  pub IsQueue-update :
      (i : ℕ) (p : Pc) (ws : List ℕ) (writer : ℕ → Waiting e.WriteBatch) (pc : ℕ → Pc)
      → IsQueue ws writer pc
      → is_busy (pc i) ≡ true
      → is_busy p ≡ true
      → (p ≡ Pc.leading → is_front e i ws ≡ true)
      → (is_front e i ws ≡ true → is_up p ≡ true)
      → IsQueue ws writer (update pc i p)
  IsQueue-update i p ws writer pc q here busy leads up = record {
    members = λ j. ground (arith, q.members j, q.members i);
    front = IsUp-update ws q.front up;
    leads = λ j h. ground (arith, q.leads j, leads);
    distinct = q.distinct;
    undone = q.undone;
  }
    where
      IsUp-update :
          (vs : List ℕ)
          → IsUp vs pc
          → (is_front e i vs ≡ true → is_up p ≡ true)
          → IsUp vs (update pc i p)
      IsUp-update [] u h = tt
      IsUp-update (f ∷ _) u h = ground (arith, u, h)

  pub IsQueue-test :
      (i : ℕ) (ws : List ℕ) (writer : ℕ → Waiting e.WriteBatch) (pc : ℕ → Pc)
      → IsQueue ws writer pc
      → pc i ≡ Pc.awake
      → IsQueue ws writer (update pc i (next_pc (writer i).done (is_front e i ws)))
  IsQueue-test i ws writer pc q awake =
      let undone : (writer i).done ≡ false = ground (arith, q.undone i, q.members i) in
      IsQueue-update i _ ws writer pc q (ground arith) (ground arith) (λ h. ground arith)
        (λ h. ground arith)

  -- The one at the front returns.
  pub IsQueue-leave :
      (i : ℕ) (rest : List ℕ) (writer : ℕ → Waiting e.WriteBatch) (pc : ℕ → Pc) (signals : List ℕ)
      → IsQueue (i ∷ rest) writer pc
      → IsUp rest (deliver signals (update pc i Pc.idle))
      → IsQueue rest writer (deliver signals (update pc i Pc.idle))
  IsQueue-leave i rest writer pc signals q up = record {
    members = λ j. ground (arith, q.members j, q.distinct);
    front = up;
    leads = λ j h. ground (arith, q.leads j);
    distinct = q.distinct.1;
    undone = λ j h. ground (arith, q.undone j);
  }

  pub IsUp-signal :
      (i f : ℕ) (rest : List ℕ) (writer : ℕ → Waiting e.WriteBatch) (pc : ℕ → Pc)
      → IsQueue (i ∷ f ∷ rest) writer pc
      → is_up (deliver (f ∷ []) (update pc i Pc.idle) f) ≡ true
  IsUp-signal i f rest writer pc q = ground (arith, q.members f, q.distinct)
