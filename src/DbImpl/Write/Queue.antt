-- ===== src/DbImpl/Write/Queue.antt =====
-- Several threads in DBImpl::Write of leveldb/db/db_impl.cc: each stands at a point of its call, and a
-- step is what one of them does while it holds the mutex. A call is known by the address of its
-- Writer.
pub mod Turns
pub mod Served
pub mod Leads
use leveldb_study.Base.{
  ℕ, ◌≡◌, Bool, true, false, Option, some, List, [], ◌∷◌, ◌++◌, has, update, if◌then◌else◌,
}
use leveldb_study.DbImpl.{External, State, Waiting}
use leveldb_study.DbImpl.Write.{is_front, enqueue, pop_writers, signal_front}
use leveldb_study.Status.{Status}

-- Where a call stands: not begun or returned, in the wait, about to test again after a signal, or past
-- the wait.
pub data Pc : Type 0 where
  idle asleep awake leading : Pc

-- After the test of the wait.
abbrev pub next_pc : Bool → Bool → Pc
next_pc true front = Pc.idle
next_pc false true = Pc.leading
next_pc false false = Pc.asleep

abbrev pub woken : Pc → Pc
woken Pc.asleep = Pc.awake
woken p = p

-- A signal wakes the call if it waits, and is lost otherwise.
abbrev pub deliver : List ℕ → (ℕ → Pc) → ℕ → Pc
deliver signals pc j = if has j signals then woken (pc j) else pc j

module _ (e : External) where
  -- `arrived` and `served` list the calls that joined the queue and that left it from its front.
  pub record Threads : Type 0 where
    pub state : State e
    pub pc : ℕ → Pc
    pub arrived : List ℕ
    pub served : List ℕ

  abbrev pub tested : ℕ → State e → Pc
  tested i s = next_pc (s.writer i).done (is_front e i s.writers)

  pub data Step (t : Threads) : Threads → Type 0 where
    -- A call joins the queue and tests.
    arrive :
        (i : ℕ) (sync : Bool) (updates : Option e.WriteBatch)
        → t.pc i ≡ Pc.idle
        → Step t (record {
          state = enqueue e i sync updates t.state;
          pc = update t.pc i (tested i (enqueue e i sync updates t.state));
          arrived = t.arrived ++ i ∷ [];
          served = t.served;
        })
    -- A call that was woken tests again.
    test : (i : ℕ) → t.pc i ≡ Pc.awake → Step t (record t { pc = update t.pc i (tested i t.state) })
    -- A wait may end without a signal.
    stir : (i : ℕ) → t.pc i ≡ Pc.asleep → Step t (record t { pc = update t.pc i Pc.awake })
    -- What the call at the front does to the database, and other threads beside it, which leaves the
    -- queue alone.
    work :
        (i : ℕ) (s : State e)
        → t.pc i ≡ Pc.leading
        → s.writers ≡ t.state.writers
        → s.writer ≡ t.state.writer
        → Step t (record t { state = s })
    -- It takes itself off the queue, signals the next one and returns.
    leave :
        (i : ℕ) (status : Status) (s : State e)
        → t.pc i ≡ Pc.leading
        → pop_writers e i i status t.state.writers (record t.state { signals = [] }) ≡ some s
        → Step t (record {
          state = signal_front e s;
          pc = deliver (signal_front e s).signals (update t.pc i Pc.idle);
          arrived = t.arrived;
          served = t.served ++ i ∷ [];
        })

  -- From a database without writers.
  pub data Reach : Threads → Type 0 where
    start :
        (s : State e)
        → s.writers ≡ []
        → Reach (record { state = s; pc = λ i. Pc.idle; arrived = []; served = [] })
    later : {t u : Threads} → Reach t → Step t u → Reach u
