-- ===== src/SkipList/Readers.antt =====
-- A reader beside the writer of leveldb/db/skiplist.h: the loop of FindGreaterOrEqual, a round at a
-- time, between the single stores of the loop of Insert. The memory is sequentially consistent.
pub mod Behind
pub mod Stands
pub mod Shape
pub mod Rounds
pub mod Turns
pub mod Stores
pub mod Answers
use leveldb_study.Base.{
  ◌>>=◌, ℕ, zero, suc, ◌+◌, Ordering, Bool, true, false, Option, none, some, List, [], ◌∷◌,
  if◌then◌else◌, ◌==◌,
}
use leveldb_study.SkipList.{SkipList, load, store, node_or, key_is_after_node}

-- Where the search stands, with `prev` null: at a node on a level, or at its end.
pub data Reader : Type 0 where
  at : (level x : ℕ) → Reader
  found : Option ℕ → Reader

-- `if (level == 0) return next; else level--;`
abbrev pub down : ℕ → ℕ → Option ℕ → Reader
down zero x n = Reader.found n
down (suc level) x n = Reader.at level x

-- What the writer does next: the link of the new node on a level, or the link to it.
pub data Writer : Type 0 where
  fill publish : ℕ → Writer

module _ {K R : Type 0} where
  -- A round of the loop of FindGreaterOrEqual.
  unfoldable pub read_round : (K → K → Ordering) → SkipList K R → K → Reader → Option Reader
  read_round cmp s k (Reader.found n) = some (Reader.found n)
  read_round cmp s k (Reader.at level x) = do
    n ← load s x level
    some (if key_is_after_node cmp s k n then Reader.at level (node_or n x) else down level x n)

  -- A store of the loop of Insert, for the node `x` of some height.
  unfoldable pub write_store :
      (ℕ → ℕ) → (x height : ℕ) → SkipList K R → Writer → Option (SkipList K R × Writer)
  write_store prev x height s (Writer.fill i) =
      if i == height
      then some (s, Writer.fill i)
      else (do n ← load s (prev i) i; s1 ← store s x i n; some (s1, Writer.publish i))
  write_store prev x height s (Writer.publish i) = do
    s1 ← store s (prev i) i (some x)
    some (s1, Writer.fill (i + 1))

pub record Beside (K R : Type 0) : Type 0 where
  pub list : SkipList K R
  pub writer : Writer
  pub reader : Reader

pub data Turn : Type 0 where
  read write : Turn

module _ {K R : Type 0} (cmp : K → K → Ordering) (k : K) (prev : ℕ → ℕ) (x height : ℕ) where
  unfoldable pub take_turn : Turn → Beside K R → Option (Beside K R)
  take_turn Turn.read b = do r ← read_round cmp b.list k b.reader; some (record b { reader = r })
  take_turn Turn.write b = do
    (s, w) ← write_store prev x height b.list b.writer
    some (record b { list = s; writer = w })

  unfoldable pub take_turns : List Turn → Beside K R → Option (Beside K R)
  unfolding take_turn
  take_turns [] b = some b
  take_turns (t ∷ ts) b = do b' ← take_turn t b; take_turns ts b'
