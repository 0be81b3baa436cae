-- ===== src/Tests/Readers.antt =====
-- A reader of leveldb/db/skiplist.h that looks for 4 while 4 is inserted between 3 and 5.
use leveldb_study.Base.{ℕ, ◌≡◌, refl, Option, none, some, List, [], ◌∷◌, arith, ◌⊎◌, update}
use Prim.Native.Nat.{compare}
use leveldb_study.SkipList.{
  SkipList, find_greater_or_equal, load, store, key_is_after_node, new_node,
}
use leveldb_study.SkipList.Chain.{first_ge}
use leveldb_study.SkipList.Place.{place}
use leveldb_study.SkipList.Splice.{raised, allocated}
use leveldb_study.SkipList.Readers.{Reader, Beside, Turn, read_round, write_store, take_turns}
use leveldb_study.SkipList.Readers.Answers.{start, take_turns-first_ge}
use leveldb_study.Tests.SkipLists.{two, compare-IsOrder, two-IsValid}

abbrev unset : ℕ → ℕ
unset i = 9

-- Node 2, which has the key 3, is the last smaller one on both levels.
abbrev before_four : ℕ → ℕ
before_four = update (update unset 1 2) 0 2

abbrev turns : List Turn
turns =
    Turn.read ∷ Turn.write ∷ Turn.read ∷ Turn.write ∷ Turn.read ∷ Turn.write ∷ Turn.read
    ∷ Turn.write ∷ Turn.read ∷ []

abbrev linking : ℕ → ℕ
linking =
    raised compare-IsOrder 4 two (2 ∷ 1 ∷ []) two-IsValid 2 (omega arith) (omega arith) before_four

abbrev unlinked : SkipList ℕ ℕ
unlinked = allocated compare-IsOrder 4 two (2 ∷ 1 ∷ []) two-IsValid 2 (omega arith) (omega arith)

take_turns-first_ge_example :
    (b : Beside ℕ ℕ) × (a : Option ℕ) × (take_turns compare 4 linking 3 2 turns (start unlinked 1)
      ≡ some b)
    × (b.reader ≡ Reader.found a)
    × ((a ≡ first_ge unlinked compare 4 (2 ∷ 1 ∷ []))
        ⊎ (a ≡ first_ge unlinked compare 4 (place two compare 4 3 (2 ∷ 1 ∷ []))))
unfolding find_greater_or_equal load key_is_after_node
take_turns-first_ge_example =
    take_turns-first_ge compare-IsOrder 4 4 two (2 ∷ 1 ∷ []) two-IsValid 2 (omega arith)
      (omega arith) unset before_four (some 1) 1 turns refl (refl, (refl, tt)) (omega arith)
      (omega arith)

reader_of : Option (Beside ℕ ℕ) → Reader
reader_of none = Reader.at 9 9
reader_of (some b) = b.reader

-- In that order the reader finds the new node, 3.
new_found :
    reader_of (take_turns compare 4 linking 3 2 turns (start unlinked 1)) ≡ Reader.found (some 3)
unfolding reader_of take_turns read_round write_store load store key_is_after_node new_node
new_found = refl
