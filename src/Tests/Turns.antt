-- ===== src/Tests/Turns.antt =====
-- Two calls of DBImpl::Write of leveldb/db/db_impl.cc: the first is past the wait, the second waits.
use leveldb_study.Base.{ℕ, ◌≡◌, refl, false, true, none, some, List, [], ◌∷◌, ◌++◌}
use leveldb_study.Status.{status_ok, is_null}
use leveldb_study.Demo.{Disk, memory}
use leveldb_study.DbImpl.{State}
use leveldb_study.DbImpl.Write.{pop_writers, signal_front, enqueue, lead, write_group}
use leveldb_study.DbImpl.Write.Queue.{Pc, Threads, Reach, start, later, arrive, leave}
use leveldb_study.DbImpl.Write.Queue.Served.{CanMove, Reach_first_come, Reach-CanMove}
use leveldb_study.DbImpl.Write.Queue.Leads.{Served, lead-Served}
use leveldb_study.Tests.Runs.{counted, store, counted-KeepsWriters}

-- A state, and how it is reached.
record Run : Type 0 where
  last : Threads counted
  reach : Reach counted last

abbrev begin : Run
begin = record { last = _; reach = start store refl }

abbrev first : Run
first = record { last = _; reach = later begin.reach (arrive 5 false (some (0, [])) refl) }

abbrev second : Run
second = record { last = _; reach = later first.reach (arrive 6 false (some (0, [])) refl) }

third : Run
unfolding pop_writers
third = record { last = _; reach = later second.reach (leave 5 status_ok _ refl refl) }

-- The call that returns wakes the next one.
second_awake : third.last.pc 6 ≡ Pc.awake
unfolding third signal_front
second_awake = refl

Reach_first_come_example : (rest : List ℕ) × (5 ∷ 6 ∷ [] ≡ [] ++ 5 ∷ rest)
Reach_first_come_example = Reach_first_come counted 5 second.reach refl

Reach-CanMove_example : (f : ℕ) × CanMove counted second.last f
Reach-CanMove_example = Reach-CanMove counted 6 second.reach refl

-- Call 6 comes while call 5 writes the log.
abbrev comes : State counted → State counted
comes s = enqueue counted 6 false (some (0, [])) s

blank : Disk
blank n = none

lead-Served_example :
    (s : State counted) × (lead counted memory is_null comes 1 5 true
        (some (0, []))
        first.last.state
        blank
      ≡ some (
        (write_group counted memory is_null comes true first.last.state blank).0,
        s,
        (write_group counted memory is_null comes true first.last.state blank).2,
      ))
    × Served counted memory is_null comes counted-KeepsWriters second.last 5 s
unfolding is_null
lead-Served_example =
    lead-Served counted memory is_null comes counted-KeepsWriters 0 5 true (0, []) blank first.reach
      refl refl (λ h. refl) second.reach refl refl
