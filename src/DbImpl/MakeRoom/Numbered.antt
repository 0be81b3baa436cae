-- ===== src/DbImpl/MakeRoom/Numbered.antt =====
-- The log file's number and the compaction flag through MakeRoomForWrite of leveldb/db/db_impl.cc.
use leveldb_study.Base.{
  ℕ, zero, suc, ◌+◌, ◌<◌, ◌≡◌, refl, Bool, not, Option, none, some, ◌==◌, arith, Bool-cases,
  Option-cases, inl, inr,
}
use leveldb_study.Status.{Status, status_ok}
use leveldb_study.Env.{Env}
use leveldb_study.Filename.{log_file_name}
use leveldb_study.VersionSet.State.{VersionSet}
use leveldb_study.DbImpl.{External, State, new_file_number}
use leveldb_study.DbImpl.Schedule.{
  maybe_schedule_compaction, IsScheduled, maybe_schedule_compaction-IsScheduled,
  maybe_schedule_compaction_lem,
}
use leveldb_study.DbImpl.MakeRoom.{
  Round, with_new_log, switch_mem_table, room_round, room_loop, make_room_for_write, is_empty_queue,
}

module _ (e : External) (env : Env) (is_ok : Status → Bool) where
  module _ (others : State e → State e) where
    -- The log file has a number that was handed out, and the flag is in step with the environment.
    pub record IsNumbered (s : State e) : Type 0 where
      pub scheduled : IsScheduled e is_ok s
      pub below_next : s.logfile_number < s.versions.next_file_number

    -- What holds of every result.
    abbrev pub Holds : Option (Status × State e × env.World) → Type 0
    Holds none = Unit
    Holds (some (status, s, w)) = IsNumbered s

    abbrev HoldsRound : Option (Round e env is_ok) → Type 0
    HoldsRound none = Unit
    HoldsRound (some (Round.stop status s w)) = IsNumbered s
    HoldsRound (some (Round.again force allow_delay status s w)) = IsNumbered s

    -- Documented behaviour of ReuseFileNumber: it takes back the number last handed out.
    abbrev pub Reuses : Type 0
    Reuses =
        (number : ℕ) (vs : VersionSet e.config.D)
        → vs.next_file_number ≡ number + 1
        → (e.reuse_file_number number vs).next_file_number ≡ number

    module _ (reuses : Reuses) (keeps : (s : State e) → IsNumbered s → IsNumbered (others s)) where
      switch_mem_table-HoldsRound :
          (allow_delay : Bool) (s : State e) (w : env.World)
          → IsNumbered s
          → HoldsRound (switch_mem_table e env is_ok allow_delay s w)
      unfolding switch_mem_table new_file_number
      switch_mem_table-HoldsRound allow_delay s w i =
          let number = s.versions.next_file_number in
          elim (Bool-cases (e.get_prev_log_number s.versions == 0)) [
            | inr z ↦ rw z tt
            | inl z ↦ rw z (elim (Option-cases (log_file_name e.config.dbname number)) [
              | inl n ↦ rw n tt
              | inr (name, n) ↦ rw n (elim (Bool-cases (is_ok (env.new_writable_file name w).0)) [
                | inl k ↦ rw k (
                    schedule-IsNumbered
                      (with_new_log e env is_ok number (env.new_writable_file name w).1
                        (record s { versions = (new_file_number s.versions).1 }))
                      (record { scheduled = i.scheduled; below_next = omega arith }))
                | inr k ↦ rw k (record {
                  scheduled = i.scheduled;
                  below_next =
                      omega
                        (arith, i.below_next, reuses number (new_file_number s.versions).1 refl);
                })
              ])
            ])
          ]
        where
          schedule-IsNumbered :
              (s : State e) → IsNumbered s → IsNumbered (maybe_schedule_compaction e is_ok s)
          schedule-IsNumbered s i =
              let same = maybe_schedule_compaction_lem e is_ok s in
              record {
                scheduled = (maybe_schedule_compaction-IsScheduled e is_ok s i.scheduled).0;
                below_next = rw (same.0, same.1) i.below_next;
              }

      room_round-HoldsRound :
          (force allow_delay : Bool) (status : Status) (s : State e) (w : env.World)
          → IsNumbered s
          → HoldsRound (room_round e env is_ok others force allow_delay status s w)
      unfolding room_round
      room_round-HoldsRound force allow_delay status s w i =
          ground (arith, i, keeps s i, switch_mem_table-HoldsRound allow_delay s w i)

      Holds-continue :
          (fuel : ℕ) (r : Option (Round e env is_ok))
          → ((force allow_delay : Bool) (status : Status) (s : State e) (w : env.World)
              → IsNumbered s
              → Holds (room_loop e env is_ok others fuel force allow_delay status s w))
          → HoldsRound r
          → Holds (elim r [
            | none ↦ none
            | some (Round.stop status s w) ↦ some (status, s, w)
            | some (Round.again force allow_delay status s w) ↦
                room_loop e env is_ok others fuel force allow_delay status s w
          ])
      Holds-continue fuel none rest h = tt
      Holds-continue fuel (some (Round.stop status s w)) rest h = h
      Holds-continue fuel (some (Round.again force allow_delay status s w)) rest h =
          rest force allow_delay status s w h

      room_loop-Holds :
          (fuel : ℕ) (force allow_delay : Bool) (status : Status) (s : State e) (w : env.World)
          → IsNumbered s
          → Holds (room_loop e env is_ok others fuel force allow_delay status s w)
      unfolding room_loop
      room_loop-Holds zero force allow_delay status s w i = tt
      room_loop-Holds (suc fuel) force allow_delay status s w i =
          Holds-continue fuel (room_round e env is_ok others force allow_delay status s w)
            (room_loop-Holds fuel) (room_round-HoldsRound force allow_delay status s w i)

      -- Whatever MakeRoomForWrite returns, however often it waits: the log file has a number below
      -- the next one, and the flag is in step with the calls of BGWork, if it was so before, other
      -- threads keep it so, and ReuseFileNumber takes back the number last handed out.
      pub make_room_for_write-IsNumbered :
          (fuel : ℕ) (force : Bool) (s : State e) (w : env.World)
          → IsNumbered s
          → Holds (make_room_for_write e env is_ok others fuel force s w)
      unfolding make_room_for_write
      make_room_for_write-IsNumbered fuel force s w i =
          elim (Bool-cases (is_empty_queue s.writers)) [
            | inl q ↦ rw q tt
            | inr q ↦ rw q (room_loop-Holds fuel force (not force) status_ok s w i)
          ]
