-- ===== src/DbImpl/MakeRoom.antt =====
-- DBImpl::MakeRoomForWrite of leveldb/db/db_impl.cc. `none` is a failed assertion or the end of the
-- fuel: how often the loop waits is up to other threads. `others` is what they do while it waits or
-- sleeps.
pub mod Numbered
use leveldb_study.Base.{
  ◌>>=◌, ℕ, zero, suc, ◌+◌, ◌<◌, ◌≡◌, refl, Bool, true, false, not, ◌&&◌, Option, none, some, List,
  [], ◌∷◌, is_some, if◌then◌else◌, leb, ◌==◌, arith, Bool-cases, Option-cases, inl, inr,
}
use leveldb_study.Status.{Status, status_ok, Bytes}
use leveldb_study.Env.{Env, new_writer}
use leveldb_study.Filename.{log_file_name}
use leveldb_study.VersionSet.State.{VersionSet}
use leveldb_study.DbImpl.{External, State, new_file_number}
use leveldb_study.DbImpl.Schedule.{
  maybe_schedule_compaction, IsScheduled, maybe_schedule_compaction-IsScheduled,
  maybe_schedule_compaction_lem,
}

abbrev pub is_empty_queue : List ℕ → Bool
is_empty_queue [] = true
is_empty_queue (_ ∷ _) = false

module _ (e : External) (env : Env) (is_ok : Status → Bool) where
  -- What a round of the loop leaves: a result, or `force` and `allow_delay` for the next round.
  pub data Round : Type 0 where
    stop : Status → State e → env.World → Round
    again : (force allow_delay : Bool) → Status → State e → env.World → Round

  -- The writes once the log file is there: the memtable becomes the immutable one.
  abbrev pub with_new_log : ℕ → Option ℕ → State e → State e
  with_new_log number file s = record s {
    logfile = file;
    logfile_number = number;
    log = new_writer file;
    imm = some s.mem;
    has_imm = true;
    mem = e.new_mem_table;
  }

  -- The last branch: the switch to a new memtable and log file.
  unfoldable pub switch_mem_table : Bool → State e → env.World → Option Round
  unfolding new_file_number maybe_schedule_compaction
  switch_mem_table allow_delay s w =
      if e.get_prev_log_number s.versions == 0
      then (do
        let (number, versions) = new_file_number s.versions
        name ← log_file_name e.config.dbname number
        let (status, file, w1) = env.new_writable_file name w
        some (
            if is_ok status
            then Round.again false allow_delay status
                (maybe_schedule_compaction e is_ok
                  (with_new_log number file (record s { versions = versions })))
                w1
            else Round.stop status (record s { versions = e.reuse_file_number number versions })
                w1))
      else none

  module _ (others : State e → State e) where
    unfoldable pub room_round :
        (force allow_delay : Bool) → Status → State e → env.World → Option Round
    unfolding switch_mem_table
    room_round force allow_delay status s w =
        if is_ok s.bg_error
        then some (Round.stop s.bg_error s w)
        else if allow_delay && leb e.slowdown_writes_trigger (e.num_level_files 0 s.versions)
        then some (Round.again force false status (others s) w)
        else if not force && leb (e.approximate_memory_usage s.mem) e.write_buffer_size
        then some (Round.stop status s w)
        else if is_some s.imm
        then some (Round.again force allow_delay status (others s) w)
        else if leb e.stop_writes_trigger (e.num_level_files 0 s.versions)
        then some (Round.again force allow_delay status (others s) w)
        else switch_mem_table allow_delay s w

    unfoldable pub room_loop :
        ℕ
        → (force allow_delay : Bool) → Status
        → State e
        → env.World
        → Option (Status × State e × env.World)
    unfolding room_round
    room_loop zero force allow_delay status s w = none
    room_loop (suc fuel) force allow_delay status s w =
        elim (room_round force allow_delay status s w) [
          | none ↦ none
          | some (Round.stop status' s' w') ↦ some (status', s', w')
          | some (Round.again force' allow_delay' status' s' w') ↦
              room_loop fuel force' allow_delay' status' s' w'
        ]

    unfoldable pub make_room_for_write :
        ℕ → Bool → State e → env.World → Option (Status × State e × env.World)
    unfolding room_loop
    make_room_for_write fuel force s w =
        if is_empty_queue s.writers then none else room_loop fuel force (not force) status_ok s w

    -- Where the background error is ok the first round ends the loop, with the memtable as it is.
    pub make_room_for_write-ok :
        (fuel : ℕ) (force : Bool) (s : State e) (w : env.World)
        → is_empty_queue s.writers ≡ false
        → is_ok s.bg_error ≡ true
        → make_room_for_write (suc fuel) force s w ≡ some (s.bg_error, s, w)
    unfolding make_room_for_write room_loop room_round
    make_room_for_write-ok fuel force s w h k = ground arith
