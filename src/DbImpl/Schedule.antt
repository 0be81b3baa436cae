-- ===== src/DbImpl/Schedule.antt =====
-- DBImpl::MaybeScheduleCompaction of leveldb/db/db_impl.cc.
use leveldb_study.Base.{◌+◌, ◌≡◌, Bool, true, not, ◌&&◌, ◌||◌, is_some, if◌then◌else◌, arith}
use leveldb_study.Status.{Status}
use leveldb_study.DbImpl.{External, State}

module _ (e : External) (is_ok : Status → Bool) where
  unfoldable pub maybe_schedule_compaction : State e → State e
  maybe_schedule_compaction s =
      if s.background_compaction_scheduled
      then s
      else if s.shutting_down
      then s
      else if not (is_ok s.bg_error)
      then s
      else if not (is_some s.imm)
          && (not (is_some s.manual_compaction) && not (e.needs_compaction s.versions))
      then s
      else record s { background_compaction_scheduled = true; jobs = s.jobs + 1 }

  -- The flag says whether the environment holds a call of BGWork, and it never holds two.
  abbrev pub IsScheduled : State e → Type 0
  IsScheduled s = s.jobs ≡ (if s.background_compaction_scheduled then 1 else 0)

  -- Work to be done that nothing forbids.
  abbrev pub has_work : State e → Bool
  has_work s =
      not s.shutting_down
      && (is_ok s.bg_error
          && (is_some s.imm || (is_some s.manual_compaction || e.needs_compaction s.versions)))

  -- MaybeScheduleCompaction keeps the flag in step with the calls of BGWork that the environment
  -- holds, so that there are never two, and leaves a call there if and only if there was one or
  -- there is work that neither shutdown nor an error forbids.
  pub maybe_schedule_compaction-IsScheduled :
      (s : State e)
      → IsScheduled s
      → IsScheduled (maybe_schedule_compaction s)
        × ((maybe_schedule_compaction s).background_compaction_scheduled
            ≡ (s.background_compaction_scheduled || has_work s))
  unfolding maybe_schedule_compaction
  maybe_schedule_compaction-IsScheduled s h = ground arith

  pub maybe_schedule_compaction_lem :
      (s : State e)
      → ((maybe_schedule_compaction s).logfile_number ≡ s.logfile_number)
        × ((maybe_schedule_compaction s).versions ≡ s.versions)
        × ((maybe_schedule_compaction s).imm ≡ s.imm)
        × ((maybe_schedule_compaction s).mem ≡ s.mem)
        × ((maybe_schedule_compaction s).log ≡ s.log)
        × ((maybe_schedule_compaction s).bg_error ≡ s.bg_error)
  unfolding maybe_schedule_compaction
  maybe_schedule_compaction_lem s = ground arith
