-- ===== src/DbImpl/Background.antt =====
-- DBImpl::BackgroundCompaction and DBImpl::BackgroundCall of leveldb/db/db_impl.cc, and the class
-- Compaction of leveldb/db/version_set.h. `none` is a failed assertion or the use of a pointer that
-- is null or was never set.
pub mod Jobs
pub mod Move
use leveldb_study.Base.{
  ◌>>=◌, ◌≡◌, ℕ, zero, suc, ◌+◌, Bool, true, false, ◌&&◌, not, Option, none, some, List, [], ◌∷◌,
  is_some, if◌then◌else◌, ◌==◌, length,
}
use leveldb_study.Status.{Status, status_ok}
use leveldb_study.Env.{Env}
use leveldb_study.VersionEdit.{VersionEdit, add_file, remove_file}
use leveldb_study.VersionSet.Version.{File}
use leveldb_study.VersionSet.State.{VersionSet}
use leveldb_study.DbImpl.{DbState, External, State}
use leveldb_study.DbImpl.Schedule.{maybe_schedule_compaction}
use leveldb_study.DbImpl.Flush.{FlushExternal, apply_edit, compact_memtable}

-- The fields that have an accessor. `input_version` is the address of a version.
pub record Compaction : Type 0 where
  pub level : ℕ
  pub max_output_file_size : ℕ
  pub input_version : Option ℕ
  pub edit : VersionEdit
  pub inputs : ℕ → List File

abbrev pub num_input_files : Compaction → ℕ → ℕ
num_input_files c which = length (c.inputs which)

-- `inputs_[which][i]`; out of range is `none`.
abbrev pub nth : {A : Type 0} → List A → ℕ → Option A
nth [] i = none
nth (x ∷ xs) zero = some x
nth (x ∷ xs) (suc i) = nth xs i

abbrev pub input : Compaction → ℕ → ℕ → Option File
input c which i = nth (c.inputs which) i

-- The compaction's edit with the move of its file to the next level.
unfoldable pub moved_edit : Compaction → File → VersionEdit
moved_edit c f =
    add_file (c.level + 1) f.meta.number f.meta.file_size f.meta.smallest f.meta.largest
      (remove_file c.level f.meta.number c.edit)

-- Members that are declared only. The clean-up is CleanupCompaction and ReleaseInputs.
pub record CompactionExternal (e : External) (env : Env) : Type 1 where
  pub flush : FlushExternal e env
  pub pick_compaction : VersionSet e.config.D → Option Compaction × VersionSet e.config.D
  pub is_trivial_move : Compaction → Bool
  pub do_compaction_work : Compaction → State e → env.World → Status × State e × env.World
  pub clean_up : Compaction → State e → env.World → State e × env.World

module _ (e : External) (env : Env) (x : CompactionExternal e env) (is_ok : Status → Bool)
    (others : State e → State e) where
  abbrev pub note_error : Status → State e → State e
  note_error status s = if is_ok status then s else e.record_background_error status s

  -- The file moves to the next level, by an edit alone.
  unfoldable pub move_file :
      Compaction → State e → env.World → Option (Status × State e × env.World)
  unfolding apply_edit
  move_file c s w =
      if num_input_files c 0 == 1
      then (do
        f ← input c 0 0
        (status, s', w') ← apply_edit e env x.flush is_ok others (moved_edit c f) s w
        some (status, note_error status s', w'))
      else none

  unfoldable pub compact_files : Compaction → State e → env.World → Status × State e × env.World
  compact_files c s w =
      let (status, s1, w1) = x.do_compaction_work c s w in
      let (s2, w2) = x.clean_up c (note_error status s1) w1 in
      let (s3, w3) = x.flush.remove_obsolete_files s2 w2 in (status, s3, w3)

  -- The part behind the choice of a compaction. The last status is only logged.
  unfoldable pub run_compaction :
      Option Compaction → State e → env.World → Option (State e × env.World)
  unfolding move_file compact_files
  run_compaction none s w = some (s, w)
  run_compaction (some c) s w = do
    (status, s', w') ← if x.is_trivial_move c then move_file c s w else some (compact_files c s w)
    some (s', w')

  -- With a manual compaction the pointer `c` is used without a value.
  unfoldable pub background_compaction : State e → env.World → Option (State e × env.World)
  unfolding compact_memtable run_compaction
  background_compaction s w =
      if is_some s.imm
      then compact_memtable e env x.flush is_ok others s w
      else if is_some s.manual_compaction
      then none
      else (let (c, versions) = x.pick_compaction s.versions in
          run_compaction c (record s { versions = versions }) w)

  -- The part of BackgroundCall between the assertion and the reset of the flag.
  unfoldable pub do_work : State e → env.World → Option (State e × env.World)
  unfolding background_compaction
  do_work s w =
      if s.shutting_down
      then some (s, w)
      else if not (is_ok s.bg_error)
      then some (s, w)
      else background_compaction s w

  unfoldable pub finish_call : State e → State e
  unfolding maybe_schedule_compaction
  finish_call s =
      let s' =
        maybe_schedule_compaction e is_ok (record s { background_compaction_scheduled = false }) in
      record s' { finish_signals = s'.finish_signals + 1 }

  unfoldable pub background_call : State e → env.World → Option (State e × env.World)
  unfolding do_work finish_call
  background_call s w =
      if s.background_compaction_scheduled
      then (do (s', w') ← do_work s w; some (finish_call s', w'))
      else none

  -- What can happen to the database and the environment, under the mutex: a thread asks for a
  -- compaction; another operation changes fields other than the flag and the calls; the environment
  -- takes a call that it holds and runs it to its end.
  pub data Step : State e → env.World → State e → env.World → Type 0 where
    schedule : (s : State e) (w : env.World) → Step s w (maybe_schedule_compaction e is_ok s) w
    other :
        (s s' : State e) (w w' : env.World)
        → s'.background_compaction_scheduled ≡ s.background_compaction_scheduled
        → s'.jobs ≡ s.jobs
        → Step s w s' w'
    run :
        (j : ℕ) (s s' : State e) (w w' : env.World)
        → s.jobs ≡ suc j
        → background_call (record s { jobs = j }) w ≡ some (s', w')
        → Step s w s' w'

  pub data Reach (s0 : State e) (w0 : env.World) : State e → env.World → Type 0 where
    here : Reach s0 w0 s0 w0
    next :
        {s s' : State e} {w w' : env.World} → Reach s0 w0 s w → Step s w s' w' → Reach s0 w0 s' w'
