-- ===== src/DbImpl/Background/Jobs.antt =====
-- BackgroundCall and MaybeScheduleCompaction of leveldb/db/db_impl.cc as the steps of a database and
-- the environment that holds calls of BGWork.
use leveldb_study.Base.{
  Each, Each-some, Each-none, Each->>=, Each-if, ◌≤◌, ℕ, suc, ◌≡◌, Bool, true, false, ◌&&◌, not,
  Option, none, some, is_some, if◌then◌else◌, ◌==◌, arith, Bool-cases, inl, inr,
}
use leveldb_study.Status.{Status}
use leveldb_study.Env.{Env}
use leveldb_study.VersionEdit.{VersionEdit, new_edit}
use leveldb_study.VersionSet.LogAndApply.{log_and_apply}
use leveldb_study.TableBuilder.BuildTable.{build_table}
use leveldb_study.DbImpl.{External, State}
use leveldb_study.DbImpl.Schedule.{IsScheduled, maybe_schedule_compaction-IsScheduled}
use leveldb_study.DbImpl.Flush.{
  apply_edit, write_level0_table, write_imm, install_table, finish_flush, compact_memtable,
  shutdown_error, on_versions,
}
use leveldb_study.DbImpl.Background.{
  Compaction, CompactionExternal, num_input_files, input, note_error, moved_edit, move_file,
  compact_files, run_compaction, background_compaction, do_work, finish_call, background_call, Step,
  schedule, other, run, Reach, here, next,
}

module _ (e : External) (env : Env) (x : CompactionExternal e env) (is_ok : Status → Bool)
    (others : State e → State e) where
  -- The state while BGWork runs: the flag is set, and the environment holds no call.
  abbrev IsBusy : State e → Type 0
  IsBusy s = (s.background_compaction_scheduled ≡ true) × (s.jobs ≡ 0)

  -- While the flag is set nobody else changes it or hands the environment a call.
  pub record KeepsJobs : Type 0 where
    pub others_busy : (s : State e) → IsBusy s → IsBusy (others s)
    pub error_busy :
        (status : Status) (s : State e) → IsBusy s → IsBusy (e.record_background_error status s)
    pub remove_busy :
        (s : State e) (w : env.World) → IsBusy s → IsBusy (x.flush.remove_obsolete_files s w).0
    pub work_busy :
        (c : Compaction) (s : State e) (w : env.World)
        → IsBusy s
        → IsBusy (x.do_compaction_work c s w).1
    pub clean_up_busy :
        (c : Compaction) (s : State e) (w : env.World) → IsBusy s → IsBusy (x.clean_up c s w).0

  module _ (k : KeepsJobs) where
    abbrev AfterStatus : Status × State e × env.World → Type 0
    AfterStatus (status, s, w) = IsBusy s

    abbrev After : State e × env.World → Type 0
    After (s, w) = IsBusy s

    apply_edit-IsBusy :
        (edit : VersionEdit) (s : State e) (w : env.World)
        → IsBusy s
        → Each AfterStatus (apply_edit e env x.flush is_ok others edit s w)
    unfolding apply_edit
    apply_edit-IsBusy edit s w h =
        Each->>= (log_and_apply e.config env is_ok (on_versions e others s) edit s.versions w) _
          (λ r _.
            Each-some {a = (r.0, record (others s) { versions = r.2 }, r.3)} (k.others_busy s h))

    abbrev AfterTable : Status × VersionEdit × State e × env.World → Type 0
    AfterTable (status, edit, s, w) = IsBusy s

    write_level0_table-IsBusy :
        (mem : e.MemTable) (edit : VersionEdit) (base : ℕ) (s : State e) (w : env.World)
        → IsBusy s
        → Each AfterTable (write_level0_table e env x.flush is_ok others mem edit base s w)
    unfolding write_level0_table
    write_level0_table-IsBusy mem edit base s w h =
        Each->>= (build_table env x.flush.tables is_ok e.config.dbname _ _ w) _
          (λ b _. Each-some (k.others_busy _ h))

    write_imm-IsBusy :
        (imm : e.MemTable) (base : ℕ) (s : State e) (w : env.World)
        → IsBusy s
        → Each AfterTable (write_imm e env x.flush is_ok others imm base s w)
    unfolding write_imm
    write_imm-IsBusy imm base s w h =
        let s1 = record s {
          versions = record s.versions { versions = e.config.ref base s.versions.versions };
        } in
        Each->>= (write_level0_table e env x.flush is_ok others imm new_edit base s1 w) _
          (λ q eq. Each-some ((write_level0_table-IsBusy imm new_edit base s1 w h).at q eq))

    install_table-IsBusy :
        (status : Status) (edit : VersionEdit) (s : State e) (w : env.World)
        → IsBusy s
        → Each AfterStatus (install_table e env x.flush is_ok others status edit s w)
    unfolding install_table
    install_table-IsBusy status edit s w h =
        elim (Bool-cases (
          is_ok (
            if is_ok status && s.shutting_down
            then shutdown_error e env x.flush is_ok others
            else status))) [ inl q ↦ rw q (apply_edit-IsBusy _ s w h) | inr q ↦ rw q (Each-some h) ]

    finish_flush-IsBusy :
        (status : Status) (s : State e) (w : env.World)
        → IsBusy s
        → IsBusy (finish_flush e env x.flush is_ok others (status, s, w)).0
    unfolding finish_flush
    finish_flush-IsBusy status s w h = elim (Bool-cases (is_ok status)) [
      | inl q ↦ rw q (k.remove_busy _ w h)
      | inr q ↦ rw q (k.error_busy status s h)
    ]

    compact_memtable-IsBusy :
        (s : State e) (w : env.World)
        → IsBusy s
        → Each After (compact_memtable e env x.flush is_ok others s w)
    unfolding compact_memtable
    compact_memtable-IsBusy s w h = Each->>= s.imm _ (λ imm _.
        Each->>= s.versions.current _ (λ base _.
          Each->>= (write_imm e env x.flush is_ok others imm base s w) _ (λ r written.
            Each->>= (install_table e env x.flush is_ok others r.0 r.1 r.2 r.3) _ (λ q eq.
              let busy = (write_imm-IsBusy imm base s w h).at r written in
              Each-some (
                finish_flush-IsBusy q.0 q.1 q.2
                  ((install_table-IsBusy r.0 r.1 r.2 r.3 busy).at q eq))))))

    note_error-IsBusy :
        (status : Status) (s : State e)
        → IsBusy s
        → IsBusy (note_error e env x is_ok others status s)
    note_error-IsBusy status s h = elim (Bool-cases (is_ok status)) [
      | inl q ↦ rw q h
      | inr q ↦ rw q (k.error_busy status s h)
    ]

    move_file-IsBusy :
        (c : Compaction) (s : State e) (w : env.World)
        → IsBusy s
        → Each AfterStatus (move_file e env x is_ok others c s w)
    unfolding move_file
    move_file-IsBusy c s w h = elim (Bool-cases (num_input_files c 0 == 1)) [
      | inl q ↦ rw q (
          Each->>= (input c 0 0) _ (λ f _.
            let edit = moved_edit c f in
            Each->>= (apply_edit e env x.flush is_ok others edit s w) _ (λ r eq.
              Each-some {a = (r.0, note_error e env x is_ok others r.0 r.1, r.2)}
                (note_error-IsBusy r.0 r.1 ((apply_edit-IsBusy edit s w h).at r eq)))))
      | inr q ↦ rw q Each-none
    ]

    compact_files-IsBusy :
        (c : Compaction) (s : State e) (w : env.World)
        → IsBusy s
        → IsBusy (compact_files e env x is_ok others c s w).1
    unfolding compact_files
    compact_files-IsBusy c s w h =
        k.remove_busy _ _ (k.clean_up_busy c _ _ (note_error-IsBusy _ _ (k.work_busy c s w h)))

    run_compaction-IsBusy :
        (c : Option Compaction) (s : State e) (w : env.World)
        → IsBusy s
        → Each After (run_compaction e env x is_ok others c s w)
    unfolding run_compaction
    run_compaction-IsBusy none s w h = Each-some h
    run_compaction-IsBusy (some c) s w h = elim (Bool-cases (x.is_trivial_move c)) [
      | inl q ↦ rw q (
          Each->>= (move_file e env x is_ok others c s w) _
            (λ r eq. Each-some {a = (r.1, r.2)} ((move_file-IsBusy c s w h).at r eq)))
      | inr q ↦ rw q (Each-some (compact_files-IsBusy c s w h))
    ]

    background_compaction-IsBusy :
        (s : State e) (w : env.World)
        → IsBusy s
        → Each After (background_compaction e env x is_ok others s w)
    unfolding background_compaction
    background_compaction-IsBusy s w h = elim (Bool-cases (is_some s.imm)) [
      | inl q ↦ rw q (compact_memtable-IsBusy s w h)
      | inr q ↦ elim (Bool-cases (is_some s.manual_compaction)) [
        | inl p ↦ rw (q, p) Each-none
        | inr p ↦
            let picked = x.pick_compaction s.versions in
            rw (q, p) (run_compaction-IsBusy picked.0 (record s { versions = picked.1 }) w h)
      ]
    ]

    do_work-IsBusy :
        (s : State e) (w : env.World) → IsBusy s → Each After (do_work e env x is_ok others s w)
    unfolding do_work
    do_work-IsBusy s w h =
        Each-if s.shutting_down (Each-some h)
          (Each-if (not (is_ok s.bg_error)) (Each-some h) (background_compaction-IsBusy s w h))

    finish_call-IsScheduled :
        (s : State e) → s.jobs ≡ 0 → IsScheduled e is_ok (finish_call e env x is_ok others s)
    unfolding finish_call
    finish_call-IsScheduled s h =
        (maybe_schedule_compaction-IsScheduled e is_ok
          (record s { background_compaction_scheduled = false }) h).0

    -- A call that is taken finds the flag set and leaves no other call behind.
    taken :
        (j : ℕ) (s : State e)
        → IsScheduled e is_ok s
        → s.jobs ≡ suc j
        → IsBusy (record s { jobs = j })
    taken j s i h = ground arith

    background_call-IsScheduled :
        (s : State e) (w : env.World)
        → IsBusy s
        → Each (λ r. IsScheduled e is_ok r.0) (background_call e env x is_ok others s w)
    unfolding background_call
    background_call-IsScheduled s w h =
        Each-if s.background_compaction_scheduled
          (Each->>= (do_work e env x is_ok others s w) _ (λ r eq.
            Each-some {a = (finish_call e env x is_ok others r.0, r.1)}
              (finish_call-IsScheduled r.0 ((do_work-IsBusy s w h).at r eq).1)))
          Each-none

    Step-IsScheduled :
        {s s' : State e} {w w' : env.World}
        → Step e env x is_ok others s w s' w'
        → IsScheduled e is_ok s
        → IsScheduled e is_ok s'
    Step-IsScheduled (schedule s w) i = (maybe_schedule_compaction-IsScheduled e is_ok s i).0
    Step-IsScheduled (other s s' w w' f j) i = ground arith
    Step-IsScheduled (run j s s' w w' h ran) i =
        (background_call-IsScheduled (record s { jobs = j }) w (taken j s i h)).at (s', w') ran

    Reach-IsScheduled :
        {s0 : State e} {w0 : env.World} {s : State e} {w : env.World}
        → IsScheduled e is_ok s0
        → Reach e env x is_ok others s0 w0 s w
        → IsScheduled e is_ok s
    Reach-IsScheduled i here = i
    Reach-IsScheduled i (next r st) = Step-IsScheduled st (Reach-IsScheduled i r)

    -- In every state that is reached from one where the flag says whether the environment holds a
    -- call of BGWork, it still says so, there is at most one call, and if there is one, the
    -- assertion at the head of BackgroundCall holds when the environment runs it.
    pub Reach_one_job :
        {s0 : State e} {w0 : env.World} {s : State e} {w : env.World}
        → IsScheduled e is_ok s0
        → Reach e env x is_ok others s0 w0 s w
        → IsScheduled e is_ok s
          × (s.jobs ≤ 1)
          × ((j : ℕ)
              → s.jobs ≡ suc j
              → (record s { jobs = j }).background_compaction_scheduled ≡ true)
    Reach_one_job {s} i r =
        let still : IsScheduled e is_ok s = Reach-IsScheduled i r in
        (still, ground arith, λ j h. (taken j s still h).0)
