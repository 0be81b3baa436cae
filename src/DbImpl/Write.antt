-- ===== src/DbImpl/Write.antt =====
-- DBImpl::Write of leveldb/db/db_impl.cc. `none` is a failed assertion, the front of an empty queue,
-- or the end of the fuel of a wait. `others` is what other threads do while the mutex is released;
-- the log and the memtable, which the writer at the front uses then, are its own.
pub mod Leader
pub mod Synced
pub mod Queue
use leveldb_study.Base.{
  ◌>>=◌, ℕ, zero, suc, ◌+◌, ◌≤◌, ◌<◌, ◌≡◌, ◌≢◌, refl, Bool, true, false, not, ◌&&◌, ◌||◌, Option,
  none, some, List, [], ◌∷◌, ◌++◌, is_some, if◌then◌else◌, ltb, leb, ◌==◌, arith, Bool-cases, inl,
  inr, ◌∙◌, sym, update, ◌⊎◌,
}
use leveldb_study.Status.{Status, status_ok, Bytes}
use leveldb_study.Env.{Env, Writer}
use leveldb_study.DbImpl.{DbState, External, State, Waiting}
use leveldb_study.DbImpl.MakeRoom.{make_room_for_write}

module _ (e : External) where
  abbrev pub is_front : ℕ → List ℕ → Bool
  is_front me [] = false
  is_front me (a ∷ rest) = a == me

  -- The test of the wait: another writer has done the work, or this one is at the front.
  abbrev pub is_turn : ℕ → State e → Bool
  is_turn me s = (s.writer me).done || is_front me s.writers

  -- The Writer of a call, at the end of the queue. `me` is its address on the stack.
  abbrev pub enqueue : ℕ → Bool → Option e.WriteBatch → State e → State e
  enqueue me sync updates s =
      let self : Waiting e.WriteBatch = record {
        batch = updates;
        status = status_ok;
        sync = sync;
        done = false;
      } in
      record s { writers = s.writers ++ me ∷ []; writer = update s.writer me self }

  -- The wait for the front of the queue, or for another writer to have done the work.
  unfoldable pub wait_turn : (others : State e → State e) → ℕ → ℕ → State e → Option (State e)
  wait_turn others zero me s = none
  wait_turn others (suc fuel) me s =
      let rest = wait_turn others fuel me (others s) in if is_turn me s then some s else rest

  -- A Writer that is told its outcome.
  unfoldable pub finish_writer : ℕ → Status → State e → State e
  finish_writer a status s = record s {
    writer = update s.writer a (record (s.writer a) { status = status; done = true });
    signals = a ∷ s.signals;
  }

  -- The loop that takes writers off the queue, up to `last`.
  unfoldable pub pop_writers : (me last : ℕ) → Status → List ℕ → State e → Option (State e)
  unfolding finish_writer
  pop_writers me last status [] s = none
  pop_writers me last status (ready ∷ rest) s =
      let s' = if ready == me then s else finish_writer ready status s in
      let more = pop_writers me last status rest s' in
      if ready == last then some (record s' { writers = rest }) else more

  unfoldable pub signal_front : State e → State e
  signal_front s = elim s.writers [ [] ↦ s | a ∷ _ ↦ record s { signals = a ∷ s.signals } ]

  module _ (env : Env) (is_ok : Status → Bool) (others : State e → State e) where
    -- The part without the mutex: the record, the sync and the memtable. The second result says
    -- whether the sync failed. Where the sync is of a null file `lead` has no outcome.
    unfoldable pub log_and_insert :
        Bool → e.WriteBatch → State e → env.World → Status × Bool × Writer × e.MemTable × env.World
    log_and_insert sync b s w =
        let (status, log, w1) = env.add_record s.log (e.contents b) w in
        let (synced, w2) = env.sync s.logfile w1 in
        let (inserted, mem) = e.insert_into b s.mem in
        if is_ok status
        then (if sync
            then (if is_ok synced
                then (inserted, false, log, mem, w2)
                else (synced, true, log, s.mem, w2))
            else (inserted, false, log, mem, w1))
        else (status, false, log, s.mem, w1)

    -- The block for a batch, once there is room.
    unfoldable pub write_group : Bool → State e → env.World → Status × State e × env.World
    unfolding log_and_insert
    write_group sync s w =
        let (group, is_tmp, last) = e.build_batch_group s (e.get_last_sequence s.versions) in
        let b = e.set_sequence (last + 1) group in
        let (status, sync_error, log, mem, w1) = log_and_insert sync b s w in
        let s1 = record (others s) { log = log; mem = mem } in
        let s2 = if sync_error then e.record_background_error status s1 else s1 in
        (
          status,
          record s2 {
            tmp_batch = if is_tmp then e.clear b else s2.tmp_batch;
            versions = e.put_last_sequence (last + e.count b) s2.versions;
          },
          w1,
        )

    -- The sync in `log_and_insert` is of a null log file.
    unfoldable pub syncs_null : Bool → State e → env.World → Bool
    syncs_null sync s w =
        let (group, _, last) = e.build_batch_group s (e.get_last_sequence s.versions) in
        let b = e.set_sequence (last + 1) group in
        sync && not (is_some s.logfile) && is_ok (env.add_record s.log (e.contents b) w).0

    -- The end of Write: the writers up to the last one leave, and the next one is signalled.
    unfoldable pub leave : ℕ → Status × State e × env.World → Option (Status × State e × env.World)
    unfolding signal_front
    leave me (status, s, w) = do
      s' ← pop_writers me me status s.writers s
      some (status, signal_front s', w)

    -- Write from the front of the queue on. `last_writer` is this writer and never changes.
    unfoldable pub lead :
        ℕ
        → ℕ
        → Bool
        → Option e.WriteBatch
        → State e
        → env.World
        → Option (Status × State e × env.World)
    lead fuel me sync updates s w = do
      (room, s1, w1) ← make_room_for_write e env is_ok others fuel (not (is_some updates)) s w
      if is_ok room && is_some updates
          then (if syncs_null sync s1 w1 then none else leave me (write_group sync s1 w1))
          else leave me (room, s1, w1)

    unfoldable pub write :
        ℕ
        → ℕ
        → Bool
        → Option e.WriteBatch
        → State e
        → env.World
        → Option (Status × State e × env.World)
    unfolding wait_turn lead
    write fuel me sync updates s w = do
      s1 ← wait_turn others fuel me (enqueue me sync updates s)
      if (s1.writer me).done
          then some ((s1.writer me).status, s1, w)
          else lead fuel me sync updates s1 w
