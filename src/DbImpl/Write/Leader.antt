-- ===== src/DbImpl/Write/Leader.antt =====
-- What DBImpl::Write of leveldb/db/db_impl.cc does from the front of the queue on.
use leveldb_study.Base.{
  is_some, ℕ, suc, ◌+◌, ◌≡◌, refl, Bool, true, false, some, List, [], ◌∷◌, arith, Bool-cases, inl,
  inr, ◌∙◌, ◌⊎◌, ap, ◌++◌, update_self,
}
use leveldb_study.Status.{Status, status_ok}
use leveldb_study.Env.{Env, Writer}
use leveldb_study.VersionSet.State.{VersionSet}
use leveldb_study.DbImpl.{External, State, Waiting}
use leveldb_study.DbImpl.MakeRoom.{make_room_for_write-ok, is_empty_queue}
use leveldb_study.DbImpl.Write.{
  syncs_null, enqueue, log_and_insert, write, wait_turn, write_group, lead, leave, pop_writers,
  signal_front,
}

-- RecordBackgroundError leaves alone what the write path owns.
pub record KeepsWriters (e : External) : Type 0 where
  pub same_writers :
      (status : Status) (s : State e) → (e.record_background_error status s).writers ≡ s.writers
  pub same_writer :
      (status : Status) (s : State e) → (e.record_background_error status s).writer ≡ s.writer
  pub same_mem : (status : Status) (s : State e) → (e.record_background_error status s).mem ≡ s.mem

module _ (e : External) where
  pub pop_writers-front :
      (me : ℕ) (status : Status) (ws rest : List ℕ) (s : State e)
      → ws ≡ me ∷ rest
      → pop_writers e me me status ws s ≡ some (record s { writers = rest })
  unfolding pop_writers
  pop_writers-front me status [] rest s h = cc
  pop_writers-front me status (a ∷ ws) rest s h = ground arith

module _ (e : External) (env : Env) (is_ok : Status → Bool) (others : State e → State e)
    (k : KeepsWriters e) where
  -- The batch group, with its sequence number, and the last number before it.
  abbrev pub group_of : State e → e.WriteBatch
  group_of s =
      let g = e.build_batch_group s (e.get_last_sequence s.versions) in e.set_sequence (g.2 + 1) g.0

  abbrev pub logged : State e → env.World → Status × Writer × env.World
  logged s w = env.add_record s.log (e.contents (group_of s)) w

  -- The two ways in which the block of a batch can end.
  abbrev pub Failed : State e → Status × State e × env.World → Type 0
  Failed s (status, s', w') = (is_ok status ≡ false) × (s'.mem ≡ s.mem)

  abbrev pub Inserted : Bool → State e → env.World → Status × State e × env.World → Type 0
  Inserted sync s w (status, s', w') =
      (is_ok (logged s w).0 ≡ true)
      × (sync ≡ true → is_ok (env.sync s.logfile (logged s w).2).0 ≡ true)
      × (status ≡ (e.insert_into (group_of s) s.mem).0)
      × (s'.mem ≡ (e.insert_into (group_of s) s.mem).1)

  -- The batch group goes to the memtable only after its record was written, and after the log file
  -- was synced if that was asked for; if either fails, the memtable is as before and the status of
  -- the failure is returned. The last sequence number is advanced by the group's count either way.
  pub write_group-Inserted :
      (sync : Bool) (s : State e) (w : env.World)
      → ((n : ℕ) (vs : VersionSet e.config.D) → e.get_last_sequence (e.put_last_sequence n vs) ≡ n)
      → (Failed s (write_group e env is_ok others sync s w)
          ⊎ Inserted sync s w (write_group e env is_ok others sync s w))
        × (e.get_last_sequence (write_group e env is_ok others sync s w).1.versions
            ≡ (e.build_batch_group s (e.get_last_sequence s.versions)).2 + e.count (group_of s))
  unfolding write_group log_and_insert
  write_group-Inserted sync s w law = (ends, law _ _)
    where
      ends :
          Failed s (write_group e env is_ok others sync s w)
          ⊎ Inserted sync s w (write_group e env is_ok others sync s w)
      ends = elim (Bool-cases (is_ok (logged s w).0)) [
        | inr x ↦ rw (x, log_and_insert) (inl (x, refl))
        | inl x ↦ elim (Bool-cases sync) [
          | inr y ↦ rw (x, y, log_and_insert) (inr (refl, (λ h. cc), refl, refl))
          | inl y ↦ elim (Bool-cases (is_ok (env.sync s.logfile (logged s w).2).0)) [
            | inl z ↦ rw (x, y, z, log_and_insert) (inr (refl, (λ h. refl), refl, refl))
            | inr z ↦ rw (x, y, z, log_and_insert) (inl (z, k.same_mem _ _))
          ]
        ]
      ]

  pub write_group-writers :
      (sync : Bool) (s : State e) (w : env.World)
      → ((write_group e env is_ok others sync s w).1.writers ≡ (others s).writers)
        × ((write_group e env is_ok others sync s w).1.writer ≡ (others s).writer)
  unfolding write_group
  write_group-writers sync s w =
      elim (Bool-cases (log_and_insert e env is_ok others sync (group_of s) s w).1) [
        | inl x ↦ rw x (k.same_writers _ _, k.same_writer _ _)
        | inr x ↦ rw x (refl, refl)
      ]

  leave-front :
      (me : ℕ) (rest : List ℕ) (r : Status × State e × env.World)
      → r.1.writers ≡ me ∷ rest
      → leave e env is_ok others me r
        ≡ some (r.0, signal_front e (record r.1 { writers = rest }), r.2)
  unfolding leave
  leave-front me rest (status, s, w) h = rw (pop_writers-front e me status s.writers rest s h) refl

  pub signal_front_lem :
      (s : State e)
      → ((signal_front e s).writers ≡ s.writers)
        × ((signal_front e s).writer ≡ s.writer)
        × ((signal_front e s).mem ≡ s.mem)
        × ((signal_front e s).versions ≡ s.versions)
  unfolding signal_front
  signal_front_lem s = ground arith

  -- There is a log file, if a sync was asked for.
  abbrev pub HasLog : Bool → State e → Type 0
  HasLog sync s = sync ≡ true → is_some s.logfile ≡ true

  syncs_null-HasLog :
      (sync : Bool) (s : State e) (w : env.World)
      → HasLog sync s
      → syncs_null e env is_ok others sync s w ≡ false
  unfolding syncs_null
  syncs_null-HasLog true s w h = rw (h refl) refl
  syncs_null-HasLog false s w h = refl

  -- The state that a Write leaves, where `rest` is behind it.
  abbrev pub left_by : Bool → State e → env.World → List ℕ → State e
  left_by sync s w rest =
      signal_front e (record (write_group e env is_ok others sync s w).1 { writers = rest })

  lead-front :
      (fuel me : ℕ) (sync : Bool) (b : e.WriteBatch) (s : State e) (w : env.World)
      (behind rest : List ℕ)
      → is_ok s.bg_error ≡ true
      → HasLog sync s
      → s.writers ≡ me ∷ behind
      → (others s).writers ≡ me ∷ rest
      → lead e env is_ok others (suc fuel) me sync (some b) s w
        ≡ some (
          (write_group e env is_ok others sync s w).0,
          left_by sync s w rest,
          (write_group e env is_ok others sync s w).2,
        )
  unfolding lead
  lead-front fuel me sync b s w behind rest healthy has_log front front' =
      let r = write_group e env is_ok others sync s w in
      let queued : is_empty_queue s.writers ≡ false = ap is_empty_queue front in
      let left : r.1.writers ≡ me ∷ rest = (write_group-writers sync s w).0 ∙ front' in
      rw
        (
          make_room_for_write-ok e env is_ok others fuel false s w queued healthy,
          healthy,
          syncs_null-HasLog sync s w has_log,
        )
        (leave-front me rest r left)

  -- At the front of the queue of a database without a background error, and with a log file if a sync
  -- is asked for, a Write of a batch ends, with the status of the batch group. It takes its own writer off the queue and no other, and tells no
  -- other writer that it is done, also if the group held the batches of others.
  pub lead-pops :
      (fuel me : ℕ) (sync : Bool) (b : e.WriteBatch) (s : State e) (w : env.World)
      (behind rest : List ℕ)
      → is_ok s.bg_error ≡ true
      → HasLog sync s
      → s.writers ≡ me ∷ behind
      → (others s).writers ≡ me ∷ rest
      → (s' : State e) × (lead e env is_ok others (suc fuel) me sync (some b) s w
          ≡ some (
            (write_group e env is_ok others sync s w).0,
            s',
            (write_group e env is_ok others sync s w).2,
          ))
        × (s'.writers ≡ rest)
        × (s'.writer ≡ (others s).writer)
  lead-pops fuel me sync b s w behind rest healthy has_log front front' =
      let popped : State e = record (write_group e env is_ok others sync s w).1 {
        writers = rest;
      } in
      let same = signal_front_lem popped in
      (
        signal_front e popped,
        lead-front fuel me sync b s w behind rest healthy has_log front front',
        same.0,
        same.1 ∙ (write_group-writers sync s w).1,
      )

  -- The state once the Writer of a Write stands in the queue.
  abbrev pub queued : ℕ → Bool → e.WriteBatch → State e → State e
  queued me sync b s = enqueue e me sync (some b) s

  wait_turn-queued :
      (fuel me : ℕ) (sync : Bool) (b : e.WriteBatch) (s : State e)
      → s.writers ≡ []
      → wait_turn e others (suc fuel) me (queued me sync b s) ≡ some (queued me sync b s)
  unfolding wait_turn
  wait_turn-queued fuel me sync b s h = ground (arith, h)

  pub write-front :
      (fuel me : ℕ) (sync : Bool) (b : e.WriteBatch) (s : State e) (w : env.World) (rest : List ℕ)
      → is_ok s.bg_error ≡ true
      → HasLog sync s
      → s.writers ≡ []
      → (others (queued me sync b s)).writers ≡ me ∷ rest
      → write e env is_ok others (suc fuel) me sync (some b) s w
        ≡ some (
          (write_group e env is_ok others sync (queued me sync b s) w).0,
          left_by sync (queued me sync b s) w rest,
          (write_group e env is_ok others sync (queued me sync b s) w).2,
        )
  unfolding write
  write-front fuel me sync b s w rest healthy has_log alone came =
      let front : (queued me sync b s).writers ≡ me ∷ [] =
        ap (λ (ws : List ℕ). ws ++ me ∷ []) alone in
      let self : Waiting e.WriteBatch = record {
        batch = some b;
        status = status_ok;
        sync = sync;
        done = false;
      } in
      rw (wait_turn-queued fuel me sync b s alone, update_self s.writer me self, write)
        (lead-front fuel me sync b (queued me sync b s) w [] rest healthy has_log front came)

  -- A Write of a batch that finds no other writer, in a database without a background error, and with
  -- a log file if a sync is asked for, ends
  -- with the status of the batch group, and leaves on the queue those that came while it had released
  -- the mutex.
  pub write-alone :
      (fuel me : ℕ) (sync : Bool) (b : e.WriteBatch) (s : State e) (w : env.World) (rest : List ℕ)
      → is_ok s.bg_error ≡ true
      → HasLog sync s
      → s.writers ≡ []
      → (others (queued me sync b s)).writers ≡ me ∷ rest
      → (s' : State e) × (write e env is_ok others (suc fuel) me sync (some b) s w
          ≡ some (
            (write_group e env is_ok others sync (queued me sync b s) w).0,
            s',
            (write_group e env is_ok others sync (queued me sync b s) w).2,
          ))
        × (s'.writers ≡ rest)
  write-alone fuel me sync b s w rest healthy has_log alone came = (
    left_by sync (queued me sync b s) w rest,
    write-front fuel me sync b s w rest healthy has_log alone came,
    (signal_front_lem _).0,
  )
