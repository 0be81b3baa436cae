-- ===== src/DbImpl/Write/Queue/Leads.antt =====
-- DBImpl::Write of leveldb/db/db_impl.cc from the front of the queue on, as steps of the threads in it.
use leveldb_study.Base.{
  ℕ, suc, ◌≡◌, refl, Bool, true, some, List, [], ◌∷◌, ◌++◌, if◌then◌else◌, has, update, ap, ◌∙◌,
  sym, update_self,
}
use leveldb_study.Status.{Status}
use leveldb_study.Env.{Env}
use leveldb_study.DbImpl.{External, State}
use leveldb_study.DbImpl.Write.{write_group, lead, signal_front}
use leveldb_study.DbImpl.Write.Leader.{
  HasLog, KeepsWriters, lead-pops, pop_writers-front, write_group-writers, signal_front_lem,
}
use leveldb_study.DbImpl.Write.Queue.{Pc, Threads, deliver, woken, work, leave, Reach, later}
use leveldb_study.DbImpl.Write.Queue.Served.{Reach-IsOrderly, front_split}

deliver-idle :
    (signals : List ℕ) (pc : ℕ → Pc) (i : ℕ) → deliver signals (update pc i Pc.idle) i ≡ Pc.idle
deliver-idle signals pc i = rw (update_self pc i Pc.idle) (if_same (has i signals))
  where
    if_same : (b : Bool) → (if b then woken Pc.idle else Pc.idle) ≡ Pc.idle
    if_same true = refl
    if_same _ = refl

module _ (e : External) (env : Env) (is_ok : Status → Bool) (others : State e → State e)
    (k : KeepsWriters e) where
  -- Where the threads stand once the call at the front has returned: it alone has left the queue, and
  -- no Writer has changed.
  pub record Served (m : Threads e) (i : ℕ) (s : State e) : Type 0 where
    pub after : Threads e
    pub reach : Reach e after
    pub same_writers : after.state.writers ≡ s.writers
    pub same_writer : after.state.writer ≡ s.writer
    pub served : after.served ≡ m.served ++ i ∷ []
    pub only : m.state.writers ≡ i ∷ s.writers
    pub unchanged : s.writer ≡ m.state.writer
    pub returned : after.pc i ≡ Pc.idle

  -- Work and leave, from where the others are while the mutex is released.
  leave-Served :
      {m : Threads e} (i : ℕ) (status : Status) (g s : State e) (rest : List ℕ)
      → Reach e m
      → m.pc i ≡ Pc.leading
      → m.state.writers ≡ i ∷ rest
      → g.writers ≡ m.state.writers
      → g.writer ≡ m.state.writer
      → s.writers ≡ rest
      → s.writer ≡ m.state.writer
      → Served m i s
  leave-Served {m} i status g s rest reach leading front same_writers same_writer left kept =
      let quiet : State e = record g { signals = [] } in
      let popped : State e = record quiet { writers = rest } in
      let same = signal_front_lem e env is_ok others k popped in
      record {
        after = record {
          state = signal_front e popped;
          pc = deliver (signal_front e popped).signals (update m.pc i Pc.idle);
          arrived = m.arrived;
          served = m.served ++ i ∷ [];
        };
        reach = later (later reach (work i quiet leading same_writers same_writer)) (
            leave i status popped leading
              (pop_writers-front e i status g.writers rest quiet (same_writers ∙ front)));
        same_writers = same.0 ∙ sym left;
        same_writer = same.1 ∙ same_writer ∙ sym kept;
        served = refl;
        only = front ∙ ap (λ ws. i ∷ ws) (sym left);
        unchanged = kept;
        returned = deliver-idle (signal_front e popped).signals m.pc i;
      }

  -- Write from the front of the queue on does what the steps of its call do: where the threads can
  -- stand so that a call is past the wait, in a database without a background error, and with a log file if a sync is asked for, it ends, with the
  -- status of the batch group, and the threads can come to stand where the call has returned and is the
  -- next one served, with the queue and the Writers that the code leaves. It takes itself alone off the
  -- queue and marks no other Writer as done, also if the group held the batches of others. While the
  -- mutex is released the other threads may go to wherever the threads can stand with the call still
  -- past the wait; RecordBackgroundError is taken to leave the queue alone.
  pub lead-Served :
      {t m : Threads e} (fuel i : ℕ) (sync : Bool) (b : e.WriteBatch) (w : env.World)
      → Reach e t
      → t.pc i ≡ Pc.leading
      → is_ok t.state.bg_error ≡ true
      → HasLog e env is_ok others k sync t.state
      → Reach e m
      → m.pc i ≡ Pc.leading
      → others t.state ≡ m.state
      → (s : State e) × (lead e env is_ok others (suc fuel) i sync (some b) t.state w
          ≡ some (
            (write_group e env is_ok others sync t.state w).0,
            s,
            (write_group e env is_ok others sync t.state w).2,
          ))
        × Served m i s
  lead-Served {t} {m} fuel i sync b w reach leading healthy has_log reach' leading' met =
      let (behind, front) =
        front_split e i t.state.writers ((Reach-IsOrderly e reach).queue.leads i leading) in
      let (rest, front') =
        front_split e i m.state.writers ((Reach-IsOrderly e reach').queue.leads i leading') in
      let writers : (others t.state).writers ≡ m.state.writers =
        ap (λ (u : State e). u.writers) met in
      let writer : (others t.state).writer ≡ m.state.writer = ap (λ (u : State e). u.writer) met in
      let (s, end, left, kept) =
        lead-pops e env is_ok others k fuel i sync b t.state w behind rest healthy has_log front
          (writers ∙ front') in
      let r = write_group e env is_ok others sync t.state w in
      let kept_group = write_group-writers e env is_ok others k sync t.state w in
      (
        s,
        end,
        leave-Served i r.0 r.1 s rest reach' leading' front' (kept_group.0 ∙ writers)
            (kept_group.1 ∙ writer) left (kept ∙ writer),
      )
