-- ===== src/DbImpl/Write/Queue/Served.antt =====
-- What holds whenever threads run DBImpl::Write of leveldb/db/db_impl.cc together.
use leveldb_study.Base.{
  ℕ, ◌≡◌, refl, true, some, some_inj, List, [], ◌∷◌, ◌++◌, update, arith, inl, inr, ◌⊎◌,
  append_assoc, ◌∙◌, ap, sym, subst, update_self,
}
use leveldb_study.Status.{status_ok}
use leveldb_study.DbImpl.{External, State}
use leveldb_study.DbImpl.Write.{is_front, pop_writers, signal_front}
use leveldb_study.DbImpl.Write.Leader.{pop_writers-front}
use leveldb_study.DbImpl.Write.Queue.{
  Pc, deliver, Threads, tested, Step, arrive, test, stir, work, leave, Reach, start, later,
}
use leveldb_study.DbImpl.Write.Queue.Turns.{
  IsQueue, IsQueue-enqueue, IsQueue-update, IsQueue-test, IsQueue-leave, IsUp-signal, is_up,
  is_busy,
}

module _ (e : External) where
  -- The calls that came are those that were served and those in the queue, in this order.
  pub record IsOrderly (t : Threads e) : Type 0 where
    pub queue : IsQueue e t.state.writers t.state.writer t.pc
    pub order : t.arrived ≡ t.served ++ t.state.writers

  pub front_split :
      (i : ℕ) (ws : List ℕ) → is_front e i ws ≡ true → (rest : List ℕ) × (ws ≡ i ∷ rest)
  front_split i [] h = absurd (ground arith)
  front_split i (a ∷ ws) h = (ws, ground arith)

  abbrev left_state : Threads e → List ℕ → State e
  left_state t rest = record t.state { signals = []; writers = rest }

  abbrev after_leave : Threads e → ℕ → State e → Threads e
  after_leave t i s = record {
    state = signal_front e s;
    pc = deliver (signal_front e s).signals (update t.pc i Pc.idle);
    arrived = t.arrived;
    served = t.served ++ i ∷ [];
  }

  leave-IsQueue :
      (t : Threads e) (i : ℕ) (rest : List ℕ)
      → IsQueue e (i ∷ rest) t.state.writer t.pc
      → let u = after_leave t i (left_state t rest) in IsQueue e u.state.writers u.state.writer u.pc
  unfolding signal_front
  leave-IsQueue t i [] q = IsQueue-leave e i [] t.state.writer t.pc [] q tt
  leave-IsQueue t i (f ∷ rest) q =
      IsQueue-leave e i (f ∷ rest) t.state.writer t.pc (f ∷ []) q
        (IsUp-signal e i f rest t.state.writer t.pc q)

  pub signal_front-writers : (s : State e) → (signal_front e s).writers ≡ s.writers
  unfolding signal_front
  signal_front-writers s = ground arith

  Step-IsOrderly : {t u : Threads e} → Step e t u → IsOrderly t → IsOrderly u
  Step-IsOrderly {t} (arrive i sync updates rest) o = record {
    queue =
        rw (update_self t.state.writer i _)
          (IsQueue-enqueue e i _ t.state.writers t.state.writer t.pc o.queue rest refl);
    order = rw o.order (append_assoc t.served t.state.writers (i ∷ []));
  }
  Step-IsOrderly {t} (test i awake) o = record {
    queue = IsQueue-test e i t.state.writers t.state.writer t.pc o.queue awake;
    order = o.order;
  }
  Step-IsOrderly {t} (stir i asleep) o = record {
    queue =
        IsQueue-update e i Pc.awake t.state.writers t.state.writer t.pc o.queue (ground arith) refl
          (λ h. cc) (λ h. refl);
    order = o.order;
  }
  Step-IsOrderly {t} (work i s leading same_writers same_writer) o = record {
    queue = rw (same_writers, same_writer) o.queue;
    order = rw same_writers o.order;
  }
  Step-IsOrderly {t} (leave i status s leading popped) o =
      let (rest, split) = front_split i t.state.writers (o.queue.leads i leading) in
      let done =
        pop_writers-front e i status t.state.writers rest (record t.state { signals = [] }) split in
      subst (λ v. IsOrderly (after_leave t i v)) (some_inj (sym done ∙ popped))
        (record {
          queue =
              leave-IsQueue t i rest (subst (λ ws. IsQueue e ws t.state.writer t.pc) split o.queue);
          order =
              o.order
              ∙ ap (λ ws. t.served ++ ws) split
              ∙ sym (append_assoc t.served (i ∷ []) rest)
              ∙ ap (λ ws. (t.served ++ i ∷ []) ++ ws)
                  (sym (signal_front-writers (left_state t rest)));
        })

  pub Reach-IsOrderly : {t : Threads e} → Reach e t → IsOrderly t
  Reach-IsOrderly (start s empty) = record {
    queue = rw empty (record {
      members = λ i. refl;
      front = tt;
      leads = λ i h. cc;
      distinct = tt;
      undone = λ i h. cc;
    });
    order = sym empty;
  }
  Reach-IsOrderly (later r step) = Step-IsOrderly step (Reach-IsOrderly r)

  -- However the threads take turns: a call that is past the wait is the one that came first of those
  -- that have not been served. So no two are past the wait together, and the calls are served in the
  -- order in which they came.
  pub Reach_first_come :
      {t : Threads e} (i : ℕ)
      → Reach e t
      → t.pc i ≡ Pc.leading
      → (rest : List ℕ) × (t.arrived ≡ t.served ++ i ∷ rest)
  Reach_first_come {t} i r leading =
      let o = Reach-IsOrderly r in
      let (rest, split) = front_split i t.state.writers (o.queue.leads i leading) in
      (rest, o.order ∙ ap (λ ws. t.served ++ ws) split)

  -- Either past the wait, and can return, or about to test, and will pass.
  abbrev pub CanMove : Threads e → ℕ → Type 0
  CanMove t f =
      ((t.pc f ≡ Pc.leading)
        × ((s : State e) × (pop_writers e f f status_ok t.state.writers
                (record t.state { signals = [] })
              ≡ some s)))
      ⊎ ((t.pc f ≡ Pc.awake) × (tested e f t.state ≡ Pc.leading))

  up_cases : (p : Pc) → is_up p ≡ true → (p ≡ Pc.leading) ⊎ (p ≡ Pc.awake)
  up_cases Pc.leading h = inl refl
  up_cases Pc.awake h = inr refl
  up_cases Pc.idle h = cc
  up_cases Pc.asleep h = cc

  front_moves :
      (t : Threads e) (ws : List ℕ) (i : ℕ)
      → t.state.writers ≡ ws
      → IsQueue e ws t.state.writer t.pc
      → is_busy (t.pc i) ≡ true
      → (f : ℕ) × CanMove t f
  front_moves t [] i split q busy = absurd (ground (arith, q.members i))
  front_moves t (f ∷ ws) i split q busy = (
    f,
    elim (up_cases (t.pc f) q.front) [
      | inl leading ↦ inl (leading, (_, pop_writers-front e f status_ok _ ws _ split))
      | inr awake ↦ inr (awake, rw split (ground (arith, q.undone f)))
    ],
  )

  -- No wake-up is lost: while a call waits, some call can move: it is past the wait and can take
  -- itself off the queue, or it was woken and will pass the test.
  pub Reach-CanMove :
      {t : Threads e} (i : ℕ) → Reach e t → t.pc i ≡ Pc.asleep → (f : ℕ) × CanMove t f
  Reach-CanMove {t} i r asleep =
      front_moves t t.state.writers i refl (Reach-IsOrderly r).queue (ground arith)
