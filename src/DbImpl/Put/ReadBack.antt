-- ===== src/DbImpl/Put/ReadBack.antt =====
-- DBImpl::Put and then DBImpl::Get of leveldb/db/db_impl.cc.
use leveldb_study.Base.{
  false, ◌>>=◌, ◌≡◌, refl, sym, ◌∙◌, ap, ℕ, suc, ◌+◌, Bool, true, Option, none, some, List, [], ◌∷◌,
  ◌++◌, arith, Bool-cases, inl, inr, ◌⊎◌, update_self,
}
use leveldb_study.Status.{Status, status_ok, Bytes}
use leveldb_study.Options.{ReadOptions}
use leveldb_study.Env.{Env}
use leveldb_study.Cache.{Cache}
use leveldb_study.Table.{TableFormat}
use leveldb_study.TableCache.{TableAndFile, TableCalls, TableCache, Session}
use leveldb_study.VersionSet.State.{VersionSet}
use leveldb_study.VersionSet.Get.{Saver, VersionCalls}
use leveldb_study.DbImpl.{External, State, Waiting}
use leveldb_study.DbImpl.Write.{write_group, log_and_insert}
use leveldb_study.DbImpl.Write.Leader.{
  HasLog, KeepsWriters, group_of, queued, write_group-Inserted, left_by, signal_front_lem,
  write-front,
}
use leveldb_study.DbImpl.Put.{PutCalls, batch_of, put}
use leveldb_study.DbImpl.Get.{
  GetCalls, get_unlocked, charge_seek, with_versions, finish_get, get_at, db_get,
}

module _ (e : External) (g : GetCalls e) (x : TableFormat) (blocks : Cache x.Block)
    (tables : Cache (TableAndFile x)) (t : TableCalls x blocks Saver) (is_ok : Status → Bool)
    (others : State e → State e) (v : VersionCalls e.config.D) (c : TableCache)
    (options : ReadOptions) where
  abbrev At : Type 0
  At = Session x blocks tables t is_ok

  abbrev moved : (s : State e) (current : ℕ) → State e
  moved s current =
      with_versions e g x blocks tables t is_ok others v c options (e.config.unref current) (
        others
          (with_versions e g x blocks tables t is_ok others v c options (e.config.ref current) s))

  get_at-in_mem :
      (key value value' : Bytes) (status : Status) (s : State e) (σ : At) (current : ℕ)
      → g.mem_get s.mem (g.lookup_key key (e.get_last_sequence s.versions)) value status_ok
        ≡ (true, value', status)
      → get_at e g x blocks tables t is_ok others v c options none key value s σ current
        ≡ some (status, value', moved s current, σ)
  unfolding get_at get_unlocked finish_get charge_seek
  get_at-in_mem key value value' status s σ current found = rw (get_unlocked, found) refl

  -- Get where the memtable knows the key.
  pub db_get-in_mem :
      (key value value' : Bytes) (status : Status) (s : State e) (σ : At) (current : ℕ)
      → s.versions.current ≡ some current
      → g.mem_get s.mem (g.lookup_key key (e.get_last_sequence s.versions)) value status_ok
        ≡ (true, value', status)
      → db_get e g x blocks tables t is_ok others v c options none key value s σ
        ≡ some (status, value', moved s current, σ)
  unfolding db_get
  db_get-in_mem key value value' status s σ current there found =
      ap
        (λ (m : Option ℕ).
          m >>= get_at e g x blocks tables t is_ok others v c options none key value s σ)
        there
      ∙ get_at-in_mem key value value' status s σ current found

  module _ (p : PutCalls e) (env : Env) (k : KeepsWriters e) where
    -- Documented behaviour of the callees: the last sequence number reads back; setting it and
    -- recording an error leave the current version; the group of a single writer is its batch; and a
    -- memtable that a batch of one put went into knows the key, at the last number of the batch.
    pub record Documented : Type 0 where
      pub get_last-put_last :
          (n : ℕ) (vs : VersionSet e.config.D) → e.get_last_sequence (e.put_last_sequence n vs) ≡ n
      pub put_last-current :
          (n : ℕ) (vs : VersionSet e.config.D) → (e.put_last_sequence n vs).current ≡ vs.current
      pub error_current :
          (status : Status) (s : State e)
          → (e.record_background_error status s).versions.current ≡ s.versions.current
      pub own_group :
          (me n : ℕ) (b : e.WriteBatch) (s : State e)
          → s.writers ≡ me ∷ []
          → (s.writer me).batch ≡ some b
          → (e.build_batch_group s n).0 ≡ b
      pub mem_get-insert_into :
          (key value before : Bytes) (n : ℕ) (m : e.MemTable)
          → let b = e.set_sequence (n + 1) (batch_of e p env is_ok others key value) in
            (is_ok (e.insert_into b m).0 ≡ true)
            → g.mem_get (e.insert_into b m).1 (g.lookup_key key (n + e.count b)) before status_ok
              ≡ (true, value, status_ok)

    module _ (d : Documented) where
      write_group-current :
          (sync : Bool) (s : State e) (w : env.World)
          → (write_group e env is_ok others sync s w).1.versions.current
            ≡ (others s).versions.current
      unfolding write_group
      write_group-current sync s w =
          elim (Bool-cases
            (log_and_insert e env is_ok others sync (group_of e env is_ok others k s) s w).1) [
              | inl q ↦ rw q (d.put_last-current _ _ ∙ d.error_current _ _)
              | inr q ↦ rw q (d.put_last-current _ _)
            ]

      -- What the memtable answers after the block for a batch of one put.
      write_group-mem_get :
          (me : ℕ) (sync : Bool) (key value before : Bytes) (s : State e) (w : env.World)
          → s.writers ≡ me ∷ []
          → (s.writer me).batch ≡ some (batch_of e p env is_ok others key value)
          → let r = write_group e env is_ok others sync s w in
            (is_ok r.0 ≡ true)
            → g.mem_get r.1.mem
                (g.lookup_key key (e.get_last_sequence r.1.versions))
                before
                status_ok
              ≡ (true, value, status_ok)
      write_group-mem_get me sync key value before s w single own ok =
          let n = (e.build_batch_group s (e.get_last_sequence s.versions)).2 in
          let b = batch_of e p env is_ok others key value in
          let group : group_of e env is_ok others k s ≡ e.set_sequence (n + 1) b =
            ap (e.set_sequence (n + 1)) (d.own_group me _ b s single own) in
          let (ends, last) =
            write_group-Inserted e env is_ok others k sync s w d.get_last-put_last in
          elim ends [
            | inl (bad, _) ↦ absurd (ground (arith, bad, ok))
            | inr (logged, synced, status, mem) ↦
                let inserted : is_ok (e.insert_into (e.set_sequence (n + 1) b) s.mem).0 ≡ true =
                  ap (λ (a : e.WriteBatch). is_ok (e.insert_into a s.mem).0) (sym group)
                  ∙ ap is_ok (sym status)
                  ∙ ok in
                let known = d.mem_get-insert_into key value before n s.mem inserted in
                cc (known, mem, last, group)
          ]

      -- A Put that finds no other writer, in a database without a background error, and with a log file
      -- if a sync is asked for, ends; and unless its
      -- status is not ok, a Get of the key that follows answers ok with the value, whatever the buffer held
      -- before, and looks at no file. The memtable, write batches, RecordBackgroundError and
      -- BuildBatchGroup are taken to do what is documented of them.
      pub put-db_get :
          (fuel me : ℕ) (sync : Bool) (key value before : Bytes) (s : State e) (w : env.World)
          (rest : List ℕ) (σ : At) (current : ℕ)
          → is_ok s.bg_error ≡ true
          → HasLog e env is_ok others k sync s
          → s.writers ≡ []
          → let q =
              queued e env is_ok others k me sync (batch_of e p env is_ok others key value) s in
            ((others q).writers ≡ me ∷ rest)
            → (others q).versions.current ≡ some current
            → (status : Status) × (s' : State e) × (w' : env.World) × (put e p env is_ok others
                  (suc fuel)
                  me
                  sync
                  key
                  value
                  s
                  w
                ≡ some (status, s', w'))
              × ((is_ok status ≡ false)
                  ⊎ ((s'' : State e) × (db_get e g x blocks tables t is_ok others v c options none
                          key before s' σ
                        ≡ some (status_ok, value, s'', σ))))
      unfolding put
      put-db_get fuel me sync key value before s w rest σ current healthy has_log alone came there =
          let b = batch_of e p env is_ok others key value in
          let q = queued e env is_ok others k me sync b s in
          let r = write_group e env is_ok others sync q w in
          let popped : State e = record r.1 { writers = rest } in
          let (_, _, same_mem, same_versions) = signal_front_lem e env is_ok others k popped in
          let single : q.writers ≡ me ∷ [] = ap (λ (ws : List ℕ). ws ++ me ∷ []) alone in
          let own : (q.writer me).batch ≡ some b =
            ap (λ (u : Waiting e.WriteBatch). u.batch) (update_self s.writer me _) in
          (
            r.0,
            left_by e env is_ok others k sync q w rest,
            r.2,
            write-front e env is_ok others k fuel me sync b s w rest healthy has_log alone came,
            elim (Bool-cases (is_ok r.0)) [
              | inr failed ↦ inl failed
              | inl ok ↦ inr (
                _,
                db_get-in_mem key before value status_ok
                    (left_by e env is_ok others k sync q w rest) σ current
                    (ap (λ (u : VersionSet e.config.D). u.current) same_versions
                      ∙ write_group-current sync q w
                      ∙ there)
                    (cc (
                      write_group-mem_get me sync key value before q w single own ok,
                      same_mem,
                      same_versions,
                    )),
              )
            ],
          )
