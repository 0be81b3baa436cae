-- ===== src/DbImpl/Get/Sources.antt =====
-- Where DBImpl::Get of leveldb/db/db_impl.cc takes its answer from.
use leveldb_study.Base.{◌>>=◌, ◌≡◌, ◌∙◌, ap, ℕ, Bool, Option, none, some, Bool-cases, inl, inr}
use leveldb_study.Status.{Status, Bytes}
use leveldb_study.Options.{ReadOptions}
use leveldb_study.Cache.{Cache, IsCache}
use leveldb_study.Table.{TableFormat}
use leveldb_study.Table.Blocks.{IsFixed64}
use leveldb_study.TableCache.{TableAndFile, TableCalls, TableCache, Session}
use leveldb_study.TableCache.Find.{IsFileTest}
use leveldb_study.VersionSet.Get.{Saver, GetStats, VersionCalls, IsForEach}
use leveldb_study.DbImpl.{External, State}
use leveldb_study.DbImpl.Schedule.{IsScheduled, maybe_schedule_compaction-IsScheduled}
use leveldb_study.DbImpl.Get.Unlocked.{Answers, IsCoherent, InRange, get_unlocked-Ends}
use leveldb_study.DbImpl.Get.{
  GetCalls, Read, charge_seek, sequence_number, with_versions, finish_get, get_at, db_get,
}

module _ (e : External) (g : GetCalls e) (x : TableFormat) (blocks : Cache x.Block)
    (tables : Cache (TableAndFile x)) (t : TableCalls x blocks Saver) (is_ok : Status → Bool)
    (others : State e → State e) (v : VersionCalls e.config.D) (c : TableCache)
    (options : ReadOptions) where
  -- While the mutex is released, and where a file is charged, the flag stays in step with the calls
  -- of BGWork.
  pub record KeepsSchedule : Type 0 where
    pub others_scheduled : (s : State e) → IsScheduled e is_ok s → IsScheduled e is_ok (others s)
    pub update_scheduled :
        (current : ℕ) (stats : GetStats) (s : State e)
        → IsScheduled e is_ok s
        → IsScheduled e is_ok (g.update_stats current stats s).1

  charge_seek-IsScheduled :
      (keeps : KeepsSchedule) (current : ℕ) (stats : Option GetStats) (s : State e)
      → IsScheduled e is_ok s
      → IsScheduled e is_ok
          (charge_seek e g x blocks tables t is_ok others v c options current stats s)
  unfolding charge_seek
  charge_seek-IsScheduled keeps current none s h = h
  charge_seek-IsScheduled keeps current (some stats) s h =
      let r = g.update_stats current stats s in
      let updated = keeps.update_scheduled current stats s h in
      elim (Bool-cases r.0) [
        | inl p ↦ rw p (maybe_schedule_compaction-IsScheduled e is_ok r.1 updated).0
        | inr p ↦ rw p updated
      ]

  module _ (test : IsFileTest x blocks tables t is_ok) (k : IsCache tables)
      (fixed : IsFixed64 x.encode_fixed64) (each : IsForEach v) where
    -- Get with a current version ends without a failed assertion, and its answer is that of the first
    -- that knows the key, at the number of the snapshot or the last sequence number: the memtable, the
    -- immutable memtable, and the files of the current version. The flag stays in step with the calls of
    -- BGWork, also where the read asks for a compaction; every cached table is still that of a file of
    -- its number, and no handle is left. Other threads and UpdateStats are taken to keep the flag in
    -- step, and the files' numbers to have 64 bits. The test of a status takes OK for ok, there is a
    -- file where it takes that of NewRandomAccessFile for ok, and each file has room for a footer or the
    -- test tells a corruption from ok: with Status::ok as it is written, which tells nothing, every file
    -- has to be there and to have room.
    pub db_get-Answers :
        (keeps : KeepsSchedule) (snapshot : Option ℕ) (key value : Bytes) (s : State e)
        (σ : Session x blocks tables t is_ok) (current : ℕ)
        → s.versions.current ≡ some current
        → let lkey =
            g.lookup_key key
              (sequence_number e g x blocks tables t is_ok others v c options snapshot s) in
          let version = (e.config.ref current s.versions.versions).object current in
          InRange e g x blocks tables t is_ok others v c options test k fixed each version lkey
          → IsCoherent e g x blocks tables t is_ok others v c options test k fixed each σ
          → IsScheduled e is_ok s
          → (status : Status) × (value' : Bytes) × (stats : Option GetStats) × (s' : State e)
            × (σ' : Session x blocks tables t is_ok) × (db_get e g x blocks tables t is_ok others v
                  c options snapshot key value s σ
                ≡ some (status, value', s', σ'))
            × Answers e g x blocks tables t is_ok others v c options s.mem s.imm version lkey value
                σ status value' stats σ'
            × IsScheduled e is_ok s'
            × IsCoherent e g x blocks tables t is_ok others v c options test k fixed each σ'
            × (k.pins σ'.cache ≡ k.pins σ.cache)
    unfolding db_get get_at finish_get
    db_get-Answers keeps snapshot key value s σ current there bounds coherent scheduled =
        let lkey =
          g.lookup_key key
            (sequence_number e g x blocks tables t is_ok others v c options snapshot s) in
        let s1 =
          with_versions e g x blocks tables t is_ok others v c options (e.config.ref current) s in
        let r =
          get_unlocked-Ends e g x blocks tables t is_ok others v c options test k fixed each s.mem
            s.imm ((e.config.ref current s.versions.versions).object current) lkey value σ bounds
            coherent in
        (
          r.s,
          r.value',
          r.stats,
          with_versions e g x blocks tables t is_ok others v c options (e.config.unref current) (
              charge_seek e g x blocks tables t is_ok others v c options current r.stats
                (others s1)),
          r.after,
          ap
                (λ (m : Option ℕ).
                  m
                  >>= get_at e g x blocks tables t is_ok others v c options snapshot key value s σ)
                there
              ∙ ap
                  (λ (m : Option (Read e g x blocks tables t is_ok others v c options)).
                    m
                    >>= finish_get e g x blocks tables t is_ok others v c options current
                        (others s1))
                  r.ended,
          r.answers,
          charge_seek-IsScheduled keeps current r.stats (others s1)
              (keeps.others_scheduled s1 scheduled),
          r.coherent,
          r.pins,
        )
