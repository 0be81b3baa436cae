-- ===== src/DbImpl/Get/Unlocked.antt =====
-- The part of DBImpl::Get of leveldb/db/db_impl.cc that runs without the mutex.
use leveldb_study.Base.{
  ◌≡◌, refl, ap, ℕ, ◌^◌, ◌<◌, Bool, true, false, Option, none, some, some_inj, subst, All,
  Bool-cases, inl, inr,
}
use leveldb_study.Status.{Status, status_ok, Bytes}
use leveldb_study.Options.{ReadOptions}
use leveldb_study.Cache.{Cache, IsCache}
use leveldb_study.Table.{TableFormat}
use leveldb_study.Table.Opening.{Fits}
use leveldb_study.Table.Blocks.{IsFixed64}
use leveldb_study.TableCache.{TableAndFile, TableCalls, TableCache, Session}
use leveldb_study.TableCache.Find.{IsFileTest, Coherent}
use leveldb_study.VersionSet.Version.{File}
use leveldb_study.VersionSet.State.{Version}
use leveldb_study.VersionSet.Get.{Saver, LookupKey, GetStats, VersionCalls, IsForEach, version_get}
use leveldb_study.VersionSet.Get.Ends.{version_get-ends}
use leveldb_study.DbImpl.{External, State}
use leveldb_study.DbImpl.Get.{GetCalls, Read, get_from_version, get_from_imm, get_unlocked}

module _ (e : External) (g : GetCalls e) (x : TableFormat) (blocks : Cache x.Block)
    (tables : Cache (TableAndFile x)) (t : TableCalls x blocks Saver) (is_ok : Status → Bool)
    (others : State e → State e) (v : VersionCalls e.config.D) (c : TableCache)
    (options : ReadOptions) where
  abbrev pub At : Type 0
  At = Session x blocks tables t is_ok

  -- The answer of the first that knows the key: the memtable, the immutable memtable, if there is
  -- one, and the files of the version. The caches are used by the last alone, which alone has
  -- statistics.
  pub data Answers (mem : e.MemTable) (imm : Option e.MemTable) (version : Version e.config.D)
      (lkey : LookupKey) (value : Bytes) (σ : At)
      : Status → Bytes → Option GetStats → At → Type 0 where
    from_mem :
        {s : Status} {value' : Bytes}
        → g.mem_get mem lkey value status_ok ≡ (true, value', s)
        → Answers mem imm version lkey value σ s value' none σ
    from_imm :
        {m : e.MemTable} {s0 s : Status} {value0 value' : Bytes}
        → g.mem_get mem lkey value status_ok ≡ (false, value0, s0)
        → imm ≡ some m
        → g.mem_get m lkey value0 s0 ≡ (true, value', s)
        → Answers mem imm version lkey value σ s value' none σ
    from_files :
        (value0 : Bytes) {s : Status} {value' : Bytes} {stats : GetStats} {σ' : At}
        → (g.mem_get mem lkey value status_ok).0 ≡ false
        → ((m : e.MemTable)
            → imm ≡ some m
            → (g.mem_get m lkey
                (g.mem_get mem lkey value status_ok).1
                (g.mem_get mem lkey value status_ok).2).0
              ≡ false)
        → version_get x blocks tables t is_ok v c options version lkey value0 σ
          ≡ some (s, value', stats, σ')
        → Answers mem imm version lkey value σ s value' (some stats) σ'

  module _ (test : IsFileTest x blocks tables t is_ok) (k : IsCache tables)
      (fixed : IsFixed64 x.encode_fixed64) (each : IsForEach v) where
    abbrev pub IsCoherent : At → Type 0
    IsCoherent σ = Coherent x blocks tables t is_ok test k fixed c σ.cache

    abbrev pub InRange : Version e.config.D → LookupKey → Type 0
    InRange version lkey =
        All
          (λ (entry : ℕ × File). (entry.1.meta.number < 2 ^ 64) × Fits is_ok entry.1.meta.file_size)
          (each.overlapping version lkey.user_key lkey.internal_key)

    -- The part without the mutex ends, with an answer.
    pub record Ends (mem : e.MemTable) (imm : Option e.MemTable) (version : Version e.config.D)
        (lkey : LookupKey) (value : Bytes) (σ : At)
        (m : Option (Read e g x blocks tables t is_ok others v c options)) : Type 0 where
      pub s : Status
      pub value' : Bytes
      pub stats : Option GetStats
      pub after : At
      pub ended : m ≡ some (s, value', stats, after)
      pub answers : Answers mem imm version lkey value σ s value' stats after
      pub coherent : IsCoherent after
      pub pins : k.pins after.cache ≡ k.pins σ.cache

    from_version-Ends :
        (mem : e.MemTable) (imm : Option e.MemTable) (version : Version e.config.D)
        (lkey : LookupKey) (value value0 : Bytes) (σ : At)
        → InRange version lkey
        → IsCoherent σ
        → (g.mem_get mem lkey value status_ok).0 ≡ false
        → ((m : e.MemTable)
            → imm ≡ some m
            → (g.mem_get m lkey
                (g.mem_get mem lkey value status_ok).1
                (g.mem_get mem lkey value status_ok).2).0
              ≡ false)
        → Ends mem imm version lkey value σ
            (get_from_version e g x blocks tables t is_ok others v c options version lkey value0 σ)
    unfolding get_from_version
    from_version-Ends mem imm version lkey value value0 σ bounds coherent miss miss_imm =
        let (r, ran, still, pins) =
          version_get-ends x blocks tables t is_ok v c options test k fixed each version lkey value0
            σ bounds coherent in
        record {
          s = r.0;
          value' = r.1;
          stats = some r.2;
          after = r.3;
          ended = rw ran refl;
          answers = from_files value0 miss miss_imm ran;
          coherent = still;
          pins = pins;
        }

    from_mem-Ends :
        (mem : e.MemTable) (imm : Option e.MemTable) (version : Version e.config.D)
        (lkey : LookupKey) (value : Bytes) (σ : At)
        → IsCoherent σ
        → let r = g.mem_get mem lkey value status_ok in
          (r.0 ≡ true) → Ends mem imm version lkey value σ (some (r.2, r.1, none, σ))
    from_mem-Ends mem imm version lkey value σ coherent p =
        let r = g.mem_get mem lkey value status_ok in
        record {
          s = r.2;
          value' = r.1;
          stats = none;
          after = σ;
          ended = refl;
          answers = from_mem (ap (λ (b : Bool). (b, r.1, r.2)) p);
          coherent = coherent;
          pins = refl;
        }

    pub get_unlocked-Ends :
        (mem : e.MemTable) (imm : Option e.MemTable) (version : Version e.config.D)
        (lkey : LookupKey) (value : Bytes) (σ : At)
        → InRange version lkey
        → IsCoherent σ
        → Ends mem imm version lkey value σ (
            get_unlocked e g x blocks tables t is_ok others v c options mem imm version lkey value
              σ)
    unfolding get_unlocked get_from_imm
    get_unlocked-Ends mem none version lkey value σ bounds coherent =
        let r = g.mem_get mem lkey value status_ok in
        elim (Bool-cases r.0) [
          | inl p ↦ rw p (from_mem-Ends mem none version lkey value σ coherent p)
          | inr p ↦ rw p (
              from_version-Ends mem none version lkey value r.1 σ bounds coherent p (λ m there. cc))
        ]
    get_unlocked-Ends mem (some imm) version lkey value σ bounds coherent =
        let r = g.mem_get mem lkey value status_ok in
        let q = g.mem_get imm lkey r.1 r.2 in
        elim (Bool-cases r.0) [
          | inl p ↦ rw p (from_mem-Ends mem (some imm) version lkey value σ coherent p)
          | inr p ↦ elim (Bool-cases q.0) [
            | inl found ↦
                rw (p, found)
                  (record {
                    s = q.2;
                    value' = q.1;
                    stats = none;
                    after = σ;
                    ended = refl;
                    answers =
                        from_imm (ap (λ (b : Bool). (b, r.1, r.2)) p) refl
                          (ap (λ (b : Bool). (b, q.1, q.2)) found);
                    coherent = coherent;
                    pins = refl;
                  })
            | inr missed ↦
                rw (p, missed)
                  (from_version-Ends mem (some imm) version lkey value q.1 σ bounds coherent p
                    (λ m there.
                      subst (λ (m' : e.MemTable). (g.mem_get m' lkey r.1 r.2).0 ≡ false)
                        (some_inj there) missed))
          ]
        ]
