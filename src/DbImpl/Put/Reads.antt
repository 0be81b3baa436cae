-- ===== src/DbImpl/Put/Reads.antt =====
-- DBImpl::Get of leveldb/db/db_impl.cc after a run of DBImpl::Put: what was put last is read.
use leveldb_study.Base.{◌>>=◌, ◌≡◌, refl, ◌∙◌, ap, ℕ, suc, Bool, Option, none, some, List}
use leveldb_study.Status.{Status, status_ok, Bytes}
use leveldb_study.Options.{ReadOptions}
use leveldb_study.Env.{Env}
use leveldb_study.Cache.{Cache}
use leveldb_study.Table.{TableFormat}
use leveldb_study.TableCache.{TableAndFile, TableCalls, TableCache, Session}
use leveldb_study.VersionSet.Get.{Saver, VersionCalls}
use leveldb_study.DbImpl.{External, State}
use leveldb_study.DbImpl.Write.Leader.{KeepsWriters}
use leveldb_study.DbImpl.Put.{PutCalls}
use leveldb_study.DbImpl.Put.ReadBack.{db_get-in_mem}
use leveldb_study.DbImpl.Put.Runs.{
  Contents, latest, newest-latest, answer, alone, puts, DocumentedTables, IsCalm, held, puts-IsCalm,
}
use leveldb_study.DbImpl.Get.{
  GetCalls, Result, get_from_imm, get_unlocked, with_versions, finish_get, get_at, db_get,
}

module _ (e : External) (g : GetCalls e) (p : PutCalls e) (env : Env) (is_ok : Status → Bool)
    (d : DocumentedTables e g p env is_ok) (x : TableFormat) (blocks : Cache x.Block)
    (tables : Cache (TableAndFile x)) (t : TableCalls x blocks Saver) (v : VersionCalls e.config.D)
    (c : TableCache) (options : ReadOptions) where
  abbrev pub At : Type 0
  At = Session x blocks tables t is_ok

  -- The state with the current version referenced.
  abbrev pub referenced : ℕ → State e → State e
  referenced current s =
      with_versions e g x blocks tables t is_ok alone v c options (e.config.ref current) s

  -- Get where the memtable does not know the key: the immutable memtable, and the files.
  abbrev pub get_older :
      Bytes
      → Bytes
      → State e
      → At
      → ℕ
      → Option (Result e g x blocks tables t is_ok alone v c options)
  get_older key before s σ current = do
    let s1 = referenced current s
    r ←
        get_from_imm e g x blocks tables t is_ok alone v c options s1.imm
          (s1.versions.versions.object current) (g.lookup_key key (e.get_last_sequence s.versions))
          before status_ok σ
    finish_get e g x blocks tables t is_ok alone v c options current s1 r

  -- What a Get answers for the last that is known of its key: ok with the value, not found for a
  -- deletion, and what is older if nothing is known.
  abbrev pub Reads : Option (Option Bytes) → Bytes → Bytes → State e → At → ℕ → Type 0
  Reads known key before s σ current = elim known [
    | none ↦
        db_get e g x blocks tables t is_ok alone v c options none key before s σ
        ≡ get_older key before s σ current
    | some none ↦
        (s' : State e) × (db_get e g x blocks tables t is_ok alone v c options none key before s σ
          ≡ some (d.not_found, before, s', σ))
    | some (some value) ↦
        (s' : State e) × (db_get e g x blocks tables t is_ok alone v c options none key before s σ
          ≡ some (status_ok, value, s', σ))
  ]

  db_get-Reads :
      (key before : Bytes) (s : State e) (σ : At) (current : ℕ) (known : Option (Option Bytes))
      → s.versions.current ≡ some current
      → g.mem_get s.mem (g.lookup_key key (e.get_last_sequence s.versions)) before status_ok
        ≡ answer d.not_found known before status_ok
      → Reads known key before s σ current
  unfolding db_get get_at get_unlocked
  db_get-Reads key before s σ current none there found =
      ap (λ (m : Option ℕ). m >>= at_version) there ∙ rw (get_unlocked, found) refl
    where
      at_version : ℕ → Option (Result e g x blocks tables t is_ok alone v c options)
      at_version = get_at e g x blocks tables t is_ok alone v c options none key before s σ
  db_get-Reads key before s σ current (some none) there found = (
    _,
    db_get-in_mem e g x blocks tables t is_ok alone v c options key before _ _ s σ current there
        found,
  )
  db_get-Reads key before s σ current (some (some value)) there found = (
    _,
    db_get-in_mem e g x blocks tables t is_ok alone v c options key before _ _ s σ current there
        found,
  )

  module _ (k : KeepsWriters e) where
    -- A client that is alone puts any number of keys, in a database without a background error that has
    -- a current version and whose memtable has only entries up to the last sequence number. Every Put ends, and a Get that
    -- follows, of any key, answers by the last Put of the key that answered ok, or else by the entry
    -- that the memtable had before, or else by the immutable memtable and the files: a Put that fails
    -- is not seen. The memtable, write batches, RecordBackgroundError and BuildBatchGroup are taken to
    -- do what is documented of them.
    pub puts-Reads :
        (fuel me : ℕ) (kvs : List (Bytes × Bytes)) (key before : Bytes) (s : State e)
        (w : env.World) (σ : At) (current : ℕ)
        → IsCalm e g p env is_ok k d current s
        → (done : Contents) × (s' : State e) × (w' : env.World) × (puts e g p env is_ok
              (suc fuel)
              me
              kvs
              (held e g p env is_ok k d s)
              s
              w
            ≡ some (done, s', w'))
          × Reads (latest d.key_eq key done) key before s' σ current
    puts-Reads fuel me kvs key before s w σ current calm =
        let (s', w', ends, calm') = puts-IsCalm e g p env is_ok k d fuel me kvs s w current calm in
        (
          held e g p env is_ok k d s',
          s',
          w',
          ends,
          db_get-Reads key before s' σ current _ calm'.there (
              d.mem_get_lem s'.mem key before _ status_ok
              ∙ ap (λ o. answer d.not_found o before status_ok)
                  (newest-latest d.key_eq _ key (d.entries s'.mem) calm'.numbered)),
        )
