-- ===== src/DbImpl/Get.antt =====
-- DBImpl::Get of leveldb/db/db_impl.cc: the memtable, the immutable memtable, and the files of the
-- current version. `none` is a failed assertion or the use of a null pointer. The counts of
-- references of memtables are not kept. `others` is what other threads do while the mutex is
-- released; the objects are read as they are at its release, which the sequence number stands for.
pub mod Unlocked
pub mod Sources
use leveldb_study.Base.{◌>>=◌, ℕ, Bool, true, false, Option, none, some, if◌then◌else◌}
use leveldb_study.Status.{Status, status_ok, Bytes}
use leveldb_study.Options.{ReadOptions}
use leveldb_study.Cache.{Cache}
use leveldb_study.Table.{TableFormat}
use leveldb_study.TableCache.{TableAndFile, TableCalls, TableCache, Session}
use leveldb_study.VersionSet.State.{Version, Versions, VersionSet}
use leveldb_study.VersionSet.Get.{Saver, LookupKey, GetStats, VersionCalls, version_get}
use leveldb_study.DbImpl.{DbState, External, State}
use leveldb_study.DbImpl.Schedule.{maybe_schedule_compaction}

-- Members that are declared only: the constructor of LookupKey, MemTable::Get, which says whether the
-- memtable knows the key and sets the value and the status then, and Version::UpdateStats.
pub record GetCalls (e : External) : Type 0 where
  pub lookup_key : Bytes → ℕ → LookupKey
  pub mem_get : e.MemTable → LookupKey → Bytes → Status → Bool × Bytes × Status
  pub update_stats : ℕ → GetStats → State e → Bool × State e

module _ (e : External) (g : GetCalls e) (x : TableFormat) (blocks : Cache x.Block)
    (tables : Cache (TableAndFile x)) (t : TableCalls x blocks Saver) (is_ok : Status → Bool)
    (others : State e → State e) (v : VersionCalls e.config.D) (c : TableCache)
    (options : ReadOptions) where
  -- The status, the value, the statistics if files were looked at, and the caches.
  abbrev pub Read : Type 0
  Read = Status × Bytes × Option GetStats × Session x blocks tables t is_ok

  unfoldable pub get_from_version :
      Version e.config.D → LookupKey → Bytes → Session x blocks tables t is_ok → Option Read
  get_from_version current lkey value session = do
    (s, value', stats, session') ←
        version_get x blocks tables t is_ok v c options current lkey value session
    some (s, value', some stats, session')

  unfoldable pub get_from_imm :
      Option e.MemTable
      → Version e.config.D
      → LookupKey
      → Bytes
      → Status
      → Session x blocks tables t is_ok
      → Option Read
  unfolding get_from_version
  get_from_imm none current lkey value s session = get_from_version current lkey value session
  get_from_imm (some imm) current lkey value s session =
      let (found, value', s') = g.mem_get imm lkey value s in
      let files = get_from_version current lkey value' session in
      if found then some (s', value', none, session) else files

  -- The part of Get without the mutex.
  unfoldable pub get_unlocked :
      e.MemTable
      → Option e.MemTable
      → Version e.config.D
      → LookupKey
      → Bytes
      → Session x blocks tables t is_ok
      → Option Read
  unfolding get_from_imm
  get_unlocked mem imm current lkey value session =
      let (found, value', s) = g.mem_get mem lkey value status_ok in
      let older = get_from_imm imm current lkey value' s session in
      if found then some (s, value', none, session) else older

  -- The statistics may ask for a compaction.
  unfoldable pub charge_seek : ℕ → Option GetStats → State e → State e
  unfolding maybe_schedule_compaction
  charge_seek current none s = s
  charge_seek current (some stats) s =
      let (full, s') = g.update_stats current stats s in
      if full then maybe_schedule_compaction e is_ok s' else s'

  abbrev pub sequence_number : Option ℕ → State e → ℕ
  sequence_number none s = e.get_last_sequence s.versions
  sequence_number (some snapshot) s = snapshot

  abbrev pub with_versions : (Versions e.config.D → Versions e.config.D) → State e → State e
  with_versions f s = record s { versions = record s.versions { versions = f s.versions.versions } }

  abbrev pub Result : Type 0
  Result = Status × Bytes × State e × Session x blocks tables t is_ok

  -- The end of Get, with the mutex again.
  unfoldable pub finish_get : ℕ → State e → Read → Option Result
  unfolding charge_seek
  finish_get current s (status, value, stats, session) =
      some (
        status,
        value,
        with_versions (e.config.unref current) (charge_seek current stats s),
        session,
      )

  -- Get with the current version.
  unfoldable pub get_at :
      Option ℕ → Bytes → Bytes → State e → Session x blocks tables t is_ok → ℕ → Option Result
  unfolding get_unlocked finish_get
  get_at snapshot key value s session current = do
    let s1 = with_versions (e.config.ref current) s
    r ←
        get_unlocked s1.mem s1.imm (s1.versions.versions.object current)
          (g.lookup_key key (sequence_number snapshot s)) value session
    finish_get current (others s1) r

  unfoldable pub db_get :
      Option ℕ → Bytes → Bytes → State e → Session x blocks tables t is_ok → Option Result
  unfolding get_at
  db_get snapshot key value s session = do
    current ← s.versions.current
    get_at snapshot key value s session current
