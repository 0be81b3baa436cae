-- ===== src/VersionSet/Get.antt =====
-- Version::Get of leveldb/db/version_set.cc: the search for a key in the files of a version.
-- ForEachOverlapping and SaveValue are declared only and are parameters. `none` is a failed
-- assertion.
pub mod Accounts
pub mod Answer
pub mod Ends
use leveldb_study.Base.{
  ◌>>=◌, ◌≡◌, ℕ, Bool, true, false, ◌&&◌, not, Option, none, some, List, [], ◌∷◌, is_some,
  if◌then◌else◌,
}
use leveldb_study.Status.{Status, status_ok, status_not_found, status_corruption, Bytes}
use leveldb_study.Options.{ReadOptions}
use leveldb_study.Filename.{codes}
use leveldb_study.Cache.{Cache}
use leveldb_study.Table.{TableFormat}
use leveldb_study.TableCache.{TableAndFile, TableCalls, TableCache, Session, get}
use leveldb_study.VersionSet.Version.{File}
use leveldb_study.VersionSet.State.{Version}

pub data SaverState : Type 0 where
  not_found found deleted corrupt : SaverState

-- Without the comparator, which only SaveValue uses.
pub record Saver : Type 0 where
  pub state : SaverState
  pub user_key : Bytes
  pub value : Bytes

pub record LookupKey : Type 0 where
  pub internal_key : Bytes
  pub user_key : Bytes

-- Version::GetStats. A level of -1 is `none`.
pub record GetStats : Type 0 where
  pub seek_file : Option File
  pub seek_file_level : Option ℕ

-- A function that is called for a level and a file, and says whether to go on.
abbrev pub Callback : Type 0 → Type 0
Callback S = ℕ → File → S → Option (Bool × S)

-- The calls for a list of files, until one says to stop.
unfoldable pub calls_until : {S : Type 0} → Callback S → List (ℕ × File) → S → Option S
calls_until f [] s = some s
calls_until f ((level, file) ∷ rest) s = do
  (more, s') ← f level file s
  let others = calls_until f rest s'
  if more then others else some s'

pub record VersionCalls (D : Type 0) : Type 1 where
  pub for_each_overlapping : {S : Type 0} → Version D → Bytes → Bytes → Callback S → S → Option S
  pub save_value : Saver → Bytes → Bytes → Saver

-- Documented behaviour: the function is called for the files that may hold the key, from the newest
-- to the oldest, until it answers false.
pub record IsForEach {D : Type 0} (v : VersionCalls D) : Type 1 where
  pub overlapping : Version D → Bytes → Bytes → List (ℕ × File)
  pub calls :
      {S : Type 0} (version : Version D) (user_key internal_key : Bytes) (f : Callback S) (s : S)
      → v.for_each_overlapping version user_key internal_key f s
        ≡ calls_until f (overlapping version user_key internal_key) s

module _ (x : TableFormat) (blocks : Cache x.Block) (tables : Cache (TableAndFile x))
    (t : TableCalls x blocks Saver) (is_ok : Status → Bool) {D : Type 0} (v : VersionCalls D)
    (c : TableCache) (options : ReadOptions) where
  -- The local struct State, with the caches and files that a call of TableCache::Get changes.
  pub record Search : Type 0 where
    pub saver : Saver
    pub stats : GetStats
    pub last_file_read : Option File
    pub last_file_read_level : Option ℕ
    pub s : Status
    pub found : Bool
    pub session : Session x blocks tables t is_ok

  -- The start of Match: the first file is charged when a second one is read. `last_file_read` is
  -- State's; GetStats has no such field.
  unfoldable pub charge : ℕ → File → Search → Search
  charge level f state =
      let stats' : GetStats =
        if not (is_some state.stats.seek_file) && is_some state.last_file_read
        then record {
          seek_file = state.last_file_read;
          seek_file_level = state.last_file_read_level;
        }
        else state.stats in
      record state { stats = stats'; last_file_read = some f; last_file_read_level = some level }

  -- The end of Match, by the state of the saver.
  unfoldable pub by_saver : SaverState → Search → Bool × Search
  by_saver SaverState.not_found state = (true, state)
  by_saver SaverState.found state = (false, record state { found = true })
  by_saver SaverState.deleted state = (false, state)
  by_saver SaverState.corrupt state = (
    false,
    record state {
      s = status_corruption (codes "corrupted key for ") state.saver.user_key;
      found = true;
    },
  )

  abbrev pub read_file :
      Bytes
      → File
      → Saver
      → Session x blocks tables t is_ok
      → Option (Status × Saver × Session x blocks tables t is_ok)
  read_file ikey f saver session =
      get x blocks tables t is_ok c options f.meta.number f.meta.file_size ikey v.save_value saver
        session

  unfoldable pub match_file : Bytes → Callback Search
  unfolding charge by_saver
  match_file ikey level f state = do
    let charged = charge level f state
    (s, saver, session) ← read_file ikey f charged.saver charged.session
    let state' = record charged { saver = saver; s = s; session = session }
    some (if is_ok s then by_saver saver.state state' else (false, record state' { found = true }))

  unfoldable pub version_get :
      Version D
      → LookupKey
      → Bytes
      → Session x blocks tables t is_ok
      → Option (Status × Bytes × GetStats × Session x blocks tables t is_ok)
  unfolding match_file
  version_get version k value session = do
    let start : Search = record {
      saver = record { state = SaverState.not_found; user_key = k.user_key; value = value };
      stats = record { seek_file = none; seek_file_level = none };
      last_file_read = none;
      last_file_read_level = none;
      s = status_ok;
      found = false;
      session = session;
    }
    state ←
        v.for_each_overlapping version k.user_key k.internal_key (match_file k.internal_key) start
    some (
      if state.found then state.s else status_not_found [],
      state.saver.value,
      state.stats,
      state.session,
    )
