-- ===== src/Tests/Reads.antt =====
-- Version::Get of leveldb/db/version_set.cc and DBImpl::Get of leveldb/db/db_impl.cc, where every file
-- of level 1 may hold the key.
use leveldb_study.Base.{
  ℕ, ◌≡◌, ◌>>=◌, refl, Bool, true, false, Option, none, some, List, [], ◌∷◌, arith, map, has, inl,
}
use leveldb_study.Status.{Status, Bytes, is_null}
use leveldb_study.Demo.{old_file, start}
use leveldb_study.TableCache.{TableCalls, Session}
use leveldb_study.TableCache.Find
use leveldb_study.VersionSet.Version.{File}
use leveldb_study.VersionSet.State.{Version}
use leveldb_study.VersionSet.Get.{
  Saver, SaverState, LookupKey, VersionCalls, IsForEach, calls_until, version_get,
}
use leveldb_study.VersionSet.Get.Answer.{answer, new_saver, reported, Result, version_get-answer}
use leveldb_study.VersionSet.Get.Ends.{version_get-ends}
use leveldb_study.DbImpl.{State}
use leveldb_study.DbImpl.Schedule.{IsScheduled}
use leveldb_study.DbImpl.Get.{GetCalls, db_get}
use leveldb_study.DbImpl.Get.Unlocked.{Answers}
use leveldb_study.DbImpl.Get.Sources.{KeepsSchedule, db_get-Answers}
use leveldb_study.Tests.Caches.{map_cache-IsCache, fixed-IsFixed64}
use leveldb_study.Tests.Tables.{
  calls_for-IsFileTest, format, blocks, tables, no_blocks, table_cache, fill_options, calls_for,
}
use leveldb_study.Tests.Writes.{small, db}

abbrev pub calls : TableCalls format blocks Saver
calls = calls_for Saver

abbrev files_of : Version ℕ → List (ℕ × File)
files_of v = map (λ f. (1, f)) (v.files 1)

abbrev pub version_calls : VersionCalls ℕ
version_calls = record {
  for_each_overlapping = λ version user_key internal_key f s. calls_until f (files_of version) s;
  save_value = λ saver key value. record saver { state = SaverState.found; value = value };
}

abbrev each : IsForEach version_calls
each = record {
  overlapping = λ version user_key internal_key. files_of version;
  calls = λ version user_key internal_key f s. refl;
}

abbrev pub session : Session format blocks tables calls is_null
session = record { cache = (0, λ k. none); block_cache = no_blocks; world = 0 }

session-Coherent :
    Find.Coherent format blocks tables calls is_null
      (calls_for-IsFileTest _)
      (map_cache-IsCache _)
      fixed-IsFixed64
      table_cache
      session.cache
unfolding Find.Coherent
session-Coherent number tf h there = absurd cc

abbrev nine : LookupKey
nine = record { internal_key = 9 ∷ 0 ∷ []; user_key = 9 ∷ [] }

abbrev version : Version ℕ
version = start.versions.object 1

version_get-answer_example :
    version_get format blocks tables calls is_null version_calls table_cache fill_options version
      nine [] session
    ≡ (answer format blocks tables calls is_null version_calls table_cache fill_options
          (9 ∷ 0 ∷ [])
          ((1, old_file) ∷ [])
          (new_saver format blocks tables calls is_null version_calls table_cache fill_options nine
            [])
          session
        >>= reported format blocks tables calls is_null version_calls table_cache fill_options
            ((1, old_file) ∷ []))
version_get-answer_example =
    version_get-answer format blocks tables calls is_null version_calls table_cache fill_options
      each version nine [] session

version_get-ends_example :
    (r : Result format blocks tables calls is_null version_calls table_cache fill_options)
    × (version_get format blocks tables calls is_null version_calls table_cache fill_options version
          nine [] session
        ≡ some r)
    × Find.Coherent format blocks tables calls is_null
        (calls_for-IsFileTest _)
        (map_cache-IsCache _)
        fixed-IsFixed64
        table_cache
        r.3.cache
    × (r.3.cache.0 ≡ 0)
version_get-ends_example =
    version_get-ends format blocks tables calls is_null version_calls table_cache fill_options
      (calls_for-IsFileTest _) (map_cache-IsCache _) fixed-IsFixed64 each version nine [] session
      ((omega arith, inl (omega arith)), tt) session-Coherent

-- A memtable knows the keys whose first byte it holds.
abbrev knows : Bytes → List ℕ → Bool
knows [] m = false
knows (b ∷ key) m = has b m

abbrev get_calls : GetCalls small
get_calls = record {
  lookup_key = λ key number. record { internal_key = key; user_key = key };
  mem_get = λ m lkey value s. (knows lkey.user_key m, value, s);
  update_stats = λ current stats s. (true, s);
}

keeps :
    KeepsSchedule small get_calls format blocks tables calls is_null
      (λ s. s)
      version_calls
      table_cache
      fill_options
keeps = record { others_scheduled = λ s h. h; update_scheduled = λ current stats s h. h }

abbrev db_key : LookupKey
db_key = record { internal_key = 9 ∷ []; user_key = 9 ∷ [] }

db_get-Answers_example :
    (status : Status) × (value' : Bytes) × (stats : Option _) × (s' : State small) × (σ' : Session
      format blocks tables calls is_null)
    × (db_get small get_calls format blocks tables calls is_null
          (λ s. s)
          version_calls
          table_cache
          fill_options
          (some 12)
          (9 ∷ [])
          []
          db
          session
        ≡ some (status, value', s', σ'))
    × Answers small get_calls format blocks tables calls is_null
        (λ s. s)
        version_calls
        table_cache
        fill_options
        db.mem
        none
        ((small.config.ref 1 start.versions).object 1)
        db_key
        []
        session
        status
        value'
        stats
        σ'
    × IsScheduled small is_null s'
    × Find.Coherent format blocks tables calls is_null
        (calls_for-IsFileTest _)
        (map_cache-IsCache _)
        fixed-IsFixed64
        table_cache
        σ'.cache
    × (σ'.cache.0 ≡ 0)
db_get-Answers_example =
    db_get-Answers small get_calls format blocks tables calls is_null (λ s. s) version_calls
      table_cache fill_options (calls_for-IsFileTest _) (map_cache-IsCache _) fixed-IsFixed64 each
      keeps (some 12) (9 ∷ []) [] db session 1 refl ((omega arith, inl (omega arith)), tt)
      session-Coherent refl
