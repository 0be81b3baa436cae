-- ===== src/Tests/Rings.antt =====
-- The ring of versions of leveldb/db/version_set.cc behind the run of LogAndApply of
-- leveldb_study.Tests.Versions.
use leveldb_study.Base.{ℕ, ◌≡◌, ◌≢◌, refl, none, some, List, [], ◌∷◌, ◌++◌, All, arith}
use leveldb_study.Demo.{config, memory, edit, start}
use leveldb_study.Status.{is_null}
use leveldb_study.VersionSet.LogAndApply.Rings.{OnRing, KeepsRing, log_and_apply-OnRing}
use leveldb_study.Tests.Versions.{run, set_of}

start-OnRing : OnRing start.versions (1 ∷ [])
start-OnRing = record {
  ring = (refl, refl, (refl, refl));
  distinct = ((omega arith, tt), (tt, tt));
  bound = (omega arith, (omega arith, tt));
}

keeps : KeepsRing config (λ vs. vs)
keeps = record {
  ref_ring = λ a vs xs o. record {
    left = xs;
    on = record { ring = o.ring; distinct = o.distinct; bound = o.bound };
    fewer = λ n h. h;
    grown = omega arith;
  };
  unref_ring = λ a vs xs o. record {
    left = xs;
    on = record { ring = o.ring; distinct = o.distinct; bound = o.bound };
    fewer = λ n h. h;
    grown = omega arith;
  };
  others_ring = λ vs xs o. record { left = xs; on = o; fewer = λ n h. h; grown = omega arith };
}

log_and_apply-OnRing_example :
    (v : ℕ) × (left : List ℕ) × ((set_of run).current ≡ some v)
    × OnRing (set_of run).versions (left ++ v ∷ [])
    × ((n : ℕ) → All (λ x. n ≢ x) (1 ∷ []) → All (λ x. n ≢ x) left)
unfolding run
log_and_apply-OnRing_example =
    log_and_apply-OnRing config memory is_null (λ vs. vs) keeps edit start (λ n. none) (1 ∷ [])
      start-OnRing refl refl
