-- ===== src/VersionSet/Append.antt =====
-- VersionSet::AppendVersion of leveldb/db/version_set.cc: the ring of versions.
pub mod Ring
use leveldb_study.Base.{
  ℕ, Bool, true, false, ◌||◌, Option, none, some, if◌then◌else◌, ◌==◌, update, not, ◌&&◌,
}
use leveldb_study.VersionSet.State.{Versions, VersionSet, Config, dummy}

-- The four writes that put `v` before the dummy head, in the order of the code.
unfoldable pub link : {D : Type 0} → ℕ → Versions D → Versions D
link v vs =
    let prev1 = update vs.prev v (vs.prev dummy) in
    let next1 = update vs.next v dummy in
    let next2 = update next1 (prev1 v) v in
    let prev2 = update prev1 (next2 v) v in record vs { next = next2; prev = prev2 }

abbrev pub is_at : Option ℕ → ℕ → Bool
is_at none v = false
is_at (some a) v = a == v

abbrev pub release_current : (c : Config) → Option ℕ → Versions c.D → Versions c.D
release_current c none vs = vs
release_current c (some a) vs = c.unref a vs

-- `none` is a failed assertion.
unfoldable pub append_version : (c : Config) → ℕ → VersionSet c.D → Option (VersionSet c.D)
unfolding link
append_version c v vs =
    if (vs.versions.object v).refs == 0 && not (is_at vs.current v)
    then some (record vs {
      versions = link v (c.ref v (release_current c vs.current vs.versions));
      current = some v;
    })
    else none
