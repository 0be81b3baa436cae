-- ===== src/VersionSet/LogAndApply.antt =====
-- VersionSet::LogAndApply and WriteSnapshot of leveldb/db/version_set.cc. `none` is a failed
-- assertion or the use of a null pointer. While the mutex is released other threads may change
-- the state: `others` is what they do. The test of a status is a parameter, since Status::ok does not
-- look at the status (leveldb_study.Status).
pub mod Steps
pub mod Outcome
pub mod NewVersion
pub mod Edited
pub mod Picked
pub mod Rings
use leveldb_study.Base.{
  ◌>>=◌, ℕ, zero, suc, Bool, true, false, ◌&&◌, Option, none, some, List, [], ◌∷◌, if◌then◌else◌,
  ltb, leb, update, not, is_some,
}
use leveldb_study.Status.{Status, status_ok, Bytes}
use leveldb_study.Env.{Env, Writer, new_writer}
use leveldb_study.Filename.{descriptor_file_name, set_current_file}
use leveldb_study.VersionEdit.{
  VersionEdit, InternalKey, is_empty, decode_from, new_edit, set_comparator_name, set_log_number,
  set_prev_log_number, set_next_file, set_last_sequence, set_compact_pointer, add_file, encode_to,
}
use leveldb_study.VersionSet.Version.{File, Files, Store}
use leveldb_study.VersionSet.Builder.{new_levels, apply, save_to, release}
use leveldb_study.VersionSet.State.{Version, Versions, VersionSet, Config}
use leveldb_study.VersionSet.Finalize.{finalize}
use leveldb_study.VersionSet.Append.{append_version}

-- WriteSnapshot's loop over the compaction pointers of the levels below a number.
unfoldable pub snapshot_pointers : ℕ → (ℕ → Bytes) → VersionEdit → VersionEdit
snapshot_pointers zero pointer e = e
snapshot_pointers (suc level) pointer e =
    let e' = snapshot_pointers level pointer e in
    if is_empty (pointer level)
    then e'
    else set_compact_pointer level (decode_from (pointer level)).0 e'

-- Its loop over the files of one level, and that over the levels below a number.
unfoldable pub snapshot_level : ℕ → List File → VersionEdit → VersionEdit
snapshot_level level [] e = e
snapshot_level level (f ∷ fs) e =
    snapshot_level level fs
      (add_file level f.meta.number f.meta.file_size f.meta.smallest f.meta.largest e)

unfoldable pub snapshot_files : ℕ → Files → VersionEdit → VersionEdit
unfolding snapshot_level
snapshot_files zero files e = e
snapshot_files (suc level) files e =
    snapshot_level level (files level) (snapshot_files level files e)

-- The edit that WriteSnapshot builds.
unfoldable pub snapshot_edit : (c : Config) → VersionSet c.D → Files → VersionEdit
unfolding snapshot_pointers snapshot_files
snapshot_edit c vs files = snapshot_files c.num_levels files (
    snapshot_pointers c.num_levels vs.compact_pointer
      (set_comparator_name c.comparator_name new_edit))

-- The first part of LogAndApply: what it fills in in the edit.
unfoldable pub prepare : {D : Type 0} → VersionEdit → VersionSet D → Option VersionEdit
prepare e vs = do
  e1 ←
      if e.has_log_number
      then (if leb vs.log_number e.log_number && ltb e.log_number vs.next_file_number
          then some e
          else none)
      else some (set_log_number vs.log_number e)
  let e2 = if e1.has_prev_log_number then e1 else set_prev_log_number vs.prev_log_number e1
  some (set_last_sequence vs.last_sequence (set_next_file vs.next_file_number e2))

-- The block of the builder: the version set with the new compaction pointers and store, and the
-- files of the new version. The base version is referenced for as long as the builder lives.
unfoldable pub build :
    (c : Config) → VersionEdit → ℕ → VersionSet c.D → Option (VersionSet c.D × Files)
build c e base vs = do
  let versions = c.ref base vs.versions
  (pointer, levels, store) ← apply c.compare e vs.compact_pointer new_levels vs.store
  (files, refs) ←
      save_to c.compare c.num_levels (versions.object base).files levels ((λ _. []), store.refs)
  let store' = release c.num_levels levels (record store { refs = refs })
  some (
    record vs { compact_pointer = pointer; store = store'; versions = c.unref base versions },
    files,
  )

-- The new version, at a new address.
unfoldable pub place_version : (c : Config) → Files → VersionSet c.D → ℕ × VersionSet c.D
place_version c files vs =
    let v = vs.versions.fresh in
    let object = finalize c (record {
      files = files;
      compaction_score = c.minus_one;
      compaction_level = none;
      refs = 0;
    }) in
    (
      v,
      record vs {
        versions = record vs.versions {
          object = update vs.versions.object v object;
          fresh = suc v;
        };
      },
    )

module _ (c : Config) (env : Env) (is_ok : Status → Bool) where
  unfoldable pub write_snapshot :
      VersionSet c.D → Writer → env.World → Option (Status × Writer × env.World)
  unfolding snapshot_edit
  write_snapshot vs log w = elim vs.current [
    | none ↦ none
    | some current ↦ some (
        env.add_record log (encode_to (snapshot_edit c vs (vs.versions.object current).files) []) w)
  ]

  -- The snapshot into a descriptor whose creation had status `s`.
  unfoldable pub first_record :
      Status → VersionSet c.D → Writer → env.World → Option (Status × VersionSet c.D × env.World)
  unfolding write_snapshot
  first_record s vs log w =
      if is_ok s
      then (do
        (s', log', w') ← write_snapshot vs log w
        some (s', record vs { descriptor_log = some log' }, w'))
      else some (s, vs, w)

  -- The new descriptor, where none is open: its name, and the status of its creation.
  unfoldable pub create_descriptor :
      VersionEdit
      → VersionSet c.D
      → env.World
      → Option (Status × Option Bytes × VersionEdit × VersionSet c.D × env.World)
  unfolding first_record
  create_descriptor e vs w = elim vs.descriptor_file [
    | some _ ↦ some (status_ok, none, e, vs, w)
    | none ↦ do
      name ← descriptor_file_name c.dbname vs.manifest_file_number
      let e' = set_next_file vs.next_file_number e
      let (s, file, w1) = env.new_writable_file name w
      let vs1 = record vs { descriptor_file = file }
      (s', vs2, w2) ← first_record s vs1 (new_writer file) w1
      some (s', some name, e', vs2, w2)
  ]

  -- The record to the descriptor. What Sync answers is dropped.
  unfoldable pub write_record :
      Status
      → VersionEdit
      → VersionSet c.D
      → env.World
      → Option (Status × VersionSet c.D × env.World)
  write_record s e vs w =
      if is_ok s
      then elim vs.descriptor_log [
        | none ↦ none
        | some log ↦
            let (s', log', w1) = env.add_record log (encode_to e []) w in
            let vs' = record vs { descriptor_log = some log' } in
            if is_ok s' && not (is_some vs.descriptor_file)
            then none
            else some (s', vs', if is_ok s' then (env.sync vs.descriptor_file w1).1 else w1)
      ]
      else some (s, vs, w)

  -- The switch of CURRENT to a new descriptor.
  unfoldable pub switch_current :
      Status → Option Bytes → VersionSet c.D → env.World → Option (Status × env.World)
  switch_current s none vs w = some (s, w)
  switch_current s (some name) vs w =
      if is_ok s then set_current_file env is_ok c.dbname vs.manifest_file_number w else some (s, w)

  -- The last part, after the mutex is taken again. A version that is not installed is deleted: it
  -- stays at its address here, where nothing leads to it.
  unfoldable pub install :
      Status
      → Option Bytes
      → VersionEdit
      → ℕ
      → VersionSet c.D
      → env.World
      → Option (VersionSet c.D × env.World)
  install s name e v vs w =
      if is_ok s
      then (do
        vs' ← append_version c v vs
        some (record vs' { log_number = e.log_number; prev_log_number = e.prev_log_number }, w))
      else elim name [
        | none ↦ some (vs, w)
        | some n ↦
            some
              (record vs { descriptor_log = none; descriptor_file = none }, (env.delete_file n w).1)
      ]

  -- LogAndApply over the current version `base`.
  unfoldable pub apply_over :
      (base : ℕ)
      → (others : VersionSet c.D → VersionSet c.D) → VersionEdit
      → VersionSet c.D
      → env.World
      → Option (Status × VersionEdit × VersionSet c.D × env.World)
  apply_over base others e vs w = do
    e1 ← prepare e vs
    (vs1, files) ← build c e1 base vs
    let (v, vs2) = place_version c files vs1
    (s, name, e2, vs3, w1) ← create_descriptor e1 vs2 w
    (s1, vs4, w2) ← write_record s e2 (others vs3) w1
    (s2, w3) ← switch_current s1 name vs4 w2
    (vs5, w4) ← install s2 name e2 v vs4 w3
    some (s2, e2, vs5, w4)

  unfoldable pub log_and_apply :
      (others : VersionSet c.D → VersionSet c.D)
      → VersionEdit
      → VersionSet c.D
      → env.World
      → Option (Status × VersionEdit × VersionSet c.D × env.World)
  log_and_apply others e vs w = elim vs.current [
    | none ↦ none
    | some base ↦ apply_over base others e vs w
  ]
