-- ===== src/VersionSet/LogAndApply/Steps.antt =====
-- The steps of a run of LogAndApply of leveldb/db/version_set.cc, and what each leaves alone.
use leveldb_study.Base.{
  >>=-elim, ℕ, ◌≤◌, ◌≡◌, ◌∙◌, Bool, true, Option, some, subst, some_inj, arith, if◌then◌else◌,
  Option-cases, inl, inr,
}
use leveldb_study.Status.{Status, Bytes}
use leveldb_study.Env.{Env, Writer}
use leveldb_study.VersionEdit.{
  VersionEdit, set_log_number, set_prev_log_number, set_next_file, set_last_sequence,
}
use leveldb_study.VersionSet.Version.{Files}
use leveldb_study.VersionSet.Append.{append_version}
use leveldb_study.VersionSet.State.{VersionSet, Config}
use leveldb_study.VersionSet.LogAndApply.{
  first_record, prepare, build, place_version, create_descriptor, write_record, switch_current,
  install, apply_over, log_and_apply,
}

-- What `prepare` fills in, and that an edit's own log number lies between the current one and the
-- next file number.
pub prepare_lem :
    {D : Type 0} (e : VersionEdit) (vs : VersionSet D) {e' : VersionEdit}
    → prepare e vs ≡ some e'
    → (e'.log_number ≡ (if e.has_log_number then e.log_number else vs.log_number))
      × (e'.prev_log_number
          ≡ (if e.has_prev_log_number then e.prev_log_number else vs.prev_log_number))
      × (e'.next_file_number ≡ vs.next_file_number)
      × (e'.last_sequence ≡ vs.last_sequence)
      × (vs.log_number ≤ e'.log_number)
unfolding prepare set_log_number set_prev_log_number set_next_file set_last_sequence
prepare_lem e vs h = ground arith

-- The fields that say which version and which logs are current.
pub record Same {D : Type 0} (vs vs' : VersionSet D) : Type 0 where
  pub log_number : vs'.log_number ≡ vs.log_number
  pub prev_log_number : vs'.prev_log_number ≡ vs.prev_log_number
  pub current : vs'.current ≡ vs.current

pub Same-trans : {D : Type 0} {a b d : VersionSet D} → Same a b → Same b d → Same a d
Same-trans s t = record {
  log_number = t.log_number ∙ s.log_number;
  prev_log_number = t.prev_log_number ∙ s.prev_log_number;
  current = t.current ∙ s.current;
}

build-Same :
    (c : Config) (e : VersionEdit) (base : ℕ) (vs : VersionSet c.D) {vs' : VersionSet c.D}
    {files : Files}
    → build c e base vs ≡ some (vs', files)
    → Same vs vs'
unfolding build
build-Same c e base vs h = ground arith

module _ (c : Config) (env : Env) (is_ok : Status → Bool) where
  first_record-Same :
      (s : Status) (vs : VersionSet c.D) (log : Writer) (w : env.World) {s' : Status}
      {vs' : VersionSet c.D} {w' : env.World}
      → first_record c env is_ok s vs log w ≡ some (s', vs', w')
      → Same vs vs'
  unfolding first_record
  first_record-Same s vs log w h = ground arith

  create_descriptor-Same :
      (e : VersionEdit) (vs : VersionSet c.D) (w : env.World) {s : Status} {name : Option Bytes}
      {e' : VersionEdit} {vs' : VersionSet c.D} {w' : env.World}
      → create_descriptor c env is_ok e vs w ≡ some (s, name, e', vs', w')
      → Same vs vs' × (e'.log_number ≡ e.log_number) × (e'.prev_log_number ≡ e.prev_log_number)
  unfolding create_descriptor first_record set_next_file
  create_descriptor-Same e vs w h = ground arith

  write_record-Same :
      (s : Status) (e : VersionEdit) (vs : VersionSet c.D) (w : env.World) {s' : Status}
      {vs' : VersionSet c.D} {w' : env.World}
      → write_record c env is_ok s e vs w ≡ some (s', vs', w')
      → Same vs vs'
  unfolding write_record
  write_record-Same s e vs w h = ground arith

  create_descriptor-versions :
      (e : VersionEdit) (vs : VersionSet c.D) (w : env.World) {s : Status} {name : Option Bytes}
      {e' : VersionEdit} {vs' : VersionSet c.D} {w' : env.World}
      → create_descriptor c env is_ok e vs w ≡ some (s, name, e', vs', w')
      → vs'.versions ≡ vs.versions
  unfolding create_descriptor first_record
  create_descriptor-versions e vs w h = ground arith

  write_record-versions :
      (s : Status) (e : VersionEdit) (vs : VersionSet c.D) (w : env.World) {s' : Status}
      {vs' : VersionSet c.D} {w' : env.World}
      → write_record c env is_ok s e vs w ≡ some (s', vs', w')
      → vs'.versions ≡ vs.versions
  unfolding write_record
  write_record-versions s e vs w h = ground arith

  pub install-ok :
      (s : Status) (name : Option Bytes) (e : VersionEdit) (v : ℕ) (vs : VersionSet c.D)
      (w : env.World) {vs' : VersionSet c.D} {w' : env.World}
      → is_ok s ≡ true
      → install c env is_ok s name e v vs w ≡ some (vs', w')
      → (vs'.log_number ≡ e.log_number)
        × (vs'.prev_log_number ≡ e.prev_log_number)
        × (vs'.current ≡ some v)
  unfolding install append_version
  install-ok s name e v vs w k h = ground arith

  -- The run of a LogAndApply that returns, up to `install`.
  pub record Run (others : VersionSet c.D → VersionSet c.D) (e : VersionEdit) (vs : VersionSet c.D)
      (s : Status) (e' : VersionEdit) (vs' : VersionSet c.D) : Type 0 where
    pub base : ℕ
    pub base_eq : vs.current ≡ some base
    pub prepared : VersionEdit
    pub prepare_eq : prepare e vs ≡ some prepared
    pub built : VersionSet c.D
    pub files : Files
    pub build_eq : build c prepared base vs ≡ some (built, files)
    pub described : VersionSet c.D
    pub described_Same : Same vs described
    pub described_versions : described.versions ≡ (place_version c files built).1.versions
    pub logs :
        (e'.log_number ≡ prepared.log_number) × (e'.prev_log_number ≡ prepared.prev_log_number)
    pub before : VersionSet c.D
    pub before_Same : Same (others described) before
    pub before_versions : before.versions ≡ (others described).versions
    pub name : Option Bytes
    pub world : env.World
    pub world' : env.World
    pub install_eq :
        install c env is_ok s name e' (place_version c files built).0 before world
        ≡ some (vs', world')

  place_version-Same : (files : Files) (vs : VersionSet c.D) → Same vs (place_version c files vs).1
  unfolding place_version
  place_version-Same files vs = ground arith

  apply_over-Run :
      (base : ℕ) (others : VersionSet c.D → VersionSet c.D) (e : VersionEdit) (vs : VersionSet c.D)
      (w : env.World) {s : Status} {e' : VersionEdit} {vs' : VersionSet c.D} {w' : env.World}
      → vs.current ≡ some base
      → apply_over c env is_ok base others e vs w ≡ some (s, e', vs', w')
      → Run others e vs s e' vs'
  unfolding apply_over
  apply_over-Run base others e vs w {s} {e'} {vs'} k = >>=-elim (prepare e vs) _ λ e1 p1.
      >>=-elim (build c e1 base vs) _ λ (vs1, files) p2.
        let (v, vs2) = place_version c files vs1 in
        >>=-elim (create_descriptor c env is_ok e1 vs2 w) _ λ (s3, name, e3, vs3, w3) p3.
          >>=-elim (write_record c env is_ok s3 e3 (others vs3) w3) _ λ (s4, vs4, w4) p4.
            >>=-elim (switch_current c env is_ok s4 name vs4 w4) _ λ (s5, w5) p5.
              >>=-elim (install c env is_ok s5 name e3 v vs4 w5) _ λ (vs6, w6) p6 end.
                let (same, log, prev) = create_descriptor-Same e1 vs2 w p3 in
                let run : Run others e vs s5 e3 vs6 = record {
                  base = base;
                  base_eq = k;
                  prepared = e1;
                  prepare_eq = p1;
                  built = vs1;
                  files = files;
                  build_eq = p2;
                  described = vs3;
                  described_Same =
                      Same-trans (build-Same c e1 base vs p2)
                        (Same-trans (place_version-Same files vs1) same);
                  described_versions = create_descriptor-versions e1 vs2 w p3;
                  logs = (log, prev);
                  before = vs4;
                  before_Same = write_record-Same s3 e3 (others vs3) w3 p4;
                  before_versions = write_record-versions s3 e3 (others vs3) w3 p4;
                  name = name;
                  world = w5;
                  world' = w6;
                  install_eq = p6;
                } in
                subst
                  (λ (r : Status × VersionEdit × VersionSet c.D × env.World).
                    Run others e vs r.0 r.1 r.2)
                  (some_inj end) run

  pub log_and_apply-Run :
      (others : VersionSet c.D → VersionSet c.D) (e : VersionEdit) (vs : VersionSet c.D)
      (w : env.World) {s : Status} {e' : VersionEdit} {vs' : VersionSet c.D} {w' : env.World}
      → log_and_apply c env is_ok others e vs w ≡ some (s, e', vs', w')
      → Run others e vs s e' vs'
  unfolding log_and_apply
  log_and_apply-Run others e vs w {w'} h = elim (Option-cases vs.current) [
    | inl k ↦ ground arith
    | inr (base, k) ↦ apply_over-Run base others e vs w {w' = w'} k (ground arith)
  ]
