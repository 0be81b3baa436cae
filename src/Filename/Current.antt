-- ===== src/Filename/Current.antt =====
-- SetCurrentFile of leveldb/db/filename.cc.
use leveldb_study.Base.{
  ℕ, suc, ◌+◌, ◌<◌, ◌≡◌, refl, sym, ◌∙◌, subst, Bool, true, false, none, some, [], ◌∷◌, ◌++◌, arith,
  length, some_inj, Bool-cases, inl, inr,
}
use native.Mathlib.Numerals.{add-one}
use leveldb_study.Status.{Status, Bytes}
use leveldb_study.Env.{Env, IsFileSystem}
use leveldb_study.Filename.{
  codes, number_06, descriptor_file_name, temp_file_name, make_file_name, current_file_name,
  starts_with, remove_prefix, set_current_file, write_and_rename, cleanup_temp,
}

starts_with-dir : (dir rest : Bytes) (c : ℕ) → starts_with (dir ++ c ∷ []) (dir ++ c ∷ rest) ≡ true
starts_with-dir [] rest c = ground arith
starts_with-dir (d ∷ dir) rest c = ground (arith, starts_with-dir dir rest c)

remove_prefix-dir :
    (dir rest : Bytes) (c : ℕ) → remove_prefix (suc (length dir)) (dir ++ c ∷ rest) ≡ rest
remove_prefix-dir [] rest c = refl
remove_prefix-dir (d ∷ dir) rest c = remove_prefix-dir dir rest c

remove_prefix-dir_add_one :
    (dir rest : Bytes) (c : ℕ) → remove_prefix (length dir + 1) (dir ++ c ∷ rest) ≡ rest
remove_prefix-dir_add_one dir rest c = rw add-one (remove_prefix-dir dir rest c)

-- The text of CURRENT: the descriptor's name without its directory, and a line feed.
unfoldable pub current_text : ℕ → Bytes
current_text number = (codes "MANIFEST-" ++ number_06 number) ++ 10 ∷ []

module _ (env : Env) (is_ok : Status → Bool) where
  -- The assertions hold at every positive number: SetCurrentFile writes CURRENT's text to the
  -- temporary file, renames it, and removes it if a step failed.
  pub set_current_file_lem :
      (dbname : Bytes) (number : ℕ) (w : env.World)
      → 0 < number
      → set_current_file env is_ok dbname number w
        ≡ some (
            cleanup_temp env is_ok (make_file_name dbname number (codes "dbtmp")) (
              write_and_rename env is_ok
                (current_text number)
                (make_file_name dbname number (codes "dbtmp"))
                (current_file_name dbname)
                w))
  unfolding set_current_file descriptor_file_name temp_file_name current_text
  set_current_file_lem dbname number w h =
      let rest = codes "MANIFEST-" ++ number_06 number in
      ground (arith, starts_with-dir dbname rest b'/', remove_prefix-dir_add_one dbname rest b'/')

  module _ (fs : IsFileSystem env is_ok) where
    outcome :
        (text tmp current : Bytes) (w : env.World)
        → let r = cleanup_temp env is_ok tmp (write_and_rename env is_ok text tmp current w) in
          (is_ok r.0 ≡ true → fs.read r.1 current ≡ some text)
          × (is_ok r.0 ≡ false → fs.read r.1 tmp ≡ none)
    unfolding cleanup_temp write_and_rename
    outcome text tmp current w =
        let (s1, w1) = env.write_string_to_file_sync text tmp w in
        let (s2, w2) = env.rename_file tmp current w1 in
        elim (Bool-cases (is_ok s1)) [
          | inl e ↦ elim (Bool-cases (is_ok s2)) [
            | inl k ↦
                rw (e, k)
                  (
                    (λ _. fs.read-rename tmp current w1 k ∙ fs.read-write_string text tmp w e),
                    λ f. cc,
                  )
            | inr k ↦ rw (e, k) ((λ f. cc), λ _. fs.read-delete tmp w2)
          ]
          | inr e ↦ rw (e, e) ((λ f. cc), λ _. fs.read-delete tmp w1)
        ]

    -- When SetCurrentFile answers ok, the file CURRENT names the descriptor with the given number;
    -- when it does not, the temporary file is gone.
    pub set_current_file-read :
        (dbname : Bytes) (number : ℕ) (w : env.World) {s : Status} {w' : env.World}
        → 0 < number
        → set_current_file env is_ok dbname number w ≡ some (s, w')
        → (is_ok s ≡ true → fs.read w' (current_file_name dbname) ≡ some (current_text number))
          × (is_ok s ≡ false → fs.read w' (make_file_name dbname number (codes "dbtmp")) ≡ none)
    set_current_file-read dbname number w {s} {w'} h e =
        let tmp = make_file_name dbname number (codes "dbtmp") in
        let current = current_file_name dbname in
        let text = current_text number in
        let r = cleanup_temp env is_ok tmp (write_and_rename env is_ok text tmp current w) in
        let same : r ≡ (s, w') = some_inj (sym (set_current_file_lem dbname number w h) ∙ e) in
        subst
          (λ q.
            (is_ok q.0 ≡ true → fs.read q.1 current ≡ some text)
            × (is_ok q.0 ≡ false → fs.read q.1 tmp ≡ none))
          same (outcome text tmp current w)
