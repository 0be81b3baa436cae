-- ===== src/VersionSet/Get/Answer.antt =====
-- What Version::Get of leveldb/db/version_set.cc answers, without a callback and a shared state.
use leveldb_study.Base.{
  ◌>>=◌, >>=_assoc, >>=_cong, ◌≡◌, refl, sym, ◌∙◌, ap, ℕ, suc, Bool, false, Option, none, some,
  List, [], ◌∷◌, if◌then◌else◌, Bool-cases, Option-cases, inl, inr,
}
use leveldb_study.Status.{Status, status_ok, status_not_found, status_corruption, Bytes}
use leveldb_study.Options.{ReadOptions}
use leveldb_study.Filename.{codes}
use leveldb_study.Cache.{Cache}
use leveldb_study.Table.{TableFormat}
use leveldb_study.TableCache.{TableAndFile, TableCalls, TableCache, Session}
use leveldb_study.VersionSet.Version.{File}
use leveldb_study.VersionSet.State.{Version}
use leveldb_study.VersionSet.Get.Accounts.{
  no_seek, seek_of, Account, charged, accounts, fresh, accounts-seek_of,
}
use leveldb_study.VersionSet.Get.{
  SaverState, Saver, LookupKey, GetStats, calls_until, VersionCalls, IsForEach, Search, charge,
  by_saver, read_file, match_file, version_get,
}

module _ (x : TableFormat) (blocks : Cache x.Block) (tables : Cache (TableAndFile x))
    (t : TableCalls x blocks Saver) (is_ok : Status → Bool) {D : Type 0} (v : VersionCalls D)
    (c : TableCache) (options : ReadOptions) where
  -- How many files were read, the status, and the saver and the caches behind it.
  abbrev pub Answer : Type 0
  Answer = ℕ × Status × Saver × Session x blocks tables t is_ok

  -- One file more was read.
  abbrev pub one_more : Answer → Option Answer
  one_more (n, s, saver, session) = some (suc n, s, saver, session)

  -- Where a file was read without an error: what the saver says, or the answer of the later files.
  unfoldable pub decide :
      SaverState → Status → Saver → Session x blocks tables t is_ok → Option Answer → Option Answer
  decide SaverState.not_found s saver session later = later >>= one_more
  decide SaverState.found s saver session later = some (1, s, saver, session)
  decide SaverState.deleted s saver session later = some (1, status_not_found [], saver, session)
  decide SaverState.corrupt s saver session later =
      some (1, status_corruption (codes "corrupted key for ") saver.user_key, saver, session)

  -- The answer of the first file that decides.
  unfoldable pub answer :
      Bytes → List (ℕ × File) → Saver → Session x blocks tables t is_ok → Option Answer
  answer ikey [] saver session = some (0, status_not_found [], saver, session)
  answer ikey ((level, f) ∷ rest) saver session = do
    (s, saver', session') ← read_file x blocks tables t is_ok v c options ikey f saver session
    let later = answer ikey rest saver' session'
    if is_ok s then decide saver'.state s saver' session' later else some (1, s, saver', session')

  abbrev S : Type 0
  S = Search x blocks tables t is_ok v c options

  abbrev account_of : S → Account
  account_of state = record {
    stats = state.stats;
    last = state.last_file_read;
    last_level = state.last_file_read_level;
  }

  abbrev Seen : Type 0
  Seen = Status × Saver × GetStats × Session x blocks tables t is_ok

  -- What Get makes of the state behind the search.
  abbrev seen : S → Option Seen
  seen state = some (
    if state.found then state.s else status_not_found [],
    state.saver,
    state.stats,
    state.session,
  )

  -- The same of an answer.
  abbrev told : List (ℕ × File) → Account → Answer → Option Seen
  told files a (n, s, saver, session) = some (s, saver, (accounts n files a).stats, session)

  abbrev find : Bytes → List (ℕ × File) → S → Option S
  find ikey = calls_until (match_file x blocks tables t is_ok v c options ikey)

  -- What the callback does with the outcome of a read, and then the rest of the search.
  abbrev go_on : Bytes → List (ℕ × File) → Bool × S → Option S
  go_on ikey rest (more, state) =
      let others = find ikey rest state in if more then others else some state

  by_saver-decide :
      (st : SaverState) (ikey : Bytes) (level : ℕ) (f : File) (rest : List (ℕ × File)) (state : S)
      (a : Account)
      → state.found ≡ false
      → account_of state ≡ charged level f a
      → (find ikey rest state >>= seen)
        ≡ (answer ikey rest state.saver state.session >>= told rest (account_of state))
      → (go_on ikey rest (by_saver x blocks tables t is_ok v c options st state) >>= seen) ≡ (
          decide st state.s state.saver state.session (answer ikey rest state.saver state.session)
          >>= told ((level, f) ∷ rest) a)
  unfolding by_saver decide
  by_saver-decide SaverState.not_found ikey level f rest state a h same later =
      let later' : (find ikey rest state >>= seen)
          ≡ (answer ikey rest state.saver state.session >>= told rest (charged level f a)) =
        later
        ∙ ap (λ (b : Account). answer ikey rest state.saver state.session >>= told rest b) same in
      later'
      ∙ sym (
          >>=_assoc (answer ikey rest state.saver state.session) one_more
            (told ((level, f) ∷ rest) a))
  by_saver-decide SaverState.found ikey level f rest state a h same later =
      ap (λ (b : Account). some (state.s, state.saver, b.stats, state.session)) same
  by_saver-decide SaverState.deleted ikey level f rest state a h same later =
      rw h
        (ap (λ (b : Account). some (status_not_found [], state.saver, b.stats, state.session)) same)
  by_saver-decide SaverState.corrupt ikey level f rest state a h same later =
      ap
        (λ (b : Account). some (
          status_corruption (codes "corrupted key for ") state.saver.user_key,
          state.saver,
          b.stats,
          state.session,
        ))
        same

  calls_until-answer :
      (ikey : Bytes) (files : List (ℕ × File)) (state : S)
      → state.found ≡ false
      → (find ikey files state >>= seen)
        ≡ (answer ikey files state.saver state.session >>= told files (account_of state))
  unfolding calls_until answer match_file charge
  calls_until-answer ikey [] state h = rw h refl
  calls_until-answer ikey ((level, f) ∷ rest) state h =
      let read = read_file x blocks tables t is_ok v c options ikey f state.saver state.session in
      elim (Option-cases read) [
        | inl failed ↦ rw (match_file, failed) refl
        | inr ((s, saver, session), ended) ↦
            let charged = charge x blocks tables t is_ok v c options level f state in
            let state' : S = record charged { saver = saver; s = s; session = session } in
            elim (Bool-cases (is_ok s)) [
              | inr p ↦ rw (match_file, ended, p) refl
              | inl p ↦
                  rw (match_file, ended, p)
                    (by_saver-decide saver.state ikey level f rest state' (account_of state) h refl
                      (calls_until-answer ikey rest state' h))
            ]
      ]

  abbrev pub new_saver : LookupKey → Bytes → Saver
  new_saver k value = record { state = SaverState.not_found; user_key = k.user_key; value = value }

  abbrev pub Result : Type 0
  Result = Status × Bytes × GetStats × Session x blocks tables t is_ok

  abbrev only_value : Seen → Option Result
  only_value (s, saver, stats, session) = some (s, saver.value, stats, session)

  -- What Get reports of an answer.
  abbrev pub reported : List (ℕ × File) → Answer → Option Result
  reported files (n, s, saver, session) = some (s, saver.value, seek_of n files, session)

  reported_lem :
      (files : List (ℕ × File)) (r : Answer)
      → (told files fresh r >>= only_value) ≡ reported files r
  reported_lem files (n, s, saver, session) =
      ap (λ (stats : GetStats). some (s, saver.value, stats, session)) (accounts-seek_of n files)

  -- Get answers what the first file decides, of the files that may hold the key from the newest to
  -- the oldest: an error of the read, that the key is found, deleted, or corrupt; and NotFound if no
  -- file decides. It charges a seek to the first file if a second one was read, and else to none.
  pub version_get-answer :
      (each : IsForEach v) (version : Version D) (k : LookupKey) (value : Bytes)
      (session : Session x blocks tables t is_ok)
      → let files = each.overlapping version k.user_key k.internal_key in
        version_get x blocks tables t is_ok v c options version k value session
        ≡ (answer k.internal_key files (new_saver k value) session >>= reported files)
  unfolding version_get
  version_get-answer each version k value session =
      let files = each.overlapping version k.user_key k.internal_key in
      let start : S = record {
        saver = new_saver k value;
        stats = no_seek;
        last_file_read = none;
        last_file_read_level = none;
        s = status_ok;
        found = false;
        session = session;
      } in
      let found = answer k.internal_key files (new_saver k value) session in
      rw
        (each.calls version k.user_key k.internal_key
          (match_file x blocks tables t is_ok v c options k.internal_key) start)
        (sym (>>=_assoc (find k.internal_key files start) seen only_value)
          ∙ ap (λ (m : Option Seen). m >>= only_value)
              (calls_until-answer k.internal_key files start refl)
          ∙ >>=_assoc found (told files fresh) only_value
          ∙ >>=_cong found _ _ (reported_lem files))
