-- ===== src/VersionSet/Get/Accounts.antt =====
-- The file that Version::Get of leveldb/db/version_set.cc charges with a seek, as a count of the files
-- that were read.
use leveldb_study.Base.{
  ◌≡◌, refl, ◌∙◌, ap, ℕ, zero, suc, true, ◌&&◌, not, Option, none, some, List, [], ◌∷◌, is_some,
  if◌then◌else◌,
}
use leveldb_study.VersionSet.Version.{File}
use leveldb_study.VersionSet.Get.{GetStats}

abbrev pub no_seek : GetStats
no_seek = record { seek_file = none; seek_file_level = none }

-- The file that is charged where the first `n` files of a list are read: the first one, if it was
-- not the only one.
abbrev pub seek_of : ℕ → List (ℕ × File) → GetStats
seek_of (suc (suc n)) ((level, f) ∷ _ ∷ _) = record {
  seek_file = some f;
  seek_file_level = some level;
}
seek_of _ _ = no_seek

-- What the search keeps to charge a file.
pub record Account : Type 0 where
  pub stats : GetStats
  pub last : Option File
  pub last_level : Option ℕ

abbrev pub charged : ℕ → File → Account → Account
charged level f a = record {
  stats =
      if not (is_some a.stats.seek_file) && is_some a.last
      then record { seek_file = a.last; seek_file_level = a.last_level }
      else a.stats;
  last = some f;
  last_level = some level;
}

abbrev pub accounts : ℕ → List (ℕ × File) → Account → Account
accounts zero files a = a
accounts (suc n) [] a = a
accounts (suc n) ((level, f) ∷ rest) a = accounts n rest (charged level f a)

accounts-some :
    (n : ℕ) (files : List (ℕ × File)) (a : Account)
    → is_some a.stats.seek_file ≡ true
    → (accounts n files a).stats ≡ a.stats
accounts-some zero files a h = refl
accounts-some (suc n) [] a h = refl
accounts-some (suc n) ((level, f) ∷ rest) a h =
    let same : (charged level f a).stats ≡ a.stats = rw h refl in
    accounts-some n rest (charged level f a) (ap (λ (t : GetStats). is_some t.seek_file) same ∙ h)
    ∙ same

abbrev pub fresh : Account
fresh = record { stats = no_seek; last = none; last_level = none }

pub accounts-seek_of :
    (n : ℕ) (files : List (ℕ × File)) → (accounts n files fresh).stats ≡ seek_of n files
accounts-seek_of zero files = refl
accounts-seek_of (suc zero) [] = refl
accounts-seek_of (suc zero) (f ∷ rest) = refl
accounts-seek_of (suc (suc n)) [] = refl
accounts-seek_of (suc (suc n)) (f ∷ []) = refl
accounts-seek_of (suc (suc n)) ((level, f) ∷ (l, g) ∷ rest) = accounts-some n rest _ refl
