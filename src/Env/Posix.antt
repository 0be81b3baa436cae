-- ===== src/Env/Posix.antt =====
-- leveldb/util/env_posix.cc: files for writing on a POSIX system. Append, Close, Flush and Sync
-- answer ok and do nothing. A failed assertion is `none`.
use leveldb_study.Base.{
  ◌>>=◌, ◌≡◌, refl, ap, ℕ, zero, suc, ◌+◌, ◌/◌, ◌%◌, Bool, true, false, Option, none, some,
  some_inj, subst, ltb, [], ◌∷◌, ◌++◌, is_some, if◌then◌else◌, arith, ◌==◌, length, All, All-append,
  Bool-cases, inl, inr,
}
use leveldb_study.Status.{Status, status_ok, Bytes}
use leveldb_study.Filename.{
  codes, make_file_name, current_file_name, descriptor_file_name, number_06, decimal, zeros,
}

-- `std::string::rfind`, `find` and `substr` from the start; npos is `none`.
unfoldable pub rfind : ℕ → Bytes → Option ℕ
rfind c [] = none
rfind c (a ∷ s) = elim (rfind c s) [
  | some i ↦ some (suc i)
  | none ↦ if a == c then some 0 else none
]

unfoldable pub find : ℕ → ℕ → Bytes → Option ℕ
find c from [] = none
find c (suc from) (a ∷ s) = elim (find c from s) [ none ↦ none | some i ↦ some (suc i) ]
find c zero (a ∷ s) =
    let rest = find c zero s in
    if a == c then some 0 else elim rest [ none ↦ none | some i ↦ some (suc i) ]

unfoldable pub prefix : ℕ → Bytes → Bytes
prefix zero s = []
prefix (suc n) [] = []
prefix (suc n) (a ∷ s) = a ∷ prefix n s

abbrev pub separator : ℕ
separator = 47

unfoldable pub dirname : Bytes → Option Bytes
unfolding rfind find prefix
dirname filename = elim (rfind separator filename) [
  | none ↦ some (codes ".")
  | some pos ↦
      if is_some (find separator (pos + 1) filename) then none else some (prefix pos filename)
]

-- PosixWritableFile.
pub record PosixWritableFile : Type 0 where
  pub pos : ℕ
  pub fd : ℕ
  pub is_manifest : Bool
  pub filename : Bytes
  pub dirname : Bytes

-- As it is written, for every name.
abbrev pub is_manifest_file : Bytes → Bool
is_manifest_file filename = true

unfoldable pub new_posix_writable_file : Bytes → ℕ → Option PosixWritableFile
unfolding dirname
new_posix_writable_file filename fd = do
  dir ← dirname filename
  some (record {
    pos = 0;
    fd = fd;
    is_manifest = is_manifest_file filename;
    filename = filename;
    dirname = dir;
  })

-- NewWritableFile, where `open` answers a descriptor or fails. The status is ok in both cases.
unfoldable pub new_writable_file :
    {World : Type 0}
    → (Bytes → World → Option ℕ × World)
    → Bytes
    → World
    → Option (Status × Option PosixWritableFile × World)
unfolding new_posix_writable_file
new_writable_file open_fd filename w =
    let (fd, w') = open_fd filename w in
    elim fd [
      | none ↦ some (status_ok, none, w')
      | some n ↦ elim (new_posix_writable_file filename n) [
        | none ↦ none
        | some file ↦ some (status_ok, some file, w')
      ]
    ]

-- No separator.
abbrev pub Plain : Bytes → Type 0
Plain = All (λ c. (c == separator) ≡ false)

rfind-Plain : (s : Bytes) → Plain s → rfind separator s ≡ none
unfolding rfind
rfind-Plain [] h = refl
rfind-Plain (a ∷ s) (h, hs) = rw (rfind-Plain s hs) (ground (arith, h))

rfind-append :
    (xs ys : Bytes) → Plain ys → rfind separator (xs ++ separator ∷ ys) ≡ some (length xs)
unfolding rfind
rfind-append [] ys h = rw (rfind-Plain ys h) refl
rfind-append (x ∷ xs) ys h = rw (rfind-append xs ys h) (ap some (omega arith))

find-Plain : (ys : Bytes) → Plain ys → find separator 0 ys ≡ none
unfolding find
find-Plain [] h = refl
find-Plain (a ∷ s) (h, hs) = rw (find-Plain s hs) (ground (arith, h))

find-append :
    (xs ys : Bytes) → Plain ys → find separator (suc (length xs)) (xs ++ separator ∷ ys) ≡ none
unfolding find
find-append [] ys h = rw (find-Plain ys h) refl
find-append (x ∷ xs) ys h = rw (find-append xs ys h) refl

prefix-append : (xs ys : Bytes) → prefix (length xs) (xs ++ ys) ≡ xs
unfolding prefix
prefix-append [] ys = refl
prefix-append (x ∷ xs) ys = ap (λ s. x ∷ s) (prefix-append xs ys)

dirname-append : (dir ys : Bytes) → Plain ys → dirname (dir ++ separator ∷ ys) ≡ some dir
unfolding dirname
dirname-append dir ys h =
    let one_on : length dir + 1 ≡ suc (length dir) = omega arith in
    rw (dirname, rfind-append dir ys h, one_on, find-append dir ys h)
      (ap some (prefix-append dir (separator ∷ ys)))

decimal-Plain : (fuel n : ℕ) (digits : Bytes) → Plain digits → Plain (decimal fuel n digits)
unfolding decimal
decimal-Plain zero n digits h = h
decimal-Plain (suc fuel) n digits h = elim (Bool-cases (n == 0)) [
  | inl e ↦ rw e h
  | inr e ↦ rw e (decimal-Plain fuel (n / 10) ((48 + n % 10) ∷ digits) (ground arith, h))
]

zeros-Plain : (n : ℕ) → Plain (zeros n)
unfolding zeros
zeros-Plain zero = tt
zeros-Plain (suc n) = (refl, zeros-Plain n)

number_06-Plain : (n : ℕ) → Plain (number_06 n)
unfolding number_06
number_06-Plain n = All-append _ (zeros _) _ (zeros-Plain _) (decimal-Plain 20 n [] tt)

dirname-descriptor :
    (dbname : Bytes) (number : ℕ) (name : Bytes)
    → descriptor_file_name dbname number ≡ some name
    → dirname name ≡ some dbname
unfolding descriptor_file_name
dirname-descriptor dbname number name = elim (Bool-cases (ltb 0 number)) [
  | inr p ↦ rw p (λ e. cc)
  | inl p ↦ rw p (λ e.
      subst (λ (s : Bytes). dirname s ≡ some dbname) (some_inj e)
        (dirname-append dbname (codes "MANIFEST-" ++ number_06 number) (
          All-append _ (codes "MANIFEST-") (number_06 number)
            (refl, (refl, (refl, (refl, (refl, (refl, (refl, (refl, (refl, tt)))))))))
            (number_06-Plain number))))
]

-- The directory of a name that the database makes for a file is the name of the database, and the
-- assertion in Dirname holds: for a numbered file, whose suffix has no separator, for CURRENT and for
-- a MANIFEST. A name without a separator is in the directory `.`.
pub dirname-make_file_name :
    (dbname suffix : Bytes) (number : ℕ)
    → Plain suffix
    → (dirname (make_file_name dbname number suffix) ≡ some dbname)
      × (dirname (current_file_name dbname) ≡ some dbname)
      × ((name : Bytes)
          → descriptor_file_name dbname number ≡ some name
          → dirname name ≡ some dbname)
      × (dirname suffix ≡ some (codes "."))
unfolding make_file_name current_file_name descriptor_file_name dirname
dirname-make_file_name dbname suffix number h = (
  dirname-append dbname (number_06 number ++ (codes "." ++ suffix))
      (All-append _ (number_06 number) _ (number_06-Plain number) (refl, h)),
  dirname-append dbname (codes "CURRENT")
      (refl, (refl, (refl, (refl, (refl, (refl, (refl, tt))))))),
  dirname-descriptor dbname number,
  rw (dirname, rfind-Plain suffix h) refl,
)
