-- ===== src/Filename.antt =====
-- leveldb/db/filename.cc: the names of the database's files, and the switch of CURRENT. A failed
-- assertion is `none`. Numbers are `uint64_t`, so that they have at most 20 digits and the 100
-- characters of `buf` are enough.
pub mod Numbers
pub mod Distinct
pub mod Current
use Prim.Native.String.{String}
use Prim.Native.Char.{code}
use leveldb_study.Base.{
  ℕ, zero, suc, ◌+◌, ◌-◌, ◌/◌, ◌%◌, Bool, true, false, ◌&&◌, Option, none, some, List, [], ◌∷◌,
  ◌++◌, if◌then◌else◌, ltb, ◌==◌, length,
}
use leveldb_study.Status.{Status, Bytes}
use leveldb_study.Env.{Env}

abbrev pub codes : String → Bytes
codes String.[] = []
codes (String.◌∷◌ c s) = code c ∷ codes s

-- The decimal digits of a positive number before those at hand; none for zero. The fuel bounds
-- their number.
unfoldable pub decimal : ℕ → ℕ → Bytes → Bytes
decimal zero n digits = digits
decimal (suc fuel) n digits =
    let rest = decimal fuel (n / 10) ((48 + n % 10) ∷ digits) in if n == 0 then digits else rest

unfoldable pub zeros : ℕ → Bytes
zeros zero = []
zeros (suc n) = b'0' ∷ zeros n

-- `%06llu`: padded with zeros to six characters, so that zero, which has no digits above, is right.
unfoldable pub number_06 : ℕ → Bytes
number_06 n = let digits = decimal 20 n [] in zeros (6 - length digits) ++ digits

unfoldable pub make_file_name : Bytes → ℕ → Bytes → Bytes
make_file_name dbname number suffix =
    dbname ++ (codes "/" ++ (number_06 number ++ (codes "." ++ suffix)))

unfoldable pub log_file_name : Bytes → ℕ → Option Bytes
log_file_name dbname number =
    if ltb 0 number then some (make_file_name dbname number (codes "log")) else none

unfoldable pub descriptor_file_name : Bytes → ℕ → Option Bytes
descriptor_file_name dbname number =
    if ltb 0 number then some (dbname ++ (codes "/MANIFEST-" ++ number_06 number)) else none

unfoldable pub temp_file_name : Bytes → ℕ → Option Bytes
temp_file_name dbname number =
    if ltb 0 number then some (make_file_name dbname number (codes "dbtmp")) else none

unfoldable pub current_file_name : Bytes → Bytes
current_file_name dbname = dbname ++ codes "/CURRENT"

-- `Slice::starts_with` and `Slice::remove_prefix`.
abbrev pub starts_with : Bytes → Bytes → Bool
starts_with [] s = true
starts_with (p ∷ ps) [] = false
starts_with (p ∷ ps) (c ∷ s) = p == c && starts_with ps s

abbrev pub remove_prefix : ℕ → Bytes → Bytes
remove_prefix zero s = s
remove_prefix (suc n) [] = []
remove_prefix (suc n) (_ ∷ s) = remove_prefix n s

module _ (env : Env) (is_ok : Status → Bool) where
  -- The removal of the temporary file when a step failed; what the removal answers is dropped.
  unfoldable pub cleanup_temp : Bytes → Status × env.World → Status × env.World
  cleanup_temp tmp (s, w) = if is_ok s then (s, w) else (s, (env.delete_file tmp w).1)

  unfoldable pub write_and_rename : Bytes → Bytes → Bytes → env.World → Status × env.World
  write_and_rename text tmp current w =
      let (s, w1) = env.write_string_to_file_sync text tmp w in
      if is_ok s then env.rename_file tmp current w1 else (s, w1)

  unfoldable pub set_current_file : Bytes → ℕ → env.World → Option (Status × env.World)
  set_current_file dbname number w = elim (descriptor_file_name dbname number) [
    | none ↦ none
    | some manifest ↦
        if starts_with (dbname ++ codes "/") manifest
        then elim (temp_file_name dbname number) [
          | none ↦ none
          | some tmp ↦ some (
              cleanup_temp tmp (
                write_and_rename (remove_prefix (length dbname + 1) manifest ++ 10 ∷ []) tmp
                  (current_file_name dbname) w))
        ]
        else none
  ]
