-- ===== src/Env/RecordTypes.antt =====
-- leveldb/db/log_format.h, and InitTypeCrc of leveldb/db/log_writer.cc. `crc32c::Value` is not in the
-- repository: a parameter.
use leveldb_study.Base.{
  ◌>>=◌, ◌≡◌, refl, ℕ, zero, suc, ◌+◌, ◌%◌, Option, none, some, List, [], ◌∷◌, length, arith,
}
use leveldb_study.Status.{Bytes}

pub data RecordType : Type 0 where
  zero_type full_type first_type middle_type last_type : RecordType

-- The numbers of the enumeration.
abbrev pub code : RecordType → ℕ
code RecordType.zero_type = 0
code RecordType.full_type = 1
code RecordType.first_type = 2
code RecordType.middle_type = 3
code RecordType.last_type = 4

abbrev pub max_record_type : ℕ
max_record_type = code RecordType.last_type

abbrev pub header_size : ℕ
header_size = 4 + 2 + 1

-- `type_crc[i] = crc`; out of bounds is `none`.
abbrev pub set_at : List ℕ → ℕ → ℕ → Option (List ℕ)
set_at [] i crc = none
set_at (x ∷ xs) zero crc = some (crc ∷ xs)
set_at (x ∷ xs) (suc i) crc = do xs' ← set_at xs i crc; some (x ∷ xs')

abbrev pub entry : List ℕ → ℕ → Option ℕ
entry [] i = none
entry (x ∷ xs) zero = some x
entry (x ∷ xs) (suc i) = entry xs i

module _ (value : Bytes → ℕ) where
  -- The loop from `i`, for `n` more rounds. A number is one byte of a char.
  unfoldable pub init_from : ℕ → ℕ → List ℕ → Option (List ℕ)
  init_from zero i crcs = some crcs
  init_from (suc n) i crcs = do
    crcs' ← set_at crcs i (value (i % 256 ∷ []))
    init_from n (i + 1) crcs'

  unfoldable pub init_type_crc : List ℕ → Option (List ℕ)
  unfolding init_from
  init_type_crc crcs = init_from (max_record_type + 1) 0 crcs

  -- For the array of log::Writer, which has kMaxRecordType + 1 entries, whatever they are: no write is
  -- out of bounds, and the entry of every record type is then the crc of its one byte.
  pub init_type_crc-entry :
      (crcs : List ℕ) (t : RecordType)
      → length crcs ≡ max_record_type + 1
      → (crcs' : List ℕ) × (init_type_crc crcs ≡ some crcs')
        × (length crcs' ≡ max_record_type + 1)
        × (entry crcs' (code t) ≡ some (value (code t ∷ [])))
  unfolding init_type_crc
  init_type_crc-entry (a ∷ b ∷ c ∷ d ∷ f ∷ []) t h = (_, refl, refl, entry_of t)
    where
      crc : RecordType → ℕ
      crc u = value (code u ∷ [])

      entry_of :
          (u : RecordType)
          → entry
              (crc RecordType.zero_type
                ∷ crc RecordType.full_type
                ∷ crc RecordType.first_type
                ∷ crc RecordType.middle_type
                ∷ crc RecordType.last_type
                ∷ [])
              (code u)
            ≡ some (crc u)
      entry_of RecordType.zero_type = refl
      entry_of u = ground arith
  init_type_crc-entry _ t h = absurd (ground arith)
