-- ===== src/Status.antt =====
-- leveldb/include/leveldb/status.h: the outcome of an operation. `state_` is a null pointer for
-- `Status::OK()`; the private constructor from a code and two messages, which the header calls and
-- does not define, is read as storing them.
use leveldb_study.Base.{ℕ, Bool, true, Option, none, some, List, [], is_some, not}

-- The bytes of a `std::string` or of a `Slice`.
abbrev pub Bytes : Type 0
Bytes = List ℕ

pub data Code : Type 0 where
  not_found corruption not_supported invalid_argument io_error : Code

pub record Status : Type 0 where
  pub state : Option (Code × Bytes × Bytes)

abbrev pub status_ok : Status
status_ok = record { state = none }

abbrev pub of_code : Code → Bytes → Bytes → Status
of_code c msg msg2 = record { state = some (c, msg, msg2) }

-- `Status::NotFound(msg, msg2)` and its siblings; `msg2` is an empty slice where it is left out.
abbrev pub status_not_found : Bytes → Status
status_not_found msg = of_code Code.not_found msg []

abbrev pub status_corruption : Bytes → Bytes → Status
status_corruption msg msg2 = of_code Code.corruption msg msg2

abbrev status_not_supported : Bytes → Status
status_not_supported msg = of_code Code.not_supported msg []

abbrev status_invalid_argument : Bytes → Status
status_invalid_argument msg = of_code Code.invalid_argument msg []

abbrev pub status_io_error : Bytes → Status
status_io_error msg = of_code Code.io_error msg []

-- `ok()` as it is written: it does not look at `state_`.
unfoldable pub ok : Status → Bool
ok s = true

-- What `ok()` is documented to be: the state pointer is null.
unfoldable pub is_null : Status → Bool
is_null s = not (is_some s.state)
