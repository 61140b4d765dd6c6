-- ===== src/Result.antt =====
-- libs/engine/core/result.h: values or errors. A message is kept as the arguments of the format
-- string that prints it.
use bravo_finder.Prelude.{ℕ, Bool, true, false, Option, none, some, Bytes}

pub data ErrorCode : Type 0 where
  unknown invalid_argument data_missing parse_error serialization_error : ErrorCode
  airport_not_found no_route route_parse_error procedure_not_found : ErrorCode
  cache_corrupt format_mismatch : ErrorCode

pub data Message : Type 0 where
  text : Bytes → Message
  ident_too_long : Bytes → ℕ → ℕ → Message
  icao_code_too_long : Bytes → ℕ → ℕ → Message
  name_too_long : Bytes → ℕ → ℕ → Message

pub record Error : Type 0 where
  pub code : ErrorCode
  pub message : Message

-- A failure is kept apart from the value that a success has.
pub data Result (A : Type 0) : Type 0 where
  ok : A → Result A
  err : Error → Result A

module _ {A : Type 0} where
  unfoldable pub has_value : Result A → Bool
  has_value (ok a) = true
  has_value (err e) = false

  -- `std::get` throws on the other alternative: `none`.
  unfoldable pub value : Result A → Option A
  value (ok a) = some a
  value (err e) = none

  unfoldable pub error : Result A → Option Error
  error (ok a) = none
  error (err e) = some e

  unfoldable pub value_or : Result A → A → A
  value_or (ok a) fallback = a
  value_or (err e) fallback = fallback
