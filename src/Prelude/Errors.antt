-- ===== src/Prelude/Errors.antt =====
-- A Go result with an error: the value, or the sentinel that the error wraps.
use Prim.Native.Nat.{ℕ}

-- go/errors.go; `other` is an error that wraps no sentinel, by the core's return code, and
-- `over_limit` one for a count that is not a 32-bit number.
pub data ApiError : Type 0 where
  random_source timestamp_out_of_range counter_exhausted not_time_based negative_count : ApiError
  buffer_not_whole_uuids not_one_uuid invalid_layout batch_too_large batch_unaddressable : ApiError
  wrong_version name_too_long : ApiError
  other over_limit : ℕ → ApiError

pub data Result {ℓ} (A : Type ℓ) : Type ℓ where
  ok : A → Result A
  err : ApiError → Result A
