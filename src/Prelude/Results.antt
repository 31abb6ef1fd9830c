-- ===== src/Prelude/Results.antt =====
-- Go's `(value, error)` pairs as values: the sentinel errors of the stores, and all other errors
-- with the place that they come from.
use mathlib.Core.Bool.{Bool, true, false}
use mathlib.Core.Option.{Option, none, some}

pub data Error : Type 0 where
  -- ErrNotFound, ErrForbidden, ErrInflight
  not_found forbidden inflight : Error
  -- ErrAlreadyExists and ErrFailedPrecondition
  already_exists failed_precondition : Error
  -- an error that begins with "schedule parse:", and one of encoding/json
  schedule_error json_error : Error
  -- "unknown prune strategy"
  unknown_strategy : Error
  -- an error of ApplyToQuery, wrapped by "auth: %w"
  auth_error : Error
  -- an error of the database: a parameter that its cast refuses
  database : Error

pub data Result {ℓ} (T : Type ℓ) : Type ℓ where
  err : Error → Result T
  ok : T → Result T

abbrev pub is_ok {ℓ} : {T : Type ℓ} → Result T → Bool
is_ok (err failure) = false
is_ok (ok value) = true

-- `none` is the error that is named first.
abbrev pub from_option {ℓ} : {T : Type ℓ} → Error → Option T → Result T
from_option failure (some value) = ok value
from_option failure none = err failure

-- `if !test { return err }`
abbrev pub guard : Bool → Error → Result (Unit {0})
guard false failure = err failure
guard true failure = ok tt

infixl 5 ◌>>=◌ ◌>>◌
-- `if err != nil { return err }`, and on with the value.
abbrev pub ◌>>=◌ {ℓ κ} : {S : Type ℓ} {T : Type κ} → Result S → (S → Result T) → Result T
(err failure) >>= next_step = err failure
(ok value) >>= next_step = next_step value

-- The same after a check without a value.
abbrev pub ◌>>◌ {ℓ} : {T : Type ℓ} → Result (Unit {0}) → Result T → Result T
(err failure) >> rest = err failure
(ok u) >> rest = rest
