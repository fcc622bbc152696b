-- ===== src/Fault.antt =====
-- internal/kernel/fault/fault.go: the errors of the platform, and the results that carry them.
use Prim.Native.String.{String, ◌++◌ as str_append}
use mathlib.Core.Option.{Option, none, some}

pub data Kind : Type 0 where
  internal invalid not_found conflict unauthenticated forbidden unavailable too_many : Kind

-- A Go error: one made by `errors.New`, one made by `fmt.Errorf` around a cause, or a `*Fault`.
mutual
  pub data Error : Type 0 where
    plain : String → Error
    wrapped : String → Error → Error
    fault : Kind → String → String → Cause → Error

  pub data Cause : Type 0 where
    no_cause : Cause
    caused_by : Error → Cause

unfoldable pub new_fault : Kind → String → String → Error
new_fault kind code message = fault kind code message no_cause

unfoldable pub internal_fault : Error → Error
internal_fault cause =
    fault Kind.internal "internal_error" "an internal error occurred" (caused_by cause)

-- `Error()`: the text of an error and of its causes.
unfoldable pub error_text : Error → String
error_text (plain m) = m
error_text (wrapped m e) = str_append m (str_append ": " (error_text e))
error_text (fault k c m no_cause) = str_append c (str_append ": " m)
error_text (fault k c m (caused_by e)) =
    str_append c (str_append ": " (str_append m (str_append ": " (error_text e))))

-- `errors.As(err, &f)`: the first fault of the chain of causes.
as_fault : Error → Option Error
as_fault (plain m) = none
as_fault (wrapped m e) = as_fault e
as_fault (fault k c m u) = some (fault k c m u)

or_internal : Option Error → Error → Error
unfolding internal_fault
or_internal none e = internal_fault e
or_internal (some f) e = f

pub from : Error → Error
unfolding as_fault or_internal
from e = or_internal (as_fault e) e

pub data Result {ℓ} (A : Type ℓ) : Type ℓ where
  ok : A → Result A
  err : Error → Result A

abbrev pub IsFault : Error → Type 0
IsFault (plain m) = ⊥
IsFault (wrapped m e) = ⊥
IsFault (fault k c m u) = Unit
