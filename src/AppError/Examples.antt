-- ===== src/AppError/Examples.antt =====
-- The theorems on application errors at concrete errors.
use domainry_foundation.Prelude.{◌≡◌, true, [], is_some}
use domainry_foundation.AppError.Errors.{
  Error, coded_error, other_error, as_app, from_error, kind_of,
}
use domainry_foundation.AppError.Codes.{first_kind, from_error-kind}

-- A coded error inside an error from elsewhere.
abbrev failure : Error
failure = other_error "insert: duplicate" (coded_error "orders.duplicate" [])

from_error-kind_example :
    (kind_of (from_error "conflict" failure) ≡ first_kind "conflict" (as_app failure))
    × (is_some (as_app (from_error "conflict" failure)) ≡ true)
from_error-kind_example = from_error-kind "conflict" failure
