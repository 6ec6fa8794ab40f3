-- ===== src/AppError/Errors.antt =====
-- apperror/app_error.go and apperror/app_error_contract.go: application errors and their codes. An error
-- is nil, one of the two types of the package, or an error from elsewhere, with its text and the error
-- that it wraps; `errors.As` walks down the wrapped errors. Maps are not shared, so a copy is the map.
use domainry_foundation.Prelude.{
  ℕ, Bool, true, false, not, ◌&&◌, ◌||◌, ◌==◌, leb, String, str_eq, Option, none, some, List, [],
  ◌∷◌, Map, codes, trim_space, if◌then◌else◌,
}

abbrev pub ErrorKind : Type 0
ErrorKind = String

abbrev pub kind_internal : ErrorKind
kind_internal = "internal"

abbrev pub Params : Type 0
Params = Map String

pub data Error : Type 0 where
  no_error : Error
  app_error : ErrorKind → String → Params → Error → Error
  coded_error : String → Params → Error
  other_error : String → Error → Error

-- `strings.Contains(code, ".")` and `strings.ContainsAny(code, " \t\n\r")`, on code points.
abbrev pub has_dot : List ℕ → Bool
has_dot [] = false
has_dot (c ∷ cs) = let rest = has_dot cs in c == 46 || rest

abbrev pub has_blank : List ℕ → Bool
has_blank [] = false
has_blank (c ∷ cs) =
    let rest = has_blank cs in (c == 32 || (c == 9 || (c == 10 || c == 13))) || rest

abbrev pub is_code_char : ℕ → Bool
is_code_char c =
    (leb 97 c && leb c 122)
    || ((leb 65 c && leb c 90) || ((leb 48 c && leb c 57) || (c == 95 || (c == 45 || c == 46))))

abbrev pub all_code_chars : List ℕ → Bool
all_code_chars [] = true
all_code_chars (c ∷ cs) = let rest = all_code_chars cs in is_code_char c && rest

unfoldable pub is_i18n_code : String → Bool
is_i18n_code code =
    if not (has_dot (codes code)) || has_blank (codes code)
    then false
    else all_code_chars (codes code)

unfoldable pub default_code : ErrorKind → String
default_code kind =
    if str_eq kind "bad_request"
    then "backend.bad_request"
    else if str_eq kind "forbidden"
    then "backend.forbidden"
    else if str_eq kind "not_found"
    then "backend.not_found"
    else if str_eq kind "conflict"
    then "backend.conflict"
    else "backend.internal"

unfoldable pub normalize_code : ErrorKind → String → String
normalize_code kind code =
    if is_i18n_code (trim_space code) then trim_space code else default_code kind

-- `New`
abbrev pub new_error : ErrorKind → String → Error → Params → Error
new_error kind code err params = app_error kind (normalize_code kind code) params err

-- `errors.As` for an `*AppError`: its kind, its code and its parameters.
abbrev pub as_app : Error → Option (ErrorKind × String × Params)
as_app no_error = none
as_app (app_error kind code params err) = some (kind, code, params)
as_app (coded_error code params) = none
as_app (other_error text err) = as_app err

-- `errors.As` for an error with `ErrorCode` and `ErrorParams`, which trim the code.
abbrev pub as_coded : Error → Option (String × Params)
as_coded no_error = none
as_coded (app_error kind code params err) = some (trim_space code, params)
as_coded (coded_error code params) = some (trim_space code, params)
as_coded (other_error text err) = as_coded err

abbrev pub valid_details : Option (String × Params) → Option (String × Params)
valid_details none = none
valid_details (some (code, params)) =
    if is_i18n_code (trim_space code) then some (trim_space code, params) else none

unfoldable pub coded_details : Error → Option (String × Params)
coded_details err = valid_details (as_coded err)

abbrev pub wrapped : ErrorKind → Error → Option (String × Params) → Error
wrapped kind err none = app_error kind (default_code kind) [] err
wrapped kind err (some (code, params)) = app_error kind code params err

abbrev pub kept_or_wrapped : ErrorKind → Error → Option (ErrorKind × String × Params) → Error
kept_or_wrapped kind err none = wrapped kind err (coded_details err)
kept_or_wrapped kind err (some _) = err

unfoldable pub from_error : ErrorKind → Error → Error
from_error kind no_error = new_error kind (default_code kind) no_error []
from_error kind err = kept_or_wrapped kind err (as_app err)

abbrev pub kind_in : Option (ErrorKind × String × Params) → ErrorKind
kind_in none = kind_internal
kind_in (some (kind, code, params)) = kind

abbrev pub code_in : Option (ErrorKind × String × Params) → String
code_in none = default_code kind_internal
code_in (some (kind, code, params)) = trim_space code

abbrev pub params_in : Option (ErrorKind × String × Params) → Params
params_in none = []
params_in (some (kind, code, params)) = params

abbrev pub kind_of : Error → ErrorKind
kind_of err = kind_in (as_app err)

abbrev pub code_of : Error → String
code_of err = code_in (as_app err)

abbrev pub params_of : Error → Params
params_of err = params_in (as_app err)

unfoldable pub value_or_default : String → String → String
value_or_default value fallback =
    if str_eq (trim_space value) "" then fallback else trim_space value
