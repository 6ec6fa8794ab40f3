-- ===== src/AppError/Codes.antt =====
-- The codes and kinds of application errors.
use domainry_foundation.Prelude.{
  ◌≡◌, refl, inl, inr, true, false, Bool-cases, Option-cases, Option, none, some, String, str_eq,
  arith, trim_space, trim_space_idem, is_some,
}
use domainry_foundation.AppError.Errors.{
  ErrorKind, Params, Error, no_error, app_error, coded_error, other_error, is_i18n_code,
  default_code, normalize_code, as_app, coded_details, wrapped, kept_or_wrapped, from_error,
  kind_of,
}

default_code-valid :
    (kind : ErrorKind)
    → (is_i18n_code (default_code kind) ≡ true)
      × (trim_space (default_code kind) ≡ default_code kind)
unfolding is_i18n_code default_code trim_space
default_code-valid kind = elim (Bool-cases (str_eq kind "bad_request")) [
  | inl t ↦ rw t (refl, refl)
  | inr a ↦ elim (Bool-cases (str_eq kind "forbidden")) [
    | inl t ↦ rw (a, t) (refl, refl)
    | inr b ↦ elim (Bool-cases (str_eq kind "not_found")) [
      | inl t ↦ rw (a, b, t) (refl, refl)
      | inr c ↦ elim (Bool-cases (str_eq kind "conflict")) [
        | inl t ↦ rw (a, b, c, t) (refl, refl)
        | inr d ↦ rw (a, b, c, d) (refl, refl)
      ]
    ]
  ]
]

-- Whatever text is given, the normal form of a code is a valid code, and normalising it again, for any
-- kind, changes nothing.
pub normalize_code-valid :
    (kind kind' : ErrorKind) (code : String)
    → (is_i18n_code (normalize_code kind code) ≡ true)
      × (normalize_code kind' (normalize_code kind code) ≡ normalize_code kind code)
unfolding normalize_code
normalize_code-valid kind kind' code = elim (Bool-cases (is_i18n_code (trim_space code))) [
  | inl good ↦ rw good (good, rw (trim_space_idem code, good) refl)
  | inr bad ↦
      let (valid, trimmed) = default_code-valid kind in rw bad (valid, rw (trimmed, valid) refl)
]

-- The kind that `FromError` leaves: the one of the application error that is there already, or the one
-- that is asked for.
abbrev pub first_kind : ErrorKind → Option (ErrorKind × String × Params) → ErrorKind
first_kind kind none = kind
first_kind kind (some (k, code, params)) = k

as_app-wrapped :
    (kind : ErrorKind) (err : Error) (o : Option (String × Params))
    → (is_some (as_app (wrapped kind err o)) ≡ true) × (kind_of (wrapped kind err o) ≡ kind)
as_app-wrapped kind err none = (refl, refl)
as_app-wrapped kind err (some (code, params)) = (refl, refl)

as_app-kept :
    (kind : ErrorKind) (err : Error) (o : Option (ErrorKind × String × Params))
    → as_app err ≡ o
    → (is_some (as_app (kept_or_wrapped kind err o)) ≡ true)
      × (kind_of (kept_or_wrapped kind err o) ≡ first_kind kind o)
as_app-kept kind err none e = as_app-wrapped kind err (coded_details err)
as_app-kept kind err (some (k, code, params)) e = rw (kind_of, e) (refl, refl)

-- `FromError` keeps the first classification: the kind of the result is that of the application error
-- found in the chain, or else the given one; and the result always has an application error in it.
pub from_error-kind :
    (kind : ErrorKind) (err : Error)
    → (kind_of (from_error kind err) ≡ first_kind kind (as_app err))
      × (is_some (as_app (from_error kind err)) ≡ true)
unfolding from_error
from_error-kind kind no_error = (refl, refl)
from_error-kind kind (app_error k code params err) = (refl, refl)
from_error-kind kind (coded_error code params) =
    let r = as_app-kept kind (coded_error code params) none refl in (r.1, r.0)
from_error-kind kind (other_error text err) =
    let r = as_app-kept kind (other_error text err) (as_app err) refl in (r.1, r.0)

from_error-app :
    (kind : ErrorKind) (err : Error) → is_some (as_app err) ≡ true → from_error kind err ≡ err
unfolding from_error
from_error-app kind no_error h = absurd (ground (arith, h))
from_error-app kind (app_error k code params err) h = refl
from_error-app kind (coded_error code params) h = absurd (ground (arith, h))
from_error-app kind (other_error text err) h = elim (Option-cases (as_app err)) [
  | inl gone ↦ let h' : false ≡ true = rw gone at h in absurd (ground (arith, h'))
  | inr (a, found) ↦ rw found refl
]

-- A second `FromError`, of whatever kind, gives the error back as it is.
pub from_error-twice :
    (kind kind' : ErrorKind) (err : Error)
    → from_error kind' (from_error kind err) ≡ from_error kind err
from_error-twice kind kind' err =
    from_error-app kind' (from_error kind err) ((from_error-kind kind err).1)
