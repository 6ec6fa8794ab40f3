-- ===== src/Action/Validation.antt =====
-- action/validation.go: the validation of normalised definitions. Each message of the code is a
-- constructor of the error; where the message names the action, that is left out.
use Prim.Native.String.{◌++◌}
use text.Mathlib.Text.{starts_with}
use domainry_foundation.Prelude.{
  and_then, one_of, refuse, ℕ, Bool, true, false, not, ◌&&◌, ◌||◌, Option, none, some, String,
  str_eq, codes, List, [], ◌∷◌, leb, ◌==◌, trim_space, if◌then◌else◌,
}
use domainry_foundation.Action.Model.{
  Authorization, HttpBinding, PageBinding, NonHttpBinding, PermissionDefinition, ActionDefinition,
  joined, non_http_identity,
}

pub data ActionError : Type 0 where
  field_required field_invalid : String → ActionError
  exposure_required : ActionError
  exposure_unsupported exposure_repeated : String → ActionError
  binding_required http_invalid display_invalid object_wildcard action_wildcard : ActionError
  page_invalid page_repeated non_http_invalid : ActionError
  non_http_repeated : String → ActionError
  anonymous_invalid authenticated_invalid signed_invalid strategy_unsupported : ActionError
  permission_incomplete permission_owner_differs permission_key_differs permission_not_composed :
      ActionError
  permission_lifecycle_unsupported effect_unsupported risk_unsupported assurance_invalid :
      ActionError
  approval_unsupported approval_repeated : String → ActionError
  lifecycle_unsupported : ActionError

abbrev pub is_lower : ℕ → Bool
is_lower c = leb b'a' c && leb c b'z'

abbrev pub is_digit : ℕ → Bool
is_digit c = leb b'0' c && leb c b'9'

abbrev pub is_upper : ℕ → Bool
is_upper c = leb b'A' c && leb c b'Z'

abbrev pub is_mark : ℕ → Bool
is_mark c = c == b'.' || (c == b'_' || (c == b':' || (c == b'/' || c == b'-')))

-- The rest of a key: words of the given characters with single marks between them. With `begun` off a
-- mark was read and a word has to begin.
unfoldable pub key_rest : (ℕ → Bool) → Bool → List ℕ → Bool
key_rest in_word begun [] = begun
key_rest in_word begun (c ∷ cs) =
    let rest = key_rest in_word (in_word c) cs in
    if in_word c || (is_mark c && begun) then rest else false

abbrev pub key_codes : (ℕ → Bool) → List ℕ → Bool
key_codes in_word [] = false
key_codes in_word (c ∷ cs) = is_lower c && key_rest in_word true cs

-- `stableKeyPattern`
unfoldable pub is_stable_key : String → Bool
unfolding key_rest
is_stable_key s = key_codes (λ c. is_lower c || is_digit c) (codes s)

-- `resolverKeyPattern`
unfoldable pub is_resolver_key : String → Bool
unfolding key_rest
is_resolver_key s = key_codes (λ c. is_lower c || (is_upper c || is_digit c)) (codes s)

abbrev pub http_methods : List String
http_methods = "DELETE" ∷ "GET" ∷ "HEAD" ∷ "OPTIONS" ∷ "PATCH" ∷ "POST" ∷ "PUT" ∷ []

-- `strings.Contains`
abbrev pub contains : String → String → Bool
contains String.[] t = starts_with String.[] t
contains (String.◌∷◌ c s) t = let rest = contains s t in starts_with (String.◌∷◌ c s) t || rest

abbrev pub is_route_breaker : ℕ → Bool
is_route_breaker c = c == 32 || (c == 9 || (c == 13 || (c == 10 || (c == b'?' || c == b'#'))))

abbrev pub all_plain : List ℕ → Bool
all_plain [] = true
all_plain (c ∷ cs) = let rest = all_plain cs in not (is_route_breaker c) && rest

-- `validRouteTemplate`
unfoldable pub valid_route_template : String → Bool
valid_route_template s = starts_with s "/" && all_plain (codes s)

-- `duplicateOrBlank`
unfoldable pub duplicate_or_blank : List String → List String → Bool
duplicate_or_blank seen [] = false
duplicate_or_blank seen (v ∷ vs) =
    let rest = duplicate_or_blank (v ∷ seen) vs in str_eq v "" || (one_of seen v || rest)

abbrev pub required : List (String × String) → Option ActionError
required [] = none
required ((name, value) ∷ fs) =
    let rest = required fs in refuse (str_eq (trim_space value) "") (field_required name) rest

abbrev pub stable : List (String × String) → Option ActionError
stable [] = none
stable ((name, value) ∷ fs) =
    let rest = stable fs in refuse (not (is_stable_key value)) (field_invalid name) rest

unfoldable pub check_exposures : List String → List String → Option ActionError
check_exposures seen [] = none
check_exposures seen (e ∷ es) =
    let rest = check_exposures (e ∷ seen) es in
    refuse (not (one_of ("public" ∷ "management" ∷ "ops" ∷ []) e)) (exposure_unsupported e)
      (refuse (one_of seen e) (exposure_repeated e) rest)

-- The display route of an HTTP binding.
abbrev pub check_display : HttpBinding → Option ActionError
check_display b =
    let display = b.display_route_template in
    if str_eq display ""
    then none
    else refuse (not (valid_route_template display)) display_invalid (
        refuse (contains b.route_template "{objectKey}" && contains display "{objectKey}")
          object_wildcard
          (refuse (contains b.route_template "{actionKey}" && contains display "{actionKey}")
            action_wildcard none))

unfoldable pub check_http : Option HttpBinding → Option ActionError
unfolding valid_route_template
check_http none = none
check_http (some b) =
    refuse (not (one_of http_methods b.method) || not (valid_route_template b.route_template))
      http_invalid (check_display b)

unfoldable pub check_pages : List String → List PageBinding → Option ActionError
unfolding valid_route_template
check_pages seen [] = none
check_pages seen (p ∷ ps) =
    let identity = joined p.route p.label in
    let rest = check_pages (identity ∷ seen) ps in
    refuse (not (valid_route_template p.route) || str_eq p.label "") page_invalid
      (refuse (one_of seen identity) page_repeated rest)

unfoldable pub check_non_http : List String → List NonHttpBinding → Option ActionError
unfolding is_stable_key
check_non_http seen [] = none
check_non_http seen (b ∷ bs) =
    let identity = non_http_identity b.kind b.invocation_key in
    let rest = check_non_http (identity ∷ seen) bs in
    refuse (not (is_stable_key b.kind) || not (is_stable_key b.invocation_key)) non_http_invalid
      (refuse (one_of seen identity) (non_http_repeated identity) rest)

abbrev pub is_empty : {A : Type 0} → List A → Bool
is_empty [] = true
is_empty (_ ∷ _) = false

abbrev pub has_value : {A : Type 0} → Option A → Bool
has_value none = false
has_value (some _) = true

-- `validateAuthorization`
unfoldable pub validate_authorization : Authorization → Bool → Option ActionError
unfolding is_resolver_key duplicate_or_blank
validate_authorization a has_permission =
    if str_eq a.strategy "anonymous"
    then refuse (has_permission || (not (str_eq a.policy_key "") || not (is_empty a.audiences)))
        anonymous_invalid none
    else if str_eq a.strategy "authenticated"
    then refuse (not (is_empty a.audiences) || (not (str_eq a.policy_key "") && not has_permission))
        authenticated_invalid none
    else if str_eq a.strategy "signed"
    then refuse
        (has_permission
          || (not (is_resolver_key a.policy_key) || duplicate_or_blank [] a.audiences))
        signed_invalid none
    else some strategy_unsupported

-- `validatePermissionDefinition`
unfoldable pub validate_permission : ActionDefinition → PermissionDefinition → Option ActionError
unfolding is_stable_key
validate_permission d p =
    refuse
      (not (is_stable_key p.key)
        || (not (is_stable_key p.owner)
            || (not (is_stable_key p.resource_key)
                || (not (is_stable_key p.operation_key)
                    || (str_eq p.label "" || str_eq p.category "")))))
      permission_incomplete
      (refuse (not (str_eq p.owner d.owner)) permission_owner_differs (
        refuse (not (str_eq p.key d.key)) permission_key_differs (
          refuse (not (str_eq p.key (p.resource_key ++ ("." ++ p.operation_key))))
            permission_not_composed
            (refuse (not (one_of ("active" ∷ "retired" ∷ []) p.lifecycle_status))
              permission_lifecycle_unsupported none))))

abbrev pub check_permission : ActionDefinition → Option PermissionDefinition → Option ActionError
check_permission d none = none
check_permission d (some p) = validate_permission d p

unfoldable pub check_approvals : List String → List String → Option ActionError
check_approvals seen [] = none
check_approvals seen (p ∷ ps) =
    let rest = check_approvals (p ∷ seen) ps in
    refuse
      (not (
        one_of
          ("reason_required" ∷ "confirmation_required" ∷ "break_glass_required" ∷ "maker_checker"
            ∷ "workflow_approval" ∷ [])
          p))
      (approval_unsupported p) (refuse (one_of seen p) (approval_repeated p) rest)

abbrev pub required_fields : ActionDefinition → List (String × String)
required_fields d =
    ("key", d.key)
    ∷ ("owner", d.owner)
    ∷ ("source kind", d.source_kind)
    ∷ ("capability key", d.capability_key)
    ∷ ("capability label", d.capability_label)
    ∷ ("operation key", d.operation_key)
    ∷ ("operation label", d.operation_label)
    ∷ ("label", d.label)
    ∷ ("idempotency decision", d.idempotency_decision)
    ∷ ("audit class", d.audit_class)
    ∷ []

abbrev pub key_fields : ActionDefinition → List (String × String)
key_fields d =
    ("key", d.key)
    ∷ ("owner", d.owner)
    ∷ ("source kind", d.source_kind)
    ∷ ("capability key", d.capability_key)
    ∷ ("operation key", d.operation_key)
    ∷ []

-- `validateDefinition`, the checks of the bindings and of authority.
unfoldable pub check_bindings : ActionDefinition → Option ActionError
unfolding check_http check_pages check_non_http validate_authorization validate_permission
check_bindings d = refuse (not (has_value d.http) && is_empty d.non_http) binding_required (
    and_then (check_http d.http) (
      and_then (check_pages [] d.pages) (
        and_then (check_non_http [] d.non_http) (
          and_then (validate_authorization d.authorization (has_value d.permission))
            (check_permission d d.permission)))))

-- `validateDefinition`, the checks behind those of authority.
unfoldable pub check_policies : ActionDefinition → Option ActionError
unfolding check_approvals duplicate_or_blank
check_policies d = refuse (not (one_of ("read" ∷ "write" ∷ []) d.effect_class)) effect_unsupported (
    refuse (not (one_of ("low" ∷ "medium" ∷ "high" ∷ "critical" ∷ []) d.risk_level))
      risk_unsupported
      (refuse (duplicate_or_blank [] d.assurance_required) assurance_invalid (
        and_then (check_approvals [] d.approval_policies) (
          refuse (not (one_of ("active" ∷ "deprecated" ∷ "retired" ∷ []) d.lifecycle_status))
            lifecycle_unsupported none))))

-- `validateDefinition`
unfoldable pub validate_definition : ActionDefinition → Option ActionError
unfolding is_stable_key check_exposures check_bindings check_policies
validate_definition d = and_then (required (required_fields d)) (
    and_then (stable (key_fields d)) (
      refuse (is_empty d.exposures) exposure_required (
        and_then (check_exposures [] d.exposures)
          (and_then (check_bindings d) (check_policies d)))))
