-- ===== src/Action/Normal.antt =====
-- The normal form of definitions, and what their validation establishes.
use domainry_foundation.Prelude.{
  and_then, and_then-none, refuse, refuse-none, ◌≡◌, refl, ap, Bool, true, false, not, ◌&&◌, Option,
  none, some, String, eq_iff, [], sort_idem, sort-map_idem, text_le, text_le_total, trim_space,
  trim_space_idem, arith,
}
use domainry_foundation.Action.Model.{
  HttpBinding, PageBinding, NonHttpBinding, PermissionDefinition, ActionDefinition, page_le,
  non_http_le, trim_page, trim_non_http, trim_permission, option_map, trim_http,
  normalize_definition,
}
use domainry_foundation.Action.Validation.{
  exposure_required, binding_required, is_stable_key, is_empty, has_value, check_exposures,
  check_http, check_pages, check_non_http, validate_authorization, check_policies, required, stable,
  required_fields, key_fields, check_bindings, check_permission, validate_permission,
  validate_definition,
}

page_le_total : (p q : PageBinding) → page_le p q ≡ false → page_le q p ≡ true
page_le_total p q h = ground (
  arith,
  text_le_total p.label q.label,
  text_le_total p.route q.route,
  eq_iff p.route q.route,
  eq_iff q.route p.route,
  h,
)

non_http_le_total : (a b : NonHttpBinding) → non_http_le a b ≡ false → non_http_le b a ≡ true
non_http_le_total a b h = ground (
  arith,
  text_le_total a.invocation_key b.invocation_key,
  text_le_total a.kind b.kind,
  eq_iff a.kind b.kind,
  eq_iff b.kind a.kind,
  h,
)

trim_page_idem : (p : PageBinding) → trim_page (trim_page p) ≡ trim_page p
trim_page_idem p = rw (trim_space_idem p.route, trim_space_idem p.label) refl

trim_non_http_idem : (b : NonHttpBinding) → trim_non_http (trim_non_http b) ≡ trim_non_http b
trim_non_http_idem b = rw (trim_space_idem b.kind, trim_space_idem b.invocation_key) refl

trim_permission_idem :
    (p : PermissionDefinition) → trim_permission (trim_permission p) ≡ trim_permission p
trim_permission_idem p =
    rw
      (
        trim_space_idem p.key,
        trim_space_idem p.owner,
        trim_space_idem p.resource_key,
        trim_space_idem p.operation_key,
        trim_space_idem p.label,
        trim_space_idem p.description,
        trim_space_idem p.category,
      )
      refl

option_map_idem :
    {A : Type 0} (f : A → A)
    → ((a : A) → f (f a) ≡ f a)
    → (o : Option A) → option_map f (option_map f o) ≡ option_map f o
option_map_idem f idem none = refl
option_map_idem f idem (some a) = ap some (idem a)

-- `strings.ToUpper` of a trimmed text gives a trimmed text in upper case.
abbrev pub IsUpper : (String → String) → Type 0
IsUpper to_upper =
    (s : String) → to_upper (trim_space (to_upper (trim_space s))) ≡ to_upper (trim_space s)

module _ (to_upper : String → String) (upper : IsUpper to_upper) where
  trim_http_idem :
      (b : HttpBinding) → trim_http to_upper (trim_http to_upper b) ≡ trim_http to_upper b
  trim_http_idem b =
      rw
        (upper b.method, trim_space_idem b.route_template, trim_space_idem b.display_route_template)
        refl

  -- Normalising a normal definition changes nothing.
  pub normalize_definition_idem :
      (d : ActionDefinition)
      → normalize_definition to_upper (normalize_definition to_upper d)
        ≡ normalize_definition to_upper d
  unfolding normalize_definition
  normalize_definition_idem d =
      rw
        (
          trim_space_idem d.key,
          trim_space_idem d.owner,
          trim_space_idem d.source_kind,
          trim_space_idem d.capability_key,
          trim_space_idem d.capability_label,
          trim_space_idem d.operation_key,
          trim_space_idem d.operation_label,
          trim_space_idem d.label,
          trim_space_idem d.idempotency_decision,
          trim_space_idem d.audit_class,
          trim_space_idem d.audit_event,
          trim_space_idem d.authorization.policy_key,
          sort-map_idem text_le trim_space trim_space_idem text_le_total d.exposures,
          sort-map_idem text_le trim_space trim_space_idem text_le_total d.authorization.audiences,
          sort-map_idem text_le trim_space trim_space_idem text_le_total d.assurance_required,
          sort-map_idem page_le trim_page trim_page_idem page_le_total d.pages,
          sort-map_idem non_http_le trim_non_http trim_non_http_idem non_http_le_total d.non_http,
          sort_idem text_le text_le_total d.approval_policies,
          option_map_idem (trim_http to_upper) trim_http_idem d.http,
          option_map_idem trim_permission trim_permission_idem d.permission,
        )
        refl

-- The permission of a definition has its key, of a resource and an operation, and its owner.
abbrev pub Owns : ActionDefinition → PermissionDefinition → Type 0
Owns d p =
    (p.key ≡ d.key)
    × (p.owner ≡ d.owner)
    × (is_stable_key p.key ≡ true)
    × (is_stable_key p.owner ≡ true)

not-not : (b : Bool) → not b ≡ false → b ≡ true
not-not true h = refl
not-not false h = cc

pub accepted_keys :
    (d : ActionDefinition)
    → validate_definition d ≡ none
    → (is_stable_key d.key ≡ true) × (is_stable_key d.owner ≡ true)
unfolding validate_definition
accepted_keys d h =
    let fields = (and_then-none _ _ (and_then-none _ _ h).1).0 in
    let key = refuse-none _ _ _ fields in
    let owner = refuse-none _ _ _ key.1 in
    (not-not (is_stable_key d.key) key.0, not-not (is_stable_key d.owner) owner.0)

pub accepted_bindings :
    (d : ActionDefinition) → validate_definition d ≡ none → check_bindings d ≡ none
unfolding validate_definition
accepted_bindings d h =
    let behind = and_then (check_bindings d) (check_policies d) in
    let exposed = and_then (check_exposures [] d.exposures) behind in
    let named = refuse (is_empty d.exposures) exposure_required exposed in
    let fields =
      and_then-none (required (required_fields d)) (and_then (stable (key_fields d)) named) h in
    let exposures = and_then-none (stable (key_fields d)) named fields.1 in
    let bound = refuse-none (is_empty d.exposures) exposure_required exposed exposures.1 in
    let checked = and_then-none (check_exposures [] d.exposures) behind bound.1 in
    (and_then-none (check_bindings d) (check_policies d) checked.1).0

pub validate_permission-Owns :
    (d : ActionDefinition) (p : PermissionDefinition) → validate_permission d p ≡ none → Owns d p
unfolding validate_permission
validate_permission-Owns d p h =
    let key = eq_iff p.key d.key in
    let owner = eq_iff p.owner d.owner in
    (key.0 (ground (arith, h)), owner.0 (ground (arith, h)), ground (arith, h), ground (arith, h))

pub accepted_permission :
    (d : ActionDefinition) (p : PermissionDefinition)
    → validate_definition d ≡ none
    → d.permission ≡ some p
    → Owns d p
unfolding check_bindings
accepted_permission d p h e =
    let permitted = check_permission d d.permission in
    let allowed =
      and_then (validate_authorization d.authorization (has_value d.permission)) permitted in
    let reached = and_then (check_non_http [] d.non_http) allowed in
    let paged = and_then (check_pages [] d.pages) reached in
    let served = and_then (check_http d.http) paged in
    let unbound = not (has_value d.http) && is_empty d.non_http in
    let bound = refuse-none unbound binding_required served (accepted_bindings d h) in
    let pages = and_then-none (check_http d.http) paged bound.1 in
    let non_http = and_then-none (check_pages [] d.pages) reached pages.1 in
    let authorized = and_then-none (check_non_http [] d.non_http) allowed non_http.1 in
    let last =
      and_then-none (validate_authorization d.authorization (has_value d.permission)) permitted
        authorized.1 in
    validate_permission-Owns d p (rw e at last.1)
