-- ===== src/Action/Model.antt =====
-- action/contract.go, and the normalisation of definitions and the identities of bindings in
-- action/validation.go. A clone of a definition is the definition itself here; `strings.ToUpper` is a
-- parameter.
use Prim.Native.Char.{nul}
use Prim.Native.String.{◌++◌}
use domainry_foundation.Prelude.{
  Bool, true, false, not, ◌&&◌, Option, none, some, String, str_eq, List, [], ◌∷◌, map, sort,
  text_le, trim_space, if◌then◌else◌,
}

pub record Authorization : Type 0 where
  pub strategy : String
  pub policy_key : String
  pub audiences : List String

pub record HttpBinding : Type 0 where
  pub method : String
  pub route_template : String
  pub display_route_template : String

pub record PageBinding : Type 0 where
  pub route : String
  pub label : String

pub record NonHttpBinding : Type 0 where
  pub kind : String
  pub invocation_key : String

pub record PermissionDefinition : Type 0 where
  pub key : String
  pub owner : String
  pub resource_key : String
  pub operation_key : String
  pub label : String
  pub description : String
  pub category : String
  pub lifecycle_status : String

pub record ActionDefinition : Type 0 where
  pub key : String
  pub owner : String
  pub source_kind : String
  pub capability_key : String
  pub capability_label : String
  pub operation_key : String
  pub operation_label : String
  pub label : String
  pub exposures : List String
  pub authorization : Authorization
  pub http : Option HttpBinding
  pub pages : List PageBinding
  pub non_http : List NonHttpBinding
  pub permission : Option PermissionDefinition
  pub effect_class : String
  pub risk_level : String
  pub assurance_required : List String
  pub approval_policies : List String
  pub idempotency_decision : String
  pub audit_class : String
  pub audit_event : String
  pub lifecycle_status : String

abbrev pub page_le : PageBinding → PageBinding → Bool
page_le p q = if str_eq p.route q.route then text_le p.label q.label else text_le p.route q.route

abbrev pub non_http_le : NonHttpBinding → NonHttpBinding → Bool
non_http_le a b =
    if str_eq a.kind b.kind
    then text_le a.invocation_key b.invocation_key
    else text_le a.kind b.kind

abbrev pub trim_page : PageBinding → PageBinding
trim_page p = record { route = trim_space p.route; label = trim_space p.label }

abbrev pub trim_non_http : NonHttpBinding → NonHttpBinding
trim_non_http b = record { kind = trim_space b.kind; invocation_key = trim_space b.invocation_key }

abbrev pub trim_permission : PermissionDefinition → PermissionDefinition
trim_permission p = record {
  key = trim_space p.key;
  owner = trim_space p.owner;
  resource_key = trim_space p.resource_key;
  operation_key = trim_space p.operation_key;
  label = trim_space p.label;
  description = trim_space p.description;
  category = trim_space p.category;
  lifecycle_status = p.lifecycle_status;
}

abbrev pub trim_authorization : Authorization → Authorization
trim_authorization a = record {
  strategy = a.strategy;
  policy_key = trim_space a.policy_key;
  audiences = sort text_le (map trim_space a.audiences);
}

abbrev pub option_map : {A B : Type 0} → (A → B) → Option A → Option B
option_map f none = none
option_map f (some a) = some (f a)

-- A text between two parts of an identity, which no key has.
abbrev pub joined : String → String → String
joined s t = s ++ (String.◌∷◌ nul String.[] ++ t)

abbrev pub non_http_identity : String → String → String
non_http_identity kind invocation_key = joined (trim_space kind) (trim_space invocation_key)

abbrev pub permission_identity : String → String → String
permission_identity owner key = joined (trim_space owner) (trim_space key)

abbrev is_empty : {A : Type 0} → List A → Bool
is_empty [] = true
is_empty (_ ∷ _) = false

module _ (to_upper : String → String) where
  abbrev pub trim_http : HttpBinding → HttpBinding
  trim_http b = record {
    method = to_upper (trim_space b.method);
    route_template = trim_space b.route_template;
    display_route_template = trim_space b.display_route_template;
  }

  -- `normalizeDefinition`
  unfoldable pub normalize_definition : ActionDefinition → ActionDefinition
  normalize_definition d = record {
    key = trim_space d.key;
    owner = trim_space d.owner;
    source_kind = trim_space d.source_kind;
    capability_key = trim_space d.capability_key;
    capability_label = trim_space d.capability_label;
    operation_key = trim_space d.operation_key;
    operation_label = trim_space d.operation_label;
    label = trim_space d.label;
    exposures = sort text_le (map trim_space d.exposures);
    authorization = trim_authorization d.authorization;
    http = option_map trim_http d.http;
    pages = sort page_le (map trim_page d.pages);
    non_http = sort non_http_le (map trim_non_http d.non_http);
    permission = option_map trim_permission d.permission;
    effect_class = d.effect_class;
    risk_level = d.risk_level;
    assurance_required = sort text_le (map trim_space d.assurance_required);
    approval_policies = sort text_le d.approval_policies;
    idempotency_decision = trim_space d.idempotency_decision;
    audit_class = trim_space d.audit_class;
    audit_event = trim_space d.audit_event;
    lifecycle_status = d.lifecycle_status;
  }

  abbrev pub http_identity : String → String → String
  http_identity method route = to_upper (trim_space method) ++ (" " ++ trim_space route)

  -- `definitionHTTPIdentity` of a definition with an HTTP binding.
  abbrev pub binding_identity : ActionDefinition → HttpBinding → String
  binding_identity d b = http_identity b.method (
      if not (is_empty d.non_http) && not (str_eq b.display_route_template "")
      then b.display_route_template
      else b.route_template)
