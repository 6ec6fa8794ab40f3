-- ===== src/Action/Examples.antt =====
-- A batch of two actions of orders, and a registry frozen after it.
use domainry_foundation.Prelude.{
  one_of, ◌≡◌, str_eq, ◌↔◌, refl, true, false, Option, none, some, String, List, [], ◌∷◌, All,
  trim_space, trim_space_idem,
}
use domainry_foundation.Action.Model.{
  PermissionDefinition, ActionDefinition, normalize_definition, http_identity, non_http_identity,
}
use domainry_foundation.Action.Validation.{validate_definition}
use domainry_foundation.Action.Normal.{IsUpper}
use domainry_foundation.Action.Batches.{
  new_registry, http_identities, non_http_identities, is_retired,
}
use domainry_foundation.Action.Registry.{
  Call, register_call, freeze_call, run, register, freeze, definition, resolve_http,
  resolve_non_http,
}
use domainry_foundation.Action.Usage.{
  PermissionUsageRequest, UsageSnapshot, validate_request, validate_for, query_permission_usages,
  live, answered,
}
use domainry_foundation.Action.Usage.Sound.{validate_for-query_permission_usages}
use domainry_foundation.Action.Registry.Outcome.{register-freeze-definition, GivesOut}
use domainry_foundation.Action.Registry.Resolution.{
  resolve_http_lem, resolve_non_http_lem, definition_lem,
}

-- The texts of the batch are in upper case where that matters.
abbrev unchanged : String → String
unchanged s = s

unchanged-IsUpper : IsUpper unchanged
unchanged-IsUpper = trim_space_idem

abbrev order_permission : PermissionDefinition
order_permission = record {
  key = "orders.read";
  owner = "orders";
  resource_key = "orders";
  operation_key = "read";
  label = "Read orders";
  description = "";
  category = "orders";
  lifecycle_status = "active";
}

abbrev read_orders : ActionDefinition
read_orders = record {
  key = " orders.read ";
  owner = "orders";
  source_kind = "module";
  capability_key = "orders";
  capability_label = "Orders";
  operation_key = "read";
  operation_label = "Read";
  label = "Read orders";
  exposures = "public" ∷ "management" ∷ [];
  authorization = record { strategy = "authenticated"; policy_key = ""; audiences = [] };
  http = some (record { method = "GET"; route_template = "/orders "; display_route_template = "" });
  pages = [];
  non_http = record { kind = "job"; invocation_key = "orders.export" } ∷ [];
  permission = some order_permission;
  effect_class = "read";
  risk_level = "low";
  assurance_required = [];
  approval_policies = [];
  idempotency_decision = "none";
  audit_class = "access";
  audit_event = "";
  lifecycle_status = "active";
}

abbrev drop_orders : ActionDefinition
drop_orders = record read_orders {
  key = "orders.drop";
  http =
      some (record { method = "DELETE"; route_template = "/orders"; display_route_template = "" });
  non_http = [];
  permission = none;
  effect_class = "write";
  lifecycle_status = "retired";
}

abbrev batch : List ActionDefinition
batch = read_orders ∷ drop_orders ∷ []

abbrev encode : List ActionDefinition → Option String
encode ds = some "3f2a"

abbrev frozen_orders : List Call
frozen_orders = register_call batch ∷ freeze_call encode ∷ []

batch-accepted : (register unchanged batch (run unchanged [] new_registry)).0 ≡ none
unfolding register trim_space
batch-accepted = refl

batch-frozen :
    (freeze encode (register unchanged batch (run unchanged [] new_registry)).1).0 ≡ false
unfolding register freeze trim_space
batch-frozen = refl

run-frozen : (run unchanged frozen_orders new_registry).frozen ≡ true
unfolding register freeze trim_space
run-frozen = refl

-- The normal form of the first definition.
abbrev orders_read : ActionDefinition
orders_read = record read_orders {
  key = "orders.read";
  exposures = "management" ∷ "public" ∷ [];
  http = some (record { method = "GET"; route_template = "/orders"; display_route_template = "" });
}

orders_read-given :
    definition "orders.read" (run unchanged frozen_orders new_registry) ≡ some orders_read
unfolding register freeze trim_space definition normalize_definition
orders_read-given = refl

register-freeze-definition_example :
    All (GivesOut unchanged (freeze encode (register unchanged batch new_registry).1).1) batch
register-freeze-definition_example =
    register-freeze-definition unchanged unchanged-IsUpper [] batch encode batch-accepted
      batch-frozen

resolve_http_lem_example :
    (resolve_http unchanged "GET " "/orders" (run unchanged frozen_orders new_registry)
      ≡ some orders_read)
    ↔ ((definition orders_read.key (run unchanged frozen_orders new_registry) ≡ some orders_read)
        × (one_of (http_identities unchanged orders_read) (http_identity unchanged "GET " "/orders")
            ≡ true))
resolve_http_lem_example =
    resolve_http_lem unchanged unchanged-IsUpper frozen_orders run-frozen "GET " "/orders"
      orders_read

resolve_non_http_lem_example :
    (resolve_non_http "job" "orders.export" (run unchanged frozen_orders new_registry)
      ≡ some orders_read)
    ↔ ((definition orders_read.key (run unchanged frozen_orders new_registry) ≡ some orders_read)
        × (one_of (non_http_identities orders_read) (non_http_identity "job" "orders.export")
            ≡ true))
resolve_non_http_lem_example =
    resolve_non_http_lem unchanged unchanged-IsUpper frozen_orders run-frozen "job" "orders.export"
      orders_read

definition_lem_example :
    (orders_read.key ≡ trim_space "orders.read")
    × (validate_definition orders_read ≡ none)
    × (normalize_definition unchanged orders_read ≡ orders_read)
    × (is_retired orders_read ≡ false)
definition_lem_example =
    definition_lem unchanged unchanged-IsUpper frozen_orders run-frozen "orders.read" orders_read
      orders_read-given

abbrev orders_request : PermissionUsageRequest
orders_request = record {
  version = "domainry-action-permission-usage-v1";
  queries =
      record { source_owner = " orders"; permission_keys = "orders.read" ∷ "orders.drop" ∷ [] }
      ∷ record { source_owner = "billing"; permission_keys = "invoices.read" ∷ [] }
      ∷ [];
}

orders_request-valid : validate_request orders_request ≡ none
unfolding validate_request trim_space
orders_request-valid = refl

run-revised : str_eq (trim_space (run unchanged frozen_orders new_registry).revision) "" ≡ false
unfolding register freeze trim_space
run-revised = refl

validate_for-query_permission_usages_example :
    (s : UsageSnapshot) × (query_permission_usages live orders_request
        (some (run unchanged frozen_orders new_registry))
      ≡ answered s)
    × (validate_for unchanged orders_request s ≡ none)
validate_for-query_permission_usages_example =
    validate_for-query_permission_usages unchanged unchanged-IsUpper frozen_orders orders_request
      run-frozen orders_request-valid run-revised
