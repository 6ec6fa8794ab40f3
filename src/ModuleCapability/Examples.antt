-- ===== src/ModuleCapability/Examples.antt =====
-- The summary of a module of orders.
use domainry_foundation.Prelude.{◌≡◌, ◌≤◌, refl, pos, none, some, [], ◌∷◌, trim_space}
use domainry_foundation.ModuleCapability.Summary.{
  CategorySummary, ModuleSummary, validate_module_summary,
}
use domainry_foundation.ModuleCapability.Composition.{places, validate_module_summary-places}

abbrev reading : CategorySummary
reading = record {
  key = "orders.read";
  name = "Reading";
  description = "Reading orders";
  operation_count = pos 2;
  projection_count = pos 0;
  assembly_chains = some [];
  validation_scopes = some [];
}

abbrev orders : ModuleSummary
orders = record {
  identity = record {
    key = "orders";
    source_owner = "sales";
    module_version = "1.2.0";
    version = "domainry-module-capability-v1";
    contract_sha256 = "0123456789abcdef0123456789abcdef0123456789abcdef0123456789abcdef";
    validation_version = "domainry-module-capability-validation-v1";
    validation_revision = "3";
    supported_deployment_modes = "module" ∷ "saas" ∷ [];
  };
  name = "Orders";
  description = "Orders of customers";
  composition = record {
    provided_capabilities = some ("orders" ∷ []);
    required_modules = some ("customers" ∷ "identity" ∷ []);
    optional_modules = some ("billing" ∷ []);
    conflicting_modules = some ("legacy_orders" ∷ []);
    assembly_chains = some ("http" ∷ []);
    validation_scopes = some [];
  };
  categories = some (reading ∷ []);
}

orders-valid : validate_module_summary orders ≡ none
unfolding validate_module_summary trim_space
orders-valid = refl

validate_module_summary-places_example :
    (places "billing" orders.composition ≤ 1) × (places "orders" orders.composition ≡ 0)
validate_module_summary-places_example =
    validate_module_summary-places orders orders-valid "billing"
