-- ===== src/ModuleCapability/Summary.antt =====
-- modulecapability/contract.go and modulecapability/validation.go: module summaries with their
-- composition and categories. A collection that JSON leaves null is `none`; `len` of a digest counts
-- bytes, which are the characters where each is a hexadecimal digit. The messages of the code are
-- constructors of the error, with the module key left out.
use domainry_foundation.Prelude.{
  ℕ, Bool, true, false, not, ◌&&◌, ◌||◌, Option, none, some, String, str_eq, codes, List, [], ◌∷◌,
  length, leb, ltb, ◌==◌, Map, lookup_or, insert, trim_space, text_le, one_of, refuse, and_then,
  if◌then◌else◌, ℤ, pos, ltb_ℤ,
}

abbrev pub contract_version : String
contract_version = "domainry-module-capability-v1"

abbrev pub validation_contract_version : String
validation_contract_version = "domainry-module-capability-validation-v1"

pub record ModuleIdentity : Type 0 where
  pub key : String
  pub source_owner : String
  pub module_version : String
  pub version : String
  pub contract_sha256 : String
  pub validation_version : String
  pub validation_revision : String
  pub supported_deployment_modes : List String

pub record ModuleComposition : Type 0 where
  pub provided_capabilities : Option (List String)
  pub required_modules : Option (List String)
  pub optional_modules : Option (List String)
  pub conflicting_modules : Option (List String)
  pub assembly_chains : Option (List String)
  pub validation_scopes : Option (List String)

pub record CategorySummary : Type 0 where
  pub key : String
  pub name : String
  pub description : String
  pub operation_count : ℤ
  pub projection_count : ℤ
  pub assembly_chains : Option (List String)
  pub validation_scopes : Option (List String)

pub record ModuleSummary : Type 0 where
  pub identity : ModuleIdentity
  pub name : String
  pub description : String
  pub composition : ModuleComposition
  pub categories : Option (List CategorySummary)

pub data CapabilityError : Type 0 where
  identity_key_required identity_invalid deployment_modes_required deployment_modes_invalid :
      CapabilityError
  name_required collections_required category_required categories_unsorted : CapabilityError
  category_invalid : CapabilityError
  category_collections_required : String → CapabilityError
  values_required values_repeated modules_invalid : String → CapabilityError
  module_in_both : String → String → String → CapabilityError

abbrev is_lower : ℕ → Bool
is_lower c = leb b'a' c && leb c b'z'

abbrev is_digit : ℕ → Bool
is_digit c = leb b'0' c && leb c b'9'

abbrev key_tail : Bool → List ℕ → Bool
key_tail begun [] = begun
key_tail begun (c ∷ cs) =
    let in_word = is_lower c || is_digit c in
    let rest = key_tail in_word cs in
    if in_word || ((c == b'.' || (c == b'_' || c == b'-')) && begun) then rest else false

abbrev key_codes : List ℕ → Bool
key_codes [] = false
key_codes (c ∷ cs) = is_lower c && key_tail true cs

-- `keyPattern`
unfoldable pub is_key : String → Bool
is_key s = key_codes (codes s)

abbrev all_hex : List ℕ → Bool
all_hex [] = true
all_hex (c ∷ cs) = let rest = all_hex cs in (is_digit c || (leb b'a' c && leb c b'f')) && rest

-- `sha256Pattern`
unfoldable pub is_sha256 : String → Bool
is_sha256 s = length (codes s) == 64 && all_hex (codes s)

abbrev pub is_blank : String → Bool
is_blank s = str_eq (trim_space s) ""

abbrev pub is_nil : {A : Type 0} → Option A → Bool
is_nil none = true
is_nil (some _) = false

abbrev pub items : {A : Type 0} → Option (List A) → List A
items none = []
items (some xs) = xs

abbrev pub is_empty : {A : Type 0} → List A → Bool
is_empty [] = true
is_empty (_ ∷ _) = false

abbrev check_modes : List String → List String → Option CapabilityError
check_modes seen [] = none
check_modes seen (v ∷ vs) =
    let rest = check_modes (v ∷ seen) vs in
    refuse (not (one_of ("module" ∷ "saas" ∷ []) v) || one_of seen v) deployment_modes_invalid rest

-- `validateDeploymentModes`
unfoldable pub validate_deployment_modes : List String → Option CapabilityError
validate_deployment_modes values =
    refuse (is_empty values) deployment_modes_required (check_modes [] values)

abbrev check_non_blank : String → List String → List String → Option CapabilityError
check_non_blank name seen [] = none
check_non_blank name seen (v ∷ vs) =
    let rest = check_non_blank name (trim_space v ∷ seen) vs in
    refuse (is_blank v || one_of seen (trim_space v)) (values_repeated name) rest

-- `validateUniqueNonBlank`
unfoldable pub validate_unique_non_blank : String → List String → Bool → Option CapabilityError
validate_unique_non_blank name values required =
    refuse (required && is_empty values) (values_required name) (check_non_blank name [] values)

-- `validateModuleKeys`, behind the values seen.
unfoldable pub validate_module_keys :
    String → String → List String → List String → Option CapabilityError
unfolding is_key
validate_module_keys module_key name seen [] = none
validate_module_keys module_key name seen (v ∷ vs) =
    let rest = validate_module_keys module_key name (v ∷ seen) vs in
    refuse (not (is_key v) || (str_eq v module_key || one_of seen v)) (modules_invalid name) rest

abbrev pub grouped : String → List String → Map String → Map String
grouped name [] groups = groups
grouped name (v ∷ vs) groups = grouped name vs (insert v name groups)

-- The modules of one list, none of which may stand in a list before.
unfoldable pub check_groups :
    String → List String → Map String → Option CapabilityError × Map String
check_groups name [] groups = (none, groups)
check_groups name (v ∷ vs) groups =
    let rest = check_groups name vs (insert v name groups) in
    if not (str_eq (lookup_or "" v groups) "")
    then (some (module_in_both v (lookup_or "" v groups) name), groups)
    else rest

abbrev pub check_disjoint : List String → List String → List String → Option CapabilityError
check_disjoint required optional conflicting =
    let (e, groups) =
      check_groups "optional_modules" optional (grouped "required_modules" required []) in
    and_then e (check_groups "conflicting_modules" conflicting groups).0

-- `validateComposition`
unfoldable pub validate_composition : String → ModuleComposition → Option CapabilityError
unfolding validate_unique_non_blank validate_module_keys check_groups
validate_composition module_key c =
    and_then
      (validate_unique_non_blank "provided_capabilities" (items c.provided_capabilities) true)
      (and_then (validate_unique_non_blank "assembly_chains" (items c.assembly_chains) true) (
        and_then (validate_unique_non_blank "validation_scopes" (items c.validation_scopes) false) (
          and_then
            (validate_module_keys module_key "required_modules" [] (items c.required_modules))
            (and_then
              (validate_module_keys module_key "optional_modules" [] (items c.optional_modules))
              (and_then
                (validate_module_keys module_key "conflicting_modules" []
                  (items c.conflicting_modules))
                (check_disjoint (items c.required_modules) (items c.optional_modules)
                  (items c.conflicting_modules)))))))

-- `ValidateCategorySummary`
unfoldable pub validate_category_summary : CategorySummary → Option CapabilityError
unfolding is_key validate_unique_non_blank
validate_category_summary c =
    refuse
      (not (is_key c.key)
        || (is_blank c.name
            || (is_blank c.description
                || (ltb_ℤ c.operation_count (pos 0)
                    || (ltb_ℤ (pos 20) c.operation_count
                        || (ltb_ℤ c.projection_count (pos 0)
                            || (ltb_ℤ (pos 50) c.projection_count
                                || ltb 50 (length (items c.validation_scopes)))))))))
      category_invalid
      (refuse (is_nil c.assembly_chains || is_nil c.validation_scopes)
        (category_collections_required c.key)
        (and_then (validate_unique_non_blank "assembly chains" (items c.assembly_chains) false)
          (validate_unique_non_blank "validation scopes" (items c.validation_scopes) false)))

unfoldable pub check_categories : String → List CategorySummary → Option CapabilityError
unfolding validate_category_summary
check_categories previous [] = none
check_categories previous (c ∷ cs) =
    let rest = check_categories c.key cs in
    and_then (validate_category_summary c)
      (refuse (not (str_eq previous "") && text_le c.key previous) categories_unsorted rest)

abbrev pub has_null : ModuleSummary → Bool
has_null s =
    is_nil s.composition.provided_capabilities
    || (is_nil s.composition.required_modules
        || (is_nil s.composition.optional_modules
            || (is_nil s.composition.conflicting_modules
                || (is_nil s.composition.assembly_chains
                    || (is_nil s.composition.validation_scopes || is_nil s.categories)))))

abbrev pub is_identity : ModuleIdentity → Bool
is_identity i =
    not (is_blank i.module_version)
    && (str_eq i.version contract_version
        && (str_eq i.validation_version validation_contract_version
            && (not (is_blank i.validation_revision) && is_sha256 i.contract_sha256)))

-- `ValidateModuleSummary`
unfoldable pub validate_module_summary : ModuleSummary → Option CapabilityError
unfolding is_key is_sha256 validate_deployment_modes validate_composition check_categories
validate_module_summary s =
    refuse (not (is_key s.identity.key) || not (is_key s.identity.source_owner))
      identity_key_required
      (refuse (not (is_identity s.identity)) identity_invalid (
        and_then (validate_deployment_modes s.identity.supported_deployment_modes) (
          refuse (is_blank s.name || is_blank s.description) name_required (
            refuse (has_null s) collections_required (
              and_then (validate_composition s.identity.key s.composition) (
                refuse (is_empty (items s.categories)) category_required
                  (check_categories "" (items s.categories))))))))
