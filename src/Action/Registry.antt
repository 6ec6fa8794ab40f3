-- ===== src/Action/Registry.antt =====
-- action/registry.go: registration, freeze and queries. Each method holds the lock while it runs, so it is one step; the
-- revision, a hash of the encoded definitions, is a parameter, `none` being an error of the encoding.
pub mod Indexes
pub mod Claims
pub mod Consistency
pub mod Preserved
pub mod Outcome
pub mod Resolution
use domainry_foundation.Action.Batches.{
  Batch, Checked, PermissionUsage, Registry, RegistryError, binding_identities, check_all,
  check_definition, claim, claim_all, claim_identities, claim_permission, empty_batch,
  http_identities, http_taken, is_duplicate, is_retired, key_duplicated, new_registry,
  non_http_identities, non_http_taken, ok, permission_declared, permission_keys, permission_owned,
  refused, registration_invalid, registry_frozen, ◌>>=◌,
}
use domainry_foundation.Prelude.{
  one_of, ℕ, ◌+◌, Bool, true, false, not, ◌&&◌, ◌||◌, Option, none, some, String, str_eq, List, [],
  ◌∷◌, ◌++◌, Map, lookup, lookup_or, insert, is_some, sort, text_le, trim_space, if◌then◌else◌,
}
use domainry_foundation.Action.Model.{
  HttpBinding, NonHttpBinding, PermissionDefinition, ActionDefinition, non_http_identity,
  permission_identity, normalize_definition, http_identity, binding_identity,
}
use domainry_foundation.Action.Validation.{ActionError, validate_definition}

abbrev pub insert_all : List String → String → Map String → Map String
insert_all [] v m = m
insert_all (k ∷ ks) v m = insert_all ks v (insert k v m)

abbrev pub store_permission : Option PermissionDefinition → Registry → Registry
store_permission none reg = reg
store_permission (some p) reg = record reg {
  permissions = insert (permission_identity p.owner p.key) p reg.permissions;
  permission_owners = insert p.key p.owner reg.permission_owners;
}

-- A definition that the registry gives out.
abbrev pub unless_retired : Option ActionDefinition → Option ActionDefinition
unless_retired none = none
unless_retired (some d) = if is_retired d then none else some d

abbrev pub keys_of : {A : Type 0} → Map A → List String
keys_of [] = []
keys_of ((k, v) ∷ m) = k ∷ keys_of m

abbrev pub entries_of : {A : Type 0} → Map A → List String → List A
entries_of m [] = []
entries_of m (k ∷ ks) =
    let rest = entries_of m ks in elim (lookup k m) [ none ↦ rest | some v ↦ v ∷ rest ]

abbrev pub key_le : ActionDefinition → ActionDefinition → Bool
key_le d e = text_le d.key e.key

abbrev pub usages_of :
    Map (List PermissionUsage) → List ActionDefinition → Map (List PermissionUsage)
usages_of m [] = m
usages_of m (d ∷ ds) =
    usages_of
      (elim d.permission [
        | none ↦ m
        | some p ↦
            insert (permission_identity p.owner p.key) (record { permission = p; action = d } ∷ [])
              m
      ])
      ds

abbrev pub permission_le : PermissionDefinition → PermissionDefinition → Bool
permission_le p q = if str_eq p.key q.key then text_le p.owner q.owner else text_le p.key q.key

abbrev pub values_of : {A : Type 0} → Map A → List A
values_of [] = []
values_of ((k, v) ∷ m) = v ∷ values_of m

module _ (to_upper : String → String) where
  abbrev pub store : ActionDefinition → Registry → Registry
  store d reg = store_permission d.permission (record reg {
    definitions = insert d.key d reg.definitions;
    by_http = insert_all (http_identities to_upper d) d.key reg.by_http;
    by_non_http = insert_all (non_http_identities d) d.key reg.by_non_http;
  })

  abbrev pub store_all : List ActionDefinition → Registry → Registry
  store_all [] reg = reg
  store_all (d ∷ ds) reg = store_all ds (store d reg)

  -- `Register`, with its error.
  unfoldable pub register : List ActionDefinition → Registry → Option RegistryError × Registry
  unfolding check_all
  register definitions reg =
      if reg.frozen
      then (some registry_frozen, reg)
      else elim (check_all to_upper 0 reg empty_batch definitions) [
        | refused e ↦ (some e, reg)
        | ok ds ↦ (none, store_all ds reg)
      ]

  -- `ResolveHTTP`; a missing identity leads to the empty key, which no definition has.
  unfoldable pub resolve_http : String → String → Registry → Option ActionDefinition
  resolve_http method route reg =
      if reg.frozen
      then unless_retired
          (lookup (lookup_or "" (http_identity to_upper method route) reg.by_http) reg.definitions)
      else none

-- `Freeze`, and whether it failed. An error of the encoding leaves the projections behind.
unfoldable pub freeze : (List ActionDefinition → Option String) → Registry → Bool × Registry
freeze encode reg =
    let definitions = entries_of reg.definitions (sort text_le (keys_of reg.definitions)) in
    let ordered = sort key_le definitions in
    let projected = record reg { usages = usages_of [] definitions; ordered = ordered } in
    if reg.frozen then (false, reg) else elim (encode ordered) [
      | none ↦ (true, projected)
      | some revision ↦ (false, record projected { frozen = true; revision = revision })
    ]

-- `Definition`
unfoldable pub definition : String → Registry → Option ActionDefinition
definition key reg =
    if reg.frozen then unless_retired (lookup (trim_space key) reg.definitions) else none

-- `ResolveNonHTTP`
unfoldable pub resolve_non_http : String → String → Registry → Option ActionDefinition
resolve_non_http kind invocation_key reg =
    if reg.frozen
    then unless_retired (
        lookup (lookup_or "" (non_http_identity kind invocation_key) reg.by_non_http)
          reg.definitions)
    else none

-- The calls that change a registry, and what a sequence of them leaves.
pub data Call : Type 0 where
  register_call : List ActionDefinition → Call
  freeze_call : (List ActionDefinition → Option String) → Call

abbrev pub run : (String → String) → List Call → Registry → Registry
run to_upper [] reg = reg
run to_upper (register_call ds ∷ calls) reg = run to_upper calls (register to_upper ds reg).1
run to_upper (freeze_call encode ∷ calls) reg = run to_upper calls (freeze encode reg).1

-- `Revision`
abbrev pub revision_of : Registry → String
revision_of reg = if reg.frozen then reg.revision else ""

-- `Definitions`
abbrev pub definitions_of : Registry → List ActionDefinition
definitions_of reg = if reg.frozen then reg.ordered else []

-- `PermissionDefinitions`
unfoldable pub permission_definitions : Registry → List PermissionDefinition
permission_definitions reg =
    if reg.frozen then sort permission_le (values_of reg.permissions) else []

-- `PermissionUsages`
unfoldable pub permission_usages : String → String → Registry → List PermissionUsage
permission_usages owner key reg =
    if reg.frozen then lookup_or [] (permission_identity owner key) reg.usages else []
