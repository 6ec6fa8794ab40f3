-- ===== src/Action/Usage.antt =====
-- action/usage.go: the usages of permissions that a frozen registry reports, and their validation by the
-- receiver. The contexts of calls are arguments; sorting is stable, which the code leaves open for equal
-- keys. Each message of the code is a constructor of the error, with the texts it names.
pub mod Found
pub mod Identities
pub mod Entries
pub mod Requests
pub mod Sound
use domainry_foundation.Prelude.{
  and_then, one_of, refuse, ℕ, Bool, true, false, not, ◌&&◌, ◌||◌, Option, none, some, String,
  str_eq, List, [], ◌∷◌, ◌++◌, ◌==◌, map, length, Map, lookup, lookup_or, insert, sort, text_le,
  trim_space, if◌then◌else◌,
}
use domainry_foundation.Action.Model.{
  PermissionDefinition, ActionDefinition, permission_identity, normalize_definition,
}
use domainry_foundation.Action.Validation.{
  ActionError, is_stable_key, is_empty, validate_definition,
}
use domainry_foundation.Action.Batches.{Registry, PermissionUsage}
use domainry_foundation.Action.Registry.{values_of}

-- `PermissionUsageContractVersion`
abbrev pub contract_version : String
contract_version = "domainry-action-permission-usage-v1"

pub record PermissionUsageQuery : Type 0 where
  pub source_owner : String
  pub permission_keys : List String

pub record PermissionUsageRequest : Type 0 where
  pub version : String
  pub queries : List PermissionUsageQuery

pub record OwnerSnapshot : Type 0 where
  pub source_owner : String
  pub available : Bool
  pub usages : List PermissionUsage

pub record UsageSnapshot : Type 0 where
  pub version : String
  pub registry_revision : String
  pub owners : List OwnerSnapshot

pub data UsageError : Type 0 where
  request_contract_invalid : UsageError
  owner_invalid owner_repeated key_invalid key_repeated : String → UsageError
  snapshot_contract_invalid : UsageError
  owner_unrequested snapshot_repeats_owner unavailable_with_usages authority_mismatched :
      String → UsageError
  key_unrequested action_repeated : String → UsageError
  action_invalid : String → ActionError → UsageError

unfoldable pub check_query_keys : List String → List String → Option UsageError
unfolding is_stable_key
check_query_keys seen [] = none
check_query_keys seen (raw ∷ raws) =
    let key = trim_space raw in
    let rest = check_query_keys (key ∷ seen) raws in
    refuse (not (is_stable_key key)) (key_invalid key)
      (refuse (one_of seen key) (key_repeated key) rest)

unfoldable pub check_queries : List String → List PermissionUsageQuery → Option UsageError
unfolding is_stable_key check_query_keys
check_queries seen [] = none
check_queries seen (q ∷ qs) =
    let owner = trim_space q.source_owner in
    let rest = check_queries (owner ∷ seen) qs in
    refuse (not (is_stable_key owner) || is_empty q.permission_keys) (owner_invalid owner) (
      refuse (one_of seen owner) (owner_repeated owner)
        (and_then (check_query_keys [] q.permission_keys) rest))

-- `PermissionUsageRequest.Validate`
unfoldable pub validate_request : PermissionUsageRequest → Option UsageError
unfolding check_queries
validate_request r =
    refuse (not (str_eq r.version contract_version) || is_empty r.queries) request_contract_invalid
      (check_queries [] r.queries)

-- `normalizeUsageKeys`
abbrev kept_keys : List String → List String
kept_keys [] = []
kept_keys (v ∷ vs) =
    let rest = kept_keys vs in if str_eq (trim_space v) "" then rest else trim_space v ∷ rest

abbrev pub normalize_usage_keys : List String → List String
normalize_usage_keys values = sort text_le (kept_keys values)

abbrev normalize_query : PermissionUsageQuery → PermissionUsageQuery
normalize_query q = record {
  source_owner = trim_space q.source_owner;
  permission_keys = normalize_usage_keys q.permission_keys;
}

abbrev query_le : PermissionUsageQuery → PermissionUsageQuery → Bool
query_le p q = text_le p.source_owner q.source_owner

-- `NewPermissionUsageRequest`, with its error.
unfoldable pub new_permission_usage_request :
    List PermissionUsageQuery → Option UsageError × Option PermissionUsageRequest
unfolding validate_request
new_permission_usage_request queries =
    let request : PermissionUsageRequest = record {
      version = contract_version;
      queries = sort query_le (map normalize_query queries);
    } in
    elim (validate_request request) [ some e ↦ (some e, none) | none ↦ (none, some request) ]

-- The keys that a request asks of its owners.
abbrev pub requested : List PermissionUsageQuery → Map (List String) → Map (List String)
requested [] m = m
requested (q ∷ qs) m =
    requested qs (insert (trim_space q.source_owner) (map trim_space q.permission_keys) m)

abbrev permission_key : ActionDefinition → Option String
permission_key d = elim d.permission [ none ↦ none | some p ↦ some p.key ]

abbrev is_text : Option String → String → Bool
is_text none s = false
is_text (some t) s = str_eq t s

module _ (to_upper : String → String) where
  -- `NormalizeDefinition`, its error.
  abbrev pub definition_error : ActionDefinition → Option ActionError
  definition_error d = validate_definition (normalize_definition to_upper d)

  abbrev pub normal_usage : PermissionUsage → Option UsageError → Option UsageError
  normal_usage u rest = elim (definition_error u.action) [
    | some e ↦ some (action_invalid u.action.key e)
    | none ↦ rest
  ]

  unfoldable pub check_usages :
      String → List String → List String → List PermissionUsage → Option UsageError
  unfolding validate_definition normalize_definition
  check_usages owner keys seen [] = none
  check_usages owner keys seen (u ∷ us) =
      let rest = check_usages owner keys (u.action.key ∷ seen) us in
      refuse
        (not (str_eq u.permission.owner owner)
          || (not (str_eq u.action.owner owner)
              || not (is_text (permission_key u.action) u.permission.key)))
        (authority_mismatched owner)
        (refuse (not (one_of keys u.permission.key)) (key_unrequested u.permission.key)
          (refuse (one_of seen u.action.key) (action_repeated u.action.key) (normal_usage u rest)))

  -- One owner of a snapshot, with what was asked of it.
  abbrev pub check_owner :
      List String → OwnerSnapshot → Option (List String) → Option UsageError → Option UsageError
  check_owner seen o none rest = some (owner_unrequested (trim_space o.source_owner))
  check_owner seen o (some keys) rest =
      let owner = trim_space o.source_owner in
      refuse (one_of seen owner) (snapshot_repeats_owner owner) (
        refuse (not o.available && not (is_empty o.usages)) (unavailable_with_usages owner)
          (and_then (check_usages owner keys [] o.usages) rest))

  unfoldable pub check_owners :
      Map (List String) → List String → List OwnerSnapshot → Option UsageError
  unfolding check_usages
  check_owners asked seen [] = none
  check_owners asked seen (o ∷ os) =
      let rest = check_owners asked (trim_space o.source_owner ∷ seen) os in
      check_owner seen o (lookup (trim_space o.source_owner) asked) rest

  -- `PermissionUsageSnapshot.ValidateFor`
  unfoldable pub validate_for : PermissionUsageRequest → UsageSnapshot → Option UsageError
  unfolding validate_request check_owners
  validate_for r s = and_then (validate_request r) (
      refuse
        (not (str_eq s.version contract_version)
          || (str_eq (trim_space s.registry_revision) ""
              || not (length s.owners == length r.queries)))
        snapshot_contract_invalid (check_owners (requested r.queries []) [] s.owners))

-- The usages of the permissions of an owner.
abbrev pub found_usages : Map (List PermissionUsage) → String → List String → List PermissionUsage
found_usages usages owner [] = []
found_usages usages owner (key ∷ keys) =
    lookup_or [] (permission_identity owner (trim_space key)) usages
    ++ found_usages usages owner keys

abbrev pub usage_le : PermissionUsage → PermissionUsage → Bool
usage_le u v = text_le u.action.key v.action.key

abbrev pub answer : Registry → PermissionUsageQuery → OwnerSnapshot
answer reg q =
    let owner = trim_space q.source_owner in
    let available = one_of (values_of reg.permission_owners) owner in
    record {
      source_owner = owner;
      available = available;
      usages =
          if available then sort usage_le (found_usages reg.usages owner q.permission_keys) else [];
    }

-- A context: absent, done with an error, or live.
pub data Context : Type 0 where
  absent live : Context
  done : String → Context

pub data QueryError : Type 0 where
  context_required registry_unavailable registry_unfrozen : QueryError
  context_done : String → QueryError
  request_invalid : UsageError → QueryError

pub data Answer : Type 0 where
  failed : QueryError → Answer
  answered : UsageSnapshot → Answer

abbrev pub snapshot_of : PermissionUsageRequest → Option Registry → Answer
snapshot_of r none = failed registry_unavailable
snapshot_of r (some reg) =
    if reg.frozen
    then answered (record {
      version = contract_version;
      registry_revision = reg.revision;
      owners = map (answer reg) r.queries;
    })
    else failed registry_unfrozen

-- `QueryPermissionUsages`
unfoldable pub query_permission_usages : Context → PermissionUsageRequest → Option Registry → Answer
unfolding validate_request
query_permission_usages absent r reg = failed context_required
query_permission_usages (done e) r reg = failed (context_done e)
query_permission_usages live r reg = elim (validate_request r) [
  | some e ↦ failed (request_invalid e)
  | none ↦ snapshot_of r reg
]
