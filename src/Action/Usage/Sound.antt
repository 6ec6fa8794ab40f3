-- ===== src/Action/Usage/Sound.antt =====
-- The receiver of action/usage.go accepts what the registry answers.
use domainry_foundation.Prelude.{
  one_of, ℕ, suc, ◌≡◌, refl, ap, ◌∙◌, Bool, true, false, ◌==◌, Option, none, some, String, str_eq,
  List, [], ◌∷◌, Map, lookup, arith, if◌then◌else◌, All, map, length, trim_space, trim_space_idem,
  sort,
}
use domainry_foundation.Action.Validation.{is_stable_key}
use domainry_foundation.Action.Normal.{IsUpper}
use domainry_foundation.Action.Batches.{Registry, PermissionUsage, new_registry}
use domainry_foundation.Action.Registry.{Call, run, values_of}
use domainry_foundation.Action.Registry.Consistency.{IsConsistent}
use domainry_foundation.Action.Registry.Preserved.{
  reachable-IsConsistent, new_registry-IsConsistent,
}
use domainry_foundation.Action.Usage.{
  contract_version, PermissionUsageQuery, PermissionUsageRequest, UsageSnapshot, UsageError,
  check_query_keys, check_queries, validate_request, requested, check_usages, check_owner,
  check_owners, validate_for, found_usages, usage_le, answer, live, answered,
  query_permission_usages,
}
use domainry_foundation.Action.Usage.Found.{IsReported, run-IsReported}
use domainry_foundation.Action.Usage.Entries.{check_usages-answered}
use domainry_foundation.Action.Usage.Requests.{
  query_keys-stable, query_keys-single, asked_for, query-checked, requested-Asked,
}

owner-accepted :
    (to_upper : String → String) (owner : String) (seen keys : List String) (available : Bool)
    (us : List PermissionUsage) (rest : Option UsageError)
    → trim_space owner ≡ owner
    → one_of seen owner ≡ false
    → check_usages to_upper owner keys [] us ≡ none
    → check_owner to_upper seen
        (record {
          source_owner = owner;
          available = available;
          usages = if available then us else [];
        })
        (some keys)
        rest
      ≡ rest
unfolding check_usages
owner-accepted to_upper owner seen keys true us rest trimmed new accepted =
    rw (trimmed, new, accepted) refl
owner-accepted to_upper owner seen keys false us rest trimmed new accepted = rw (trimmed, new) refl

length-map : {A B : Type 0} (f : A → B) (xs : List A) → length (map f xs) ≡ length xs
length-map f [] = refl
length-map f (x ∷ xs) = ap suc (length-map f xs)

eq_self : (n : ℕ) → (n == n) ≡ true
eq_self n = ground arith

request-checked :
    (r : PermissionUsageRequest) → validate_request r ≡ none → check_queries [] r.queries ≡ none
unfolding validate_request
request-checked r h = ground (arith, h)

module _ (to_upper : String → String) (reg : Registry) (consistent : IsConsistent to_upper reg)
    (reported : IsReported reg) where
  module _ (q : PermissionUsageQuery) (stable : is_stable_key (trim_space q.source_owner) ≡ true)
      (checked : check_query_keys [] q.permission_keys ≡ none) where
    abbrev owner : String
    owner = trim_space q.source_owner

    abbrev keys : List String
    keys = map trim_space q.permission_keys

    usages-accepted :
        check_usages to_upper owner keys []
          (sort usage_le (found_usages reg.usages owner q.permission_keys))
        ≡ none
    usages-accepted =
        check_usages-answered to_upper owner keys reg.definitions reg.usages consistent.0 reported
          (trim_space_idem q.source_owner) stable q.permission_keys
          (asked_for keys q.permission_keys (λ k there. there)
            (query_keys-stable [] q.permission_keys checked))
          (λ k. ground (arith, query_keys-single [] q.permission_keys checked k))

    -- The answer to a checked query is accepted, before the answers to the queries behind it.
    answer-accepted :
        (asked : Map (List String)) (seen : List String) (rest : Option UsageError)
        → lookup owner asked ≡ some keys
        → one_of seen owner ≡ false
        → check_owner to_upper seen (answer reg q) (lookup (trim_space owner) asked) rest ≡ rest
    answer-accepted asked seen rest there new =
        let known : lookup (trim_space owner) asked ≡ some keys =
          rw (trim_space_idem q.source_owner) there in
        ap (λ k. check_owner to_upper seen (answer reg q) k rest) known
        ∙ owner-accepted to_upper owner seen keys (one_of (values_of reg.permission_owners) owner)
            (sort usage_le (found_usages reg.usages owner q.permission_keys)) rest
            (trim_space_idem q.source_owner) new usages-accepted

  check_owners-answered :
      (asked : Map (List String)) (seen : List String) (qs : List PermissionUsageQuery)
      → check_queries seen qs ≡ none
      → All
          (λ q. lookup (trim_space q.source_owner) asked ≡ some (map trim_space q.permission_keys))
          qs
      → check_owners to_upper asked seen (map (answer reg) qs) ≡ none
  unfolding check_owners
  check_owners-answered asked seen [] h there = refl
  check_owners-answered asked seen (q ∷ qs) h (there, theres) =
      let (stable, new, checked, later) = query-checked seen q qs h in
      let owner = trim_space q.source_owner in
      let rest : check_owners to_upper asked (trim_space owner ∷ seen) (map (answer reg) qs)
          ≡ none =
        rw (trim_space_idem q.source_owner)
          (check_owners-answered asked (owner ∷ seen) qs later theres) in
      answer-accepted q stable checked asked seen
        (check_owners to_upper asked (trim_space owner ∷ seen) (map (answer reg) qs)) there new
      ∙ rest

module _ (to_upper : String → String) (upper : IsUpper to_upper) (calls : List Call)
    (r : PermissionUsageRequest) where
  abbrev registry : Registry
  registry = run to_upper calls new_registry

  abbrev snapshot : UsageSnapshot
  snapshot = record {
    version = contract_version;
    registry_revision = registry.revision;
    owners = map (answer registry) r.queries;
  }

  query-snapshot :
      registry.frozen ≡ true
      → validate_request r ≡ none
      → query_permission_usages live r (some registry) ≡ answered snapshot
  unfolding query_permission_usages
  query-snapshot frozen valid = rw (valid, query_permission_usages) (simp frozen)

  -- A live query with a valid request to the registry, frozen after any registrations and freezes of a new
  -- one and with a revision that is not blank, is answered with a snapshot, and the receiver accepts that
  -- snapshot for the request: `to_upper` keeps a trimmed text trimmed and in upper case.
  pub validate_for-query_permission_usages :
      registry.frozen ≡ true
      → validate_request r ≡ none
      → str_eq (trim_space registry.revision) "" ≡ false
      → (s : UsageSnapshot) × (query_permission_usages live r (some registry) ≡ answered s)
        × (validate_for to_upper r s ≡ none)
  unfolding validate_for
  validate_for-query_permission_usages frozen valid revised =
      let queries = request-checked r valid in
      let consistent = reachable-IsConsistent to_upper upper calls in
      let reported =
        run-IsReported to_upper upper calls new_registry (new_registry-IsConsistent to_upper)
          (λ id us e. cc) in
      let owners =
        check_owners-answered to_upper registry consistent reported (requested r.queries []) []
          r.queries queries (requested-Asked [] r.queries [] queries) in
      (
        snapshot,
        query-snapshot frozen valid,
        rw (valid, revised, length-map (answer registry) r.queries, eq_self (length r.queries))
            owners,
      )
