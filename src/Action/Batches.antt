-- ===== src/Action/Batches.antt =====
-- action/registry.go: the state of the registry and the check of a batch, which registers nothing.
use domainry_foundation.Prelude.{
  one_of, ℕ, ◌+◌, Bool, false, not, ◌||◌, none, some, String, str_eq, List, [], ◌∷◌, Map, lookup,
  lookup_or, insert, is_some, if◌then◌else◌,
}
use domainry_foundation.Action.Model.{
  NonHttpBinding, PermissionDefinition, ActionDefinition, non_http_identity, normalize_definition,
  binding_identity,
}
use domainry_foundation.Action.Validation.{ActionError, validate_definition}

pub record PermissionUsage : Type 0 where
  pub permission : PermissionDefinition
  pub action : ActionDefinition

pub record Registry : Type 0 where
  pub frozen : Bool
  pub definitions : Map ActionDefinition
  pub by_http : Map String
  pub by_non_http : Map String
  pub permissions : Map PermissionDefinition
  pub permission_owners : Map String
  pub usages : Map (List PermissionUsage)
  pub ordered : List ActionDefinition
  pub revision : String

-- `NewRegistry`
abbrev pub new_registry : Registry
new_registry = record {
  frozen = false;
  definitions = [];
  by_http = [];
  by_non_http = [];
  permissions = [];
  permission_owners = [];
  usages = [];
  ordered = [];
  revision = "";
}

pub data RegistryError : Type 0 where
  registry_frozen : RegistryError
  registration_invalid : ℕ → ActionError → RegistryError
  key_duplicated : String → RegistryError
  http_taken non_http_taken : String → String → String → RegistryError
  permission_owned : String → RegistryError
  permission_declared : String → String → String → RegistryError

pub data Checked (A : Type 0) : Type 0 where
  ok : A → Checked A
  refused : RegistryError → Checked A

infixl 1 ◌>>=◌
abbrev pub ◌>>=◌ : {A B : Type 0} → Checked A → (A → Checked B) → Checked B
ok a >>= f = f a
refused e >>= f = refused e

-- What a batch has claimed so far.
pub record Batch : Type 0 where
  pub actions : List String
  pub http : Map String
  pub non_http : Map String
  pub permissions : Map String

abbrev pub empty_batch : Batch
empty_batch = record { actions = []; http = []; non_http = []; permissions = [] }

abbrev pub is_retired : ActionDefinition → Bool
is_retired d = str_eq d.lifecycle_status "retired"

-- The claim of an identity for an action, in the registry and in the batch.
unfoldable pub claim :
    (String → RegistryError)
    → (String → RegistryError)
    → String
    → Map String
    → String
    → Map String
    → Checked (Map String)
claim owned taken key index identity batch =
    if not (str_eq (lookup_or "" identity index) "")
    then refused (owned (lookup_or "" identity index))
    else if not (str_eq (lookup_or "" identity batch) "")
    then refused (taken (lookup_or "" identity batch))
    else ok (insert identity key batch)

abbrev pub claim_all :
    (String → String → RegistryError)
    → String
    → Map String
    → List String
    → Map String
    → Checked (Map String)
claim_all taken key index [] batch = ok batch
claim_all taken key index (identity ∷ identities) batch =
    claim (taken identity) (taken identity) key index identity batch >>= λ b.
    claim_all taken key index identities b

abbrev pub binding_identities : List NonHttpBinding → List String
binding_identities [] = []
binding_identities (b ∷ bs) = non_http_identity b.kind b.invocation_key ∷ binding_identities bs

-- The identities that a definition claims; a retired one claims no binding.
abbrev pub non_http_identities : ActionDefinition → List String
non_http_identities d = if is_retired d then [] else binding_identities d.non_http

abbrev pub permission_keys : ActionDefinition → List String
permission_keys d = elim d.permission [ none ↦ [] | some p ↦ p.key ∷ [] ]

abbrev pub claim_permission :
    Registry → ActionDefinition → List String → Map String → Checked (Map String)
claim_permission reg d [] batch = ok batch
claim_permission reg d (k ∷ ks) batch =
    claim (λ existing. permission_owned k) (λ existing. permission_declared k existing d.key) d.key
      reg.permission_owners k batch
    >>= λ b. claim_permission reg d ks b

module _ (to_upper : String → String) where
  abbrev pub http_identities : ActionDefinition → List String
  http_identities d = elim d.http [
    | none ↦ []
    | some b ↦ if is_retired d then [] else binding_identity to_upper d b ∷ []
  ]

  -- The identities of a definition, claimed for the batch.
  unfoldable pub claim_identities : Registry → Batch → ActionDefinition → Checked Batch
  unfolding claim
  claim_identities reg batch d =
      claim_all (λ identity existing. http_taken identity existing d.key) d.key reg.by_http
        (http_identities d) batch.http
      >>= λ http.
          claim_all (λ identity existing. non_http_taken identity existing d.key) d.key
            reg.by_non_http (non_http_identities d) batch.non_http
          >>= λ non_http.
              claim_permission reg d (permission_keys d) batch.permissions >>= λ permissions.
              ok (record {
                actions = d.key ∷ batch.actions;
                http = http;
                non_http = non_http;
                permissions = permissions;
              })

  abbrev pub is_duplicate : Registry → Batch → ActionDefinition → Bool
  is_duplicate reg batch d = is_some (lookup d.key reg.definitions) || one_of batch.actions d.key

  -- One definition of a batch, normalised.
  unfoldable pub check_definition : ℕ → Registry → Batch → ActionDefinition → Checked Batch
  unfolding validate_definition claim_identities
  check_definition index reg batch d = elim (validate_definition d) [
    | some e ↦ refused (registration_invalid index e)
    | none ↦
        if is_duplicate reg batch d
        then refused (key_duplicated d.key)
        else claim_identities reg batch d
  ]

  unfoldable pub check_all :
      ℕ → Registry → Batch → List ActionDefinition → Checked (List ActionDefinition)
  unfolding normalize_definition check_definition
  check_all index reg batch [] = ok []
  check_all index reg batch (d ∷ ds) =
      check_definition index reg batch (normalize_definition to_upper d) >>= λ b.
      check_all (index + 1) reg b ds >>= λ ns. ok (normalize_definition to_upper d ∷ ns)
