-- ===== src/Action/Registry/Consistency.antt =====
-- The indexes of the registry, and how a definition of a batch changes them.
use mathlib.Core.Option.{some-injective}
use domainry_foundation.Prelude.{
  one_of, ◌≡◌, refl, sym, ap, subst, ◌∙◌, inl, inr, Bool, true, false, Bool-cases, ◌||◌, Option,
  Option-cases, none, some, String, str_eq, eq_iff, List, ◌∷◌, Map, lookup, lookup_or,
  lookup-insert, insert, is_some, ℕ,
}
use domainry_foundation.Action.Model.{PermissionDefinition, ActionDefinition, normalize_definition}
use domainry_foundation.Action.Validation.{is_stable_key, validate_definition}
use domainry_foundation.Action.Normal.{accepted_keys, accepted_permission}
use domainry_foundation.Action.Batches.{
  claim_identities, is_duplicate, Checked, ok, refused, ◌>>=◌, Registry, Batch, claim_all,
  claim_permission, http_taken, non_http_taken, non_http_identities, permission_keys,
  http_identities, check_definition,
}
use domainry_foundation.Action.Registry.{insert_all, store_permission}
use domainry_foundation.Action.Registry.Indexes.{Leads, Covers, insert-Leads, insert-Covers}
use domainry_foundation.Action.Registry.Claims.{Free, Unclaimed, claim_all-ok, claim_permission-ok}

pub store_permission-definitions :
    (o : Option PermissionDefinition) (reg : Registry)
    → (store_permission o reg).definitions ≡ reg.definitions
store_permission-definitions none reg = refl
store_permission-definitions (some p) reg = refl

pub store_permission-by_http :
    (o : Option PermissionDefinition) (reg : Registry)
    → (store_permission o reg).by_http ≡ reg.by_http
store_permission-by_http none reg = refl
store_permission-by_http (some p) reg = refl

pub store_permission-by_non_http :
    (o : Option PermissionDefinition) (reg : Registry)
    → (store_permission o reg).by_non_http ≡ reg.by_non_http
store_permission-by_non_http none reg = refl
store_permission-by_non_http (some p) reg = refl

pub store_permission-owners :
    (d : ActionDefinition) (reg : Registry)
    → validate_definition d ≡ none
    → (store_permission d.permission reg).permission_owners
      ≡ insert_all (permission_keys d) d.owner reg.permission_owners
store_permission-owners d reg accepted = elim (Option-cases d.permission) [
  | inl e ↦ rw e refl
  | inr (p, e) ↦ let (key, owner, _, _) = accepted_permission d p accepted e in rw (e, owner) refl
]

pub stable-named : (s : String) → is_stable_key s ≡ true → str_eq s "" ≡ false
unfolding is_stable_key
stable-named s h = elim (Bool-cases (str_eq s "")) [
  | inl blank ↦ absurd (cc (h, ap is_stable_key ((eq_iff s "").0 blank)))
  | inr named ↦ named
]

pub unnamed :
    (id : String) (index : Map String)
    → ((v : String) → lookup id index ≡ some v → str_eq v "" ≡ false)
    → lookup_or "" id index ≡ ""
    → lookup id index ≡ none
unnamed id index named h = elim (Option-cases (lookup id index)) [
  | inl none_found ↦ none_found
  | inr (v, e) ↦ absurd (cc (named v e, (eq_iff v "").1 (rw (e, lookup_or) at h)))
]

not_duplicate :
    {A : Type 0} {o : Option A} {b : Bool} → (is_some o || b) ≡ false → (o ≡ none) × (b ≡ false)
not_duplicate {o = none} h = (refl, h)
not_duplicate {o = some a} h = cc

three-ok :
    {A B : Type 0} (o o' o'' : Checked A) (f : A → A → A → B) (b : B)
    → (o >>= λ x. o' >>= λ y. o'' >>= λ z. ok (f x y z)) ≡ ok b
    → (x y z : A) × (o ≡ ok x) × (o' ≡ ok y) × (o'' ≡ ok z) × (b ≡ f x y z)
three-ok (ok x) (ok y) (ok z) f b e = (x, y, z, refl, refl, refl, cc)
three-ok (ok x) (ok y) (refused r) f b e = cc
three-ok (ok x) (refused r) o'' f b e = cc
three-ok (refused r) o' o'' f b e = cc

-- The batch with the claims of the next definition.
abbrev pub claimed : String → Batch → Map String → Map String → Map String → Batch
claimed key batch http non_http permissions = record {
  actions = key ∷ batch.actions;
  http = http;
  non_http = non_http;
  permissions = permissions;
}

module _ (to_upper : String → String) where
  -- A definition that the validation accepts, in its normal form.
  abbrev pub Accepted : ActionDefinition → Type 0
  Accepted d = (validate_definition d ≡ none) × (normalize_definition to_upper d ≡ d)

  abbrev pub Stored : Map ActionDefinition → Type 0
  Stored defs =
      (k : String) (d : ActionDefinition) → lookup k defs ≡ some d → (d.key ≡ k) × Accepted d

  abbrev pub Indexed :
      (ActionDefinition → List String)
      → (ActionDefinition → String)
      → Map ActionDefinition
      → Map String
      → Type 0
  Indexed keys value defs index = Leads keys value defs index × Covers keys value defs index

  -- Every definition is stored under its key, normal and valid, and each index leads from an identity to
  -- exactly the definition that claims it.
  abbrev pub IsConsistent : Registry → Type 0
  IsConsistent reg =
      Stored reg.definitions
      × Indexed (http_identities to_upper) (λ d. d.key) reg.definitions reg.by_http
      × Indexed non_http_identities (λ d. d.key) reg.definitions reg.by_non_http
      × Indexed permission_keys (λ d. d.owner) reg.definitions reg.permission_owners

  -- What a registry and a batch have free is free where the batch so far is stored.
  abbrev pub Pending : Registry → Batch → Registry → Type 0
  Pending before batch reg =
      ((k : String)
        → lookup k before.definitions ≡ none
        → one_of batch.actions k ≡ false
        → lookup k reg.definitions ≡ none)
      × Unclaimed before.by_http batch.http reg.by_http
      × Unclaimed before.by_non_http batch.non_http reg.by_non_http
      × Unclaimed before.permission_owners batch.permissions reg.permission_owners

  pub insert-Stored :
      (d : ActionDefinition) (defs : Map ActionDefinition)
      → Accepted d
      → Stored defs
      → Stored (insert d.key d defs)
  insert-Stored d defs accepted stored k c e = elim (Bool-cases (str_eq d.key k)) [
    | inl same ↦
        let found = some-injective d c (sym (rw same at (lookup-insert d.key k d defs)) ∙ e) in
        subst (λ c. (c.key ≡ k) × Accepted c) found ((eq_iff d.key k).0 same, accepted)
    | inr other ↦ stored k c (sym (rw other at (lookup-insert d.key k d defs)) ∙ e)
  ]

  pub insert-Indexed :
      (keys : ActionDefinition → List String) (value : ActionDefinition → String)
      (d : ActionDefinition) (defs : Map ActionDefinition) (index batch index' : Map String)
      → lookup d.key defs ≡ none
      → ((id : String) → one_of (keys d) id ≡ true → Free index batch id)
      → Unclaimed index batch index'
      → Indexed keys value defs index'
      → Indexed keys value (insert d.key d defs) (insert_all (keys d) (value d) index')
  insert-Indexed keys value d defs index batch index' new free unclaimed (leads, covers) = (
    insert-Leads keys value d.key d defs index' new leads,
    insert-Covers keys value d.key d defs index' (λ id mine. unclaimed id (free id mine)) covers,
  )

  -- What the acceptance of one definition says.
  abbrev pub Checks : Registry → Batch → ActionDefinition → Batch → Type 0
  Checks before batch d b =
      (validate_definition d ≡ none)
      × (lookup d.key before.definitions ≡ none)
      × (one_of batch.actions d.key ≡ false)
      × ((id : String)
          → one_of (http_identities to_upper d) id ≡ true
          → Free before.by_http batch.http id)
      × ((id : String)
          → one_of (non_http_identities d) id ≡ true
          → Free before.by_non_http batch.non_http id)
      × ((id : String)
          → one_of (permission_keys d) id ≡ true
          → Free before.permission_owners batch.permissions id)
      × (b
          ≡ claimed d.key batch (insert_all (http_identities to_upper d) d.key batch.http)
              (insert_all (non_http_identities d) d.key batch.non_http)
              (insert_all (permission_keys d) d.key batch.permissions))

  claim_identities-Checks :
      (before : Registry) (batch b : Batch) (d : ActionDefinition)
      → validate_definition d ≡ none
      → is_duplicate to_upper before batch d ≡ false
      → claim_identities to_upper before batch d ≡ ok b
      → Checks before batch d b
  unfolding claim_identities
  claim_identities-Checks before batch b d valid single e =
      let named = stable-named d.key (accepted_keys d valid).0 in
      let http_key =
        λ (identity : String) (existing : String). http_taken identity existing d.key in
      let non_http_key =
        λ (identity : String) (existing : String). non_http_taken identity existing d.key in
      let http_ids = http_identities to_upper d in
      let non_http_ids = non_http_identities d in
      let permission_ids = permission_keys d in
      let (http, non_http, permissions, h, n, p, done) =
        three-ok (claim_all http_key d.key before.by_http http_ids batch.http)
          (claim_all non_http_key d.key before.by_non_http non_http_ids batch.non_http)
          (claim_permission before d permission_ids batch.permissions) (claimed d.key batch) b e in
      let all_http = claim_all-ok http_key d.key before.by_http http_ids batch.http http named h in
      let all_non_http =
        claim_all-ok non_http_key d.key before.by_non_http non_http_ids batch.non_http non_http
          named n in
      let all_permissions =
        claim_permission-ok before d permission_ids batch.permissions permissions named p in
      (
        valid,
        (not_duplicate single).0,
        (not_duplicate single).1,
        all_http.1,
        all_non_http.1,
        all_permissions.1,
        done ∙ rw (all_http.0, all_non_http.0, all_permissions.0) refl,
      )

  check_definition-steps :
      (i : ℕ) (before : Registry) (batch b : Batch) (d : ActionDefinition)
      → check_definition to_upper i before batch d ≡ ok b
      → (validate_definition d ≡ none)
        × (is_duplicate to_upper before batch d ≡ false)
        × (claim_identities to_upper before batch d ≡ ok b)
  unfolding check_definition
  check_definition-steps i before batch b d e = elim (Option-cases (validate_definition d)) [
    | inr (error, invalid) ↦ absurd (cc (rw (invalid, check_definition) at e))
    | inl valid ↦ elim (Bool-cases (is_duplicate to_upper before batch d)) [
      | inl twice ↦ absurd (cc (rw (valid, twice, check_definition) at e))
      | inr single ↦ (valid, single, rw (valid, single, check_definition) at e)
    ]
  ]

  pub check_definition-Checks :
      (i : ℕ) (before : Registry) (batch b : Batch) (d : ActionDefinition)
      → check_definition to_upper i before batch d ≡ ok b
      → Checks before batch d b
  check_definition-Checks i before batch b d e =
      let (valid, single, claimed) = check_definition-steps i before batch b d e in
      claim_identities-Checks before batch b d valid single claimed
