-- ===== src/Action/Registry/Preserved.antt =====
-- The registrations and freezes of action/registry.go keep the indexes consistent.
use domainry_foundation.Prelude.{
  ◌≡◌, refl, sym, subst, ◌⊎◌, inl, inr, true, false, Bool-cases, Option, Option-cases, none, String,
  str_eq, eq_iff, List, [], ◌∷◌, Map, lookup-insert, insert, arith, sort, text_le, ℕ, ◌+◌,
}
use domainry_foundation.Action.Model.{ActionDefinition, normalize_definition}
use domainry_foundation.Action.Validation.{is_stable_key, validate_definition}
use domainry_foundation.Action.Normal.{IsUpper, normalize_definition_idem, accepted_keys}
use domainry_foundation.Action.Batches.{
  RegistryError, Checked, ok, refused, ◌>>=◌, Registry, new_registry, Batch, empty_batch,
  non_http_identities, permission_keys, http_identities, check_definition, check_all,
}
use domainry_foundation.Action.Registry.{
  insert_all, store, store_all, register, freeze, key_le, entries_of, keys_of, Call, register_call,
  freeze_call, run,
}
use domainry_foundation.Action.Registry.Claims.{Unclaimed, insert_all-Unclaimed, bind-ok}
use domainry_foundation.Action.Registry.Consistency.{
  Accepted, Stored, Indexed, IsConsistent, Pending, Checks, insert-Stored, insert-Indexed,
  check_definition-Checks, store_permission-definitions, store_permission-by_http,
  store_permission-by_non_http, store_permission-owners, stable-named, unnamed,
}

pub Checked-cases :
    {A : Type 0} (o : Checked A) → ((e : RegistryError) × (o ≡ refused e)) ⊎ ((a : A) × (o ≡ ok a))
Checked-cases (refused e) = inl (e, refl)
Checked-cases (ok a) = inr (a, refl)

pub ok-injective : {A : Type 0} {a b : A} → ok a ≡ ok b → a ≡ b
ok-injective e = cc

pub freeze-keeps :
    (encode : List ActionDefinition → Option String) (reg : Registry)
    → ((freeze encode reg).1.definitions ≡ reg.definitions)
      × ((freeze encode reg).1.by_http ≡ reg.by_http)
      × ((freeze encode reg).1.by_non_http ≡ reg.by_non_http)
      × ((freeze encode reg).1.permission_owners ≡ reg.permission_owners)
unfolding freeze
freeze-keeps encode reg = elim (Bool-cases reg.frozen) [
  | inl frozen ↦ rw frozen (refl, refl, refl, refl)
  | inr running ↦
      elim (Option-cases (
        encode
          (sort key_le (entries_of reg.definitions (sort text_le (keys_of reg.definitions)))))) [
            | inl failed ↦ rw (running, failed) (refl, refl, refl, refl)
            | inr (revision, done) ↦ rw (running, done) (refl, refl, refl, refl)
          ]
]

module _ (to_upper : String → String) where
  module _ (before : Registry) (batch b : Batch) (d : ActionDefinition) (reg : Registry)
      (accepted : Accepted to_upper d) (checks : Checks to_upper before batch d b) where
    -- The registry before the permission is stored.
    abbrev with_bindings : Registry
    with_bindings = record reg {
      definitions = insert d.key d reg.definitions;
      by_http = insert_all (http_identities to_upper d) d.key reg.by_http;
      by_non_http = insert_all (non_http_identities d) d.key reg.by_non_http;
    }

    pub store-IsConsistent :
        IsConsistent to_upper reg
        → Pending to_upper before batch reg
        → IsConsistent to_upper (store to_upper d reg)
    store-IsConsistent (stored, by_http, by_non_http, owners) (new, http, non_http, permissions) =
        let (valid, absent, single, http_free, non_http_free, permissions_free, _) = checks in
        let unstored = new d.key absent single in
        rw
          (
            store_permission-definitions d.permission with_bindings,
            store_permission-by_http d.permission with_bindings,
            store_permission-by_non_http d.permission with_bindings,
            store_permission-owners d with_bindings valid,
          )
          (
            insert-Stored to_upper d reg.definitions accepted stored,
            insert-Indexed to_upper (http_identities to_upper) (λ d. d.key) d reg.definitions
                before.by_http batch.http reg.by_http unstored http_free http by_http,
            insert-Indexed to_upper non_http_identities (λ d. d.key) d reg.definitions
                before.by_non_http batch.non_http reg.by_non_http unstored non_http_free non_http
                by_non_http,
            insert-Indexed to_upper permission_keys (λ d. d.owner) d reg.definitions
                before.permission_owners batch.permissions reg.permission_owners unstored
                permissions_free permissions owners,
          )

    pub store-Pending :
        Pending to_upper before batch reg → Pending to_upper before b (store to_upper d reg)
    store-Pending (new, http, non_http, permissions) =
        let (valid, absent, single, http_free, non_http_free, permissions_free, same) = checks in
        let named = stable-named d.key (accepted_keys d valid).0 in
        rw
          (
            same,
            store_permission-definitions d.permission with_bindings,
            store_permission-by_http d.permission with_bindings,
            store_permission-by_non_http d.permission with_bindings,
            store_permission-owners d with_bindings valid,
          )
          (
            (λ k absent single. ground (
              arith,
              new k absent,
              lookup-insert d.key k d reg.definitions,
              eq_iff d.key k,
              eq_iff k d.key,
              single,
            )),
            insert_all-Unclaimed d.key d.key (http_identities to_upper d) before.by_http batch.http
                reg.by_http named http,
            insert_all-Unclaimed d.key d.key (non_http_identities d) before.by_non_http
                batch.non_http reg.by_non_http named non_http,
            insert_all-Unclaimed d.key d.owner (permission_keys d) before.permission_owners
                batch.permissions reg.permission_owners named permissions,
          )

  Indexed-named :
      (keys : ActionDefinition → List String) (value : ActionDefinition → String)
      (defs : Map ActionDefinition) (index : Map String)
      → ((d : ActionDefinition) → validate_definition d ≡ none → is_stable_key (value d) ≡ true)
      → Stored to_upper defs
      → Indexed to_upper keys value defs index
      → Unclaimed index [] index
  Indexed-named keys value defs index stable stored (leads, _) id (free, _) =
      unnamed id index
        (λ v e.
          let (k, d, found, _, same) = leads id v e in
          subst (λ s. str_eq s "" ≡ false) same
            (stable-named (value d) (stable d (stored k d found).1.0)))
        free

  pub empty_batch-Pending :
      (reg : Registry) → IsConsistent to_upper reg → Pending to_upper reg empty_batch reg
  empty_batch-Pending reg (stored, by_http, by_non_http, owners) =
      let keyed = λ (d : ActionDefinition) (valid : validate_definition d ≡ none).
        (accepted_keys d valid).0 in
      let owned = λ (d : ActionDefinition) (valid : validate_definition d ≡ none).
        (accepted_keys d valid).1 in
      (
        (λ k absent single. absent),
        Indexed-named (http_identities to_upper) (λ d. d.key) reg.definitions reg.by_http keyed
            stored by_http,
        Indexed-named non_http_identities (λ d. d.key) reg.definitions reg.by_non_http keyed stored
            by_non_http,
        Indexed-named permission_keys (λ d. d.owner) reg.definitions reg.permission_owners owned
            stored owners,
      )

  -- What a registration leaves.
  pub register-left :
      (ds : List ActionDefinition) (reg : Registry)
      → ((register to_upper ds reg).1 ≡ reg)
        ⊎ ((ns : List ActionDefinition) × (check_all to_upper 0 reg empty_batch ds ≡ ok ns)
            × ((register to_upper ds reg).1 ≡ store_all to_upper ns reg))
  unfolding register
  register-left ds reg = elim (Bool-cases reg.frozen) [
    | inl frozen ↦ inl (simp frozen)
    | inr running ↦ elim (Checked-cases (check_all to_upper 0 reg empty_batch ds)) [
      | inl (e, refusal) ↦ inl (simp (running, refusal))
      | inr (ns, accepted) ↦ inr (ns, accepted, simp (running, accepted))
    ]
  ]

  module _ (upper : IsUpper to_upper) where
    store_all-IsConsistent :
        (i : ℕ) (before : Registry) (batch : Batch) (reg : Registry) (ds ns : List ActionDefinition)
        → check_all to_upper i before batch ds ≡ ok ns
        → IsConsistent to_upper reg
        → Pending to_upper before batch reg
        → IsConsistent to_upper (store_all to_upper ns reg)
    unfolding check_all
    store_all-IsConsistent i before batch reg [] ns e consistent pending =
        subst (λ ns. IsConsistent to_upper (store_all to_upper ns reg)) (ok-injective e) consistent
    store_all-IsConsistent i before batch reg (d ∷ ds) ns e consistent pending =
        let n = normalize_definition to_upper d in
        let (b, now, later) =
          bind-ok (check_definition to_upper i before batch n)
            (λ b. check_all to_upper (i + 1) before b ds >>= λ ns. ok (n ∷ ns)) ns e in
        let (ms, rest, same) =
          bind-ok (check_all to_upper (i + 1) before b ds) (λ ns. ok (n ∷ ns)) ns later in
        let checks = check_definition-Checks to_upper i before batch b n now in
        let accepted : Accepted to_upper n =
          (checks.0, normalize_definition_idem to_upper upper d) in
        subst (λ ns. IsConsistent to_upper (store_all to_upper ns reg)) (ok-injective same)
          (store_all-IsConsistent (i + 1) before b (store to_upper n reg) ds ms rest
            (store-IsConsistent before batch b n reg accepted checks consistent pending)
            (store-Pending before batch b n reg accepted checks pending))

    -- A registration keeps the indexes consistent.
    pub register-IsConsistent :
        (ds : List ActionDefinition) (reg : Registry)
        → IsConsistent to_upper reg
        → IsConsistent to_upper (register to_upper ds reg).1
    register-IsConsistent ds reg consistent = elim (register-left ds reg) [
      | inl same ↦ subst (IsConsistent to_upper) (sym same) consistent
      | inr (ns, accepted, left) ↦ subst (IsConsistent to_upper) (sym left) (
          store_all-IsConsistent 0 reg empty_batch reg ds ns accepted consistent
            (empty_batch-Pending reg consistent))
    ]

    -- A freeze writes only the projections.
    pub freeze-IsConsistent :
        (encode : List ActionDefinition → Option String) (reg : Registry)
        → IsConsistent to_upper reg
        → IsConsistent to_upper (freeze encode reg).1
    freeze-IsConsistent encode reg consistent =
        let (defs, http, non_http, owners) = freeze-keeps encode reg in
        rw (defs, http, non_http, owners) consistent

    -- The registry after calls from outside, the first call first.
    pub run-IsConsistent :
        (calls : List Call) (reg : Registry)
        → IsConsistent to_upper reg
        → IsConsistent to_upper (run to_upper calls reg)
    run-IsConsistent [] reg consistent = consistent
    run-IsConsistent (register_call ds ∷ calls) reg consistent =
        run-IsConsistent calls (register to_upper ds reg).1
          (register-IsConsistent ds reg consistent)
    run-IsConsistent (freeze_call encode ∷ calls) reg consistent =
        run-IsConsistent calls (freeze encode reg).1 (freeze-IsConsistent encode reg consistent)

  pub new_registry-IsConsistent : IsConsistent to_upper new_registry
  new_registry-IsConsistent = (
    (λ k d e. cc),
    ((λ id v e. cc), (λ id k d e claims. cc)),
    ((λ id v e. cc), (λ id k d e claims. cc)),
    ((λ id v e. cc), (λ id k d e claims. cc)),
  )

  -- After any registrations and freezes, in any order and whether or not they succeed, every definition
  -- of the registry is valid, normal and stored under its own key, and the indexes of HTTP bindings, of
  -- other bindings and of permissions lead from an identity to exactly the definition that claims it:
  -- `to_upper` is any function that keeps a trimmed text trimmed and in upper case.
  pub reachable-IsConsistent :
      IsUpper to_upper
      → (calls : List Call) → IsConsistent to_upper (run to_upper calls new_registry)
  reachable-IsConsistent upper calls =
      run-IsConsistent upper calls new_registry new_registry-IsConsistent
