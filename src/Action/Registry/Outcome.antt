-- ===== src/Action/Registry/Outcome.antt =====
-- What an accepted registration of action/registry.go leaves, and what is given out after a freeze.
use domainry_foundation.Prelude.{
  ◌≡◌, refl, ap, subst, ◌∙◌, inl, inr, true, false, Bool-cases, Option, Option-cases, none, some,
  String, List, [], ◌∷◌, All, lookup, lookup-insert_self, insert, ℕ, ◌+◌, trim_space, sort, text_le,
}
use domainry_foundation.Action.Model.{ActionDefinition, normalize_definition}
use domainry_foundation.Action.Normal.{IsUpper, normalize_definition_idem}
use domainry_foundation.Action.Batches.{
  Registry, registry_frozen, ok, ◌>>=◌, new_registry, Batch, empty_batch, check_definition,
  check_all,
}
use domainry_foundation.Action.Registry.{
  unless_retired, Call, store, store_all, register, freeze, run, definition, key_le, entries_of,
  keys_of,
}
use domainry_foundation.Action.Registry.Indexes.{kept}
use domainry_foundation.Action.Registry.Claims.{bind-ok}
use domainry_foundation.Action.Registry.Consistency.{
  Accepted, IsConsistent, Pending, check_definition-Checks,
}
use domainry_foundation.Action.Registry.Preserved.{
  store-IsConsistent, store-Pending, empty_batch-Pending, ok-injective, Checked-cases, freeze-keeps,
  reachable-IsConsistent,
}
use domainry_foundation.Action.Registry.Resolution.{definition-frozen}

All-map :
    {A : Type 0} {P Q : A → Type 0} (f : (a : A) → P a → Q a) (xs : List A) → All P xs → All Q xs
All-map f [] h = tt
All-map f (x ∷ xs) (p, h) = (f x p, All-map f xs h)

freeze-done :
    (encode : List ActionDefinition → Option String) (reg : Registry)
    → (freeze encode reg).0 ≡ false
    → (freeze encode reg).1.frozen ≡ true
unfolding freeze
freeze-done encode reg froze = elim (Bool-cases reg.frozen) [
  | inl frozen ↦ rw frozen refl
  | inr running ↦
      elim (Option-cases (
        encode
          (sort key_le (entries_of reg.definitions (sort text_le (keys_of reg.definitions)))))) [
            | inl failed ↦
                let outcome : (freeze encode reg).0 ≡ true = rw (running, failed) refl in
                absurd (cc (outcome, froze))
            | inr (revision, done) ↦ rw (running, done) refl
          ]
]

module _ (to_upper : String → String) where
  -- Whether what is stored stays stored.
  abbrev pub Keeps : Registry → Registry → Type 0
  Keeps reg reg' =
      (k : String) (c : ActionDefinition)
      → lookup k reg.definitions ≡ some c
      → lookup k reg'.definitions ≡ some c

  abbrev pub Holds : Registry → ActionDefinition → Type 0
  Holds reg d = lookup (trim_space d.key) reg.definitions ≡ some (normalize_definition to_upper d)

  -- The registry gives out the normal form of a definition under its key, unless that is retired.
  abbrev pub GivesOut : Registry → ActionDefinition → Type 0
  GivesOut after d =
      definition d.key after ≡ unless_retired (some (normalize_definition to_upper d))

  pub store-definitions :
      (d : ActionDefinition) (reg : Registry)
      → (store to_upper d reg).definitions ≡ insert d.key d reg.definitions
  store-definitions d reg = elim (Option-cases d.permission) [
    | inl e ↦ simp e
    | inr (p, e) ↦ simp e
  ]

  register-accepted :
      (ds : List ActionDefinition) (reg : Registry)
      → (register to_upper ds reg).0 ≡ none
      → (ns : List ActionDefinition) × (check_all to_upper 0 reg empty_batch ds ≡ ok ns)
        × ((register to_upper ds reg).1 ≡ store_all to_upper ns reg)
  unfolding register
  register-accepted ds reg done = elim (Bool-cases reg.frozen) [
    | inl frozen ↦
        let outcome : (register to_upper ds reg).0 ≡ some registry_frozen = simp frozen in
        absurd (cc (outcome, done))
    | inr running ↦ elim (Checked-cases (check_all to_upper 0 reg empty_batch ds)) [
      | inl (e, refusal) ↦
          let outcome : (register to_upper ds reg).0 ≡ some e = simp (running, refusal) in
          absurd (cc (outcome, done))
      | inr (ns, accepted) ↦ (ns, accepted, simp (running, accepted))
    ]
  ]

  module _ (upper : IsUpper to_upper) where
    pub store_all-Holds :
        (i : ℕ) (before : Registry) (batch : Batch) (reg : Registry) (ds ns : List ActionDefinition)
        → check_all to_upper i before batch ds ≡ ok ns
        → IsConsistent to_upper reg
        → Pending to_upper before batch reg
        → Keeps reg (store_all to_upper ns reg) × All (Holds (store_all to_upper ns reg)) ds
    unfolding check_all normalize_definition
    store_all-Holds i before batch reg [] ns e consistent pending =
        subst (λ ns. Keeps reg (store_all to_upper ns reg) × Unit) (ok-injective e)
          ((λ k c held. held), tt)
    store_all-Holds i before batch reg (d ∷ ds) ns e consistent pending =
        let n = normalize_definition to_upper d in
        let (b, now, later) =
          bind-ok (check_definition to_upper i before batch n)
            (λ b. check_all to_upper (i + 1) before b ds >>= λ ns. ok (n ∷ ns)) ns e in
        let (ms, rest, same) =
          bind-ok (check_all to_upper (i + 1) before b ds) (λ ns. ok (n ∷ ns)) ns later in
        let checks = check_definition-Checks to_upper i before batch b n now in
        let accepted : Accepted to_upper n =
          (checks.0, normalize_definition_idem to_upper upper d) in
        let (keeps, all) =
          store_all-Holds (i + 1) before b (store to_upper n reg) ds ms rest
            (store-IsConsistent to_upper before batch b n reg accepted checks consistent pending)
            (store-Pending to_upper before batch b n reg accepted checks pending) in
        let all_stored =
          subst
            (λ ns.
              Keeps reg (store_all to_upper ns reg)
              × All (Holds (store_all to_upper ns reg)) (d ∷ ds))
            (ok-injective same) in
        let defs = store-definitions n reg in
        let unstored = pending.0 n.key checks.1 checks.2 in
        all_stored (
          (λ k c held. keeps k c (rw defs (kept n.key n reg.definitions k c unstored held))),
          (keeps n.key n (rw defs (lookup-insert_self n.key n reg.definitions)), all),
        )

    module _ (calls : List Call) (ds : List ActionDefinition) where
      abbrev reg : Registry
      reg = run to_upper calls new_registry

      register-Holds :
          (register to_upper ds reg).0 ≡ none
          → All (Holds (register to_upper ds reg).1) ds × Keeps reg (register to_upper ds reg).1
      register-Holds done =
          let (ns, accepted, left) = register-accepted ds reg done in
          let consistent = reachable-IsConsistent to_upper upper calls in
          let (keeps, all) =
            store_all-Holds 0 reg empty_batch reg ds ns accepted consistent
              (empty_batch-Pending to_upper reg consistent) in
          rw left (all, keeps)

      -- When a registration returns no error and the freeze after it does not fail, the registry gives
      -- out the normal form of every definition of the batch under its key, and those that are retired
      -- not at all; before the registration, any registrations and freezes of a new registry ran, and
      -- `to_upper` keeps a trimmed text trimmed and in upper case.
      pub register-freeze-definition :
          (encode : List ActionDefinition → Option String)
          → (register to_upper ds reg).0 ≡ none
          → (freeze encode (register to_upper ds reg).1).0 ≡ false
          → All (GivesOut (freeze encode (register to_upper ds reg).1).1) ds
      register-freeze-definition encode done froze =
          let after = (freeze encode (register to_upper ds reg).1).1 in
          All-map
            (λ d held.
              definition-frozen d.key after (freeze-done encode (register to_upper ds reg).1 froze)
              ∙ ap unless_retired (
                  ap (lookup (trim_space d.key))
                    (freeze-keeps encode (register to_upper ds reg).1).0
                  ∙ held))
            ds (register-Holds done).0
