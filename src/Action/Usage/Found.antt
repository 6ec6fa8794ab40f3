-- ===== src/Action/Usage/Found.antt =====
-- What the usages of a frozen registry of action/registry.go are.
use mathlib.Core.Option.{some-injective}
use domainry_foundation.Prelude.{
  ◌≡◌, refl, sym, ap, subst, ◌∙◌, inl, inr, Bool-cases, Option, Option-cases, none, some, String,
  str_eq, eq_iff, List, [], ◌∷◌, Map, lookup, lookup-insert, insert, sort, text_le, All,
}
use domainry_foundation.Action.Model.{PermissionDefinition, ActionDefinition, permission_identity}
use domainry_foundation.Action.Normal.{IsUpper}
use domainry_foundation.Action.Batches.{Registry, PermissionUsage, empty_batch}
use domainry_foundation.Action.Registry.{
  Call, register_call, freeze_call, run, register, freeze, key_le, entries_of, keys_of, usages_of,
  store, store_all, store_permission,
}
use domainry_foundation.Action.Registry.Consistency.{IsConsistent}
use domainry_foundation.Action.Registry.Preserved.{
  register-left, empty_batch-Pending, register-IsConsistent, freeze-IsConsistent,
}
use domainry_foundation.Action.Registry.Outcome.{store_all-Holds}

module _ (defs : Map ActionDefinition) where
  -- An entry of the usages under an identity: one usage of a stored definition.
  abbrev pub Reports : String → List PermissionUsage → Type 0
  Reports id us =
      (k : String) × (d : ActionDefinition) × (p : PermissionDefinition) × (lookup k defs ≡ some d)
      × (d.permission ≡ some p)
      × (id ≡ permission_identity p.owner p.key)
      × (us ≡ record { permission = p; action = d } ∷ [])

  abbrev pub AllReport : Map (List PermissionUsage) → Type 0
  AllReport usages =
      (id : String) (us : List PermissionUsage) → lookup id usages ≡ some us → Reports id us

  abbrev HeldIn : ActionDefinition → Type 0
  HeldIn d = (k : String) × (lookup k defs ≡ some d)

  entries_of-Held : (ks : List String) → All HeldIn (entries_of defs ks)
  entries_of-Held [] = tt
  entries_of-Held (k ∷ ks) = elim (Option-cases (lookup k defs)) [
    | inl none_held ↦
        let shape : entries_of defs (k ∷ ks) ≡ entries_of defs ks =
          rw (none_held, entries_of) refl in
        subst (All HeldIn) (sym shape) (entries_of-Held ks)
    | inr (d, e) ↦
        let shape : entries_of defs (k ∷ ks) ≡ d ∷ entries_of defs ks = rw (e, entries_of) refl in
        subst (All HeldIn) (sym shape) ((k, e), entries_of-Held ks)
  ]

  insert-AllReport :
      (d : ActionDefinition) (p : PermissionDefinition) (m : Map (List PermissionUsage))
      → HeldIn d
      → d.permission ≡ some p
      → AllReport m
      → AllReport (
          insert (permission_identity p.owner p.key) (record { permission = p; action = d } ∷ []) m)
  insert-AllReport d p m (k, held) e all id us found =
      let own = permission_identity p.owner p.key in
      let mine : List PermissionUsage = record { permission = p; action = d } ∷ [] in
      let shape = lookup-insert own id mine m in
      elim (Bool-cases (str_eq own id)) [
        | inl same ↦
            let us_mine = some-injective mine us (sym (rw same at shape) ∙ found) in
            (k, d, p, held, e, sym ((eq_iff own id).0 same), sym us_mine)
        | inr other ↦ all id us (sym (rw other at shape) ∙ found)
      ]

  usages_of-AllReport :
      (ds : List ActionDefinition) (m : Map (List PermissionUsage))
      → All HeldIn ds
      → AllReport m
      → AllReport (usages_of m ds)
  usages_of-AllReport [] m held all = all
  usages_of-AllReport (d ∷ ds) m (h, held) all = elim (Option-cases d.permission) [
    | inl e ↦ rw e (usages_of-AllReport ds m held all)
    | inr (p, e) ↦ rw e (
        usages_of-AllReport ds
          (insert (permission_identity p.owner p.key) (record { permission = p; action = d } ∷ [])
            m)
          held (insert-AllReport d p m h e all))
  ]

  projected-AllReport : AllReport (usages_of [] (entries_of defs (sort text_le (keys_of defs))))
  projected-AllReport =
      usages_of-AllReport (entries_of defs (sort text_le (keys_of defs))) []
        (entries_of-Held (sort text_le (keys_of defs))) (λ id us e. cc)

-- The usages that a registry has are of definitions it has.
abbrev pub IsReported : Registry → Type 0
IsReported reg = AllReport reg.definitions reg.usages

store_permission-usages :
    (o : Option PermissionDefinition) (reg : Registry)
    → (store_permission o reg).usages ≡ reg.usages
store_permission-usages none reg = refl
store_permission-usages (some p) reg = refl

freeze-IsReported :
    (encode : List ActionDefinition → Option String) (reg : Registry)
    → IsReported reg
    → IsReported (freeze encode reg).1
unfolding freeze
freeze-IsReported encode reg reported = elim (Bool-cases reg.frozen) [
  | inl frozen ↦
      let shape : (freeze encode reg).1 ≡ reg = simp frozen in subst IsReported (sym shape) reported
  | inr running ↦
      elim (Option-cases (
        encode
          (sort key_le (entries_of reg.definitions (sort text_le (keys_of reg.definitions)))))) [
            | inl broken ↦
                let usages : (freeze encode reg).1.usages
                    ≡ usages_of []
                        (entries_of reg.definitions (sort text_le (keys_of reg.definitions))) =
                  rw (running, broken) refl in
                let defs : (freeze encode reg).1.definitions ≡ reg.definitions =
                  rw (running, broken) refl in
                rw (usages, defs) (projected-AllReport reg.definitions)
            | inr (revision, hashed) ↦
                let usages : (freeze encode reg).1.usages
                    ≡ usages_of []
                        (entries_of reg.definitions (sort text_le (keys_of reg.definitions))) =
                  rw (running, hashed) refl in
                let defs : (freeze encode reg).1.definitions ≡ reg.definitions =
                  rw (running, hashed) refl in
                rw (usages, defs) (projected-AllReport reg.definitions)
          ]
]

module _ (to_upper : String → String) where
  store_all-usages :
      (ds : List ActionDefinition) (reg : Registry)
      → (store_all to_upper ds reg).usages ≡ reg.usages
  store_all-usages [] reg = refl
  store_all-usages (d ∷ ds) reg =
      store_all-usages ds (store to_upper d reg) ∙ store_permission-usages d.permission _

  register-IsReported :
      IsUpper to_upper
      → (ds : List ActionDefinition) (reg : Registry) → IsConsistent to_upper reg
      → IsReported reg
      → IsReported (register to_upper ds reg).1
  register-IsReported upper ds reg consistent reported = elim (register-left to_upper ds reg) [
    | inl same ↦ subst IsReported (sym same) reported
    | inr (ns, accepted, left) ↦
        let (keeps, _) =
          store_all-Holds to_upper upper 0 reg empty_batch reg ds ns accepted consistent
            (empty_batch-Pending to_upper reg consistent) in
        subst IsReported (sym left) (λ id us found.
          let (k, d, p, held, e, named, single) =
            reported id us (sym (ap (lookup id) (store_all-usages ns reg)) ∙ found) in
          (k, d, p, keeps k d held, e, named, single))
  ]

  pub run-IsReported :
      IsUpper to_upper
      → (calls : List Call) (reg : Registry) → IsConsistent to_upper reg
      → IsReported reg
      → IsReported (run to_upper calls reg)
  run-IsReported upper [] reg consistent reported = reported
  run-IsReported upper (register_call ds ∷ calls) reg consistent reported =
      run-IsReported upper calls (register to_upper ds reg).1
        (register-IsConsistent to_upper upper ds reg consistent)
        (register-IsReported upper ds reg consistent reported)
  run-IsReported upper (freeze_call encode ∷ calls) reg consistent reported =
      run-IsReported upper calls (freeze encode reg).1
        (freeze-IsConsistent to_upper upper encode reg consistent)
        (freeze-IsReported encode reg reported)
