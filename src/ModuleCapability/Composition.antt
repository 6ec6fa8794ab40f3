-- ===== src/ModuleCapability/Composition.antt =====
-- The modules that a composition names, in modulecapability/validation.go.
use domainry_foundation.Prelude.{
  ℕ, ◌+◌, ◌≤◌, ◌≡◌, refl, ◌∙◌, true, false, not, ◌||◌, none, String, str_eq, eq_iff, List, [], ◌∷◌,
  Map, lookup_or, lookup-insert, insert, count_if, one_of, refuse, and_then, refuse-none,
  and_then-none, arith, min, ap, subst, Bool-cases, inl, inr, if◌then◌else◌,
}
use domainry_foundation.ModuleCapability.Summary.{
  ModuleComposition, ModuleSummary, items, is_key, is_blank, is_empty, is_identity, has_null,
  identity_key_required, identity_invalid, name_required, collections_required, category_required,
  grouped, check_groups, check_disjoint, validate_module_keys, validate_unique_non_blank,
  validate_deployment_modes, check_categories, validate_composition, validate_module_summary,
}

abbrev pub times : String → List String → ℕ
times k vs = count_if (λ v. str_eq v k) vs

-- How often the three lists of modules name a key.
abbrev pub places : String → ModuleComposition → ℕ
places k c =
    times k (items c.required_modules)
    + (times k (items c.optional_modules) + times k (items c.conflicting_modules))

abbrev among : List String → String → ℕ
among seen k = if one_of seen k then 1 else 0

abbrev placed : Map String → String → ℕ
placed groups k = if str_eq (lookup_or "" k groups) "" then 0 else 1

module_keys-single :
    (m name : String) (seen vs : List String)
    → validate_module_keys m name seen vs ≡ none
    → (k : String) → (times k vs + among seen k ≤ 1) × (times m vs ≡ 0)
unfolding validate_module_keys
module_keys-single m name seen [] h k = (ground arith, refl)
module_keys-single m name seen (v ∷ vs) h k =
    let (single, others) = module_keys-single m name (v ∷ seen) vs (ground (arith, h)) k in
    (ground (arith, single, h, eq_iff v k, eq_iff k v), ground (arith, others, h))

insert-placed :
    (v name k : String) (groups : Map String)
    → str_eq name "" ≡ false
    → placed (insert v name groups) k ≡ (if str_eq v k then 1 else placed groups k)
insert-placed v name k groups named = ground (arith, lookup-insert v k name groups, named)

-- A module that the groups do not have yet.
group_step :
    (v name k : String) (vs : List String) (groups : Map String)
    → placed groups v ≡ 0
    → times k vs + placed (insert v name groups) k ≤ 1
    → str_eq name "" ≡ false
    → (times k (v ∷ vs) + placed groups k ≤ 1)
      × (times k vs + placed (insert v name groups) k ≡ times k (v ∷ vs) + placed groups k)
group_step v name k vs groups new single named = elim (Bool-cases (str_eq v k)) [
  | inl same ↦
      let here : placed groups k ≡ 0 = subst (λ k. placed groups k ≡ 0) ((eq_iff v k).0 same) new in
      let one = insert-placed v name k groups named in
      (ground (arith, one, here, single, same), ground (arith, one, here, same))
  | inr other ↦
      let one = insert-placed v name k groups named in
      (ground (arith, one, single, other), ground (arith, one, other))
]

check_groups-new :
    (name v : String) (vs : List String) (groups : Map String)
    → (check_groups name (v ∷ vs) groups).0 ≡ none
    → (placed groups v ≡ 0)
      × ((check_groups name vs (insert v name groups)).0 ≡ none)
      × (check_groups name (v ∷ vs) groups ≡ check_groups name vs (insert v name groups))
unfolding check_groups
check_groups-new name v vs groups h = elim (Bool-cases (str_eq (lookup_or "" v groups) "")) [
  | inl new ↦ (rw new refl, rw new at h, rw new refl)
  | inr old ↦ absurd (cc (rw old at h))
]

check_groups-placed :
    (name : String) (vs : List String) (groups : Map String)
    → str_eq name "" ≡ false
    → (check_groups name vs groups).0 ≡ none
    → (k : String)
    → (times k vs + placed groups k ≤ 1)
      × (placed (check_groups name vs groups).1 k ≡ times k vs + placed groups k)
unfolding check_groups
check_groups-placed name [] groups named h k = (ground arith, ground arith)
check_groups-placed name (v ∷ vs) groups named h k =
    let (new, later, same) = check_groups-new name v vs groups h in
    let (single, left) = check_groups-placed name vs (insert v name groups) named later k in
    let (whole, moved) = group_step v name k vs groups new single named in
    (whole, ap (λ r. placed r.1 k) same ∙ left ∙ moved)

grouped-placed :
    (name : String) (vs : List String) (groups : Map String)
    → str_eq name "" ≡ false
    → (k : String) → placed (grouped name vs groups) k ≡ min 1 (times k vs + placed groups k)
grouped-placed name [] groups named k = ground arith
grouped-placed name (v ∷ vs) groups named k = ground (
  arith,
  grouped-placed name vs (insert v name groups) named k,
  insert-placed v name k groups named,
)

check_disjoint-single :
    (required optional conflicting : List String)
    → check_disjoint required optional conflicting ≡ none
    → (k : String) → times k required ≤ 1
    → times k required + (times k optional + times k conflicting) ≤ 1
check_disjoint-single required optional conflicting h k single =
    let groups = grouped "required_modules" required [] in
    let behind = (check_groups "optional_modules" optional groups).1 in
    let (first, second) =
      and_then-none (check_groups "optional_modules" optional groups).0
        (check_groups "conflicting_modules" conflicting behind).0 h in
    let (_, left) = check_groups-placed "optional_modules" optional groups refl first k in
    let (last, _) = check_groups-placed "conflicting_modules" conflicting behind refl second k in
    ground (arith, left, last, grouped-placed "required_modules" required [] refl k, single)

validate_composition-parts :
    (m : String) (c : ModuleComposition)
    → validate_composition m c ≡ none
    → (validate_module_keys m "required_modules" [] (items c.required_modules) ≡ none)
      × (validate_module_keys m "optional_modules" [] (items c.optional_modules) ≡ none)
      × (validate_module_keys m "conflicting_modules" [] (items c.conflicting_modules) ≡ none)
      × (check_disjoint
            (items c.required_modules)
            (items c.optional_modules)
            (items c.conflicting_modules)
          ≡ none)
unfolding validate_composition
validate_composition-parts m c h =
    let disjoint =
      check_disjoint (items c.required_modules) (items c.optional_modules)
        (items c.conflicting_modules) in
    let conflicting =
      validate_module_keys m "conflicting_modules" [] (items c.conflicting_modules) in
    let optional = validate_module_keys m "optional_modules" [] (items c.optional_modules) in
    let required = validate_module_keys m "required_modules" [] (items c.required_modules) in
    let scopes = validate_unique_non_blank "validation_scopes" (items c.validation_scopes) false in
    let chains = validate_unique_non_blank "assembly_chains" (items c.assembly_chains) true in
    let provided =
      validate_unique_non_blank "provided_capabilities" (items c.provided_capabilities) true in
    let keys = and_then required (and_then optional (and_then conflicting disjoint)) in
    let a = (and_then-none provided (and_then chains (and_then scopes keys)) h).1 in
    let b = (and_then-none chains (and_then scopes keys) a).1 in
    let (r, later) =
      and_then-none required (and_then optional (and_then conflicting disjoint))
        (and_then-none scopes keys b).1 in
    let (o, last) = and_then-none optional (and_then conflicting disjoint) later in
    let (x, d) = and_then-none conflicting disjoint last in (r, o, x, d)

-- What the validation of a summary asks of its composition.
validate_module_summary-composition :
    (s : ModuleSummary)
    → validate_module_summary s ≡ none
    → validate_composition s.identity.key s.composition ≡ none
unfolding validate_module_summary
validate_module_summary-composition s h =
    let disclosed =
      refuse (is_empty (items s.categories)) category_required
        (check_categories "" (items s.categories)) in
    let composed = and_then (validate_composition s.identity.key s.composition) disclosed in
    let collected = refuse (has_null s) collections_required composed in
    let named = refuse (is_blank s.name || is_blank s.description) name_required collected in
    let deployed =
      and_then (validate_deployment_modes s.identity.supported_deployment_modes) named in
    let identified = refuse (not (is_identity s.identity)) identity_invalid deployed in
    let keyless = not (is_key s.identity.key) || not (is_key s.identity.source_owner) in
    let a = (refuse-none keyless identity_key_required identified h).1 in
    let b = (refuse-none (not (is_identity s.identity)) identity_invalid deployed a).1 in
    let c =
      (and_then-none (validate_deployment_modes s.identity.supported_deployment_modes) named b).1 in
    let d = (refuse-none (is_blank s.name || is_blank s.description) name_required collected c).1 in
    let e = (refuse-none (has_null s) collections_required composed d).1 in
    (and_then-none (validate_composition s.identity.key s.composition) disclosed e).0

-- A module summary that the validation accepts names a module at most once in its lists of required,
-- optional and conflicting modules taken together, and never itself.
pub validate_module_summary-places :
    (s : ModuleSummary)
    → validate_module_summary s ≡ none
    → (k : String) → (places k s.composition ≤ 1) × (places s.identity.key s.composition ≡ 0)
validate_module_summary-places s h k =
    let c = s.composition in
    let (r, o, x, d) =
      validate_composition-parts s.identity.key c (validate_module_summary-composition s h) in
    let required =
      module_keys-single s.identity.key "required_modules" [] (items c.required_modules) r k in
    let optional =
      module_keys-single s.identity.key "optional_modules" [] (items c.optional_modules) o k in
    let conflicting =
      module_keys-single s.identity.key "conflicting_modules" [] (items c.conflicting_modules) x
        k in
    let single =
      check_disjoint-single (items c.required_modules) (items c.optional_modules)
        (items c.conflicting_modules) d k in
    (single (omega (arith, required.0)), omega (arith, required.1, optional.1, conflicting.1))
