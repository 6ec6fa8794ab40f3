-- ===== src/Action/Usage/Entries.antt =====
-- The usages of one owner in an answer of action/usage.go.
use mathlib.Core.Option.{some-injective}
use domainry_foundation.Prelude.{
  one_of, ℕ, ◌+◌, ◌≤◌, ◌≡◌, refl, sym, ap, subst, ◌∙◌, inl, inr, Bool, true, false, Option-cases,
  none, some, String, str_eq, eq_iff, List, [], ◌∷◌, ◌++◌, Map, lookup, lookup_or, arith,
  if◌then◌else◌, All, sort-All, count_if, count_if-sort, sort, trim_space, trim_space_idem,
}
use domainry_foundation.Action.Model.{
  PermissionDefinition, ActionDefinition, permission_identity, normalize_definition, option_map,
  trim_permission,
}
use domainry_foundation.Action.Validation.{is_stable_key}
use domainry_foundation.Action.Normal.{Owns, accepted_permission}
use domainry_foundation.Action.Batches.{PermissionUsage}
use domainry_foundation.Action.Registry.Consistency.{Accepted, Stored}
use domainry_foundation.Action.Usage.{
  permission_key, definition_error, normal_usage, check_usages, found_usages, usage_le,
}
use domainry_foundation.Action.Usage.Found.{AllReport}
use domainry_foundation.Action.Usage.Identities.{permission_identity_injective}

-- The usages of an action, and the raw keys of a query that name a key.
abbrev of_action : String → PermissionUsage → Bool
of_action k u = str_eq u.action.key k

abbrev pub names_key : String → String → Bool
names_key k raw = str_eq (trim_space raw) k

abbrev pub among : List String → String → ℕ
among seen k = if one_of seen k then 1 else 0

module _ (to_upper : String → String) (owner : String) (keys : List String) where
  -- A usage that the receiver accepts for the owner and the keys it asked for.
  abbrev Fits : PermissionUsage → Type 0
  Fits u =
      (u.permission.owner ≡ owner)
      × (u.action.owner ≡ owner)
      × (permission_key u.action ≡ some u.permission.key)
      × (one_of keys u.permission.key ≡ true)
      × (definition_error to_upper u.action ≡ none)

  normal_usage-none :
      (u : PermissionUsage)
      → definition_error to_upper u.action ≡ none
      → normal_usage to_upper u none ≡ none
  normal_usage-none u e = rw (e, normal_usage) refl

  pub check_usages-none :
      (seen : List String) (us : List PermissionUsage)
      → All Fits us
      → ((k : String) → count_if (of_action k) us + among seen k ≤ 1)
      → check_usages to_upper owner keys seen us ≡ none
  unfolding check_usages
  check_usages-none seen [] fits single = refl
  check_usages-none seen (u ∷ us) (fit, fits) single =
      let rest =
        check_usages-none (u.action.key ∷ seen) us fits
          (λ k. ground (arith, single k, eq_iff u.action.key k, eq_iff k u.action.key)) in
      let unseen : one_of seen u.action.key ≡ false =
        ground (arith, single u.action.key, eq_iff u.action.key u.action.key) in
      let owned = (eq_iff u.permission.owner owner).1 fit.0 in
      let acting = (eq_iff u.action.owner owner).1 fit.1 in
      let keyed = (eq_iff u.permission.key u.permission.key).1 refl in
      rw (owned, acting, fit.2, keyed, fit.3, unseen, rest) (normal_usage-none u fit.4)

  -- What a raw key of a query finds: usages that fit, of the action of that key.
  abbrev Entry : String → List PermissionUsage → Type 0
  Entry raw us =
      All Fits us × ((k : String) → count_if (of_action k) us ≤ (if names_key k raw then 1 else 0))

  module _ (defs : Map ActionDefinition) (usages : Map (List PermissionUsage))
      (stored : Stored to_upper defs) (reported : AllReport defs usages)
      (trimmed : trim_space owner ≡ owner) (stable : is_stable_key owner ≡ true) where
    permission-trimmed :
        (d : ActionDefinition) (p : PermissionDefinition)
        → normalize_definition to_upper d ≡ d
        → d.permission ≡ some p
        → (trim_space p.owner ≡ p.owner) × (trim_space p.key ≡ p.key)
    unfolding normalize_definition
    permission-trimmed d p normal e =
        let same : some (trim_permission p) ≡ some p =
          ap (option_map trim_permission) (sym e)
          ∙ ap (λ (d : ActionDefinition). d.permission) normal
          ∙ e in
        let whole = some-injective (trim_permission p) p same in
        (
          ap (λ (p : PermissionDefinition). p.owner) whole,
          ap (λ (p : PermissionDefinition). p.key) whole,
        )

    single-Entry :
        (raw : String) (d : ActionDefinition) (p : PermissionDefinition)
        → Owns d p
        → Accepted to_upper d
        → d.permission ≡ some p
        → p.owner ≡ owner
        → p.key ≡ trim_space raw
        → one_of keys (trim_space raw) ≡ true
        → Entry raw (record { permission = p; action = d } ∷ [])
    single-Entry raw d p (key, acts, _, _) (valid, normal) e owned named asked = (
      ((owned, sym acts ∙ owned, rw (e, permission_key) refl, rw named asked, rw normal valid), tt),
      λ k.
          subst (λ t. (if str_eq d.key k then 1 else 0) ≤ (if str_eq t k then 1 else 0))
            (sym key ∙ named) (ground arith),
    )

    entry :
        (raw : String)
        → is_stable_key (trim_space raw) ≡ true
        → one_of keys (trim_space raw) ≡ true
        → Entry raw (lookup_or [] (permission_identity owner (trim_space raw)) usages)
    entry raw key_stable asked =
        elim (Option-cases (lookup (permission_identity owner (trim_space raw)) usages)) [
          | inl nothing ↦
              let shape : lookup_or [] (permission_identity owner (trim_space raw)) usages ≡ [] =
                rw (nothing, lookup_or) refl in
              subst (Entry raw) (sym shape) (tt, λ k. ground arith)
          | inr (us, there) ↦
              let shape : lookup_or [] (permission_identity owner (trim_space raw)) usages ≡ us =
                rw (there, lookup_or) refl in
              let (k, d, p, held, e, named, single) =
                reported (permission_identity owner (trim_space raw)) us there in
              let accepted = (stored k d held).1 in
              let owns = accepted_permission d p accepted.0 e in
              let (owner_trimmed, key_trimmed) = permission-trimmed d p accepted.1 e in
              let (same_owner, same_key) =
                permission_identity_injective owner p.owner (trim_space raw) p.key
                  (rw trimmed stable) (rw owner_trimmed owns.3) named in
              subst (Entry raw) (sym (shape ∙ single)) (
                single-Entry raw d p owns accepted e (sym owner_trimmed ∙ sym same_owner ∙ trimmed)
                  (sym key_trimmed ∙ sym same_key ∙ trim_space_idem raw) asked)
        ]

    count_if-append :
        (f : PermissionUsage → Bool) (us vs : List PermissionUsage)
        → count_if f (us ++ vs) ≡ count_if f us + count_if f vs
    count_if-append f [] vs = ground arith
    count_if-append f (u ∷ us) vs = ground (arith, count_if-append f us vs)

    All-append : (us vs : List PermissionUsage) → All Fits us → All Fits vs → All Fits (us ++ vs)
    All-append [] vs fits later = later
    All-append (u ∷ us) vs (fit, fits) later = (fit, All-append us vs fits later)

    -- The usages found for raw keys that are stable and asked for.
    found_usages-Fits :
        (raws : List String)
        → All
            (λ raw. (is_stable_key (trim_space raw) ≡ true) × (one_of keys (trim_space raw) ≡ true))
            raws
        → All Fits (found_usages usages owner raws)
          × ((k : String)
              → count_if (of_action k) (found_usages usages owner raws)
                ≤ count_if (names_key k) raws)
    found_usages-Fits [] h = (tt, λ k. ground arith)
    found_usages-Fits (raw ∷ raws) (h, hs) =
        let first = entry raw h.0 h.1 in
        let later = found_usages-Fits raws hs in
        let us = lookup_or [] (permission_identity owner (trim_space raw)) usages in
        let vs = found_usages usages owner raws in
        (
          All-append us vs first.0 later.0,
          λ k. ground (arith, count_if-append (of_action k) us vs, first.1 k, later.1 k),
        )

    -- The usages of the answer to a query whose keys are checked.
    pub check_usages-answered :
        (raws : List String)
        → All
            (λ raw. (is_stable_key (trim_space raw) ≡ true) × (one_of keys (trim_space raw) ≡ true))
            raws
        → ((k : String) → count_if (names_key k) raws ≤ 1)
        → check_usages to_upper owner keys [] (sort usage_le (found_usages usages owner raws))
          ≡ none
    check_usages-answered raws h single =
        let us = found_usages usages owner raws in
        let (fits, few) = found_usages-Fits raws h in
        check_usages-none [] (sort usage_le us) (sort-All usage_le Fits us fits)
          (λ k. ground (arith, count_if-sort usage_le (of_action k) us, few k, single k))
