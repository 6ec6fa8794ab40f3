-- ===== src/Action/Registry/Resolution.antt =====
-- What a frozen registry of action/registry.go resolves, and what registrations leave behind.
use mathlib.Core.Option.{some-injective}
use domainry_foundation.Prelude.{
  one_of, ◌≡◌, refl, sym, ap, subst, ◌∙◌, ◌↔◌, inl, inr, true, false, Bool-cases, Option,
  Option-cases, none, some, String, eq_iff, List, Map, lookup, lookup_or, trim_space,
}
use domainry_foundation.Action.Model.{
  ActionDefinition, normalize_definition, http_identity, non_http_identity,
}
use domainry_foundation.Action.Validation.{validate_definition}
use domainry_foundation.Action.Normal.{IsUpper, accepted_keys}
use domainry_foundation.Action.Batches.{
  Registry, new_registry, non_http_identities, http_identities, is_retired,
}
use domainry_foundation.Action.Registry.{
  unless_retired, Call, run, definition, resolve_http, resolve_non_http,
}
use domainry_foundation.Action.Registry.Consistency.{Stored, Indexed, IsConsistent, stable-named}
use domainry_foundation.Action.Registry.Preserved.{reachable-IsConsistent}

-- A definition that the registry gives out.
unless_retired-some :
    (o : Option ActionDefinition) (d : ActionDefinition)
    → unless_retired o ≡ some d
    → (o ≡ some d) × (is_retired d ≡ false)
unless_retired-some none d e = cc
unless_retired-some (some c) d e = elim (Bool-cases (is_retired c)) [
  | inl retired ↦ absurd (cc (rw (retired, unless_retired) at e))
  | inr active ↦
      let same = some-injective c d (rw (active, unless_retired) at e) in
      (ap some same, subst (λ d. is_retired d ≡ false) same active)
]

some-unless_retired :
    (o : Option ActionDefinition) (d : ActionDefinition)
    → o ≡ some d
    → is_retired d ≡ false
    → unless_retired o ≡ some d
some-unless_retired o d e active = rw e (rw active refl)

-- The definition an index leads to, of the ones in use.
abbrev found : Map ActionDefinition → Map String → String → Option ActionDefinition
found defs index id = unless_retired (lookup (lookup_or "" id index) defs)

module _ (to_upper : String → String) (keys : ActionDefinition → List String)
    (defs : Map ActionDefinition) (index : Map String) (stored : Stored to_upper defs)
    (indexed : Indexed to_upper keys (λ d. d.key) defs index) where
  blank-absent : lookup "" defs ≡ none
  blank-absent = elim (Option-cases (lookup "" defs)) [
    | inl absent ↦ absent
    | inr (d, e) ↦
        let accepted = stored "" d e in
        absurd
          (cc (stable-named d.key (accepted_keys d accepted.1.0).0, (eq_iff d.key "").1 accepted.0))
  ]

  found_sound :
      (id : String) (d : ActionDefinition)
      → found defs index id ≡ some d
      → (one_of (keys d) id ≡ true) × (lookup d.key defs ≡ some d) × (is_retired d ≡ false)
  found_sound id d e =
      let (at_key, active) = unless_retired-some (lookup (lookup_or "" id index) defs) d e in
      elim (Option-cases (lookup id index)) [
        | inl absent ↦ absurd (cc (blank-absent, rw (absent, lookup_or) at at_key))
        | inr (v, there) ↦
            let (k, c, held, claims, named) = indexed.0 id v there in
            let reached : lookup v defs ≡ some d = rw (there, lookup_or) at at_key in
            let keyed = (stored k c held).0 in
            let same =
              some-injective c d
                (sym held ∙ ap (λ k. lookup k defs) (sym keyed ∙ named) ∙ reached) in
            (
              subst (λ d. one_of (keys d) id ≡ true) same claims,
              ap (λ k. lookup k defs) (stored v d reached).0 ∙ reached,
              active,
            )
      ]

  found_complete :
      (id : String) (d : ActionDefinition)
      → one_of (keys d) id ≡ true
      → lookup d.key defs ≡ some d
      → is_retired d ≡ false
      → found defs index id ≡ some d
  found_complete id d claims held active =
      let there = indexed.1 id d.key d held claims in
      some-unless_retired (lookup (lookup_or "" id index) defs) d (rw (there, lookup_or) held)
        active

pub definition-frozen :
    (key : String) (reg : Registry)
    → reg.frozen ≡ true
    → definition key reg ≡ unless_retired (lookup (trim_space key) reg.definitions)
unfolding definition
definition-frozen key reg frozen = simp (frozen)

resolve_http-frozen :
    (to_upper : String → String) (method route : String) (reg : Registry)
    → reg.frozen ≡ true
    → resolve_http to_upper method route reg
      ≡ found reg.definitions reg.by_http (http_identity to_upper method route)
unfolding resolve_http
resolve_http-frozen to_upper method route reg frozen = simp (frozen)

resolve_non_http-frozen :
    (kind key : String) (reg : Registry)
    → reg.frozen ≡ true
    → resolve_non_http kind key reg
      ≡ found reg.definitions reg.by_non_http (non_http_identity kind key)
unfolding resolve_non_http
resolve_non_http-frozen kind key reg frozen = simp (frozen)

module _ (to_upper : String → String) (upper : IsUpper to_upper) (calls : List Call)
    (frozen : (run to_upper calls new_registry).frozen ≡ true) where
  abbrev reg : Registry
  reg = run to_upper calls new_registry

  consistent : IsConsistent to_upper reg
  consistent = reachable-IsConsistent to_upper upper calls

  key-trimmed :
      (k : String) (d : ActionDefinition)
      → lookup k reg.definitions ≡ some d
      → trim_space d.key ≡ d.key
  unfolding normalize_definition
  key-trimmed k d held = ap (λ (d : ActionDefinition). d.key) (consistent.0 k d held).1.1

  given :
      (d : ActionDefinition)
      → lookup d.key reg.definitions ≡ some d
      → is_retired d ≡ false
      → definition d.key reg ≡ some d
  given d held active =
      definition-frozen d.key reg frozen
      ∙ some-unless_retired (lookup (trim_space d.key) reg.definitions) d
          (rw (key-trimmed d.key d held) held) active

  taken :
      (d : ActionDefinition)
      → definition d.key reg ≡ some d
      → (lookup d.key reg.definitions ≡ some d) × (is_retired d ≡ false)
  taken d e =
      let (held, active) =
        unless_retired-some (lookup (trim_space d.key) reg.definitions) d
          (sym (definition-frozen d.key reg frozen) ∙ e) in
      (rw (sym (consistent.0 (trim_space d.key) d held).0) at held, active)

  module _ (keys : ActionDefinition → List String) (index : Map String)
      (indexed : Indexed to_upper keys (λ d. d.key) reg.definitions index) where
    found_iff :
        (id : String) (d : ActionDefinition)
        → (found reg.definitions index id ≡ some d)
          ↔ ((definition d.key reg ≡ some d) × (one_of (keys d) id ≡ true))
    found_iff id d = (
      (λ e.
          let (claims, held, active) =
            found_sound to_upper keys reg.definitions index consistent.0 indexed id d e in
          (given d held active, claims)),
      (λ (e, claims).
          let (held, active) = taken d e in
          found_complete to_upper keys reg.definitions index consistent.0 indexed id d claims held
            active),
    )

  -- The registry, frozen after any registrations and freezes of a new one, resolves a method and a route
  -- to a definition exactly if it gives out that definition under its key and the definition claims the
  -- identity of the method and the route: `to_upper` keeps a trimmed text trimmed and in upper case.
  pub resolve_http_lem :
      (method route : String) (d : ActionDefinition)
      → (resolve_http to_upper method route reg ≡ some d) ↔ (
          (definition d.key reg ≡ some d)
          × (one_of (http_identities to_upper d) (http_identity to_upper method route) ≡ true))
  resolve_http_lem method route d = rw (resolve_http-frozen to_upper method route reg frozen) (
      found_iff (http_identities to_upper) reg.by_http consistent.1
        (http_identity to_upper method route) d)

  -- The registry, frozen after any registrations and freezes of a new one, resolves a kind and an
  -- invocation key to a definition exactly if it gives out that definition under its key and the
  -- definition has a binding of that kind and key: `to_upper` keeps a trimmed text trimmed and in upper
  -- case.
  pub resolve_non_http_lem :
      (kind key : String) (d : ActionDefinition)
      → (resolve_non_http kind key reg ≡ some d) ↔ (
          (definition d.key reg ≡ some d)
          × (one_of (non_http_identities d) (non_http_identity kind key) ≡ true))
  resolve_non_http_lem kind key d =
      rw (resolve_non_http-frozen kind key reg frozen)
        (found_iff non_http_identities reg.by_non_http consistent.2 (non_http_identity kind key) d)

  -- What the registry, frozen after any registrations and freezes of a new one, gives out for a key has
  -- that key, passes the validation, is in normal form and is not retired: `to_upper` keeps a trimmed
  -- text trimmed and in upper case.
  pub definition_lem :
      (key : String) (d : ActionDefinition)
      → definition key reg ≡ some d
      → (d.key ≡ trim_space key)
        × (validate_definition d ≡ none)
        × (normalize_definition to_upper d ≡ d)
        × (is_retired d ≡ false)
  definition_lem key d e =
      let (held, active) =
        unless_retired-some (lookup (trim_space key) reg.definitions) d
          (sym (definition-frozen key reg frozen) ∙ e) in
      let accepted = consistent.0 (trim_space key) d held in
      (accepted.0, accepted.1.0, accepted.1.1, active)
