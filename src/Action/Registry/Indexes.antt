-- ===== src/Action/Registry/Indexes.antt =====
-- An index from the identities that definitions claim.
use mathlib.Core.Option.{some-injective}
use domainry_foundation.Prelude.{
  one_of, ◌≡◌, refl, sym, ◌∙◌, inl, inr, true, false, Bool-cases, none, some, String, str_eq,
  eq_iff, List, [], ◌∷◌, Map, lookup, lookup-insert, lookup-insert_self, insert, arith,
  if◌then◌else◌,
}
use domainry_foundation.Action.Model.{ActionDefinition}
use domainry_foundation.Action.Registry.{insert_all}

pub lookup-insert_all :
    (k v : String) (ks : List String) (m : Map String)
    → lookup k (insert_all ks v m) ≡ (if one_of ks k then some v else lookup k m)
lookup-insert_all k v [] m = refl
lookup-insert_all k v (j ∷ ks) m =
    ground (
      arith,
      lookup-insert_all k v ks (insert j v m),
      lookup-insert j k v m,
      eq_iff j k,
      eq_iff k j,
    )

pub kept :
    (k : String) (d : ActionDefinition) (defs : Map ActionDefinition) (j : String)
    (c : ActionDefinition)
    → lookup k defs ≡ none
    → lookup j defs ≡ some c
    → lookup j (insert k d defs) ≡ some c
kept k d defs j c new found = ground (arith, lookup-insert k j d defs, eq_iff k j)

-- The definitions, by their keys, and an index: what a definition claims leads to its value.
module _ (keys : ActionDefinition → List String) (value : ActionDefinition → String) where
  abbrev pub Leads : Map ActionDefinition → Map String → Type 0
  Leads defs index =
      (id v : String)
      → lookup id index ≡ some v
      → (k : String) × (d : ActionDefinition) × (lookup k defs ≡ some d)
        × (one_of (keys d) id ≡ true)
        × (value d ≡ v)

  abbrev pub Covers : Map ActionDefinition → Map String → Type 0
  Covers defs index =
      (id k : String) (d : ActionDefinition)
      → lookup k defs ≡ some d
      → one_of (keys d) id ≡ true
      → lookup id index ≡ some (value d)

  module _ (k : String) (d : ActionDefinition) (defs : Map ActionDefinition)
      (index : Map String) where
    pub insert-Leads :
        lookup k defs ≡ none
        → Leads defs index
        → Leads (insert k d defs) (insert_all (keys d) (value d) index)
    insert-Leads new leads id v e = elim (Bool-cases (one_of (keys d) id)) [
      | inl claimed ↦ (
        k,
        d,
        lookup-insert_self k d defs,
        claimed,
        ground (arith, lookup-insert_all id (value d) (keys d) index, e),
      )
      | inr other ↦
          let (j, c, found, claims, same) =
            leads id v (ground (arith, lookup-insert_all id (value d) (keys d) index, e)) in
          (j, c, kept k d defs j c new found, claims, same)
    ]

    stored :
        (j : String) (c : ActionDefinition)
        → str_eq k j ≡ true
        → lookup j (insert k d defs) ≡ some d
    stored j c same = rw (lookup-insert k j d defs, same) refl

    others :
        (j : String) (c : ActionDefinition)
        → str_eq k j ≡ false
        → lookup j (insert k d defs) ≡ some c
        → lookup j defs ≡ some c
    others j c other found = rw (lookup-insert k j d defs, other) at found

    pub insert-Covers :
        ((id : String) → one_of (keys d) id ≡ true → lookup id index ≡ none)
        → Covers defs index
        → Covers (insert k d defs) (insert_all (keys d) (value d) index)
    insert-Covers free covers id j c found claims =
        let all = lookup-insert_all id (value d) (keys d) index in
        elim (Bool-cases (str_eq k j)) [
          | inl same ↦
              let e = some-injective d c (sym (stored j c same) ∙ found) in
              all ∙ rw (e, claims) refl
          | inr other ↦
              let old = others j c other found in
              let led = covers id j c old claims in
              elim (Bool-cases (one_of (keys d) id)) [
                | inl mine ↦ absurd (cc (free id mine, led))
                | inr not_mine ↦ all ∙ rw (not_mine, led) refl
              ]
        ]
