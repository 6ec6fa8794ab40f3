-- ===== src/Action/Registry/Claims.antt =====
-- What a batch of definitions that is accepted has claimed.
use domainry_foundation.Prelude.{
  one_of, ◌≡◌, refl, sym, ap, subst, ◌∙◌, inl, inr, true, false, Bool-cases, none, String, str_eq,
  eq_iff, List, [], ◌∷◌, Map, lookup, lookup_or, lookup-insert, insert, arith, if◌then◌else◌,
}
use domainry_foundation.Action.Model.{ActionDefinition}
use domainry_foundation.Action.Batches.{
  RegistryError, Checked, ok, refused, ◌>>=◌, Registry, claim, claim_all, claim_permission,
}
use domainry_foundation.Action.Registry.{insert_all}
use domainry_foundation.Action.Registry.Indexes.{lookup-insert_all}

-- Neither the registry nor the batch has the identity.
abbrev pub Free : Map String → Map String → String → Type 0
Free index batch id = (lookup_or "" id index ≡ "") × (lookup_or "" id batch ≡ "")

-- What is free is in no index of the registry with the batch so far.
abbrev pub Unclaimed : Map String → Map String → Map String → Type 0
Unclaimed index batch index' = (id : String) → Free index batch id → lookup id index' ≡ none

lookup_or-insert_all :
    (key id : String) (ids : List String) (batch : Map String)
    → lookup_or "" id (insert_all ids key batch)
      ≡ (if one_of ids id then key else lookup_or "" id batch)
lookup_or-insert_all key id ids batch = ground (arith, lookup-insert_all id key ids batch)

pub insert_all-Unclaimed :
    (key v : String) (ids : List String) (index batch index' : Map String)
    → str_eq key "" ≡ false
    → Unclaimed index batch index'
    → Unclaimed index (insert_all ids key batch) (insert_all ids v index')
insert_all-Unclaimed key v ids index batch index' named free id (f, g) =
    let out = lookup-insert_all id v ids index' in
    let inside = lookup_or-insert_all key id ids batch in
    elim (Bool-cases (one_of ids id)) [
      | inl mine ↦ absurd (cc ((eq_iff key "").1 (sym (rw mine at inside) ∙ g), named))
      | inr other ↦ out ∙ rw other (free id (f, (rw other at (sym inside)) ∙ g))
    ]

claim-ok :
    (owned taken : String → RegistryError) (key : String) (index : Map String) (id : String)
    (batch b : Map String)
    → claim owned taken key index id batch ≡ ok b
    → Free index batch id × (b ≡ insert id key batch)
unfolding claim
claim-ok owned taken key index id batch b e =
    ground (arith, eq_iff (lookup_or "" id index) "", eq_iff (lookup_or "" id batch) "")

insert-Free :
    (key k id : String) (index batch : Map String)
    → str_eq key "" ≡ false
    → Free index (insert k key batch) id
    → Free index batch id
insert-Free key k id index batch named f =
    (f.0, ground (arith, f.1, lookup-insert k id key batch, eq_iff key ""))

claimed-first :
    (key k : String) (ids : List String) (index batch b c : Map String)
    → str_eq key "" ≡ false
    → Free index batch k × (b ≡ insert k key batch)
    → (c ≡ insert_all ids key b) × ((id : String) → one_of ids id ≡ true → Free index b id)
    → (c ≡ insert_all (k ∷ ids) key batch)
      × ((id : String) → one_of (k ∷ ids) id ≡ true → Free index batch id)
claimed-first key k ids index batch b c named (f, e) (later, free) = (
  later ∙ ap (insert_all ids key) e,
  λ id mine. elim (Bool-cases (str_eq id k)) [
    | inl same ↦ subst (Free index batch) (sym ((eq_iff id k).0 same)) f
    | inr other ↦
        insert-Free key k id index batch named
          (subst (λ m. Free index m id) e (free id (rw other at mine)))
  ],
)

pub bind-ok :
    {A B : Type 0} (o : Checked A) (f : A → Checked B) (b : B)
    → (o >>= f) ≡ ok b
    → (a : A) × (o ≡ ok a) × (f a ≡ ok b)
bind-ok (ok a) f b e = (a, refl, e)
bind-ok (refused r) f b e = cc

pub claim_all-ok :
    (taken : String → String → RegistryError) (key : String) (index : Map String)
    (ids : List String) (batch c : Map String)
    → str_eq key "" ≡ false
    → claim_all taken key index ids batch ≡ ok c
    → (c ≡ insert_all ids key batch) × ((id : String) → one_of ids id ≡ true → Free index batch id)
claim_all-ok taken key index [] batch c named e = (cc, λ id mine. cc)
claim_all-ok taken key index (k ∷ ids) batch c named e =
    let (b, first, later) = bind-ok _ _ c e in
    claimed-first key k ids index batch b c named
      (claim-ok (taken k) (taken k) key index k batch b first)
      (claim_all-ok taken key index ids b c named later)

pub claim_permission-ok :
    (reg : Registry) (d : ActionDefinition) (ids : List String) (batch c : Map String)
    → str_eq d.key "" ≡ false
    → claim_permission reg d ids batch ≡ ok c
    → (c ≡ insert_all ids d.key batch)
      × ((id : String) → one_of ids id ≡ true → Free reg.permission_owners batch id)
claim_permission-ok reg d [] batch c named e = (cc, λ id mine. cc)
claim_permission-ok reg d (k ∷ ids) batch c named e =
    let (b, first, later) = bind-ok _ _ c e in
    claimed-first d.key k ids reg.permission_owners batch b c named
      (claim-ok _ _ d.key reg.permission_owners k batch b first)
      (claim_permission-ok reg d ids b c named later)
