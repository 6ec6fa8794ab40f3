-- ===== src/Worker/Fairness/Queues.antt =====
-- The queues of the groups, and what becomes of them when one changes.
use domainry_foundation.Prelude.{
  ℕ, ◌+◌, ◌≡◌, refl, Bool, true, false, ◌||◌, String, str_eq, eq_iff, List, [], ◌∷◌, ◌++◌, count_if,
  Map, lookup_or, lookup-insert, insert, arith, if◌then◌else◌,
}

abbrev pub has : String → List String → Bool
has k [] = false
has k (j ∷ js) = let rest = has k js in str_eq j k || rest

abbrev pub Distinct : List String → Type 0
Distinct [] = Unit {0}
Distinct (k ∷ ks) = (has k ks ≡ false) × Distinct ks

pub has-append : (k j : String) (ks : List String) → has k (ks ++ j ∷ []) ≡ (has k ks || str_eq j k)
has-append k j [] = ground arith
has-append k j (i ∷ ks) = ground (arith, has-append k j ks)

pub append-Distinct :
    (j : String) (ks : List String) → Distinct ks → has j ks ≡ false → Distinct (ks ++ j ∷ [])
append-Distinct j [] d h = (refl, tt)
append-Distinct j (k ∷ ks) d h =
    ground (arith, has-append k j ks, append-Distinct j ks, eq_iff k j, eq_iff j k)

module _ {A : Type 0} where
  -- The queues of the keys.
  abbrev pub queues_of : List String → Map (List A) → List (List A)
  queues_of [] m = []
  queues_of (k ∷ ks) m = lookup_or [] k m ∷ queues_of ks m

  pub lookup_or-insert :
      (k j : String) (v : List A) (m : Map (List A))
      → lookup_or [] j (insert k v m) ≡ (if str_eq k j then v else lookup_or [] j m)
  lookup_or-insert k j v m = ground (arith, lookup-insert k j v m)

  pub queues_of-insert :
      (k : String) (v : List A) (ks : List String) (m : Map (List A))
      → has k ks ≡ false
      → queues_of ks (insert k v m) ≡ queues_of ks m
  queues_of-insert k v [] m h = refl
  queues_of-insert k v (j ∷ ks) m h =
      ground (arith, lookup_or-insert k j v m, eq_iff k j, eq_iff j k, queues_of-insert k v ks m)

  -- How many elements of the queues pass a test.
  abbrev pub total : (A → Bool) → List (List A) → ℕ
  total p [] = 0
  total p (q ∷ qs) = count_if p q + total p qs

  pub count_if-append :
      (p : A → Bool) (xs ys : List A) → count_if p (xs ++ ys) ≡ count_if p xs + count_if p ys
  count_if-append p [] ys = omega arith
  count_if-append p (x ∷ xs) ys = ground (arith, count_if-append p xs ys)

  pub total-append :
      (p : A → Bool) (k : String) (ks : List String) (m : Map (List A))
      → total p (queues_of (ks ++ k ∷ []) m)
        ≡ total p (queues_of ks m) + count_if p (lookup_or [] k m)
  total-append p k [] m = omega arith
  total-append p k (j ∷ ks) m = omega (arith, total-append p k ks m)

  pub total-insert :
      (p : A → Bool) (k : String) (v : List A) (ks : List String) (m : Map (List A))
      → Distinct ks
      → has k ks ≡ true
      → total p (queues_of ks (insert k v m)) + count_if p (lookup_or [] k m)
        ≡ total p (queues_of ks m) + count_if p v
  total-insert p k v [] m d h = cc
  total-insert p k v (j ∷ ks) m d h = ground (
    arith,
    lookup_or-insert k j v m,
    eq_iff k j,
    eq_iff j k,
    queues_of-insert k v ks m,
    total-insert p k v ks m,
  )
