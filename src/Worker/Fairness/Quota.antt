-- ===== src/Worker/Fairness/Quota.antt =====
-- worker/fairness.go: `QuotaFairOrder`. A Go loop over a map meets the entries in any order: `met` are the
-- classes as the loop meets them.
use domainry_foundation.Prelude.{
  ℕ, zero, suc, ◌-◌, ℤ, pos, negsuc, Option, none, some, String, List, [], ◌∷◌, ◌++◌, length, take,
  drop, Map, lookup_or, insert, ltb, if◌then◌else◌,
}
use domainry_foundation.Worker.Fairness.{fair_limit, fair_order}
use domainry_foundation.Worker.Fairness.Queues.{has}

infixl 1 ◌>>=◌
abbrev ◌>>=◌ : {A B : Type 0} → Option A → (A → Option B) → Option B
none >>= f = none
some a >>= f = f a

abbrev wanted : ℤ → ℕ
wanted (pos n) = n
wanted (negsuc n) = 0

-- A quota, held to the free places and to the items of its class.
unfoldable pub bounded_quota : ℤ → ℕ → ℕ → ℕ
bounded_quota quota free size =
    let possible = if ltb free (wanted quota) then free else wanted quota in
    if ltb size possible then size else possible

module _ {A : Type 0} where
  -- The classes that the order does not name.
  abbrev pub unnamed : List String → Map (List A) → List A
  unnamed order [] = []
  unnamed order ((name, values) ∷ m) =
      let rest = unnamed order m in if has name order then rest else values ++ rest

module _ {A : Type 0} (class : A → String) where
  unfoldable pub add_classes : List A → Map (List A) → Map (List A)
  add_classes [] m = m
  add_classes (item ∷ items) m =
      add_classes items (insert (class item) (lookup_or [] (class item) m ++ item ∷ []) m)

module _ {A : Type 0} (key : A → String) where
  -- The classes of the order: what is selected and what remains.
  unfoldable pub serve_classes :
      ℕ → Map (List A) → Map ℤ → List String → List A → List A → Option (List A × List A)
  unfolding bounded_quota fair_order
  serve_classes limit classes quotas [] selected remaining = some (selected, remaining)
  serve_classes limit classes quotas (name ∷ order) selected remaining =
      let members = lookup_or [] name classes in
      fair_order key members (pos (length members)) >>= λ ordered.
      let quota =
        bounded_quota (lookup_or (pos 0) name quotas) (limit - length selected) (length ordered) in
      serve_classes limit classes quotas order (selected ++ take quota ordered)
        (remaining ++ drop quota ordered)

  abbrev pub fill : ℕ → List A → List A → Option (List A)
  fill limit selected remaining =
      if ltb (length selected) limit
      then (fair_order key remaining (pos (limit - length selected)) >>= λ more.
          some (selected ++ more))
      else some selected

module _ {A : Type 0} (key class : A → String) where
  unfoldable pub quota_fair_order :
      List A → ℤ → List String → Map ℤ → Map (List A) → Option (List A)
  unfolding add_classes serve_classes
  quota_fair_order items (negsuc l) order quotas met = some []
  quota_fair_order items (pos zero) order quotas met = some []
  quota_fair_order [] (pos (suc l)) order quotas met = some []
  quota_fair_order (item ∷ items) (pos (suc l)) order quotas met =
      let limit = fair_limit (pos (suc l)) (length (item ∷ items)) in
      serve_classes key limit (add_classes class (item ∷ items) []) quotas order [] [] >>= λ r.
      fill key limit r.0 (r.1 ++ unnamed order met)
