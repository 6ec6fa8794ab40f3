-- ===== src/Worker/Fairness/Shares.antt =====
-- What `FairOrder` gives each group.
use domainry_foundation.Prelude.{
  ℕ, zero, suc, ◌+◌, ◌-◌, ◌≤◌, ◌≡◌, refl, sym, ◌∙◌, inl, inr, ◌⊎◌, Bool, false, Bool-cases, some,
  String, ℤ, str_eq, eq_iff, List, [], ◌∷◌, ◌++◌, length, length-take, take, count_if, leb,
  count_if-le-length, arith,
}
use mathlib.Core.Option.{some-injective}
use native.Mathlib.Nat.{zero-add, suc-add}
use domainry_foundation.Worker.Fairness.{group_of, fair_limit, fair_order}
use domainry_foundation.Worker.Fairness.Queues.{has, Distinct, total, count_if-append}
use domainry_foundation.Worker.Fairness.Rounds.{heads, tails, rounds, take-append_short}
use domainry_foundation.Worker.Fairness.Turns.{
  queue, first_seen, queues_in, queues, queues-total, length-turns, count_if-turns,
  fair_order-rounds, first_seen-Distinct,
}
use domainry_foundation.Worker.Fairness.Counts.{total-heads, fair_limit-le}

split_le : (a b : ℕ) → b ≤ a → a ≡ b + (a - b)
split_le a b h = omega arith

module _ {A : Type 0} where
  pub count_if-take : (p : A → Bool) (n : ℕ) (xs : List A) → count_if p (take n xs) ≤ count_if p xs
  count_if-take p zero xs = omega arith
  count_if-take p (suc n) [] = omega arith
  count_if-take p (suc n) (x ∷ xs) = ground (arith, count_if-take p n xs)

  take-append_long : (xs ys : List A) (k : ℕ) → take (length xs + k) (xs ++ ys) ≡ xs ++ take k ys
  take-append_long [] ys k = rw (zero-add k) refl
  take-append_long (x ∷ xs) ys k = rw (suc-add (length xs) k, take-append_long xs ys k) refl

  -- The test selects one queue, or none.
  abbrev Sole : (A → Bool) → List (List A) → Type 0
  Sole p [] = Unit {0}
  Sole p (q ∷ qs) =
      ((count_if p q ≡ 0) × Sole p qs) ⊎ ((count_if p q ≡ length q) × (total p qs ≡ 0))

  heads_none : (p : A → Bool) (qs : List (List A)) → total p qs ≡ 0 → count_if p (heads qs) ≡ 0
  heads_none p qs h = omega (arith, total-heads p qs, h)

  heads-Sole : (p : A → Bool) (qs : List (List A)) → Sole p qs → count_if p (heads qs) ≤ 1
  heads-Sole p [] s = omega arith
  heads-Sole p ([] ∷ qs) (inl s) = heads-Sole p qs s.1
  heads-Sole p ([] ∷ qs) (inr s) = omega (arith, heads_none p qs s.1)
  heads-Sole p ((x ∷ xs) ∷ qs) (inl s) = ground (arith, heads-Sole p qs s.1, s.0)
  heads-Sole p ((x ∷ xs) ∷ qs) (inr s) = ground (arith, heads_none p qs s.1)

  heads_some :
      (p : A → Bool) (qs : List (List A)) → Sole p qs → 1 ≤ total p qs → 1 ≤ count_if p (heads qs)
  heads_some p [] s h = h
  heads_some p ([] ∷ qs) (inl s) h = heads_some p qs s.1 (omega (arith, h))
  heads_some p ([] ∷ qs) (inr s) h = absurd (omega (arith, h, s.1))
  heads_some p ((x ∷ xs) ∷ qs) (inl s) h = ground (arith, heads_some p qs s.1, s.0, h)
  heads_some p ((x ∷ xs) ∷ qs) (inr s) h = ground (arith, s.0, count_if-le-length p xs)

  tails-Sole : (p : A → Bool) (qs : List (List A)) → Sole p qs → Sole p (tails qs)
  tails-Sole p [] s = tt
  tails-Sole p ([] ∷ qs) (inl s) = inl (refl, tails-Sole p qs s.1)
  tails-Sole p ([] ∷ qs) (inr s) = inr (refl, omega (arith, total-heads p qs, s.1))
  tails-Sole p ((x ∷ xs) ∷ qs) (inl s) = inl (ground (arith, s.0), tails-Sole p qs s.1)
  tails-Sole p ((x ∷ xs) ∷ qs) (inr s) =
      inr (ground (arith, s.0, count_if-le-length p xs), omega (arith, total-heads p qs, s.1))

  rounds-le-total :
      (p : A → Bool) (n : ℕ) (qs : List (List A)) → count_if p (rounds n qs) ≤ total p qs
  unfolding rounds
  rounds-le-total p zero qs = omega arith
  rounds-le-total p (suc n) qs = omega (
    arith,
    total-heads p qs,
    count_if-append p (heads qs) (rounds n (tails qs)),
    rounds-le-total p n (tails qs),
  )

  -- Of two tests that select a queue each, the first has at most one more of its elements among the first
  -- ones, or else the second has all of its own.
  abbrev IsFair : (A → Bool) → (A → Bool) → List (List A) → List A → Type 0
  IsFair p r qs out = (count_if p out ≤ suc (count_if r out)) ⊎ (count_if r out ≡ total r qs)

  rounds-later :
      (p r : A → Bool) (k : ℕ) (later : List A) (qs : List (List A))
      → Sole p qs
      → Sole r qs
      → count_if r later ≤ total r (tails qs)
      → IsFair p r (tails qs) (take k later)
      → IsFair p r qs (heads qs ++ take k later)
  rounds-later p r k later qs s t b (inr f) =
      inr (omega (arith, f, total-heads r qs, count_if-append r (heads qs) (take k later)))
  rounds-later p r k later qs s t b (inl f) =
      let cp = count_if-append p (heads qs) (take k later) in
      let cr = count_if-append r (heads qs) (take k later) in
      elim (Bool-cases (leb 1 (total r qs))) [
        | inl some_left ↦
            inl (ground (arith, f, cp, cr, heads-Sole p qs s, heads_some r qs t (ground arith)))
        | inr none_left ↦ inr (ground (arith, cr, total-heads r qs, count_if-take r k later, b))
      ]

  rounds-IsFair :
      (p r : A → Bool) (l n : ℕ) (qs : List (List A))
      → Sole p qs
      → Sole r qs
      → IsFair p r qs (take l (rounds n qs))
  unfolding rounds
  rounds-IsFair p r zero zero qs s t = inl (omega arith)
  rounds-IsFair p r (suc l) zero qs s t = inl (omega arith)
  rounds-IsFair p r l (suc n) qs s t =
      let later = rounds n (tails qs) in
      let size = length (heads qs) in
      elim (Bool-cases (leb l size)) [
        | inl short ↦
            rw (take-append_short l (heads qs) later (ground arith))
              (inl (omega (arith, count_if-take p l (heads qs), heads-Sole p qs s)))
        | inr long ↦
            rw (split_le l size (ground arith), take-append_long (heads qs) later (l - size))
              (rounds-later p r (l - size) later qs s t (rounds-le-total r n (tails qs))
                (rounds-IsFair p r (l - size) n (tails qs) (tails-Sole p qs s) (tails-Sole r qs t)))
      ]

module _ {A : Type 0} (key : A → String) where
  -- How many of the items are of the group.
  abbrev pub share : String → List A → ℕ
  share k items = count_if (λ x. str_eq (group_of key x) k) items

  share-own :
      (k : String) (items : List A) → share k (queue key k items) ≡ length (queue key k items)
  share-own k [] = refl
  share-own k (x ∷ xs) = elim (Bool-cases (str_eq (group_of key x) k)) [
    | inl same ↦ rw (same, same) (ground (arith, share-own k xs))
    | inr other ↦ rw other (share-own k xs)
  ]

  share-other :
      (j k : String) (items : List A) → str_eq j k ≡ false → share k (queue key j items) ≡ 0
  share-other j k [] h = refl
  share-other j k (x ∷ xs) h = elim (Bool-cases (str_eq (group_of key x) j)) [
    | inl same ↦
        let e = rw (sym ((eq_iff (group_of key x) j).0 same)) at h in
        rw (same, e) (share-other j k xs h)
    | inr other ↦ rw other (share-other j k xs h)
  ]

  absent-share :
      (k : String) (ks : List String) (items : List A)
      → has k ks ≡ false
      → total (λ x. str_eq (group_of key x) k) (queues_in key ks items) ≡ 0
  absent-share k [] items h = refl
  absent-share k (j ∷ ks) items h = ground (arith, share-other j k items, absent-share k ks items)

  queues_in-Sole :
      (k : String) (ks : List String) (items : List A)
      → Distinct ks
      → Sole (λ x. str_eq (group_of key x) k) (queues_in key ks items)
  queues_in-Sole k [] items d = tt
  queues_in-Sole k (j ∷ ks) items d = elim (Bool-cases (str_eq j k)) [
    | inl same ↦
        let e = (eq_iff j k).0 same in
        rw e (inr (share-own k items, absent-share k ks items (rw e at (d.0))))
    | inr other ↦ inl (share-other j k items other, queues_in-Sole k ks items d.1)
  ]

  taken :
      (items out : List A) (limit : ℤ)
      → fair_order key items limit ≡ some out
      → out ≡ take (fair_limit limit (length items)) (rounds (length items) (queues key items))
  taken items out limit e = some-injective _ _ (sym e ∙ fair_order-rounds key items limit)

  -- `FairOrder` gives no group more than one item more than another one, unless the other group has all of
  -- its items in the result.
  pub fair_order-IsFair :
      (items out : List A) (limit : ℤ) (g h : String)
      → fair_order key items limit ≡ some out
      → (share g out ≤ suc (share h out)) ⊎ (share h out ≡ share h items)
  fair_order-IsFair items out limit g h e =
      let d = first_seen-Distinct key items in
      let ks = first_seen key [] items in
      let all = queues-total key (λ x. str_eq (group_of key x) h) items in
      let f =
        rounds-IsFair (λ x. str_eq (group_of key x) g) (λ x. str_eq (group_of key x) h)
          (fair_limit limit (length items)) (length items) (queues key items)
          (queues_in-Sole g ks items d) (queues_in-Sole h ks items d) in
      rw (taken items out limit e, sym all) f

  -- `FairOrder` returns as many items as its limit says, all of them if the limit is zero, negative or too
  -- large; no item of the result is made up or doubled, since of the items with any property no more are
  -- in the result than were given.
  pub fair_order-selects :
      (items out : List A) (limit : ℤ) (p : A → Bool)
      → fair_order key items limit ≡ some out
      → (length out ≡ fair_limit limit (length items)) × (count_if p out ≤ count_if p items)
  fair_order-selects items out limit p e =
      let l = fair_limit limit (length items) in
      let turns = rounds (length items) (queues key items) in
      rw (taken items out limit e) (
        omega (
          arith,
          length-take l turns,
          length-turns key items,
          fair_limit-le limit (length items),
        ),
        omega (arith, count_if-take p l turns, count_if-turns key p items),
      )
