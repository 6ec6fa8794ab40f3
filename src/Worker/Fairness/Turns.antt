-- ===== src/Worker/Fairness/Turns.antt =====
-- `FairOrder` against round-robin order on the queues of the groups.
use domainry_foundation.Prelude.{
  ◌+◌, ◌≡◌, refl, sym, ◌∙◌, inl, inr, Bool, true, Bool-cases, some, String, ℤ, str_eq, eq_iff,
  eq_refl, List, [], ◌∷◌, ◌++◌, length, take, count_if, lookup, lookup_or, lookup-insert, insert,
  is_some, arith, if◌then◌else◌,
}
use domainry_foundation.Worker.Fairness.{
  group_of, Grouped, add_item, add_items, fair_limit, fair_order,
}
use domainry_foundation.Worker.Fairness.Queues.{
  has, Distinct, append-Distinct, has-append, queues_of, lookup_or-insert, queues_of-insert, total,
  count_if-append, total-append, total-insert,
}
use domainry_foundation.Worker.Fairness.Rounds.{rounds, append_nil, append_assoc, serve-rounds}
use domainry_foundation.Worker.Fairness.Counts.{
  fair_limit-le, absent_queue, count_if-rounds, count_if_all, total-AllWithin,
}

module _ {A : Type 0} (key : A → String) where
  -- The items of a group, in their order.
  abbrev pub queue : String → List A → List A
  queue k [] = []
  queue k (x ∷ xs) = let rest = queue k xs in if str_eq (group_of key x) k then x ∷ rest else rest

  -- The groups in the order of their first items, behind those already seen.
  abbrev pub first_seen : List String → List A → List String
  first_seen seen [] = seen
  first_seen seen (x ∷ xs) =
      first_seen (if has (group_of key x) seen then seen else seen ++ group_of key x ∷ []) xs

  abbrev pub queues_in : List String → List A → List (List A)
  queues_in [] items = []
  queues_in (k ∷ ks) items = queue k items ∷ queues_in ks items

  abbrev pub queues : List A → List (List A)
  queues items = queues_in (first_seen [] items) items

  -- The map's keys are the groups of the order, each of which stands there once.
  abbrev IsGrouped : Grouped key → Type 0
  IsGrouped s = Distinct s.order × ((k : String) → is_some (lookup k s.groups) ≡ has k s.order)

  add_item-IsGrouped : (x : A) (s : Grouped key) → IsGrouped s → IsGrouped (add_item key x s)
  add_item-IsGrouped x s u = elim (Bool-cases (is_some (lookup (group_of key x) s.groups))) [
    | inl known ↦ rw known (
      u.0,
      λ k. ground (
        arith,
        lookup-insert (group_of key x) k (lookup_or [] (group_of key x) s.groups ++ x ∷ [])
            s.groups,
        u.1 k,
        u.1 (group_of key x),
        eq_iff (group_of key x) k,
      ),
    )
    | inr unknown ↦ rw unknown (
      append-Distinct (group_of key x) s.order u.0 (sym (u.1 (group_of key x)) ∙ unknown),
      λ k. ground (
        arith,
        lookup-insert (group_of key x) k (lookup_or [] (group_of key x) s.groups ++ x ∷ [])
            s.groups,
        u.1 k,
        has-append k (group_of key x) s.order,
      ),
    )
  ]

  add_items-IsGrouped :
      (xs : List A) (s : Grouped key) → IsGrouped s → IsGrouped (add_items key xs s)
  unfolding add_items
  add_items-IsGrouped [] s u = u
  add_items-IsGrouped (x ∷ xs) s u =
      add_items-IsGrouped xs (add_item key x s) (add_item-IsGrouped x s u)

  add_items-order :
      (xs : List A) (s : Grouped key)
      → IsGrouped s
      → (add_items key xs s).order ≡ first_seen s.order xs
  unfolding add_items
  add_items-order [] s u = refl
  add_items-order (x ∷ xs) s u =
      rw (add_items-order xs (add_item key x s) (add_item-IsGrouped x s u), u.1 (group_of key x))
        refl

  add_items-lookup :
      (k : String) (xs : List A) (s : Grouped key)
      → lookup_or [] k (add_items key xs s).groups ≡ lookup_or [] k s.groups ++ queue k xs
  unfolding add_items
  add_items-lookup k [] s = rw (append_nil (lookup_or [] k s.groups)) refl
  add_items-lookup k (x ∷ xs) s =
      let later = add_items-lookup k xs (add_item key x s) in
      let held =
        lookup_or-insert (group_of key x) k (lookup_or [] (group_of key x) s.groups ++ x ∷ [])
          s.groups in
      elim (Bool-cases (str_eq (group_of key x) k)) [
        | inl same ↦
            rw
              (
                later,
                held,
                same,
                (eq_iff (group_of key x) k).0 same,
                append_assoc (lookup_or [] k s.groups) (x ∷ []) (queue k xs),
              )
              refl
        | inr other ↦ rw (later, held, other) refl
      ]

  add_item-total :
      (p : A → Bool) (x : A) (s : Grouped key)
      → IsGrouped s
      → total p (queues_of (add_item key x s).order (add_item key x s).groups)
        ≡ total p (queues_of s.order s.groups) + count_if p (x ∷ [])
  add_item-total p x s u =
      let group = group_of key x in
      let longer = lookup_or [] group s.groups ++ x ∷ [] in
      let count = count_if-append p (lookup_or [] group s.groups) (x ∷ []) in
      elim (Bool-cases (is_some (lookup group s.groups))) [
        | inl known ↦ rw known (
            omega (
              arith,
              count,
              total-insert p group longer s.order s.groups u.0 (sym (u.1 group) ∙ known),
            ))
        | inr unknown ↦
            rw
              (
                unknown,
                total-append p group s.order (insert group longer s.groups),
                queues_of-insert group longer s.order s.groups (sym (u.1 group) ∙ unknown),
                lookup_or-insert group group longer s.groups,
                eq_refl group,
              )
              (rw (absent_queue group s.groups unknown) (omega arith))
      ]

  add_items-total :
      (p : A → Bool) (xs : List A) (s : Grouped key)
      → IsGrouped s
      → total p (queues_of (add_items key xs s).order (add_items key xs s).groups)
        ≡ total p (queues_of s.order s.groups) + count_if p xs
  unfolding add_items
  add_items-total p [] s u = omega arith
  add_items-total p (x ∷ xs) s u = ground (
    arith,
    add_items-total p xs (add_item key x s) (add_item-IsGrouped x s u),
    add_item-total p x s u,
  )

  -- The groups as the loop over the items leaves them.
  abbrev grouped : List A → Grouped key
  grouped items = add_items key items (record { order = []; groups = [] })

  grouped-IsGrouped : (items : List A) → IsGrouped (grouped items)
  grouped-IsGrouped items =
      add_items-IsGrouped items (record { order = []; groups = [] }) (tt, λ k. refl)

  queues_of-grouped :
      (ks : List String) (items : List A) → queues_of ks (grouped items).groups ≡ queues_in ks items
  queues_of-grouped [] items = refl
  queues_of-grouped (k ∷ ks) items =
      rw (add_items-lookup k items (record { order = []; groups = [] }), queues_of-grouped ks items)
        refl

  grouped-queues :
      (items : List A) → queues_of (grouped items).order (grouped items).groups ≡ queues items
  grouped-queues items =
      queues_of-grouped (grouped items).order items
      ∙ rw (add_items-order items (record { order = []; groups = [] }) (tt, λ k. refl)) refl

  pub first_seen-Distinct : (items : List A) → Distinct (first_seen [] items)
  first_seen-Distinct items =
      rw (add_items-order items (record { order = []; groups = [] }) (tt, λ k. refl)) at
        ((grouped-IsGrouped items).0)

  pub queues-total : (p : A → Bool) (items : List A) → total p (queues items) ≡ count_if p items
  queues-total p items =
      rw (sym (grouped-queues items)) (
        omega (arith, add_items-total p items (record { order = []; groups = [] }) (tt, λ k. refl)))

  -- All the rounds take every item once.
  pub count_if-turns :
      (p : A → Bool) (items : List A)
      → count_if p (rounds (length items) (queues items)) ≡ count_if p items
  count_if-turns p items =
      count_if-rounds p (length items) (queues items) (
        total-AllWithin (length items) (queues items)
          (omega (arith, queues-total (λ _. true) items, count_if_all items)))
      ∙ queues-total p items

  pub length-turns : (items : List A) → length (rounds (length items) (queues items)) ≡ length items
  length-turns items = omega (
    arith,
    count_if-turns (λ _. true) items,
    count_if_all (rounds (length items) (queues items)),
    count_if_all items,
  )

  -- `FairOrder` ends, and its result is the beginning of the round-robin order of the groups' queues: the
  -- first items of all groups in the order in which the groups first occur, then the second ones, and so
  -- on.
  pub fair_order-rounds :
      (items : List A) (limit : ℤ)
      → fair_order key items limit
        ≡ some (take (fair_limit limit (length items)) (rounds (length items) (queues items)))
  unfolding fair_order
  fair_order-rounds items limit =
      let l = fair_limit limit (length items) in
      let same = grouped-queues items in
      let enough = fair_limit-le limit (length items) in
      let all = length-turns items in
      serve-rounds key (length items) l (grouped items).order (grouped items).groups []
        (grouped-IsGrouped items).0 (omega arith) (rw same (omega (arith, enough, all)))
      ∙ rw same refl
