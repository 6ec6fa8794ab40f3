-- ===== src/Worker/Fairness/Quotas.antt =====
-- What `QuotaFairOrder` selects.
use mathlib.Core.List.{Permᴰ}
use domainry_foundation.Prelude.{
  ℕ, zero, suc, ◌+◌, ◌-◌, ◌≤◌, min, ◌≡◌, refl, ◌∙◌, inl, inr, Bool, true, Bool-cases, some, String,
  ℤ, pos, negsuc, List, [], ◌∷◌, ◌++◌, length, length-append, length-take, take, drop, take_all,
  count_if, Map, lookup_or, ltb, arith,
}
use domainry_foundation.Worker.Fairness.{fair_limit, fair_order}
use domainry_foundation.Worker.Fairness.Queues.{Distinct, queues_of, total, count_if-append}
use domainry_foundation.Worker.Fairness.Rounds.{rounds}
use domainry_foundation.Worker.Fairness.Turns.{
  queues, count_if-turns, length-turns, fair_order-rounds,
}
use domainry_foundation.Worker.Fairness.Counts.{count_if_all, fair_limit-le}
use domainry_foundation.Worker.Fairness.Shares.{count_if-take}
use domainry_foundation.Worker.Fairness.Quota.{
  bounded_quota, add_classes, serve_classes, unnamed, fill, quota_fair_order,
}
use domainry_foundation.Worker.Fairness.Classes.{
  fair_limit_all, fair_limit_within, fair_limit-min, bounded_quota-le, held-split, unnamed-perm,
  count_if-take-drop, add_classes-IsMap, held-add_classes,
}

module _ {A : Type 0} (key : A → String) where
  -- A whole class in fair order.
  fair_order_all :
      (items : List A)
      → (out : List A) × (fair_order key items (pos (length items)) ≡ some out)
        × ((p : A → Bool) → count_if p out ≡ count_if p items)
  fair_order_all items =
      let turns = rounds (length items) (queues key items) in
      (
        turns,
        fair_order-rounds key items (pos (length items))
            ∙ rw
                (
                  fair_limit_all (length items),
                  take_all (length items) turns (omega (arith, length-turns key items)),
                )
                refl,
        λ p. count_if-turns key p items,
      )

  serve_classes-keeps :
      (limit : ℕ) (classes : Map (List A)) (quotas : Map ℤ) (order : List String)
      (selected remaining : List A)
      → length selected ≤ limit
      → (r : List A × List A) × (serve_classes key limit classes quotas order selected remaining
          ≡ some r)
        × (length r.0 ≤ limit)
        × ((p : A → Bool)
            → count_if p r.0 + count_if p r.1
              ≡ count_if p selected + count_if p remaining + total p (queues_of order classes))
  unfolding serve_classes
  serve_classes-keeps limit classes quotas [] selected remaining h =
      ((selected, remaining), refl, h, λ p. omega arith)
  serve_classes-keeps limit classes quotas (name ∷ order) selected remaining h =
      let members = lookup_or [] name classes in
      let all = fair_order_all members in
      let quota =
        bounded_quota (lookup_or (pos 0) name quotas) (limit - length selected) (length all.0) in
      let small =
        bounded_quota-le (lookup_or (pos 0) name quotas) (limit - length selected) (length all.0) in
      let later =
        serve_classes-keeps limit classes quotas order (selected ++ take quota all.0)
          (remaining ++ drop quota all.0)
          (omega (
            arith,
            h,
            small,
            length-append selected (take quota all.0),
            length-take quota all.0,
          )) in
      (
        later.0,
        rw all.1 later.1,
        later.2,
        λ p. omega (
          arith,
          later.3 p,
          all.2 p,
          count_if-append p selected (take quota all.0),
          count_if-append p remaining (drop quota all.0),
          count_if-take-drop p quota all.0,
        ),
      )

  fill-selects :
      (limit : ℕ) (selected remaining : List A)
      → length selected ≤ limit
      → limit ≤ length selected + length remaining
      → (out : List A) × (fill key limit selected remaining ≡ some out)
        × (length out ≡ limit)
        × ((p : A → Bool) → count_if p out ≤ count_if p selected + count_if p remaining)
  fill-selects limit selected remaining h i = elim (Bool-cases (ltb (length selected) limit)) [
    | inr full ↦ rw full (selected, refl, ground arith, λ p. omega arith)
    | inl room ↦
        let k = limit - length selected in
        let turns = rounds (length remaining) (queues key remaining) in
        let within = fair_limit_within k (length remaining) (ground arith) (omega arith) in
        (
          selected ++ take k turns,
          rw (room, fair_order-rounds key remaining (pos k), within) refl,
          ground (
            arith,
            length-append selected (take k turns),
            length-take k turns,
            length-turns key remaining,
          ),
          λ p. omega (
            arith,
            count_if-append p selected (take k turns),
            count_if-take p k turns,
            count_if-turns key p remaining,
          ),
        )
  ]

-- How many items `QuotaFairOrder` returns.
abbrev pub quota_limit : ℤ → ℕ → ℕ
quota_limit (negsuc l) n = 0
quota_limit (pos zero) n = 0
quota_limit (pos (suc l)) n = min (suc l) n

module _ {A : Type 0} (key class : A → String) where
  whole :
      (p : A → Bool) (items : List A) (order : List String) (met : Map (List A))
      (r : List A × List A)
      → Distinct order
      → Permᴰ met (add_classes class items [])
      → count_if p r.0 + count_if p r.1 ≡ total p (queues_of order (add_classes class items []))
      → count_if p r.0 + count_if p (r.1 ++ unnamed order met) ≡ count_if p items
  whole p items order met r d π c =
      let classes = add_classes class items [] in
      omega (
        arith,
        c,
        count_if-append p r.1 (unnamed order met),
        unnamed-perm p order π,
        held-split p order classes (add_classes-IsMap class items [] tt) d,
        held-add_classes class p items [],
      )

  -- Whatever the quotas are, and in whatever order the loop over the map meets the classes: if the order
  -- names no class twice, `QuotaFairOrder` ends, fills its limit as far as there are items, and returns no
  -- item that was not given nor any one twice.
  pub quota_fair_order-selects :
      (items : List A) (limit : ℤ) (order : List String) (quotas : Map ℤ) (met : Map (List A))
      → Distinct order
      → Permᴰ met (add_classes class items [])
      → (out : List A) × (quota_fair_order key class items limit order quotas met ≡ some out)
        × (length out ≡ quota_limit limit (length items))
        × ((p : A → Bool) → count_if p out ≤ count_if p items)
  unfolding quota_fair_order
  quota_fair_order-selects items (negsuc l) order quotas met d π =
      ([], refl, refl, λ p. omega arith)
  quota_fair_order-selects items (pos zero) order quotas met d π =
      ([], refl, refl, λ p. omega arith)
  quota_fair_order-selects [] (pos (suc l)) order quotas met d π =
      ([], refl, omega arith, λ p. omega arith)
  quota_fair_order-selects (item ∷ items) (pos (suc l)) order quotas met d π =
      let all = item ∷ items in
      let limit = fair_limit (pos (suc l)) (length all) in
      let classes = add_classes class all [] in
      let served = serve_classes-keeps key limit classes quotas order [] [] (omega arith) in
      let rest = served.0.1 ++ unnamed order met in
      let kept = λ (p : A → Bool). whole p all order met served.0 d π (omega (arith, served.3 p)) in
      let size = kept (λ _. true) in
      let within = fair_limit-le (pos (suc l)) (length all) in
      let filled = fill-selects key limit served.0.0 rest served.2 (
        omega
          (arith, size, within, count_if_all all, count_if_all served.0.0, count_if_all rest)) in
      (
        filled.0,
        rw served.1 filled.1,
        filled.2 ∙ fair_limit-min l (length all),
        λ p. omega (arith, filled.3 p, kept p),
      )
