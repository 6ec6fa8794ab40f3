-- ===== src/Worker/Fairness/Examples.antt =====
-- Fair order on four items of two tenants.
use mathlib.Core.List.{Permᴰ}
use domainry_foundation.Prelude.{
  ℕ, suc, ◌≤◌, ◌≡◌, refl, ◌⊎◌, Bool, true, false, some, String, ℤ, pos, List, [], ◌∷◌, length, take,
  count_if, Map, ltb, trim_space,
}
use domainry_foundation.Worker.Fairness.{fair_limit, fair_order, add_items, serve, visit}
use domainry_foundation.Worker.Fairness.Rounds.{rounds}
use domainry_foundation.Worker.Fairness.Turns.{queues, fair_order-rounds}
use domainry_foundation.Worker.Fairness.Shares.{share, fair_order-IsFair}
use domainry_foundation.Worker.Fairness.Quota.{add_classes, quota_fair_order}
use domainry_foundation.Worker.Fairness.Quotas.{quota_limit, quota_fair_order-selects}

-- A tenant and a number.
abbrev Item : Type 0
Item = String × ℕ

abbrev tenant : Item → String
tenant item = item.0

abbrev priority : Item → String
priority item = elim (ltb item.1 3) [ true ↦ "high" | false ↦ "low" ]

abbrev batch : List Item
batch = ("a", 1) ∷ ("a", 2) ∷ ("a", 3) ∷ ("b", 4) ∷ []

abbrev chosen : List Item
chosen = ("a", 1) ∷ ("b", 4) ∷ ("a", 2) ∷ []

chosen_fairly : fair_order tenant batch (pos 3) ≡ some chosen
unfolding fair_order add_items serve visit fair_limit trim_space
chosen_fairly = refl

fair_order-rounds_example :
    fair_order tenant batch (pos 3)
    ≡ some (take (fair_limit (pos 3) (length batch)) (rounds (length batch) (queues tenant batch)))
fair_order-rounds_example = fair_order-rounds tenant batch (pos 3)

fair_order-IsFair_example :
    (share tenant "a" chosen ≤ suc (share tenant "b" chosen))
    ⊎ (share tenant "b" chosen ≡ share tenant "b" batch)
fair_order-IsFair_example = fair_order-IsFair tenant batch chosen (pos 3) "a" "b" chosen_fairly

abbrev quotas : Map ℤ
quotas = ("high", pos 1) ∷ ("low", pos 1) ∷ []

abbrev classes : Map (List Item)
classes = ("high", ("a", 1) ∷ ("a", 2) ∷ []) ∷ ("low", ("a", 3) ∷ ("b", 4) ∷ []) ∷ []

classes_met : Permᴰ classes (add_classes priority batch [])
unfolding add_classes
classes_met = Permᴰ.cons refl (Permᴰ.cons refl Permᴰ.nil)

quota_fair_order-selects_example :
    (out : List Item) × (quota_fair_order tenant priority batch
        (pos 3)
        ("high" ∷ "low" ∷ [])
        quotas
        classes
      ≡ some out)
    × (length out ≡ quota_limit (pos 3) (length batch))
    × ((p : Item → Bool) → count_if p out ≤ count_if p batch)
quota_fair_order-selects_example =
    quota_fair_order-selects tenant priority batch (pos 3) ("high" ∷ "low" ∷ []) quotas classes
      (refl, (refl, tt)) classes_met
