-- ===== src/Worker/Fairness.antt =====
-- worker/fairness.go: `FairOrder` and `OverscanLimit`. The loop that fills the result has fuel, one round
-- for each item.
mod Queues
mod Rounds
mod Counts
pub mod Turns
pub mod Shares
pub mod Quota
mod Classes
pub mod Quotas
mod Examples
use domainry_foundation.Prelude.{
  ℕ, zero, suc, ◌+◌, ℤ, pos, negsuc, ◌*ℤ◌, wrap, ltb_ℤ, Bool, true, false, ◌&&◌, Option, none, some,
  String, str_eq, List, [], ◌∷◌, ◌++◌, length, Map, lookup, lookup_or, insert, ltb, ◌==◌, is_some,
  trim_space, if◌then◌else◌,
}

-- How many items `FairOrder` returns.
unfoldable pub fair_limit : ℤ → ℕ → ℕ
fair_limit (pos zero) n = n
fair_limit (pos (suc l)) n = if ltb n (suc l) then n else suc l
fair_limit (negsuc l) n = n

module _ {A : Type 0} (key : A → String) where
  abbrev pub group_of : A → String
  group_of item = let group = trim_space (key item) in if str_eq group "" then "default" else group

  pub record Grouped : Type 0 where
    pub order : List String
    pub groups : Map (List A)

  abbrev pub add_item : A → Grouped → Grouped
  add_item item s =
      let group = group_of item in
      record {
        order = if is_some (lookup group s.groups) then s.order else s.order ++ group ∷ [];
        groups = insert group (lookup_or [] group s.groups ++ item ∷ []) s.groups;
      }

  unfoldable pub add_items : List A → Grouped → Grouped
  add_items [] s = s
  add_items (item ∷ items) s = add_items items (add_item item s)

  -- The inner loop, from a group on; it ends when the result is full.
  unfoldable pub visit : ℕ → List String → Map (List A) → List A → Map (List A) × List A
  visit limit [] m out = (m, out)
  visit limit (group ∷ order) m out = elim (lookup_or [] group m) [
    | [] ↦ visit limit order m out
    | value ∷ values ↦ elim (length (out ++ value ∷ []) == limit) [
      | true ↦ (insert group values m, out ++ value ∷ [])
      | false ↦ visit limit order (insert group values m) (out ++ value ∷ [])
    ]
  ]

  -- The outer loop; `none` if the fuel is spent.
  unfoldable pub serve : ℕ → ℕ → List String → Map (List A) → List A → Option (List A)
  unfolding visit
  serve zero limit order m out = if ltb (length out) limit then none else some out
  serve (suc n) limit order m out = elim (ltb (length out) limit) [
    | true ↦ serve n limit order (visit limit order m out).0 (visit limit order m out).1
    | false ↦ some out
  ]

  unfoldable pub fair_order : List A → ℤ → Option (List A)
  unfolding add_items serve fair_limit
  fair_order items limit =
      let s = add_items items (record { order = []; groups = [] }) in
      serve (length items) (fair_limit limit (length items)) s.order s.groups []

-- `OverscanLimit`
unfoldable pub overscan_limit : ℤ → ℤ → ℤ → ℤ
overscan_limit limit factor maximum =
    let value = wrap (limit *ℤ (if ltb_ℤ factor (pos 1) then pos 1 else factor)) in
    if ltb_ℤ (pos 0) limit
    then if ltb_ℤ (pos 0) maximum && ltb_ℤ maximum value then maximum else value
    else pos 0
