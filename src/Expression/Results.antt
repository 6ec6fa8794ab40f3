-- ===== src/Expression/Results.antt =====
-- The values that operations give, against the types that `ExpressionOperationType` gives.
use domainry_foundation.Prelude.{
  ◌≡◌, refl, sym, inl, inr, ◌⊎◌, Bool, true, false, not, ◌&&◌, String, str_eq, eq_iff, List, [],
  ◌∷◌, arith, Bool-cases, subst, Duration,
}
use domainry_foundation.Expression.Model.{
  boolean, text, moment, duration, kind_date, kind_datetime, kind_duration, value_kind,
  ExpressionType, ExpressionValue, Header, digits, decimal_error, DecimalResult, Runtime,
}
use domainry_foundation.Expression.Operators.{
  Operator, op_and, op_or, op_not, op_date_add, op_date_diff, op_now, op_coalesce, op_invalid,
  op_compare, op_arithmetic, operator_type, typed, of_kind, kind_is, all_type, all_numeric,
  is_temporal, all_equal, comparable, at_least_two, arguments_invalid, type_mismatch,
}
use domainry_foundation.Expression.Values.{
  the_boolean, the_moment, the_duration, expression_compare,
}
use domainry_foundation.Expression.Evaluation.{
  ExpressionContext, all_hold, any_holds, first_value, of_decimal, operation_value,
  expression_types, is_null,
}
use domainry_foundation.Expression.Fitting.{fits, Fits, AllFit, Post}
use domainry_foundation.Expression.Applied.{
  Sure, kind_is-kind, if_typed, flat_of, the_boolean-at, all_hold-Sure, any_holds-Sure,
  expression_compare-Sure, the_moment-Sure, the_duration-Sure, Sure-bind,
}

temporal-kind :
    (t : ExpressionType)
    → is_temporal t ≡ true
    → (value_kind t.kind ≡ kind_date) ⊎ (value_kind t.kind ≡ kind_datetime)
unfolding value_kind
temporal-kind t h = elim (Bool-cases (kind_is "date" t)) [
  | inl date ↦ inl (kind_is-kind "date" t date)
  | inr other ↦ inr (kind_is-kind "datetime" t (ground (arith, h, other)))
]

typed-injective : {s t : ExpressionType} → typed s ≡ typed t → s ≡ t
typed-injective e = cc

datetime-kind : value_kind "datetime" ≡ kind_datetime
unfolding value_kind
datetime-kind = refl

module _ (rt : Runtime) (full : Bool) where
  open rt use {Time}

  boolean-Fits :
      (b : Bool) (t : ExpressionType) → of_kind "boolean" ≡ t → Fits {T = Time} full t (boolean b)
  unfolding fits value_kind
  boolean-Fits b t e = subst (λ s. Fits {T = Time} full s (boolean b)) e (refl, ground arith)

  moment-Fits :
      (t : ExpressionType) (x : Time)
      → (value_kind t.kind ≡ kind_date) ⊎ (value_kind t.kind ≡ kind_datetime)
      → Fits full t (moment x)
  unfolding fits
  moment-Fits t x (inl e) = (rw e refl, ground arith)
  moment-Fits t x (inr e) = (rw e refl, ground arith)

  moment_result-Fits :
      (s t : ExpressionType) (x : Time)
      → s ≡ t
      → (value_kind s.kind ≡ kind_date) ⊎ (value_kind s.kind ≡ kind_datetime)
      → Fits full t (moment x)
  moment_result-Fits s t x e h =
      subst (λ u. Fits {T = Time} full u (moment x)) e (moment-Fits s x h)

  later-Fits :
      (t : ExpressionType) (vs : List (ExpressionValue Time))
      → full ≡ false
      → all_equal t (expression_types rt vs) ≡ true
      → AllFit full vs
      → Fits full t (first_value rt vs)
  unfolding fits
  later-Fits t [] e h k = (refl, rw e refl)
  later-Fits t (v ∷ vs) e h k = elim (Bool-cases (is_null rt v.value)) [
    | inl absent ↦ rw absent (later-Fits t vs e (ground (arith, h)) (k.1))
    | inr present ↦
        let kinds : v.type.kind ≡ t.kind = ground (arith, h, eq_iff v.type.kind t.kind) in
        let elements : v.type.element_type ≡ t.element_type =
          ground (arith, h, eq_iff v.type.element_type t.element_type) in
        rw (present, sym kinds, sym elements) (k.0)
  ]

  coalesce-Fits :
      (v : ExpressionValue Time) (vs : List (ExpressionValue Time))
      → all_equal v.type (expression_types rt vs) ≡ true
      → AllFit full (v ∷ vs)
      → Fits full v.type (first_value rt (v ∷ vs))
  coalesce-Fits v vs h k = elim (Bool-cases (is_null rt v.value)) [
    | inl absent ↦
        let e : full ≡ false = (let k' = k.0 in ground (arith, absent, k')) in
        rw absent (later-Fits v.type vs e h (k.1))
    | inr present ↦ rw present (k.0)
  ]

  duration-Fits :
      (d : Duration) (t : ExpressionType)
      → of_kind "duration" ≡ t
      → Fits {T = Time} full t (duration d)
  unfolding fits value_kind
  duration-Fits d t e = subst (λ s. Fits {T = Time} full s (duration d)) e (refl, ground arith)

  decimal-Fits :
      (h : Header Time) (path : String) (r : DecimalResult) (t : ExpressionType)
      → of_kind "decimal" ≡ t
      → Post (Fits full t) (full ≡ false) (of_decimal rt h path r)
  unfolding fits value_kind
  decimal-Fits h path (digits s) t e =
      subst (λ u. Fits {T = Time} full u (text s)) e (refl, ground arith)
  decimal-Fits h path (decimal_error code) t e = tt

  moment-Sure :
      (v : ExpressionValue Time)
      → (value_kind v.type.kind ≡ kind_date) ⊎ (value_kind v.type.kind ≡ kind_datetime)
      → Fits full v.type v.value
      → Sure rt full (the_moment rt v.value)
  moment-Sure v (inl e) k =
      the_moment-Sure rt full kind_date v.value (inl refl)
        (flat_of rt full kind_date v.type v.value refl e k) (k.1)
  moment-Sure v (inr e) k =
      the_moment-Sure rt full kind_datetime v.value (inr refl)
        (flat_of rt full kind_datetime v.type v.value refl e k) (k.1)

  duration-Sure :
      (v : ExpressionValue Time)
      → kind_is "duration" v.type ≡ true
      → Fits full v.type v.value
      → Sure rt full (the_duration rt v.value)
  unfolding value_kind
  duration-Sure v h k =
      the_duration-Sure rt full v.value
        (flat_of rt full kind_duration v.type v.value refl (kind_is-kind "duration" v.type h) k)
        (k.1)

  -- An operation on values of their types gives a value of the operation's type, and panics only where
  -- values may be nil.
  pub operation_value-Fits :
      (h : Header Time) (op : Operator) (vs : List (ExpressionValue Time))
      (context : ExpressionContext rt) (path : String) (t : ExpressionType)
      → AllFit full vs
      → operator_type op (expression_types rt vs) ≡ typed t
      → Post (Fits full t) (full ≡ false) (operation_value rt h op vs context path)
  unfolding operation_value operator_type
  operation_value-Fits h op_and vs context path t k e =
      let (test, same) =
        if_typed
          (at_least_two (expression_types rt vs) && all_type "boolean" (expression_types rt vs))
          (of_kind "boolean") t arguments_invalid e in
      Sure-bind rt full (Fits full t) (all_hold rt true vs) _
        (all_hold-Sure rt full true vs k (ground (arith, test))) (λ b. boolean-Fits b t same)
  operation_value-Fits h op_or vs context path t k e =
      let (test, same) =
        if_typed
          (at_least_two (expression_types rt vs) && all_type "boolean" (expression_types rt vs))
          (of_kind "boolean") t arguments_invalid e in
      Sure-bind rt full (Fits full t) (any_holds rt false vs) _
        (any_holds-Sure rt full false vs k (ground (arith, test))) (λ b. boolean-Fits b t same)
  operation_value-Fits h op_not [] context path t k e = cc
  operation_value-Fits h op_not (v ∷ []) context path t k e =
      let (test, same) =
        if_typed (kind_is "boolean" v.type) (of_kind "boolean") t arguments_invalid e in
      Sure-bind rt full (Fits full t) (the_boolean rt v.value) _
        (the_boolean-at rt full v test (k.0)) (λ b. boolean-Fits (not b) t same)
  operation_value-Fits h op_not (v ∷ w ∷ vs) context path t k e = absurd (cc)
  operation_value-Fits h (op_compare c) [] context path t k e = absurd (cc)
  operation_value-Fits h (op_compare c) (v ∷ []) context path t k e = absurd (cc)
  operation_value-Fits h (op_compare c) (v ∷ w ∷ []) context path t k e =
      let (test, same) =
        if_typed (comparable v.type w.type c) (of_kind "boolean") t type_mismatch e in
      Sure-bind rt full (Fits full t) (expression_compare rt v w c) _
        (expression_compare-Sure rt full v w c (k.0) (k.1.0) test) (λ b. boolean-Fits b t same)
  operation_value-Fits h (op_compare c) (v ∷ w ∷ x ∷ vs) context path t k e = absurd (cc)
  operation_value-Fits h (op_arithmetic a) [] context path t k e = absurd (cc)
  operation_value-Fits h (op_arithmetic a) (v ∷ []) context path t k e = absurd (cc)
  operation_value-Fits h (op_arithmetic a) (v ∷ w ∷ []) context path t k e =
      let (test, same) =
        if_typed (all_numeric (v.type ∷ w.type ∷ [])) (of_kind "decimal") t type_mismatch e in
      decimal-Fits h path _ t same
  operation_value-Fits h (op_arithmetic a) (v ∷ w ∷ x ∷ vs) context path t k e = absurd (cc)
  operation_value-Fits h op_date_add [] context path t k e = absurd (cc)
  operation_value-Fits h op_date_add (v ∷ []) context path t k e = absurd (cc)
  operation_value-Fits h op_date_add (v ∷ w ∷ []) context path t k e =
      let (test, same) =
        if_typed (is_temporal v.type && kind_is "duration" w.type) v.type t type_mismatch e in
      let temporal = temporal-kind v.type (ground (arith, test)) in
      Sure-bind rt full (Fits full t) (the_moment rt v.value) _ (moment-Sure v temporal (k.0)) (λ x.
        Sure-bind rt full (Fits full t) (the_duration rt w.value) _
          (duration-Sure w (ground (arith, test)) (k.1.0))
          (λ d. moment_result-Fits v.type t _ same temporal))
  operation_value-Fits h op_date_add (v ∷ w ∷ x ∷ vs) context path t k e = absurd (cc)
  operation_value-Fits h op_date_diff [] context path t k e = absurd (cc)
  operation_value-Fits h op_date_diff (v ∷ []) context path t k e = absurd (cc)
  operation_value-Fits h op_date_diff (v ∷ w ∷ []) context path t k e =
      let (test, same) =
        if_typed (str_eq v.type.kind w.type.kind && is_temporal v.type) (of_kind "duration") t
          type_mismatch e in
      let temporal = temporal-kind v.type (ground (arith, test)) in
      let kinds : v.type.kind ≡ w.type.kind =
        ground (arith, test, eq_iff v.type.kind w.type.kind) in
      let temporal' =
        subst (λ s. (value_kind s ≡ kind_date) ⊎ (value_kind s ≡ kind_datetime)) kinds temporal in
      Sure-bind rt full (Fits full t) (the_moment rt v.value) _ (moment-Sure v temporal (k.0)) (λ x.
        Sure-bind rt full (Fits full t) (the_moment rt w.value) _ (moment-Sure w temporal' (k.1.0))
          (λ y. duration-Fits _ t same))
  operation_value-Fits h op_date_diff (v ∷ w ∷ x ∷ vs) context path t k e = absurd (cc)
  operation_value-Fits h op_now [] context path t k e =
      moment_result-Fits (of_kind "datetime") t _ (typed-injective e) (inr datetime-kind)
  operation_value-Fits h op_now (v ∷ vs) context path t k e = absurd (cc)
  operation_value-Fits h op_coalesce [] context path t k e = absurd (cc)
  operation_value-Fits h op_coalesce (v ∷ vs) context path t k e =
      let (test, same) =
        if_typed (all_equal v.type (expression_types rt vs)) v.type t type_mismatch e in
      subst (λ s. Fits full s (first_value rt (v ∷ vs))) same (coalesce-Fits v vs test k)
  operation_value-Fits h op_invalid vs context path t k e = absurd (cc)
