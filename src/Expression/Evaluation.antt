-- ===== src/Expression/Evaluation.antt =====
-- expression/contract/expression_evaluation_contract.go: the evaluation of expressions. The defaults of
-- `ExpressionEvaluate` for the clock and the location are the caller's arguments here.
use domainry_foundation.Prelude.{
  ℕ, ◌+◌, Bool, true, false, not, Option, none, some, String, str_eq, List, [], ◌∷◌, trim_space,
  if◌then◌else◌,
}
use domainry_foundation.Expression.Model.{
  Any, null, boolean, text, moment, duration, fields, Fields, end, field, value_kind, kind_date,
  ValueKind, ExpressionReference, ExpressionType, ExpressionValue, Header, BusinessExpression,
  Arguments, node, no_more, argument, Outcome, ok, failed, panicked, ◌>>=◌, Checked, valid, invalid,
  DecimalResult, digits, decimal_error, Runtime,
}
use domainry_foundation.Expression.Operators.{
  Operator, op_and, op_or, op_not, op_date_add, op_date_diff, op_now, op_coalesce, op_invalid,
  op_compare, op_arithmetic, operator_of, is_list, of_kind,
}
use domainry_foundation.Expression.Types.{diagnostic, expression_operation_type, by_kind}
use domainry_foundation.Expression.Values.{
  normalize_value, the_boolean, the_moment, the_duration, expression_compare, add_calendar_duration,
  calendar_date_difference,
}

abbrev pub is_date : ValueKind → Bool
is_date kind_date = true
is_date _ = false

module _ (rt : Runtime) where
  open rt use {
    Time, Location, sprint, concat, argument_path, in_location, add_duration, time_sub, calculate,
  }

  -- `ExpressionContext`, with the reading of its clock.
  pub record ExpressionContext : Type 0 where
    pub sources : Fields Time
    pub location : Location
    pub now : Time

  abbrev pub find_field : String → Fields Time → Option (Any Time)
  find_field k end = none
  find_field k (field j v m) = let rest = find_field k m in if str_eq j k then some v else rest

  -- One step of the walk along a reference.
  abbrev pub step_into : String → Option (Any Time) → Option (Any Time)
  step_into k (some (fields m)) = find_field k m
  step_into k _ = none

  abbrev pub walk_path : List String → Option (Any Time) → Option (Any Time)
  walk_path [] o = o
  walk_path (s ∷ ss) o = walk_path ss (step_into s o)

  -- What a reference leads to.
  unfoldable pub reference_value : Fields Time → ExpressionReference → Option (Any Time)
  reference_value sources r =
      let start = find_field r.source sources in
      let key = trim_space r.object_key in
      walk_path r.path (if str_eq key "" then start else step_into key start)

  abbrev pub with_type :
      Header Time
      → String
      → String
      → ExpressionType
      → Option (Any Time)
      → Outcome (ExpressionValue Time)
  with_type h path code t none = failed (diagnostic rt h path code)
  with_type h path code t (some v) = ok (record { type = t; value = v })

  abbrev pub literal_type : Header Time → ExpressionType
  literal_type h =
      let kind = trim_space h.value_type in
      record {
        kind = kind;
        element_type = if is_list (value_kind kind) then trim_space h.element_type else "";
      }

  unfoldable pub evaluate_literal :
      Header Time → ExpressionContext → String → Outcome (ExpressionValue Time)
  evaluate_literal h context path =
      with_type h (concat path ".value") "backend.expression.literal_invalid" (literal_type h)
        (normalize_value rt h.value (literal_type h) context.location)

  abbrev pub evaluate_found :
      Header Time → ExpressionContext → String → Option (Any Time) → Outcome (ExpressionValue Time)
  evaluate_found h context path none =
      failed
        (diagnostic rt h (concat path ".reference") "backend.expression.reference_value_missing")
  evaluate_found h context path (some v) =
      with_type h (concat path ".reference") "backend.expression.reference_value_invalid"
        (of_kind (trim_space h.value_type))
        (normalize_value rt v (of_kind (trim_space h.value_type)) context.location)

  abbrev pub evaluate_referred :
      Header Time
      → ExpressionContext
      → String
      → Option ExpressionReference
      → Outcome (ExpressionValue Time)
  evaluate_referred h context path none =
      failed (diagnostic rt h (concat path ".reference") "backend.expression.reference_invalid")
  evaluate_referred h context path (some r) =
      evaluate_found h context path (reference_value context.sources r)

  unfoldable pub evaluate_reference :
      Header Time → ExpressionContext → String → Outcome (ExpressionValue Time)
  unfolding reference_value
  evaluate_reference h context path = evaluate_referred h context path h.reference

  abbrev pub Values : Type 0
  Values = List (ExpressionValue Time)

  -- The loop of `and` and `or`; `&&` and `||` do not look at the right side once the result is known.
  unfoldable pub all_hold : Bool → Values → Outcome Bool
  all_hold result [] = ok result
  all_hold result (v ∷ vs) =
      (if result then the_boolean rt v.value else ok false) >>= λ b. all_hold b vs

  unfoldable pub any_holds : Bool → Values → Outcome Bool
  any_holds result [] = ok result
  any_holds result (v ∷ vs) =
      (if result then ok true else the_boolean rt v.value) >>= λ b. any_holds b vs

  abbrev pub is_null : Any Time → Bool
  is_null null = true
  is_null _ = false

  -- The loop of `coalesce`.
  abbrev pub first_value : Values → Any Time
  first_value [] = null
  first_value (v ∷ vs) = let rest = first_value vs in if is_null v.value then rest else v.value

  abbrev pub of_decimal : Header Time → String → DecimalResult → Outcome (Any Time)
  of_decimal h path (digits s) = ok (text s)
  of_decimal h path (decimal_error code) = failed (diagnostic rt h path code)

  -- The value that `expressionApplyOperation` gives; an index out of range panics.
  unfoldable pub operation_value :
      Header Time → Operator → Values → ExpressionContext → String → Outcome (Any Time)
  unfolding all_hold any_holds
  operation_value h op_and vs context path = all_hold true vs >>= λ b. ok (boolean b)
  operation_value h op_or vs context path = any_holds false vs >>= λ b. ok (boolean b)
  operation_value h op_not (v ∷ vs) context path =
      the_boolean rt v.value >>= λ b. ok (boolean (not b))
  operation_value h (op_compare c) (v ∷ w ∷ vs) context path =
      expression_compare rt v w c >>= λ b. ok (boolean b)
  operation_value h (op_arithmetic a) (v ∷ w ∷ vs) context path =
      of_decimal h path (calculate a (sprint v.value) (sprint w.value))
  operation_value h op_date_add (v ∷ w ∷ vs) context path = the_moment rt v.value >>= λ t.
      the_duration rt w.value >>= λ d. ok (
        moment (
          if is_date (value_kind v.type.kind)
          then add_calendar_duration rt t d
          else add_duration t d))
  operation_value h op_date_diff (v ∷ w ∷ vs) context path = the_moment rt v.value >>= λ s.
      the_moment rt w.value >>= λ t. ok (
        duration (
          if is_date (value_kind v.type.kind)
          then calendar_date_difference rt s t
          else time_sub s t))
  operation_value h op_now vs context path = ok (moment (in_location context.location context.now))
  operation_value h op_coalesce vs context path = ok (first_value vs)
  operation_value h op_invalid vs context path =
      failed (diagnostic rt h (concat path ".operator") "backend.expression.operator_invalid")
  operation_value h op vs context path = panicked

  -- `expressionApplyOperation`
  unfoldable pub apply_operation :
      Header Time
      → Values
      → ExpressionType
      → ExpressionContext
      → String
      → Outcome (ExpressionValue Time)
  unfolding operation_value
  apply_operation h vs t context path =
      operation_value h (operator_of (trim_space h.operator)) vs context path >>= λ v.
      ok (record { type = t; value = v })

  -- `expressionTypes`
  abbrev pub expression_types : Values → List ExpressionType
  expression_types [] = []
  expression_types (v ∷ vs) = v.type ∷ expression_types vs

  abbrev pub of_checked : {A : Type 0} → Checked A → Outcome A
  of_checked (valid a) = ok a
  of_checked (invalid d) = failed d

  unfoldable pub evaluate_operation :
      Header Time → Values → ExpressionContext → String → Outcome (ExpressionValue Time)
  unfolding apply_operation expression_operation_type
  evaluate_operation h vs context path =
      of_checked (expression_operation_type rt h (expression_types vs) path) >>= λ t.
      apply_operation h vs t context path

  unfoldable mutual
    unfolding evaluate_literal evaluate_reference evaluate_operation

    pub evaluate_at :
        ExpressionContext → String → BusinessExpression Time → Outcome (ExpressionValue Time)
    evaluate_at context path (node h args) =
        let values = evaluate_arguments context path 0 args in
        by_kind rt (trim_space h.kind) (evaluate_literal h context path)
          (evaluate_reference h context path)
          (values >>= λ vs. evaluate_operation h vs context path)
          (failed (diagnostic rt h (concat path ".kind") "backend.expression.kind_invalid"))

    pub evaluate_arguments : ExpressionContext → String → ℕ → Arguments Time → Outcome Values
    evaluate_arguments context path i no_more = ok []
    evaluate_arguments context path i (argument e args) =
        let first = evaluate_at context (argument_path path i) e in
        let rest = evaluate_arguments context path (i + 1) args in
        first >>= λ v. rest >>= λ vs. ok (v ∷ vs)

  -- `ExpressionEvaluate`
  abbrev pub expression_evaluate :
      BusinessExpression Time → ExpressionContext → Outcome (ExpressionValue Time)
  expression_evaluate e context = evaluate_at context "$" e
