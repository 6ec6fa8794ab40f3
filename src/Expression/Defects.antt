-- ===== src/Expression/Defects.antt =====
-- Valid expressions whose evaluation goes wrong: nil, undeclared references, durations, and decimals whose
-- difference is out of range.
use domainry_foundation.Prelude.{
  ℕ, zero, suc, ◌≡◌, refl, ap, ◌∙◌, true, false, none, some, String, trim_space, Map, ltb_ℤ,
  Duration,
}
use domainry_foundation.Expression.Model.{
  Any, null, boolean, text, integer, number, moment, duration, items, texts, fields, other,
  value_kind, ValueKind, kind_unknown, ExpressionType, ExpressionReference, Header,
  BusinessExpression, node, no_more, argument, ok, failed, panicked, valid, decimal_error, subtract,
  below, Runtime,
}
use domainry_foundation.Expression.Operators.{
  operator_of, operator_type, lt, gt, of_kind, Comparison,
}
use domainry_foundation.Expression.Types.{
  diagnostic, expression_operation_type, validate_at, expression_validate, validate_literal,
  literal_valid, flat_valid,
}
use domainry_foundation.Expression.Values.{normalize, normalize_flat, expression_compare, holds}
use domainry_foundation.Expression.Evaluation.{
  ExpressionContext, reference_value, evaluate_reference, evaluate_referred, evaluate_literal,
  apply_operation, operation_value, evaluate_operation, evaluate_at, expression_evaluate,
}
use domainry_foundation.Expression.Fitting.{is_nil}

module _ (rt : Runtime) where
  open rt use {Time, sprint, concat, argument_path, compare_text, calculate, has_minus}

  -- A literal that is negated, once for each level of nesting.
  abbrev pub negated : Header Time → ℕ → Header Time → BusinessExpression Time
  negated h zero l = node l no_more
  negated h (suc n) l = node h (argument (negated h n l) no_more)

  nil_literal-valid :
      (environment : Map ExpressionType) (context : ExpressionContext rt) (path : String)
      (l : Header Time)
      → trim_space l.kind ≡ "literal"
      → trim_space l.value_type ≡ "boolean"
      → l.value ≡ null
      → (validate_at rt environment path (node l no_more) ≡ valid (of_kind "boolean"))
        × (evaluate_at rt context path (node l no_more)
            ≡ ok (record { type = of_kind "boolean"; value = null }))
  unfolding validate_at evaluate_at validate_literal evaluate_literal literal_valid flat_valid
      normalize normalize_flat value_kind
  nil_literal-valid environment context path l k t v = (rw (k, t, v) refl, rw (k, t, v) refl)

  negation-valid :
      (environment : Map ExpressionType) (path : String) (h : Header Time)
      (e : BusinessExpression Time)
      → trim_space h.kind ≡ "operation"
      → trim_space h.operator ≡ "not"
      → validate_at rt environment (argument_path path 0) e ≡ valid (of_kind "boolean")
      → validate_at rt environment path (node h (argument e no_more)) ≡ valid (of_kind "boolean")
  unfolding validate_at expression_operation_type operator_of operator_type
  negation-valid environment path h e k o inner = rw (k, o, inner) refl

  negation-of_nil :
      (context : ExpressionContext rt) (path : String) (h : Header Time)
      (e : BusinessExpression Time)
      → trim_space h.kind ≡ "operation"
      → trim_space h.operator ≡ "not"
      → evaluate_at rt context (argument_path path 0) e
        ≡ ok (record { type = of_kind "boolean"; value = null })
      → evaluate_at rt context path (node h (argument e no_more)) ≡ panicked
  unfolding evaluate_at evaluate_operation apply_operation operation_value operator_of operator_type
  negation-of_nil context path h e k o inner = rw (k, o, inner) refl

  negation-of_panicked :
      (context : ExpressionContext rt) (path : String) (h : Header Time)
      (e : BusinessExpression Time)
      → trim_space h.kind ≡ "operation"
      → evaluate_at rt context (argument_path path 0) e ≡ panicked
      → evaluate_at rt context path (node h (argument e no_more)) ≡ panicked
  unfolding evaluate_at
  negation-of_panicked context path h e k inner = rw (k, inner) refl

  negated_at-panics :
      (environment : Map ExpressionType) (context : ExpressionContext rt) (h l : Header Time)
      → trim_space h.kind ≡ "operation"
      → trim_space h.operator ≡ "not"
      → trim_space l.kind ≡ "literal"
      → trim_space l.value_type ≡ "boolean"
      → l.value ≡ null
      → (path : String) (n : ℕ)
      → (validate_at rt environment path (negated h (suc n) l) ≡ valid (of_kind "boolean"))
        × (evaluate_at rt context path (negated h (suc n) l) ≡ panicked)
  negated_at-panics environment context h l k o m t v path zero =
      let (valid_nil, ok_nil) =
        nil_literal-valid environment context (argument_path path 0) l m t v in
      (
        negation-valid environment path h (node l no_more) k o valid_nil,
        negation-of_nil context path h (node l no_more) k o ok_nil,
      )
  negated_at-panics environment context h l k o m t v path (suc n) =
      let (valid_inner, panics) =
        negated_at-panics environment context h l k o m t v (argument_path path 0) n in
      (
        negation-valid environment path h (negated h (suc n) l) k o valid_inner,
        negation-of_panicked context path h (negated h (suc n) l) k panics,
      )

  -- The negation of a nil literal of the boolean type, and the negation of that negation to any depth, is
  -- valid as a boolean in every environment and panics in every context.
  pub negated-panics :
      (environment : Map ExpressionType) (context : ExpressionContext rt) (h l : Header Time)
      (n : ℕ)
      → trim_space h.kind ≡ "operation"
      → trim_space h.operator ≡ "not"
      → trim_space l.kind ≡ "literal"
      → trim_space l.value_type ≡ "boolean"
      → l.value ≡ null
      → (expression_validate rt (negated h (suc n) l) environment ≡ valid (of_kind "boolean"))
        × (expression_evaluate rt (negated h (suc n) l) context ≡ panicked)
  negated-panics environment context h l n k o m t v =
      negated_at-panics environment context h l k o m t v "$" n

  -- Two durations are compared by their texts.
  pub durations_by_text :
      (c : Comparison) (a b : Duration)
      → expression_compare rt
          (record { type = of_kind "duration"; value = duration a })
          (record { type = of_kind "duration"; value = duration b })
          c
        ≡ ok (holds c (compare_text (sprint (duration a)) (sprint (duration b))))
  unfolding expression_compare value_kind
  durations_by_text c a b = refl

  -- The longer of two durations is reported to be the shorter one wherever its text is the smaller.
  pub durations_misordered :
      (a b : Duration)
      → ltb_ℤ b a ≡ true
      → compare_text (sprint (duration a)) (sprint (duration b)) ≡ below
      → expression_compare rt
          (record { type = of_kind "duration"; value = duration a })
          (record { type = of_kind "duration"; value = duration b })
          lt
        ≡ ok true
  unfolding holds
  durations_misordered a b longer smaller = durations_by_text lt a b ∙ rw smaller refl

  -- Two decimals whose difference is out of range compare as if the left one were the greater, whatever
  -- their signs: the error of the subtraction is dropped, and its empty text is no zero and has no minus.
  pub decimals_out_of_range :
      (s t code : String)
      → calculate subtract (sprint (text s)) (sprint (text t)) ≡ decimal_error code
      → has_minus "" ≡ false
      → expression_compare rt
          (record { type = of_kind "decimal"; value = text s })
          (record { type = of_kind "decimal"; value = text t })
          gt
        ≡ ok true
  unfolding expression_compare value_kind holds
  decimals_out_of_range s t code e m = rw (e, m) refl

  pub normalize-unknown :
      (l : rt.Location) (element : ValueKind) (v : Any Time)
      → is_nil v ≡ false
      → normalize rt l kind_unknown element v ≡ none
  unfolding normalize normalize_flat
  normalize-unknown l element null n = absurd (cc)
  normalize-unknown l element (boolean _) n = refl
  normalize-unknown l element (text _) n = refl
  normalize-unknown l element (integer _) n = refl
  normalize-unknown l element (number _) n = refl
  normalize-unknown l element (moment _) n = refl
  normalize-unknown l element (duration _) n = refl
  normalize-unknown l element (items _) n = refl
  normalize-unknown l element (texts _) n = refl
  normalize-unknown l element (fields _) n = refl
  normalize-unknown l element (other _) n = refl

  -- A reference that declares no type is valid wherever the environment knows it, and its evaluation fails
  -- for every value that is not nil.
  undeclared_reference-fails :
      (context : ExpressionContext rt) (h : Header Time) (r : ExpressionReference) (v : Any Time)
      (path : String)
      → h.reference ≡ some r
      → trim_space h.value_type ≡ ""
      → reference_value rt context.sources r ≡ some v
      → is_nil v ≡ false
      → evaluate_reference rt h context path
        ≡ failed (
            diagnostic rt h (concat path ".reference") "backend.expression.reference_value_invalid")
  unfolding evaluate_reference value_kind
  undeclared_reference-fails context h r v path e d f n =
      ap (evaluate_referred rt h context path) e
      ∙ rw (f, d, normalize-unknown context.location kind_unknown v n) refl
