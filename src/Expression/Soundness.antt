-- ===== src/Expression/Soundness.antt =====
-- What evaluation gives, and when it can panic.
use domainry_foundation.Prelude.{
  Every, ℕ, ◌+◌, ◌≡◌, refl, inl, inr, Bool, true, false, not, ◌&&◌, ◌||◌, Option, none, some,
  String, str_eq, List, arith, Bool-cases, trim_space,
}
use domainry_foundation.Expression.Model.{
  Any, ExpressionType, ExpressionValue, ExpressionReference, Header, BusinessExpression, Arguments,
  node, no_more, argument, Outcome, ok, failed, panicked, ◌>>=◌, Runtime,
}
use domainry_foundation.Expression.Operators.{
  operator_of, operator_type, Typed, typed, untyped, of_kind,
}
use domainry_foundation.Expression.Types.{operation_type_of, by_kind}
use domainry_foundation.Expression.Evaluation.{
  ExpressionContext, reference_value, with_type, literal_type, evaluate_literal, evaluate_found,
  evaluate_referred, evaluate_reference, apply_operation, operation_value, expression_types,
  of_checked, evaluate_operation, evaluate_at, evaluate_arguments, expression_evaluate,
}
use domainry_foundation.Expression.Fitting.{
  is_nil, is_full, Fits, AllFit, Post, Post-bind, normalize_value-Fits,
}
use domainry_foundation.Expression.Results.{operation_value-Fits}

module _ (rt : Runtime) where
  open rt use {Time}

  -- No literal of the expression is nil and no reference of it leads to nil.
  abbrev pub refers_full : ExpressionContext rt → Option ExpressionReference → Bool
  refers_full context none = true
  refers_full context (some r) = elim (reference_value rt context.sources r) [
    | none ↦ true
    | some v ↦ not (is_nil v)
  ]

  abbrev pub header_full : ExpressionContext rt → Header Time → Bool
  header_full context h =
      (not (str_eq (trim_space h.kind) "literal") || not (is_nil h.value))
      && (not (str_eq (trim_space h.kind) "reference") || refers_full context h.reference)

  unfoldable mutual
    pub no_nil : ExpressionContext rt → BusinessExpression Time → Bool
    no_nil context (node h args) = let rest = no_nils context args in header_full context h && rest

    pub no_nils : ExpressionContext rt → Arguments Time → Bool
    no_nils context no_more = true
    no_nils context (argument e args) =
        let first = no_nil context e in let rest = no_nils context args in first && rest

  -- The value of an outcome is of its type, and not nil if `full` is on.
  abbrev pub Sound : Bool → Outcome (ExpressionValue Time) → Type 0
  Sound full o = Post (λ v. Fits full v.type v.value) (full ≡ false) o

  with_type-Sound :
      (full : Bool) (h : Header Time) (path code : String) (t : ExpressionType)
      (o : Option (Any Time))
      → Every (Fits full t) o
      → Sound full (with_type rt h path code t o)
  with_type-Sound full h path code t none k = tt
  with_type-Sound full h path code t (some v) k = k

  evaluate_literal-Sound :
      (full : Bool) (h : Header Time) (context : ExpressionContext rt) (path : String)
      → is_full full h.value ≡ true
      → Sound full (evaluate_literal rt h context path)
  unfolding evaluate_literal
  evaluate_literal-Sound full h context path k =
      with_type-Sound full h _ _ (literal_type rt h) _
        (normalize_value-Fits rt full h.value (literal_type rt h) context.location k)

  evaluate_found-Sound :
      (full : Bool) (h : Header Time) (context : ExpressionContext rt) (path : String)
      (o : Option (Any Time))
      → Every (λ v. is_full full v ≡ true) o
      → Sound full (evaluate_found rt h context path o)
  evaluate_found-Sound full h context path none k = tt
  evaluate_found-Sound full h context path (some v) k =
      with_type-Sound full h _ _ (of_kind (trim_space h.value_type)) _
        (normalize_value-Fits rt full v (of_kind (trim_space h.value_type)) context.location k)

  found-full :
      (full : Bool) (o : Option (Any Time))
      → (not full || elim o as (λ _. Bool) [ none ↦ true | some v ↦ not (is_nil v) ]) ≡ true
      → Every (λ v. is_full full v ≡ true) o
  found-full full none k = tt
  found-full full (some v) k = k

  evaluate_referred-Sound :
      (full : Bool) (h : Header Time) (context : ExpressionContext rt) (path : String)
      (o : Option ExpressionReference)
      → (not full || refers_full context o) ≡ true
      → Sound full (evaluate_referred rt h context path o)
  evaluate_referred-Sound full h context path none k = tt
  evaluate_referred-Sound full h context path (some r) k =
      evaluate_found-Sound full h context path (reference_value rt context.sources r)
        (found-full full (reference_value rt context.sources r) k)

  evaluate_reference-Sound :
      (full : Bool) (h : Header Time) (context : ExpressionContext rt) (path : String)
      → (not full || refers_full context h.reference) ≡ true
      → Sound full (evaluate_reference rt h context path)
  unfolding evaluate_reference
  evaluate_reference-Sound full h context path k =
      evaluate_referred-Sound full h context path h.reference k

  apply_typed-Sound :
      (full : Bool) (h : Header Time) (vs : List (ExpressionValue Time))
      (context : ExpressionContext rt) (path : String) (r : Typed)
      → operator_type (operator_of (trim_space h.operator)) (expression_types rt vs) ≡ r
      → AllFit full vs
      → Sound full (
          of_checked rt (operation_type_of rt h path r) >>= λ t.
          apply_operation rt h vs t context path)
  unfolding apply_operation
  apply_typed-Sound full h vs context path (untyped p) e k = tt
  apply_typed-Sound full h vs context path (typed t) e k =
      Post-bind (Fits full t) (λ v. Fits full v.type v.value) (full ≡ false)
        (operation_value rt h (operator_of (trim_space h.operator)) vs context path) _
        (operation_value-Fits rt full h (operator_of (trim_space h.operator)) vs context path t k e)
        (λ v q. q)

  evaluate_operation-Sound :
      (full : Bool) (h : Header Time) (vs : List (ExpressionValue Time))
      (context : ExpressionContext rt) (path : String)
      → AllFit full vs
      → Sound full (evaluate_operation rt h vs context path)
  unfolding evaluate_operation
  evaluate_operation-Sound full h vs context path k =
      apply_typed-Sound full h vs context path
        (operator_type (operator_of (trim_space h.operator)) (expression_types rt vs)) refl k

  -- One of the three kinds of expression, or none of them.
  by_kind-cases :
      (P : Outcome (ExpressionValue Time) → Type 0) (kind : String)
      (literal reference operation other : Outcome (ExpressionValue Time))
      → (str_eq kind "literal" ≡ true → P literal)
      → (str_eq kind "reference" ≡ true → P reference)
      → P operation
      → P other
      → P (by_kind rt kind literal reference operation other)
  by_kind-cases P kind l r o x a b c d = elim (Bool-cases (str_eq kind "literal")) [
    | inl hit ↦ rw hit (a hit)
    | inr miss ↦ elim (Bool-cases (str_eq kind "reference")) [
      | inl hit ↦ rw (miss, hit) (b hit)
      | inr not_reference ↦ elim (Bool-cases (str_eq kind "operation")) [
        | inl hit ↦ rw (miss, not_reference, hit) c
        | inr other ↦ rw (miss, not_reference, other) d
      ]
    ]
  ]

  mutual
    unfolding evaluate_at no_nil

    evaluate_at-Sound :
        (full : Bool) (context : ExpressionContext rt) (path : String) (e : BusinessExpression Time)
        → (not full || no_nil context e) ≡ true
        → Sound full (evaluate_at rt context path e)
    evaluate_at-Sound full context path (node h args) k =
        by_kind-cases (Sound full) (trim_space h.kind) (evaluate_literal rt h context path)
          (evaluate_reference rt h context path)
          (evaluate_arguments rt context path 0 args >>= λ vs.
            evaluate_operation rt h vs context path)
          _ (λ literal. evaluate_literal-Sound full h context path (ground (arith, k, literal)))
          (λ reference. evaluate_reference-Sound full h context path (ground (arith, k, reference)))
          (Post-bind (AllFit full) (λ v. Fits full v.type v.value) (full ≡ false)
            (evaluate_arguments rt context path 0 args) _
            (evaluate_arguments-Sound full context path 0 args (ground (arith, k)))
            (λ vs fit. evaluate_operation-Sound full h vs context path fit))
          tt

    evaluate_arguments-Sound :
        (full : Bool) (context : ExpressionContext rt) (path : String) (i : ℕ)
        (args : Arguments Time)
        → (not full || no_nils context args) ≡ true
        → Post (AllFit full) (full ≡ false) (evaluate_arguments rt context path i args)
    evaluate_arguments-Sound full context path i no_more k = tt
    evaluate_arguments-Sound full context path i (argument e args) k =
        Post-bind (λ v. Fits full v.type v.value) (AllFit full) (full ≡ false)
          (evaluate_at rt context (rt.argument_path path i) e) _
          (evaluate_at-Sound full context (rt.argument_path path i) e (ground (arith, k)))
          (λ v fit.
            Post-bind (AllFit full) (AllFit full) (full ≡ false)
              (evaluate_arguments rt context path (i + 1) args) _
              (evaluate_arguments-Sound full context path (i + 1) args (ground (arith, k)))
              (λ vs fits. (fit, fits)))

  calm :
      (o : Outcome (ExpressionValue Time)) → Sound true o → Post (λ v. Fits true v.type v.value) ⊥ o
  calm (ok v) h = h
  calm (failed d) h = tt
  calm panicked h = cc

  -- A value that an expression evaluates to is of the Go type that its expression type stands for, or
  -- nil, whether or not the expression has been validated.
  pub evaluate-Fits :
      (e : BusinessExpression Time) (context : ExpressionContext rt) (v : ExpressionValue Time)
      → expression_evaluate rt e context ≡ ok v
      → Fits false v.type v.value
  evaluate-Fits e context v h = let s = evaluate_at-Sound false context "$" e refl in rw h at s

  -- Evaluation of an expression in which no literal is nil and no reference leads to nil does not panic:
  -- it gives a value of its type that is not nil, or a diagnostic.
  pub evaluate-Sound :
      (e : BusinessExpression Time) (context : ExpressionContext rt)
      → no_nil context e ≡ true
      → Post (λ v. Fits true v.type v.value) ⊥ (expression_evaluate rt e context)
  evaluate-Sound e context h =
      calm (expression_evaluate rt e context) (evaluate_at-Sound true context "$" e h)
