-- ===== src/Expression/Agreement.antt =====
-- The types of evaluation against those of validation.
use domainry_foundation.Prelude.{
  ℕ, ◌+◌, ◌≡◌, refl, sym, ◌∙◌, inl, inr, Bool, true, false, not, ◌&&◌, ◌||◌, Option, none, some,
  String, str_eq, eq_iff, List, ◌∷◌, arith, Bool-cases, Option-cases, trim_space, Map, lookup,
}
use domainry_foundation.Expression.Model.{
  Any, value_kind, ExpressionType, ExpressionValue, ExpressionReference, ExpressionDiagnostic,
  Header, BusinessExpression, Arguments, node, no_more, argument, Outcome, ok, failed, panicked,
  ◌>>=◌, Checked, valid, invalid, and_check, Runtime,
}
use domainry_foundation.Expression.Operators.{
  operator_of, operator_type, Typed, typed, untyped, of_kind, is_list, is_value_type,
  is_reference_source,
}
use domainry_foundation.Expression.Types.{
  operation_type_of, expression_operation_type, by_kind, literal_valid, validate_literal,
  blank_segment, is_nil, declared_type, validate_referred, validate_reference, validate_at,
  validate_arguments, expression_validate, expression_reference_key,
}
use domainry_foundation.Expression.Evaluation.{
  ExpressionContext, reference_value, with_type, literal_type, evaluate_literal, evaluate_found,
  evaluate_referred, evaluate_reference, apply_operation, operation_value, expression_types,
  of_checked, evaluate_operation, evaluate_at, evaluate_arguments, expression_evaluate,
}

-- No reference of the environment is to a list.
abbrev pub IsFlat : Map ExpressionType → Type 0
IsFlat environment =
    (k : String) (t : ExpressionType) → lookup k environment ≡ some t → t.element_type ≡ ""

checked-injective : {s t : ExpressionType} → valid s ≡ valid t → s ≡ t
checked-injective e = cc

declared-type :
    (kind : String) (t : ExpressionType)
    → str_eq kind t.kind ≡ true
    → t.element_type ≡ ""
    → of_kind kind ≡ t
declared-type kind t same flat = rw ((eq_iff kind t.kind).0 same, sym flat) refl

module _ (rt : Runtime) where
  open rt use {Time}

  -- Every reference declares its type.
  unfoldable mutual
    pub declares : BusinessExpression Time → Bool
    declares (node h args) =
        let rest = all_declare args in
        (not (str_eq (trim_space h.kind) "reference") || not (str_eq (trim_space h.value_type) ""))
        && rest

    pub all_declare : Arguments Time → Bool
    all_declare no_more = true
    all_declare (argument e args) =
        let first = declares e in let rest = all_declare args in first && rest

  -- Where both give something, the types are the same.
  abbrev Agree : Outcome (ExpressionValue Time) → Checked ExpressionType → Type 0
  Agree (failed d) c = Unit {0}
  Agree panicked c = Unit {0}
  Agree (ok v) (invalid d) = Unit {0}
  Agree (ok v) (valid t) = v.type ≡ t

  abbrev AllAgree : Outcome (List (ExpressionValue Time)) → Checked (List ExpressionType) → Type 0
  AllAgree (failed d) c = Unit {0}
  AllAgree panicked c = Unit {0}
  AllAgree (ok vs) (invalid d) = Unit {0}
  AllAgree (ok vs) (valid ts) = expression_types rt vs ≡ ts

  with_type-Agree :
      (h : Header Time) (path code : String) (t : ExpressionType) (o : Option (Any Time))
      (c : Checked ExpressionType)
      → ((s : ExpressionType) → c ≡ valid s → t ≡ s)
      → Agree (with_type rt h path code t o) c
  with_type-Agree h path code t none c k = tt
  with_type-Agree h path code t (some v) (invalid d) k = tt
  with_type-Agree h path code t (some v) (valid s) k = k s refl

  failed-Agree :
      (o : Outcome (ExpressionValue Time)) (d : ExpressionDiagnostic) → Agree o (invalid d)
  failed-Agree (ok v) d = tt
  failed-Agree (failed e) d = tt
  failed-Agree panicked d = tt

  literal_value-Agree :
      (h : Header Time) (context : ExpressionContext rt) (path : String)
      → Agree (evaluate_literal rt h context path) (valid (literal_type rt h))
  unfolding evaluate_literal
  literal_value-Agree h context path =
      with_type-Agree h _ _ (literal_type rt h) _ _ (λ s e. checked-injective e)

  literal-Agree :
      (h : Header Time) (context : ExpressionContext rt) (path path' : String)
      → Agree (evaluate_literal rt h context path) (validate_literal rt h path')
  unfolding validate_literal
  literal-Agree h context path path' =
      let o = evaluate_literal rt h context path in
      let kind = value_kind (trim_space h.value_type) in
      let element = value_kind (literal_type rt h).element_type in
      elim (Bool-cases (not (is_value_type kind))) [
        | inl bad ↦ rw bad (failed-Agree o _)
        | inr good ↦
            elim (Bool-cases (is_list kind && (not (is_value_type element) || is_list element))) [
              | inl bad' ↦ rw (good, bad') (failed-Agree o _)
              | inr good' ↦ elim (Bool-cases (literal_valid rt kind element h.value)) [
                | inr refused ↦ rw (good, good', refused) (failed-Agree o _)
                | inl accepted ↦ rw (good, good', accepted) (literal_value-Agree h context path)
              ]
            ]
      ]

  declared-Agree :
      (h : Header Time) (path path' code : String) (v : Option (Any Time))
      (o : Option ExpressionType)
      → str_eq (trim_space h.value_type) "" ≡ false
      → ((t : ExpressionType) → o ≡ some t → t.element_type ≡ "")
      → Agree
          (with_type rt h path' code (of_kind (trim_space h.value_type)) v)
          (declared_type rt h path o)
  declared-Agree h path path' code v none d f = failed-Agree _ _
  declared-Agree h path path' code v (some t) d f =
      elim (Bool-cases (str_eq (trim_space h.value_type) t.kind)) [
        | inr other ↦ rw (d, other) (failed-Agree _ _)
        | inl same ↦
            rw (d, same)
              (with_type-Agree h path' code _ v (valid t) (λ s e.
                declared-type (trim_space h.value_type) t same (f t refl) ∙ checked-injective e))
      ]

  -- No value, or a value of the declared type.
  found-Agree :
      (h : Header Time) (context : ExpressionContext rt) (path path' : String)
      (v : Option (Any Time)) (o : Option ExpressionType)
      → str_eq (trim_space h.value_type) "" ≡ false
      → ((t : ExpressionType) → o ≡ some t → t.element_type ≡ "")
      → Agree (evaluate_found rt h context path v) (declared_type rt h path' o)
  found-Agree h context path path' none o d f = tt
  found-Agree h context path path' (some v) o d f = declared-Agree h path' _ _ _ o d f

  referred-Agree :
      (environment : Map ExpressionType) (h : Header Time) (context : ExpressionContext rt)
      (path path' : String) (r : Option ExpressionReference)
      → IsFlat environment
      → str_eq (trim_space h.value_type) "" ≡ false
      → Agree (evaluate_referred rt h context path r) (validate_referred rt environment h path' r)
  referred-Agree environment h context path path' none f d = tt
  referred-Agree environment h context path path' (some r) f d =
      let o = evaluate_found rt h context path (reference_value rt context.sources r) in
      elim (Bool-cases (not (is_reference_source (trim_space r.source)) || is_nil rt r.path)) [
        | inl bad ↦ rw bad (failed-Agree o _)
        | inr good ↦ elim (Option-cases (blank_segment rt 0 r.path)) [
          | inr (i, blank) ↦ rw (good, blank) (failed-Agree o _)
          | inl full ↦
              rw (good, full)
                (found-Agree h context path path' (reference_value rt context.sources r)
                  (lookup (expression_reference_key rt r) environment) d
                  (λ t e. f (expression_reference_key rt r) t e))
        ]
      ]

  value-Agree :
      (o : Outcome (Any Time)) (t : ExpressionType)
      → Agree (o >>= λ v. ok (record { type = t; value = v })) (valid t)
  value-Agree (ok v) t = refl
  value-Agree (failed d) t = tt
  value-Agree panicked t = tt

  apply-Agree :
      (h : Header Time) (context : ExpressionContext rt) (path : String)
      (vs : List (ExpressionValue Time)) (t : ExpressionType)
      → Agree (apply_operation rt h vs t context path) (valid t)
  unfolding apply_operation
  apply-Agree h context path vs t =
      value-Agree (operation_value rt h (operator_of (trim_space h.operator)) vs context path) t

  typed-Agree :
      (h : Header Time) (context : ExpressionContext rt) (path path' : String)
      (vs : List (ExpressionValue Time)) (r : Typed)
      → Agree
          (of_checked rt (operation_type_of rt h path r) >>= λ t.
            apply_operation rt h vs t context path)
          (operation_type_of rt h path' r)
  typed-Agree h context path path' vs (untyped p) = tt
  typed-Agree h context path path' vs (typed t) = apply-Agree h context path vs t

  -- The same operation on the same types.
  operation-Agree :
      (h : Header Time) (context : ExpressionContext rt) (path path' : String)
      (o : Outcome (List (ExpressionValue Time))) (c : Checked (List ExpressionType))
      → AllAgree o c
      → Agree
          (o >>= λ vs. evaluate_operation rt h vs context path)
          (and_check c (λ ts. expression_operation_type rt h ts path'))
  unfolding evaluate_operation expression_operation_type
  operation-Agree h context path path' (failed d) c k = tt
  operation-Agree h context path path' panicked c k = tt
  operation-Agree h context path path' (ok vs) (invalid d) k = failed-Agree _ d
  operation-Agree h context path path' (ok vs) (valid ts) k = rw (sym k) (
      typed-Agree h context path path' vs
        (operator_type (operator_of (trim_space h.operator)) (expression_types rt vs)))

  argument-Agree :
      (o : Outcome (ExpressionValue Time)) (c : Checked ExpressionType)
      (os : Outcome (List (ExpressionValue Time))) (cs : Checked (List ExpressionType))
      → Agree o c
      → AllAgree os cs
      → AllAgree
          (o >>= λ v. os >>= λ vs. ok (v ∷ vs))
          (and_check c (λ t. and_check cs (λ ts. valid (t ∷ ts))))
  argument-Agree (failed d) c os cs h k = tt
  argument-Agree panicked c os cs h k = tt
  argument-Agree (ok v) c (failed d) cs h k = tt
  argument-Agree (ok v) c panicked cs h k = tt
  argument-Agree (ok v) (invalid d) (ok vs) cs h k = tt
  argument-Agree (ok v) (valid t) (ok vs) (invalid d) h k = tt
  argument-Agree (ok v) (valid t) (ok vs) (valid ts) h k = cc

  by_kind-Agree :
      (kind : String) (l r o x : Outcome (ExpressionValue Time))
      (l' r' o' x' : Checked ExpressionType)
      → Agree l l'
      → (str_eq kind "reference" ≡ true → Agree r r')
      → Agree o o'
      → Agree x x'
      → Agree (by_kind rt kind l r o x) (by_kind rt kind l' r' o' x')
  by_kind-Agree kind l r o x l' r' o' x' a b c d = elim (Bool-cases (str_eq kind "literal")) [
    | inl hit ↦ rw hit a
    | inr miss ↦ elim (Bool-cases (str_eq kind "reference")) [
      | inl hit ↦ rw (miss, hit) (b hit)
      | inr not_reference ↦ elim (Bool-cases (str_eq kind "operation")) [
        | inl hit ↦ rw (miss, not_reference, hit) c
        | inr other ↦ rw (miss, not_reference, other) d
      ]
    ]
  ]

  reference-Agree :
      (environment : Map ExpressionType) (h : Header Time) (context : ExpressionContext rt)
      (path path' : String)
      → IsFlat environment
      → str_eq (trim_space h.value_type) "" ≡ false
      → Agree (evaluate_reference rt h context path) (validate_reference rt environment h path')
  unfolding evaluate_reference validate_reference
  reference-Agree environment h context path path' f d =
      referred-Agree environment h context path path' h.reference f d

  mutual
    unfolding evaluate_at validate_at declares

    at-Agree :
        (environment : Map ExpressionType) (context : ExpressionContext rt) (path : String)
        (e : BusinessExpression Time)
        → IsFlat environment
        → declares e ≡ true
        → Agree (evaluate_at rt context path e) (validate_at rt environment path e)
    at-Agree environment context path (node h args) f d =
        by_kind-Agree (trim_space h.kind) (evaluate_literal rt h context path)
          (evaluate_reference rt h context path) _ _ _ _ _ _ (literal-Agree h context path path)
          (λ r. reference-Agree environment h context path path f (ground (arith, d, r)))
          (operation-Agree h context path path (evaluate_arguments rt context path 0 args)
            (validate_arguments rt environment path 0 args)
            (all-Agree environment context path 0 args f (ground (arith, d))))
          tt

    all-Agree :
        (environment : Map ExpressionType) (context : ExpressionContext rt) (path : String) (i : ℕ)
        (args : Arguments Time)
        → IsFlat environment
        → all_declare args ≡ true
        → AllAgree
            (evaluate_arguments rt context path i args)
            (validate_arguments rt environment path i args)
    all-Agree environment context path i no_more f d = refl
    all-Agree environment context path i (argument e args) f d =
        argument-Agree (evaluate_at rt context (rt.argument_path path i) e)
          (validate_at rt environment (rt.argument_path path i) e)
          (evaluate_arguments rt context path (i + 1) args)
          (validate_arguments rt environment path (i + 1) args)
          (at-Agree environment context (rt.argument_path path i) e f (ground (arith, d)))
          (all-Agree environment context path (i + 1) args f (ground (arith, d)))

  -- Where every reference of an expression declares its type and every type in the environment has an
  -- empty element type, the expression evaluates to a value of the very type that validation gives, if
  -- both succeed.
  pub evaluate-validate :
      (environment : Map ExpressionType) (context : ExpressionContext rt)
      (e : BusinessExpression Time) (v : ExpressionValue Time) (t : ExpressionType)
      → IsFlat environment
      → declares e ≡ true
      → expression_evaluate rt e context ≡ ok v
      → expression_validate rt e environment ≡ valid t
      → v.type ≡ t
  evaluate-validate environment context e v t f d h k =
      let a = at-Agree environment context "$" e f d in rw (h, k) at a
