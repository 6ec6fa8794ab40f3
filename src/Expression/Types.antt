-- ===== src/Expression/Types.antt =====
-- expression/contract/expression_validation_contract.go: the validation of expressions.
use domainry_foundation.Prelude.{
  ℕ, ◌+◌, Bool, true, false, not, ◌&&◌, ◌||◌, Option, none, some, String, str_eq, List, [], ◌∷◌,
  Map, lookup, trim_space, is_some, if◌then◌else◌,
}
use domainry_foundation.Expression.Model.{
  Any, null, boolean, text, items, texts, Items, nil, cons, ValueKind, kind_boolean, kind_integer,
  kind_decimal, kind_date, kind_datetime, kind_duration, kind_text, kind_relation, kind_list,
  kind_unknown, value_kind, ExpressionReference, ExpressionType, Header, BusinessExpression,
  Arguments, node, no_more, argument, ExpressionDiagnostic, Checked, valid, invalid, and_check,
  DecimalResult, digits, decimal_error, Runtime,
}
use domainry_foundation.Expression.Operators.{
  operator_of, is_value_type, is_list, is_reference_source, Typed, typed, untyped, operator_type,
}

module _ (rt : Runtime) where
  open rt use {
    Time, sprint, concat, argument_path, segment_path, join, parse_int, parse_date, parse_time,
    parse_duration, utc, normalize_decimal,
  }

  -- `expressionDiagnostic` and `expressionError`
  abbrev pub diagnostic : Header Time → String → String → ExpressionDiagnostic
  diagnostic h path code = record {
    code = code;
    path = path;
    source_reference = trim_space h.source_reference;
  }

  -- `ExpressionOperationType`
  abbrev pub operation_type_of : Header Time → String → Typed → Checked ExpressionType
  operation_type_of h path (typed t) = valid t
  operation_type_of h path (untyped (part, code)) = invalid (diagnostic h (concat path part) code)

  unfoldable pub expression_operation_type :
      Header Time → List ExpressionType → String → Checked ExpressionType
  expression_operation_type h ts path =
      operation_type_of h path (operator_type (operator_of (trim_space h.operator)) ts)

  abbrev pub is_digits : DecimalResult → Bool
  is_digits (digits _) = true
  is_digits (decimal_error _) = false

  abbrev pub is_boolean : Any Time → Bool
  is_boolean (boolean _) = true
  is_boolean _ = false

  abbrev pub is_text : Any Time → Bool
  is_text (text _) = true
  is_text _ = false

  abbrev pub printed : Any Time → String
  printed v = trim_space (sprint v)

  -- `expressionLiteralValid` on a value that is no list.
  unfoldable pub flat_valid : ValueKind → Any Time → Bool
  flat_valid kind null = true
  flat_valid kind_boolean v = is_boolean v
  flat_valid kind_integer v = is_some (parse_int (printed v))
  flat_valid kind_decimal v = is_digits (normalize_decimal v)
  flat_valid kind_date v = is_some (parse_date utc (printed v))
  flat_valid kind_datetime v = is_some (parse_time (printed v))
  flat_valid kind_duration v = is_some (parse_duration (printed v))
  flat_valid kind_text v = is_text v
  flat_valid kind_relation v = is_text v
  flat_valid kind_list v = false
  flat_valid kind_unknown v = false

  abbrev pub all_texts_valid : ValueKind → List String → Bool
  all_texts_valid kind [] = true
  all_texts_valid kind (s ∷ ss) =
      let rest = all_texts_valid kind ss in flat_valid kind (text s) && rest

  unfoldable mutual
    unfolding flat_valid

    pub literal_valid : ValueKind → ValueKind → Any Time → Bool
    literal_valid kind element (items xs) =
        let rest = all_valid element xs in if is_list kind then rest else flat_valid kind (items xs)
    literal_valid kind element (texts ss) =
        if is_list kind then all_texts_valid element ss else flat_valid kind (texts ss)
    literal_valid kind element v = flat_valid kind v

    pub all_valid : ValueKind → Items Time → Bool
    all_valid element nil = true
    all_valid element (cons x xs) =
        let rest = all_valid element xs in literal_valid element kind_unknown x && rest

  unfoldable pub validate_literal : Header Time → String → Checked ExpressionType
  unfolding literal_valid
  validate_literal h path =
      let kind = trim_space h.value_type in
      let element = if is_list (value_kind kind) then trim_space h.element_type else "" in
      if not (is_value_type (value_kind kind))
      then invalid (diagnostic h (concat path ".value_type") "backend.expression.type_invalid")
      else if is_list (value_kind kind)
          && (not (is_value_type (value_kind element)) || is_list (value_kind element))
      then invalid (diagnostic h (concat path ".element_type") "backend.expression.type_invalid")
      else if literal_valid (value_kind kind) (value_kind element) h.value
      then valid (record { kind = kind; element_type = element })
      else invalid (diagnostic h (concat path ".value") "backend.expression.literal_invalid")

  -- `ExpressionReferenceKey`
  unfoldable pub expression_reference_key : ExpressionReference → String
  expression_reference_key r =
      let source = concat (trim_space r.source) ":" in
      let key =
        if str_eq (trim_space r.object_key) ""
        then source
        else concat source (concat (trim_space r.object_key) ":") in
      concat key (join r.path)

  -- The index of the first blank segment of a path.
  abbrev pub blank_segment : ℕ → List String → Option ℕ
  blank_segment i [] = none
  blank_segment i (s ∷ ss) =
      let rest = blank_segment (i + 1) ss in if str_eq (trim_space s) "" then some i else rest

  abbrev pub is_nil : List String → Bool
  is_nil [] = true
  is_nil (_ ∷ _) = false

  -- The end of `expressionValidateReference`, on the type that the environment gives.
  abbrev pub declared_type : Header Time → String → Option ExpressionType → Checked ExpressionType
  declared_type h path none =
      invalid (diagnostic h (concat path ".reference") "backend.expression.reference_unresolved")
  declared_type h path (some t) =
      let declared = trim_space h.value_type in
      if not (str_eq declared "") && not (str_eq declared t.kind)
      then invalid (diagnostic h (concat path ".value_type") "backend.expression.type_mismatch")
      else valid t

  abbrev pub resolved :
      Map ExpressionType
      → Header Time
      → String
      → ExpressionReference
      → Option ℕ
      → Checked ExpressionType
  resolved environment h path r (some i) =
      invalid (diagnostic h (segment_path path i) "backend.expression.reference_invalid")
  resolved environment h path r none =
      declared_type h path (lookup (expression_reference_key r) environment)

  abbrev pub validate_referred :
      Map ExpressionType
      → Header Time
      → String
      → Option ExpressionReference
      → Checked ExpressionType
  validate_referred environment h path none =
      invalid (diagnostic h (concat path ".reference") "backend.expression.reference_invalid")
  validate_referred environment h path (some r) =
      if not (is_reference_source (trim_space r.source)) || is_nil r.path
      then invalid (diagnostic h (concat path ".reference") "backend.expression.reference_invalid")
      else resolved environment h path r (blank_segment 0 r.path)

  unfoldable pub validate_reference :
      Map ExpressionType → Header Time → String → Checked ExpressionType
  unfolding expression_reference_key
  validate_reference environment h path = validate_referred environment h path h.reference

  -- The kinds of an expression.
  abbrev pub by_kind : {A : Type 0} → String → A → A → A → A → A
  by_kind kind literal reference operation none_of_them =
      if str_eq kind "literal"
      then literal
      else if str_eq kind "reference"
      then reference
      else if str_eq kind "operation"
      then operation
      else none_of_them

  unfoldable mutual
    unfolding validate_literal validate_reference expression_operation_type

    pub validate_at : Map ExpressionType → String → BusinessExpression Time → Checked ExpressionType
    validate_at environment path (node h args) =
        let types = validate_arguments environment path 0 args in
        by_kind (trim_space h.kind) (validate_literal h path)
          (validate_reference environment h path)
          (and_check types (λ ts. expression_operation_type h ts path))
          (invalid (diagnostic h (concat path ".kind") "backend.expression.kind_invalid"))

    pub validate_arguments :
        Map ExpressionType → String → ℕ → Arguments Time → Checked (List ExpressionType)
    validate_arguments environment path i no_more = valid []
    validate_arguments environment path i (argument e args) =
        let first = validate_at environment (argument_path path i) e in
        let rest = validate_arguments environment path (i + 1) args in
        and_check first (λ t. and_check rest (λ ts. valid (t ∷ ts)))

  -- `ExpressionValidate`
  abbrev pub expression_validate :
      BusinessExpression Time → Map ExpressionType → Checked ExpressionType
  expression_validate e environment = validate_at environment "$" e
