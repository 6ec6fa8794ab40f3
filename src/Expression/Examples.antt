-- ===== src/Expression/Examples.antt =====
-- The theorems on expressions with a runtime whose times are numbers of nanoseconds.
use Prim.Native.String.{compare, ◌++◌}
use Prim.Native.Nat.{Ordering}
use package.text.Mathlib.Text.{starts_with}
use domainry_foundation.Prelude.{
  ℕ, ◌-◌, ◌≡◌, refl, true, false, Option, none, some, String, List, [], ◌∷◌, Map, ltb, pos, ltb_ℤ,
  trim_space, arith, if◌then◌else◌,
}
use domainry_foundation.Expression.Model.{
  Any, null, boolean, text, integer, duration, end, field, fields, value_kind, ExpressionType,
  ExpressionValue, ExpressionReference, Header, BusinessExpression, node, no_more, argument, ok,
  panicked, valid, DecimalResult, digits, decimal_error, Arithmetic, Sign, below, equal, above,
  Runtime,
}
use domainry_foundation.Expression.Operators.{
  is_reference_source, operator_of, operator_type, of_kind,
}
use domainry_foundation.Expression.Types.{
  expression_reference_key, validate_at, validate_literal, literal_valid, flat_valid,
  expression_operation_type, expression_validate,
}
use domainry_foundation.Expression.Values.{expression_compare, normalize, normalize_flat}
use domainry_foundation.Expression.Evaluation.{
  ExpressionContext, reference_value, evaluate_literal, evaluate_operation, apply_operation,
  operation_value, evaluate_at, expression_evaluate,
}
use domainry_foundation.Expression.Fitting.{Fits, Post}
use domainry_foundation.Expression.Soundness.{no_nil, evaluate-Fits, evaluate-Sound}
use domainry_foundation.Expression.Agreement.{IsFlat, declares, evaluate-validate}
use domainry_foundation.Expression.Defects.{negated, negated-panics}

abbrev sign_of : String → String → Sign
sign_of s t = elim (compare s t) [ Ordering.lt ↦ below | Ordering.eq ↦ equal | Ordering.gt ↦ above ]

abbrev printed_as : Any ℕ → String
printed_as (text s) = s
printed_as (duration d) = if ltb_ℤ d (pos 10) then "9ns" else "10ns"
printed_as v = ""

abbrev first_text : List String → String
first_text [] = ""
first_text (s ∷ ss) = s

-- Subtraction fails, as it does for numbers of too many digits.
abbrev out_of_range : Arithmetic → String → String → DecimalResult
out_of_range a s t = decimal_error "backend.decimal.out_of_range"

abbrev plain : Runtime
plain = record {
  Time = ℕ;
  Location = ℕ;
  utc = 0;
  sprint = printed_as;
  concat = λ s t. s ++ t;
  argument_path = λ s i. s ++ ".arguments";
  segment_path = λ s i. s ++ ".reference.path";
  join = first_text;
  compare_text = sign_of;
  has_minus = λ s. starts_with s "-";
  parse_int = λ s. if starts_with s "7" then some (pos 7) else none;
  parse_date = λ l s. none;
  parse_time = λ s. none;
  parse_duration = λ s. none;
  in_location = λ l t. t;
  calendar_date = λ l t. t;
  time_before = ltb;
  add_duration = λ t d. t;
  add_days = λ t n. t;
  time_sub = λ s t. pos (s - t);
  normalize_decimal = λ v. digits (printed_as v);
  calculate = out_of_range;
}

abbrev header : String → String → String → Any ℕ → Option ExpressionReference → Header ℕ
header kind operator value_type v r = record {
  kind = kind;
  value_type = value_type;
  element_type = "";
  value = v;
  reference = r;
  operator = operator;
  source_reference = "";
}

abbrev literal : String → Any ℕ → BusinessExpression ℕ
literal value_type v = node (header "literal" "" value_type v none) no_more

abbrev amount : ExpressionReference
amount = record { source = "input"; path = "count" ∷ []; object_key = "" }

abbrev context : ExpressionContext plain
context = record {
  sources = field "input" (fields (field "count" (text "7") end)) end;
  location = 0;
  now = 5;
}

-- `input.count == 7` and its parts.
abbrev counted : BusinessExpression ℕ
counted = node (header "operation" "eq" "" null none) (
    argument (node (header "reference" "" "integer" null (some amount)) no_more)
      (argument (literal "integer" (integer (pos 7))) no_more))

abbrev truth : ExpressionValue ℕ
truth = record { type = of_kind "boolean"; value = boolean true }

abbrev simple : BusinessExpression ℕ
simple =
    node (header "operation" "not" "" null none)
      (argument (literal "boolean" (boolean false)) no_more)

simple_evaluates : expression_evaluate plain simple context ≡ ok truth
unfolding evaluate_at evaluate_literal evaluate_operation apply_operation operation_value
    expression_operation_type operator_of operator_type normalize normalize_flat value_kind
    trim_space
simple_evaluates = refl

evaluate-Fits_example : Fits {T = ℕ} false (of_kind "boolean") (boolean true)
evaluate-Fits_example = evaluate-Fits plain simple context truth simple_evaluates

counted_full : no_nil plain context counted ≡ true
unfolding no_nil reference_value trim_space
counted_full = refl

evaluate-Sound_example :
    Post (λ v. Fits true v.type v.value) ⊥ (expression_evaluate plain counted context)
evaluate-Sound_example = evaluate-Sound plain counted context counted_full

-- `input.count == "7"`, with the declared type of the reference.
abbrev named : BusinessExpression ℕ
named = node (header "operation" "eq" "" null none) (
    argument (node (header "reference" "" "text" null (some amount)) no_more)
      (argument (literal "text" (text "7")) no_more))

abbrev environment : Map ExpressionType
environment = ("input:count", of_kind "text") ∷ []

environment-IsFlat : IsFlat environment
environment-IsFlat k t e = ground (arith, e)

named_evaluates : expression_evaluate plain named context ≡ ok truth
unfolding evaluate_at trim_space normalize value_kind operator_type operator_of expression_compare
named_evaluates = refl

named_valid : expression_validate plain named environment ≡ valid (of_kind "boolean")
unfolding validate_at validate_literal literal_valid flat_valid expression_operation_type
    operator_of operator_type value_kind trim_space is_reference_source expression_reference_key
named_valid = refl

declares-named : declares plain named ≡ true
unfolding declares trim_space
declares-named = refl

evaluate-validate_example : truth.type ≡ of_kind "boolean"
evaluate-validate_example =
    evaluate-validate plain environment context named truth (of_kind "boolean") environment-IsFlat
      declares-named named_evaluates named_valid

abbrev nothing : Header ℕ
nothing = header "literal" "" "boolean" null none

abbrev negation : Header ℕ
negation = header "operation" "not" "" null none

operation_trimmed : trim_space "operation" ≡ "operation"
unfolding trim_space
operation_trimmed = refl

not_trimmed : trim_space "not" ≡ "not"
unfolding trim_space
not_trimmed = refl

literal_trimmed : trim_space "literal" ≡ "literal"
unfolding trim_space
literal_trimmed = refl

boolean_trimmed : trim_space "boolean" ≡ "boolean"
unfolding trim_space
boolean_trimmed = refl

negated-panics_example :
    (expression_validate plain (negated plain negation 2 nothing) environment
      ≡ valid (of_kind "boolean"))
    × (expression_evaluate plain (negated plain negation 2 nothing) context ≡ panicked)
negated-panics_example =
    negated-panics plain environment context negation nothing 1 operation_trimmed not_trimmed
      literal_trimmed boolean_trimmed refl

abbrev undeclared : Header ℕ
undeclared = header "reference" "" "" null (some amount)

amount_known : reference_value plain context.sources amount ≡ some (text "7")
unfolding reference_value trim_space
amount_known = refl

none_declared : trim_space "" ≡ ""
unfolding trim_space
none_declared = refl
