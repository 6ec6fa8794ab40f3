-- ===== src/Expression/Operators.antt =====
-- expression/contract/expression_validation_contract.go: the operators and their types.
use domainry_foundation.Prelude.{
  Bool, true, false, not, ◌&&◌, ◌||◌, String, str_eq, List, [], ◌∷◌, if◌then◌else◌,
}
use domainry_foundation.Expression.Model.{
  ValueKind, kind_list, kind_unknown, ExpressionType, eq_type, Arithmetic, add, subtract, multiply,
  divide, percentage,
}

-- The operators, by what the code does with them.
pub data Comparison : Type 0 where
  eq ne gt gte lt lte : Comparison

pub data Operator : Type 0 where
  op_and op_or op_not op_date_add op_date_diff op_now op_coalesce op_invalid : Operator
  op_compare : Comparison → Operator
  op_arithmetic : Arithmetic → Operator

unfoldable pub operator_of : String → Operator
operator_of s =
    if str_eq s "and"
    then op_and
    else if str_eq s "or"
    then op_or
    else if str_eq s "not"
    then op_not
    else if str_eq s "eq"
    then op_compare eq
    else if str_eq s "ne"
    then op_compare ne
    else if str_eq s "gt"
    then op_compare gt
    else if str_eq s "gte"
    then op_compare gte
    else if str_eq s "lt"
    then op_compare lt
    else if str_eq s "lte"
    then op_compare lte
    else if str_eq s "add"
    then op_arithmetic add
    else if str_eq s "subtract"
    then op_arithmetic subtract
    else if str_eq s "multiply"
    then op_arithmetic multiply
    else if str_eq s "divide"
    then op_arithmetic divide
    else if str_eq s "percentage"
    then op_arithmetic percentage
    else if str_eq s "date_add"
    then op_date_add
    else if str_eq s "date_diff"
    then op_date_diff
    else if str_eq s "now"
    then op_now
    else if str_eq s "coalesce"
    then op_coalesce
    else op_invalid

-- `expressionValueTypes`
abbrev pub is_value_type : ValueKind → Bool
is_value_type kind_unknown = false
is_value_type _ = true

abbrev pub is_list : ValueKind → Bool
is_list kind_list = true
is_list _ = false

unfoldable pub is_reference_source : String → Bool
is_reference_source s =
    str_eq s "field"
    || (str_eq s "input"
        || (str_eq s "actor" || (str_eq s "related_record" || str_eq s "step_output")))

abbrev pub of_kind : String → ExpressionType
of_kind kind = record { kind = kind; element_type = "" }

abbrev pub kind_is : String → ExpressionType → Bool
kind_is kind t = str_eq t.kind kind

abbrev pub all_type : String → List ExpressionType → Bool
all_type kind [] = true
all_type kind (t ∷ ts) = let rest = all_type kind ts in kind_is kind t && rest

abbrev pub all_numeric : List ExpressionType → Bool
all_numeric [] = true
all_numeric (t ∷ ts) =
    let rest = all_numeric ts in (kind_is "integer" t || kind_is "decimal" t) && rest

abbrev pub is_temporal : ExpressionType → Bool
is_temporal t = kind_is "date" t || kind_is "datetime" t

abbrev pub all_equal : ExpressionType → List ExpressionType → Bool
all_equal first [] = true
all_equal first (t ∷ ts) = let rest = all_equal first ts in eq_type t first && rest

abbrev pub is_equality : Comparison → Bool
is_equality eq = true
is_equality ne = true
is_equality _ = false

abbrev pub comparable : ExpressionType → ExpressionType → Comparison → Bool
comparable s t c =
    eq_type s t && (is_equality c || (not (kind_is "boolean" s) && not (kind_is "list" s)))

abbrev pub at_least_two : List ExpressionType → Bool
at_least_two (_ ∷ _ ∷ _) = true
at_least_two _ = false

-- `ExpressionOperationType` without its diagnostics: the type, or the part of the path and the code of
-- the failure.
abbrev pub arguments_invalid : String × String
arguments_invalid = (".arguments", "backend.expression.arguments_invalid")

abbrev pub type_mismatch : String × String
type_mismatch = (".arguments", "backend.expression.type_mismatch")

pub data Typed : Type 0 where
  typed : ExpressionType → Typed
  untyped : String × String → Typed

unfoldable pub operator_type : Operator → List ExpressionType → Typed
operator_type op_and ts =
    if at_least_two ts && all_type "boolean" ts
    then typed (of_kind "boolean")
    else untyped arguments_invalid
operator_type op_or ts =
    if at_least_two ts && all_type "boolean" ts
    then typed (of_kind "boolean")
    else untyped arguments_invalid
operator_type op_not (t ∷ []) =
    if kind_is "boolean" t then typed (of_kind "boolean") else untyped arguments_invalid
operator_type op_not ts = untyped arguments_invalid
operator_type (op_compare c) (s ∷ t ∷ []) =
    if comparable s t c then typed (of_kind "boolean") else untyped type_mismatch
operator_type (op_compare c) ts = untyped type_mismatch
operator_type (op_arithmetic a) (s ∷ t ∷ []) =
    if all_numeric (s ∷ t ∷ []) then typed (of_kind "decimal") else untyped type_mismatch
operator_type (op_arithmetic a) ts = untyped type_mismatch
operator_type op_date_add (s ∷ t ∷ []) =
    if is_temporal s && kind_is "duration" t then typed s else untyped type_mismatch
operator_type op_date_add ts = untyped type_mismatch
operator_type op_date_diff (s ∷ t ∷ []) =
    if str_eq s.kind t.kind && is_temporal s
    then typed (of_kind "duration")
    else untyped type_mismatch
operator_type op_date_diff ts = untyped type_mismatch
operator_type op_now [] = typed (of_kind "datetime")
operator_type op_now ts = untyped arguments_invalid
operator_type op_coalesce (t ∷ ts) = if all_equal t ts then typed t else untyped type_mismatch
operator_type op_coalesce [] = untyped type_mismatch
operator_type op_invalid ts = untyped (".operator", "backend.expression.operator_invalid")
