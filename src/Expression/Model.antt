-- ===== src/Expression/Model.antt =====
-- expression/model/expression_model.go: expressions, their types and values, and what they use of the
-- standard library and of the decimal package. A value of `any` is one of the kinds that the code tells
-- apart: every Go integer type is `integer`, a `json.Number` is `number` with its text, and a value of
-- any other type is `other` with the text that `fmt.Sprint` prints.
use domainry_foundation.Prelude.{
  ℕ, Bool, Option, String, str_eq, ◌&&◌, List, ℤ, Duration, if◌then◌else◌,
}

mutual
  pub data Any (T : Type 0) : Type 0 where
    null : Any T
    boolean : Bool → Any T
    text : String → Any T
    integer : ℤ → Any T
    number : String → Any T
    moment : T → Any T
    duration : Duration → Any T
    items : Items T → Any T
    texts : List String → Any T
    fields : Fields T → Any T
    other : String → Any T

  pub data Items (T : Type 0) : Type 0 where
    nil : Items T
    cons : Any T → Items T → Items T

  pub data Fields (T : Type 0) : Type 0 where
    end : Fields T
    field : String → Any T → Fields T → Fields T

-- The constants `ExpressionType…`, and any other text as the kind of a type.
pub data ValueKind : Type 0 where
  kind_boolean kind_integer kind_decimal kind_date kind_datetime : ValueKind
  kind_duration kind_text kind_relation kind_list kind_unknown : ValueKind

unfoldable pub value_kind : String → ValueKind
value_kind kind =
    if str_eq kind "boolean"
    then kind_boolean
    else if str_eq kind "integer"
    then kind_integer
    else if str_eq kind "decimal"
    then kind_decimal
    else if str_eq kind "date"
    then kind_date
    else if str_eq kind "datetime"
    then kind_datetime
    else if str_eq kind "duration"
    then kind_duration
    else if str_eq kind "text"
    then kind_text
    else if str_eq kind "relation"
    then kind_relation
    else if str_eq kind "list"
    then kind_list
    else kind_unknown

pub record ExpressionReference : Type 0 where
  pub source : String
  pub path : List String
  pub object_key : String

pub record ExpressionType : Type 0 where
  pub kind : String
  pub element_type : String

-- `==` on types.
abbrev pub eq_type : ExpressionType → ExpressionType → Bool
eq_type s t = str_eq s.kind t.kind && str_eq s.element_type t.element_type

pub record ExpressionValue (T : Type 0) : Type 0 where
  pub type : ExpressionType
  pub value : Any T

-- The fields of a `BusinessExpression` but its arguments.
pub record Header (T : Type 0) : Type 0 where
  pub kind : String
  pub value_type : String
  pub element_type : String
  pub value : Any T
  pub reference : Option ExpressionReference
  pub operator : String
  pub source_reference : String

mutual
  pub data BusinessExpression (T : Type 0) : Type 0 where
    node : Header T → Arguments T → BusinessExpression T

  pub data Arguments (T : Type 0) : Type 0 where
    no_more : Arguments T
    argument : BusinessExpression T → Arguments T → Arguments T

pub record ExpressionDiagnostic : Type 0 where
  pub code : String
  pub path : String
  pub source_reference : String

-- What evaluation ends with: a value, a diagnostic, or a panic of a type assertion or an index.
pub data Outcome (A : Type 0) : Type 0 where
  ok : A → Outcome A
  failed : ExpressionDiagnostic → Outcome A
  panicked : Outcome A

infixl 1 ◌>>=◌
abbrev pub ◌>>=◌ : {A B : Type 0} → Outcome A → (A → Outcome B) → Outcome B
ok a >>= f = f a
failed d >>= f = failed d
panicked >>= f = panicked

-- What validation ends with.
pub data Checked (A : Type 0) : Type 0 where
  valid : A → Checked A
  invalid : ExpressionDiagnostic → Checked A

abbrev pub and_check : {A B : Type 0} → Checked A → (A → Checked B) → Checked B
and_check (valid a) f = f a
and_check (invalid d) f = invalid d

pub data Arithmetic : Type 0 where
  add subtract multiply divide percentage : Arithmetic

-- The result of a decimal operation, or the code of its `DecimalError`.
pub data DecimalResult : Type 0 where
  digits : String → DecimalResult
  decimal_error : String → DecimalResult

-- `strings.Compare`
pub data Sign : Type 0 where
  below equal above : Sign

-- The calls of fmt, strconv, strings and time, and those of the decimal package with its default
-- configuration. `calendar_date l t` is the midnight in `l` of the day that `t` shows in its own
-- location; `argument_path` and `segment_path` print an index behind a path.
pub record Runtime : Type 1 where
  pub Time : Type 0
  pub Location : Type 0
  pub utc : Location
  pub sprint : Any Time → String
  pub concat : String → String → String
  pub argument_path : String → ℕ → String
  pub segment_path : String → ℕ → String
  pub join : List String → String
  pub compare_text : String → String → Sign
  pub has_minus : String → Bool
  pub parse_int : String → Option ℤ
  pub parse_date : Location → String → Option Time
  pub parse_time : String → Option Time
  pub parse_duration : String → Option Duration
  pub in_location : Location → Time → Time
  pub calendar_date : Location → Time → Time
  pub time_before : Time → Time → Bool
  pub add_duration : Time → Duration → Time
  pub add_days : Time → ℤ → Time
  pub time_sub : Time → Time → Duration
  pub normalize_decimal : Any Time → DecimalResult
  pub calculate : Arithmetic → String → String → DecimalResult
