-- ===== src/Expression/Values.antt =====
-- expression/contract/expression_evaluation_contract.go: the normalisation and comparison of values.
use domainry_foundation.Prelude.{
  ℕ, zero, suc, ◌/◌, ◌%◌, Bool, true, false, not, Option, none, some, String, str_eq, List, [], ◌∷◌,
  ℤ, pos, negsuc, ltb_ℤ, Duration, if◌then◌else◌,
}
use domainry_foundation.Expression.Model.{
  Any, null, boolean, text, integer, moment, duration, items, texts, Items, nil, cons, ValueKind,
  kind_boolean, kind_integer, kind_decimal, kind_date, kind_datetime, kind_duration, kind_text,
  kind_relation, kind_list, kind_unknown, value_kind, ExpressionType, ExpressionValue, Outcome, ok,
  panicked, ◌>>=◌, DecimalResult, digits, decimal_error, subtract, Sign, below, equal, above,
  Runtime,
}
use domainry_foundation.Expression.Operators.{Comparison, eq, ne, gt, gte, lt, lte, is_list}
use domainry_foundation.Expression.Types.{printed}

-- Go's division and remainder, which round towards zero.
abbrev pub neg_ℕ : ℕ → ℤ
neg_ℕ zero = pos zero
neg_ℕ (suc n) = negsuc n

unfoldable pub quot : ℤ → ℕ → ℤ
quot (pos n) d = pos (n / d)
quot (negsuc n) d = neg_ℕ (suc n / d)

unfoldable pub rem : ℤ → ℕ → ℤ
rem (pos n) d = pos (n % d)
rem (negsuc n) d = neg_ℕ (suc n % d)

abbrev pub day : ℕ
day = 86400000000000

-- What a comparison says of the sign of `left - right`.
unfoldable pub holds : Comparison → Sign → Bool
holds eq equal = true
holds ne below = true
holds ne above = true
holds gt above = true
holds gte equal = true
holds gte above = true
holds lt below = true
holds lte below = true
holds lte equal = true
holds _ _ = false

abbrev pub int_sign : ℤ → ℤ → Sign
int_sign a b = if ltb_ℤ a b then below else if ltb_ℤ b a then above else equal

module _ (rt : Runtime) where
  open rt use {
    Time, Location, sprint, compare_text, has_minus, parse_int, parse_date, parse_time,
    parse_duration, in_location, calendar_date, time_before, add_duration, add_days, time_sub, utc,
    normalize_decimal, calculate,
  }

  abbrev pub option_any : {A : Type 0} → (A → Any Time) → Option A → Option (Any Time)
  option_any f none = none
  option_any f (some a) = some (f a)

  abbrev pub as_boolean : Any Time → Option (Any Time)
  as_boolean (boolean b) = some (boolean b)
  as_boolean _ = none

  abbrev pub as_text : Any Time → Option (Any Time)
  as_text (text s) = some (text s)
  as_text _ = none

  abbrev pub as_decimal : DecimalResult → Option (Any Time)
  as_decimal (digits s) = some (text s)
  as_decimal (decimal_error code) = none

  abbrev pub as_date : Location → Any Time → Option (Any Time)
  as_date l (moment t) = some (moment (calendar_date l (in_location l t)))
  as_date l v = option_any moment (parse_date l (printed rt v))

  abbrev pub as_datetime : Location → Any Time → Option (Any Time)
  as_datetime l (moment t) = some (moment (in_location l t))
  as_datetime l v = option_any (λ t. moment (in_location l t)) (parse_time (printed rt v))

  abbrev pub as_duration : Any Time → Option (Any Time)
  as_duration (duration d) = some (duration d)
  as_duration v = option_any duration (parse_duration (printed rt v))

  -- `expressionNormalizeValue` on a value that is no list; `none` is its error.
  unfoldable pub normalize_flat : Location → ValueKind → Any Time → Option (Any Time)
  normalize_flat l kind null = some null
  normalize_flat l kind_boolean v = as_boolean v
  normalize_flat l kind_integer v = option_any integer (parse_int (printed rt v))
  normalize_flat l kind_decimal v = as_decimal (normalize_decimal v)
  normalize_flat l kind_date v = as_date l v
  normalize_flat l kind_datetime v = as_datetime l v
  normalize_flat l kind_duration v = as_duration v
  normalize_flat l kind_text v = as_text v
  normalize_flat l kind_relation v = as_text v
  normalize_flat l kind_list v = none
  normalize_flat l kind_unknown v = none

  abbrev pub cons_option : Option (Any Time) → Option (Items Time) → Option (Items Time)
  cons_option none o = none
  cons_option (some v) none = none
  cons_option (some v) (some vs) = some (cons v vs)

  abbrev pub normalize_texts : Location → ValueKind → List String → Option (Items Time)
  normalize_texts l kind [] = some nil
  normalize_texts l kind (s ∷ ss) =
      cons_option (normalize_flat l kind (text s)) (normalize_texts l kind ss)

  abbrev pub as_items : Option (Items Time) → Option (Any Time)
  as_items none = none
  as_items (some vs) = some (items vs)

  unfoldable mutual
    unfolding normalize_flat

    pub normalize : Location → ValueKind → ValueKind → Any Time → Option (Any Time)
    normalize l kind element (items xs) =
        let rest = normalize_items l element xs in
        if is_list kind then as_items rest else normalize_flat l kind (items xs)
    normalize l kind element (texts ss) =
        if is_list kind
        then as_items (normalize_texts l element ss)
        else normalize_flat l kind (texts ss)
    normalize l kind element v = normalize_flat l kind v

    pub normalize_items : Location → ValueKind → Items Time → Option (Items Time)
    normalize_items l element nil = some nil
    normalize_items l element (cons x xs) =
        let rest = normalize_items l element xs in
        cons_option (normalize l element kind_unknown x) rest

  -- `expressionNormalizeValue`
  abbrev pub normalize_value : Any Time → ExpressionType → Location → Option (Any Time)
  normalize_value v t l = normalize l (value_kind t.kind) (value_kind t.element_type) v

  -- The type assertions; another value, nil among them, makes them panic.
  abbrev pub the_boolean : Any Time → Outcome Bool
  the_boolean (boolean b) = ok b
  the_boolean _ = panicked

  abbrev pub the_integer : Any Time → Outcome ℤ
  the_integer (integer n) = ok n
  the_integer _ = panicked

  abbrev pub the_moment : Any Time → Outcome Time
  the_moment (moment t) = ok t
  the_moment _ = panicked

  abbrev pub the_duration : Any Time → Outcome Duration
  the_duration (duration d) = ok d
  the_duration _ = panicked

  -- The decimal case of `expressionCompare`, which drops the error of the subtraction: its result is
  -- then the empty text.
  abbrev pub difference_text : DecimalResult → String
  difference_text (digits s) = s
  difference_text (decimal_error code) = ""

  abbrev pub decimal_sign : String → Sign
  decimal_sign difference =
      if has_minus difference
      then below
      else if not (str_eq difference "0.00")
      then above
      else equal

  abbrev pub time_sign : Time → Time → Sign
  time_sign s t = if time_before s t then below else if time_before t s then above else equal

  abbrev pub sign_of : ValueKind → Any Time → Any Time → Outcome Sign
  sign_of kind_integer v w = the_integer v >>= λ a. the_integer w >>= λ b. ok (int_sign a b)
  sign_of kind_decimal v w =
      ok (decimal_sign (difference_text (calculate subtract (sprint v) (sprint w))))
  sign_of kind_date v w = the_moment v >>= λ s. the_moment w >>= λ t. ok (time_sign s t)
  sign_of kind_datetime v w = the_moment v >>= λ s. the_moment w >>= λ t. ok (time_sign s t)
  sign_of kind v w = ok (compare_text (sprint v) (sprint w))

  -- `expressionCompare`
  unfoldable pub expression_compare :
      ExpressionValue Time → ExpressionValue Time → Comparison → Outcome Bool
  unfolding holds
  expression_compare v w c =
      sign_of (value_kind v.type.kind) v.value w.value >>= λ s. ok (holds c s)

  -- `expressionAddCalendarDuration`
  unfoldable pub add_calendar_duration : Time → Duration → Time
  unfolding quot rem
  add_calendar_duration t d = add_duration (add_days t (quot d day)) (rem d day)

  -- `expressionCalendarDateDifference`
  unfoldable pub calendar_date_difference : Time → Time → Duration
  calendar_date_difference s t = time_sub (calendar_date utc s) (calendar_date utc t)
