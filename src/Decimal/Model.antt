-- ===== src/Decimal/Model.antt =====
-- decimal/decimal.go: normalisation, arithmetic and the storage of decimals. The package
-- github.com/shopspring/decimal is a parameter, `Shopspring`. A text is the list of its code points.
use domainry_foundation.Prelude.{
  ℕ, zero, suc, ◌+◌, ◌-◌, ◌^◌, ℤ, pos, negsuc, ◌+ℤ◌, ◌-ℤ◌, Bool, not, Option, none, some, String,
  str_eq, codes, List, [], ◌∷◌, ◌++◌, length, ltb, ◌==◌, trim_space, if◌then◌else◌,
}
use domainry_foundation.Decimal.Digits.{nat_text, int_text, read_int}

-- The rounding modes; any other text is rounded like `half_even`.
pub data RoundingMode : Type 0 where
  half_up down up floor ceiling half_even : RoundingMode

pub record DecimalConfig : Type 0 where
  pub precision : ℕ
  pub scale : ℕ
  pub rounding_mode : RoundingMode

-- The kinds of a value of `any` that `decimalInput` tells apart; every integer type is `integer`.
pub data Input : Type 0 where
  text : String → Input
  number : String → Input
  integer : ℤ → Input
  unsupported : Input

-- The calls of the package. `shift_to_int d s` is `d.Shift(s).BigInt()`, `from_minor n s` is
-- `NewFromBigInt(n, -s)`, and `zero_value` is the `Decimal{}` that comes with an error.
pub record Shopspring : Type 1 where
  pub Decimal : Type 0
  pub zero_value : Decimal
  pub new_from_string : List ℕ → Option Decimal
  pub print : Decimal → List ℕ
  pub string_fixed : ℕ → Decimal → List ℕ
  pub shift_to_int : ℕ → Decimal → ℤ
  pub from_minor : ℕ → ℤ → Decimal
  pub round : ℕ → Decimal → Decimal
  pub truncate : ℕ → Decimal → Decimal
  pub round_up : ℕ → Decimal → Decimal
  pub round_floor : ℕ → Decimal → Decimal
  pub round_ceil : ℕ → Decimal → Decimal
  pub round_bank : ℕ → Decimal → Decimal
  pub sum : Decimal → Decimal → Decimal
  pub difference : Decimal → Decimal → Decimal
  pub product : Decimal → Decimal → Decimal
  pub quotient : Decimal → Decimal → Decimal
  pub div_round : ℕ → Decimal → Decimal → Decimal
  pub is_zero : Decimal → Bool
  pub compare_to : Decimal → Decimal → ℤ
  pub from_int : ℤ → Decimal

pub data Result (A : Type 0) : Type 0 where
  ok : A → Result A
  error : String → Result A

infixl 1 ◌>>=◌
abbrev pub ◌>>=◌ : {A B : Type 0} → Result A → (A → Result B) → Result B
ok a >>= f = f a
error e >>= f = error e

-- `decimalInput`
unfoldable pub decimal_input : Input → Option (List ℕ)
decimal_input (text s) = if str_eq (trim_space s) "" then none else some (codes (trim_space s))
decimal_input (number s) = some (codes s)
decimal_input (integer n) = some (int_text n)
decimal_input unsupported = none

abbrev pub absolute : ℤ → ℕ
absolute (pos n) = n
absolute (negsuc n) = n + 1

abbrev pub zeros : ℕ → List ℕ
zeros zero = []
zeros (suc n) = 48 ∷ zeros n

-- The end of `EncodeSQLiteDecimal`: an integer with its offset, padded with zeros.
unfoldable pub encode_minor : ℕ → ℤ → Result (List ℕ)
unfolding int_text
encode_minor precision minor =
    let encoded = int_text (pos (10 ^ precision) +ℤ minor) in
    if ltb (precision + 1) (length encoded)
    then error "backend.decimal.precision_overflow"
    else ok (zeros (precision + 1 - length encoded) ++ encoded)

module _ (sp : Shopspring) where
  open sp use {
    Decimal, zero_value, new_from_string, print, string_fixed, shift_to_int, from_minor, round,
    truncate, round_up, round_floor, round_ceil, round_bank, sum, difference, product, quotient,
    div_round, is_zero, compare_to, from_int,
  }

  -- `roundDecimal`
  unfoldable pub round_decimal : ℕ → RoundingMode → Decimal → Decimal
  round_decimal scale half_up d = round scale d
  round_decimal scale down d = truncate scale d
  round_decimal scale up d = round_up scale d
  round_decimal scale floor d = round_floor scale d
  round_decimal scale ceiling d = round_ceil scale d
  round_decimal scale half_even d = round_bank scale d

  abbrev pub or_invalid : {A : Type 0} → Option A → Result A
  or_invalid none = error "backend.decimal.value_invalid"
  or_invalid (some a) = ok a

  abbrev pub or_zero : Option Decimal → Decimal
  or_zero none = zero_value
  or_zero (some d) = d

  -- The value that is read, rounded.
  unfoldable pub rounded : Input → DecimalConfig → Result Decimal
  rounded value config = or_invalid (decimal_input value) >>= λ t.
      or_invalid (new_from_string t) >>= λ parsed.
      ok (round_decimal config.scale config.rounding_mode parsed)

  -- The end of `NormalizeDecimal`.
  unfoldable pub fixed_text : DecimalConfig → Decimal → Result (List ℕ)
  fixed_text config d =
      if ltb config.precision (length (nat_text (absolute (shift_to_int config.scale d))))
      then error "backend.decimal.precision_overflow"
      else ok (string_fixed config.scale d)

  unfoldable pub normalize_decimal : Input → DecimalConfig → Result (List ℕ)
  unfolding rounded fixed_text
  normalize_decimal value config = rounded value config >>= fixed_text config

  unfoldable pub encode_sqlite_decimal : Input → DecimalConfig → Result (List ℕ)
  unfolding normalize_decimal encode_minor
  encode_sqlite_decimal value config = normalize_decimal value config >>= λ normalized.
      encode_minor config.precision
        (shift_to_int config.scale (or_zero (new_from_string normalized)))

  -- `DecodeSQLiteDecimal` on the trimmed text of its value.
  unfoldable pub decode_sqlite_decimal : List ℕ → DecimalConfig → Result (List ℕ)
  unfolding read_int
  decode_sqlite_decimal encoded config =
      if not (length encoded == config.precision + 1)
      then error "backend.decimal.value_invalid"
      else (or_invalid (read_int encoded) >>= λ stored. ok (
          string_fixed config.scale
            (from_minor config.scale (stored -ℤ pos (10 ^ config.precision)))))

  -- `CompareDecimals`
  unfoldable pub compare_decimals : Input → Input → DecimalConfig → Result ℤ
  unfolding normalize_decimal
  compare_decimals left right config = normalize_decimal left config >>= λ l.
      normalize_decimal right config >>= λ r.
      ok (compare_to (or_zero (new_from_string l)) (or_zero (new_from_string r)))

  pub data Operation : Type 0 where
    op_add op_subtract op_multiply op_divide op_percentage : Operation

  abbrev pub calculated : ℕ → Operation → Decimal → Decimal → Result Decimal
  calculated scale op_add l r = ok (sum l r)
  calculated scale op_subtract l r = ok (difference l r)
  calculated scale op_multiply l r = ok (product l r)
  calculated scale op_divide l r =
      if is_zero r then error "backend.decimal.divide_by_zero" else ok (div_round (scale + 8) l r)
  calculated scale op_percentage l r = ok (quotient (product l r) (from_int (pos 100)))

  -- The end of `calculateDecimal`: the printed result, which has no blanks, is normalised.
  unfoldable pub calculate_decimal : String → String → DecimalConfig → Operation → Result (List ℕ)
  unfolding fixed_text
  calculate_decimal left right config operation =
      or_invalid (new_from_string (codes (trim_space left))) >>= λ l.
      or_invalid (new_from_string (codes (trim_space right))) >>= λ r.
      calculated config.scale operation l r >>= λ result.
      or_invalid (new_from_string (print result)) >>= λ parsed.
      fixed_text config (round_decimal config.scale config.rounding_mode parsed)
