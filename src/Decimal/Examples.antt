-- ===== src/Decimal/Examples.antt =====
-- Decimals of no places, with integers for the package's decimals.
use domainry_foundation.Prelude.{
  ℕ, ℤ, pos, negsuc, ◌*ℤ◌, ◌+ℤ◌, ◌-ℤ◌, ◌≡◌, refl, true, false, List, length, codes, trim_space,
}
use domainry_foundation.Decimal.Digits.{int_text, nat_text, digits, read_int, read_digits}
use domainry_foundation.Decimal.Numerals.{comes_first, read_int-int_text}
use domainry_foundation.Decimal.Model.{
  DecimalConfig, half_even, Input, text, integer, Shopspring, ok, round_decimal, rounded,
  decimal_input, normalize_decimal, fixed_text, encode_sqlite_decimal, decode_sqlite_decimal,
}
use domainry_foundation.Decimal.Storage.{IsExact, decode-encode, encode-ordered}

abbrev integers : Shopspring
integers = record {
  Decimal = ℤ;
  zero_value = pos 0;
  new_from_string = read_int;
  print = int_text;
  string_fixed = λ s d. int_text d;
  shift_to_int = λ s d. d;
  from_minor = λ s n. n;
  round = λ s d. d;
  truncate = λ s d. d;
  round_up = λ s d. d;
  round_floor = λ s d. d;
  round_ceil = λ s d. d;
  round_bank = λ s d. d;
  sum = λ d e. d +ℤ e;
  difference = λ d e. d -ℤ e;
  product = λ d e. d *ℤ e;
  quotient = λ d e. d;
  div_round = λ s d e. d;
  is_zero = λ d. false;
  compare_to = λ d e. d -ℤ e;
  from_int = λ n. n;
}

abbrev three_digits : DecimalConfig
three_digits = record { precision = 3; scale = 0; rounding_mode = half_even }

integers-IsExact : IsExact integers three_digits
integers-IsExact d =
    let r = round_decimal integers 0 half_even d in ((r, read_int-int_text r, refl), refl)

-- A debt of 7 and 5 units.
abbrev owed : Input
owed = text " -7 "

abbrev owned : Input
owned = integer (pos 5)

owed_read : rounded integers owed three_digits ≡ ok (negsuc 6)
unfolding rounded decimal_input trim_space read_int read_digits round_decimal
owed_read = refl

owned_read : rounded integers owned three_digits ≡ ok (pos 5)
unfolding rounded decimal_input int_text nat_text digits read_int read_digits round_decimal
owned_read = refl

owed_normal : normalize_decimal integers owed three_digits ≡ ok (codes "-7")
unfolding normalize_decimal rounded fixed_text decimal_input trim_space int_text nat_text digits
    read_int read_digits round_decimal
owed_normal = refl

owned_normal : normalize_decimal integers owned three_digits ≡ ok (codes "5")
unfolding normalize_decimal rounded fixed_text decimal_input int_text nat_text digits read_int
    read_digits round_decimal
owned_normal = refl

decode-encode_example :
    (s : List ℕ) × (encode_sqlite_decimal integers owed three_digits ≡ ok s)
    × (length s ≡ 4)
    × (decode_sqlite_decimal integers s three_digits ≡ ok (codes "-7"))
decode-encode_example =
    decode-encode integers owed three_digits (codes "-7") integers-IsExact owed_normal

encode-ordered_example :
    (s t : List ℕ) × (encode_sqlite_decimal integers owed three_digits ≡ ok s)
    × (encode_sqlite_decimal integers owned three_digits ≡ ok t)
    × (comes_first s t ≡ true)
encode-ordered_example =
    encode-ordered integers owed owned three_digits (codes "-7") (codes "5") (negsuc 6) (pos 5)
      integers-IsExact owed_normal owned_normal owed_read owned_read refl
