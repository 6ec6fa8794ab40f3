-- ===== src/Decimal/Offsets.antt =====
-- The stored text of a number of minor units: its digits, and the order of the texts.
use native.Mathlib.Nat.{pow-suc}
use domainry_foundation.Prelude.{
  ℕ, zero, suc, ◌+◌, ◌-◌, ◌^◌, ◌<◌, ◌≡◌, refl, sym, ◌∙◌, ℤ, pos, negsuc, ◌+ℤ◌, ◌-ℤ◌, ltb_ℤ, true,
  some, List, ◌++◌, length, arith,
}
use domainry_foundation.Decimal.Digits.{digits, shown, nat_text, int_text, read_int}
use domainry_foundation.Decimal.Numerals.{
  AllDigits, value_of, digits-AllDigits, value_of-digits, length-digits-le, length-shown,
  zero_digits, zero_digits-AllDigits, value_of-zero_digits, length-zero_digits, read_int-digits,
  comes_first, comes_first-shown,
}
use domainry_foundation.Decimal.Model.{ok, absolute, zeros, encode_minor}

-- The stored number: the minor units behind their offset.
abbrev pub stored : ℕ → ℤ → ℕ
stored precision (pos n) = 10 ^ precision + n
stored precision (negsuc n) = 10 ^ precision - (n + 1)

abbrev pub IsSmall : ℕ → ℤ → Type 0
IsSmall precision n = absolute n < 10 ^ precision

pub offset-stored :
    (precision : ℕ) (n : ℤ)
    → IsSmall precision n
    → pos (10 ^ precision) +ℤ n ≡ pos (stored precision n)
unfolding ◌+ℤ◌
offset-stored precision (pos n) h = ground arith
offset-stored precision (negsuc n) h = ground arith

pub stored-offset :
    (precision : ℕ) (n : ℤ)
    → IsSmall precision n
    → pos (stored precision n) -ℤ pos (10 ^ precision) ≡ n
unfolding ◌-ℤ◌
stored-offset precision (pos n) h = ground arith
stored-offset precision (negsuc n) h = ground arith

-- The digits of the stored text.
abbrev pub stored_digits : ℕ → ℤ → List ℕ
stored_digits precision n =
    let s = stored precision n in let ds = digits s s in zero_digits (precision + 1 - length ds) ds

pub zeros-shown : (n : ℕ) (ds : List ℕ) → zeros n ++ shown ds ≡ shown (zero_digits n ds)
zeros-shown zero ds = refl
zeros-shown (suc n) ds = rw (zeros-shown n ds) refl

pub stored-bounded :
    (precision : ℕ) (n : ℤ) → IsSmall precision n → stored precision n < 10 ^ suc precision
stored-bounded precision (pos n) h = omega (arith, pow-suc 10 precision, h)
stored-bounded precision (negsuc n) h = omega (arith, pow-suc 10 precision, h)

pub encode_minor-digits :
    (precision : ℕ) (n : ℤ)
    → IsSmall precision n
    → encode_minor precision n ≡ ok (shown (stored_digits precision n))
unfolding encode_minor int_text nat_text
encode_minor-digits precision n h =
    let s = stored precision n in
    let fits = length-digits-le s s precision (stored-bounded precision n h) in
    let size = length-shown (digits s s) in
    rw
      (
        offset-stored precision n h,
        size,
        zeros-shown (precision + 1 - length (digits s s)) (digits s s),
      )
      (ground arith)

pub length-stored_digits :
    (precision : ℕ) (n : ℤ)
    → IsSmall precision n
    → length (stored_digits precision n) ≡ precision + 1
length-stored_digits precision n h =
    let s = stored precision n in
    let fits = length-digits-le s s precision (stored-bounded precision n h) in
    omega (arith, fits, length-zero_digits (precision + 1 - length (digits s s)) (digits s s))

pub value_of-stored :
    (precision : ℕ) (n : ℤ) → value_of 0 (stored_digits precision n) ≡ stored precision n
value_of-stored precision n =
    let s = stored precision n in
    value_of-zero_digits (precision + 1 - length (digits s s)) (digits s s)
    ∙ value_of-digits s s (omega arith)

pub stored_digits-AllDigits : (precision : ℕ) (n : ℤ) → AllDigits (stored_digits precision n)
stored_digits-AllDigits precision n =
    let s = stored precision n in
    zero_digits-AllDigits (precision + 1 - length (digits s s)) (digits s s) (digits-AllDigits s s)

pub read_int-stored :
    (precision : ℕ) (n : ℤ)
    → IsSmall precision n
    → read_int (shown (stored_digits precision n)) ≡ some (pos (stored precision n))
read_int-stored precision n h =
    read_int-digits (stored_digits precision n) (stored_digits-AllDigits precision n)
      (omega (arith, length-stored_digits precision n h))
    ∙ rw (value_of-stored precision n) refl

pub stored-ordered :
    (precision : ℕ) (m n : ℤ)
    → IsSmall precision m
    → IsSmall precision n
    → ltb_ℤ m n ≡ true
    → stored precision m < stored precision n
stored-ordered precision (pos m) (pos n) h i l = ground arith
stored-ordered precision (pos m) (negsuc n) h i l = ground arith
stored-ordered precision (negsuc m) (pos n) h i l = ground arith
stored-ordered precision (negsuc m) (negsuc n) h i l = ground arith

pub stored-comes_first :
    (precision : ℕ) (m n : ℤ)
    → IsSmall precision m
    → IsSmall precision n
    → ltb_ℤ m n ≡ true
    → comes_first (shown (stored_digits precision m)) (shown (stored_digits precision n)) ≡ true
stored-comes_first precision m n h i l =
    comes_first-shown (stored_digits precision m) (stored_digits precision n)
      (length-stored_digits precision m h ∙ sym (length-stored_digits precision n i))
      (stored_digits-AllDigits precision m) (stored_digits-AllDigits precision n)
      (rw (value_of-stored precision m, value_of-stored precision n)
        (stored-ordered precision m n h i l))
