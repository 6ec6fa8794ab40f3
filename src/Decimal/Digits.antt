-- ===== src/Decimal/Digits.antt =====
-- decimal/decimal.go: what it uses of math/big and strconv on texts. A text is the list of its code
-- points: `big.Int.String`, `strconv.FormatInt` and `big.Int.SetString` to the base 10.
use domainry_foundation.Prelude.{
  ℕ, zero, suc, ◌+◌, ◌-◌, ◌*◌, ◌/◌, ◌%◌, ◌&&◌, ℤ, pos, negsuc, Option, none, some, List, [], ◌∷◌,
  ◌++◌, ltb, leb, ◌==◌, if◌then◌else◌,
}

-- The digits of a number, the last one first in `fuel`: a number has at most as many digits as itself
-- and one.
unfoldable pub digits : ℕ → ℕ → List ℕ
digits zero n = n % 10 ∷ []
digits (suc fuel) n =
    let front = digits fuel (n / 10) in if ltb n 10 then n ∷ [] else front ++ n % 10 ∷ []

-- The code points of digits.
abbrev pub shown : List ℕ → List ℕ
shown [] = []
shown (d ∷ ds) = (48 + d) ∷ shown ds

unfoldable pub nat_text : ℕ → List ℕ
unfolding digits
nat_text n = shown (digits n n)

unfoldable pub int_text : ℤ → List ℕ
unfolding nat_text
int_text (pos n) = nat_text n
int_text (negsuc n) = 45 ∷ nat_text (suc n)

-- The number of the digits that follow those of `n`, if the text has nothing else.
unfoldable pub read_digits : ℕ → List ℕ → Option ℕ
read_digits n [] = some n
read_digits n (c ∷ cs) =
    let rest = read_digits (n * 10 + (c - 48)) cs in if leb 48 c && leb c 57 then rest else none

abbrev pub negated : ℕ → ℤ
negated zero = pos zero
negated (suc n) = negsuc n

abbrev pub option_ℤ : (ℕ → ℤ) → Option ℕ → Option ℤ
option_ℤ f none = none
option_ℤ f (some n) = some (f n)

abbrev pub read_nat : List ℕ → Option ℕ
read_nat [] = none
read_nat (c ∷ cs) = read_digits 0 (c ∷ cs)

-- `big.Int.SetString(text, 10)`
unfoldable pub read_int : List ℕ → Option ℤ
unfolding read_digits
read_int [] = none
read_int (c ∷ cs) =
    if c == 43
    then option_ℤ pos (read_nat cs)
    else if c == 45
    then option_ℤ negated (read_nat cs)
    else option_ℤ pos (read_nat (c ∷ cs))
