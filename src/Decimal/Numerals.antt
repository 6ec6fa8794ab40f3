-- ===== src/Decimal/Numerals.antt =====
-- Decimal texts of numbers: what they are read as, and how long they are.
use native.Mathlib.Nat.{pow-suc}
use domainry_foundation.Prelude.{
  ℕ, zero, suc, ◌+◌, ◌-◌, ◌*◌, ◌/◌, ◌%◌, ◌^◌, ◌≤◌, ◌<◌, ◌≡◌, refl, sym, ap, ◌∙◌, inl, inr, ℤ, pos,
  negsuc, Bool, true, false, Bool-cases, some, List, [], ◌∷◌, ◌++◌, length, length-append, ltb,
  arith, if◌then◌else◌,
}
use domainry_foundation.Decimal.Digits.{
  digits, shown, nat_text, int_text, read_digits, read_nat, read_int,
}

-- Every element is a digit.
abbrev pub AllDigits : List ℕ → Type 0
AllDigits [] = Unit {0}
AllDigits (d ∷ ds) = (d < 10) × AllDigits ds

-- The number that digits stand for behind those of `n`.
abbrev pub value_of : ℕ → List ℕ → ℕ
value_of n [] = n
value_of n (d ∷ ds) = value_of (n * 10 + d) ds

value_of-append : (n : ℕ) (ds : List ℕ) (d : ℕ) → value_of n (ds ++ d ∷ []) ≡ value_of n ds * 10 + d
value_of-append n [] d = refl
value_of-append n (e ∷ ds) d = value_of-append (n * 10 + e) ds d

append-AllDigits : (ds : List ℕ) (d : ℕ) → AllDigits ds → d < 10 → AllDigits (ds ++ d ∷ [])
append-AllDigits [] d h i = (i, tt)
append-AllDigits (e ∷ ds) d h i = (h.0, append-AllDigits ds d h.1 i)

pub digits-AllDigits : (fuel n : ℕ) → AllDigits (digits fuel n)
unfolding digits
digits-AllDigits zero n = (omega arith, tt)
digits-AllDigits (suc fuel) n = elim (Bool-cases (ltb n 10)) [
  | inl small ↦ rw small (ground arith, tt)
  | inr large ↦ rw large (
      append-AllDigits (digits fuel (n / 10)) (n % 10) (digits-AllDigits fuel (n / 10))
        (omega arith))
]

pub value_of-digits : (fuel n : ℕ) → n ≤ fuel → value_of 0 (digits fuel n) ≡ n
unfolding digits
value_of-digits zero n h = omega arith
value_of-digits (suc fuel) n h =
    ground (arith, value_of-append 0 (digits fuel (n / 10)) (n % 10), value_of-digits fuel (n / 10))

-- A number below 10 ^ k has at most k digits, and the other way round.
pub length-digits-le : (fuel n k : ℕ) → n < 10 ^ suc k → length (digits fuel n) ≤ suc k
unfolding digits
length-digits-le zero n k h = omega arith
length-digits-le (suc fuel) n zero h = ground (arith, pow-suc 10 0)
length-digits-le (suc fuel) n (suc k) h =
    let front = digits fuel (n / 10) in
    let size = length-append front (n % 10 ∷ []) in
    let power = pow-suc 10 (suc k) in
    let below = length-digits-le fuel (n / 10) k (omega (arith, power)) in
    ground (arith, size, below)

ten_power-pos : (k : ℕ) → 1 ≤ 10 ^ k
ten_power-pos zero = omega arith
ten_power-pos (suc k) = omega (arith, pow-suc 10 k, ten_power-pos k)

pub digits_below : (fuel n k : ℕ) → n ≤ fuel → length (digits fuel n) ≤ k → n < 10 ^ k
unfolding digits
digits_below zero n zero h i = absurd (omega arith)
digits_below zero n (suc k) h i = omega (arith, pow-suc 10 k, ten_power-pos k)
digits_below (suc fuel) n zero h i =
    let size = length-append (digits fuel (n / 10)) (n % 10 ∷ []) in absurd (ground arith)
digits_below (suc fuel) n (suc k) h i =
    let size = length-append (digits fuel (n / 10)) (n % 10 ∷ []) in
    let power = pow-suc 10 k in
    let positive = ten_power-pos k in
    let below = digits_below fuel (n / 10) k (omega arith) in ground (arith, below)

pub length-shown : (ds : List ℕ) → length (shown ds) ≡ length ds
length-shown [] = refl
length-shown (d ∷ ds) = omega (arith, length-shown ds)

digit_code : (d : ℕ) → 48 + d - 48 ≡ d
digit_code d = omega arith

pub read_digits-shown :
    (n : ℕ) (ds : List ℕ) → AllDigits ds → read_digits n (shown ds) ≡ some (value_of n ds)
unfolding read_digits
read_digits-shown n [] h = refl
read_digits-shown n (d ∷ ds) h =
    rw (digit_code d) (ground (arith, h.0, read_digits-shown (n * 10 + d) ds h.1))

pub read_int-shown :
    (d : ℕ) (ds : List ℕ)
    → AllDigits (d ∷ ds)
    → read_int (shown (d ∷ ds)) ≡ some (pos (value_of 0 (d ∷ ds)))
unfolding read_int read_digits
read_int-shown d ds h = rw (digit_code d) (ground (arith, h.0, read_digits-shown (0 + d) ds h.1))

-- A number behind zeros.
abbrev pub zero_digits : ℕ → List ℕ → List ℕ
zero_digits zero ds = ds
zero_digits (suc n) ds = 0 ∷ zero_digits n ds

pub zero_digits-AllDigits : (n : ℕ) (ds : List ℕ) → AllDigits ds → AllDigits (zero_digits n ds)
zero_digits-AllDigits zero ds h = h
zero_digits-AllDigits (suc n) ds h = (omega arith, zero_digits-AllDigits n ds h)

pub value_of-zero_digits : (n : ℕ) (ds : List ℕ) → value_of 0 (zero_digits n ds) ≡ value_of 0 ds
value_of-zero_digits zero ds = refl
value_of-zero_digits (suc n) ds = value_of-zero_digits n ds

pub length-zero_digits : (n : ℕ) (ds : List ℕ) → length (zero_digits n ds) ≡ n + length ds
length-zero_digits zero ds = omega arith
length-zero_digits (suc n) ds = omega (arith, length-zero_digits n ds)

-- A text with a digit is read as the number of its digits.
pub read_int-digits :
    (ds : List ℕ) → AllDigits ds → 1 ≤ length ds → read_int (shown ds) ≡ some (pos (value_of 0 ds))
read_int-digits [] h i = absurd (omega arith)
read_int-digits (d ∷ ds) h i = read_int-shown d ds h

length-digits-pos : (fuel n : ℕ) → 1 ≤ length (digits fuel n)
unfolding digits
length-digits-pos zero n = omega arith
length-digits-pos (suc fuel) n = ground (arith, length-append (digits fuel (n / 10)) (n % 10 ∷ []))

read_nat-shown :
    (ds : List ℕ) → AllDigits ds → 1 ≤ length ds → read_nat (shown ds) ≡ some (value_of 0 ds)
read_nat-shown [] h i = absurd (omega arith)
read_nat-shown (d ∷ ds) h i = read_digits-shown 0 (d ∷ ds) h

-- The text of an integer is read as the integer.
pub read_int-int_text : (n : ℤ) → read_int (int_text n) ≡ some n
unfolding int_text nat_text read_int
read_int-int_text (pos n) =
    read_int-digits (digits n n) (digits-AllDigits n n) (length-digits-pos n n)
    ∙ rw (value_of-digits n n (omega arith)) refl
read_int-int_text (negsuc n) =
    rw
      (
        read_nat-shown (digits (suc n) (suc n)) (digits-AllDigits (suc n) (suc n))
            (length-digits-pos (suc n) (suc n)),
        value_of-digits (suc n) (suc n) (omega arith),
      )
      refl

-- Of two digit sequences of one length the one that stands for the smaller number comes first.
abbrev pub comes_first : List ℕ → List ℕ → Bool
comes_first [] ds = false
comes_first (c ∷ cs) [] = false
comes_first (c ∷ cs) (d ∷ ds) =
    let rest = comes_first cs ds in if ltb c d then true else if ltb d c then false else rest

shifted : (n d p : ℕ) → (n * 10 + d) * p ≡ n * (p * 10) + (0 + d) * p
shifted n d p = grind arith

steps : (c d p : ℕ) → d < c → d * p + p ≤ c * p
steps c d p h = grind arith

value_of-start : (n : ℕ) (ds : List ℕ) → value_of n ds ≡ n * 10 ^ length ds + value_of 0 ds
value_of-start n [] = omega arith
value_of-start n (d ∷ ds) = rw (pow-suc 10 (length ds)) (
    omega (
      arith,
      value_of-start (n * 10 + d) ds,
      value_of-start (0 + d) ds,
      shifted n d (10 ^ length ds),
    ))

value_of-below : (ds : List ℕ) → AllDigits ds → value_of 0 ds < 10 ^ length ds
value_of-below [] h = omega arith
value_of-below (d ∷ ds) h = omega (
  arith,
  pow-suc 10 (length ds),
  value_of-start (0 + d) ds,
  value_of-below ds h.1,
  steps 10 (0 + d) (10 ^ length ds) (omega (arith, h.0)),
)

omega_length : (cs ds : List ℕ) → suc (length cs) ≡ suc (length ds) → length cs ≡ length ds
omega_length cs ds e = omega arith

not_apart : (c d : ℕ) → ltb c d ≡ false → ltb d c ≡ false → c ≡ d
not_apart c d h i = ground arith

pub comes_first-shown :
    (cs ds : List ℕ)
    → length cs ≡ length ds
    → AllDigits cs
    → AllDigits ds
    → value_of 0 cs < value_of 0 ds
    → comes_first (shown cs) (shown ds) ≡ true
comes_first-shown [] [] e h i l = absurd (omega arith)
comes_first-shown [] (d ∷ ds) e h i l = absurd (omega arith)
comes_first-shown (c ∷ cs) [] e h i l = absurd (omega arith)
comes_first-shown (c ∷ cs) (d ∷ ds) e h i l =
    let p = 10 ^ length cs in
    let same = omega_length cs ds e in
    let left = value_of-start (0 + c) cs in
    let right = rw (sym same) at (value_of-start (0 + d) ds) in
    let below = rw (sym same) at (value_of-below ds i.1) in
    elim (Bool-cases (ltb c d)) [
      | inl first ↦ ground arith
      | inr not_first ↦ elim (Bool-cases (ltb d c)) [
        | inl last ↦
            absurd (omega (arith, left, right, below, l, steps (0 + c) (0 + d) p (ground arith)))
        | inr level ↦
            let equal = not_apart c d not_first level in
            let scaled = ap (λ (x : ℕ). (0 + x) * p) equal in
            let rest =
              comes_first-shown cs ds same h.1 i.1 (omega (arith, left, right, l, scaled)) in
            ground (arith, rest)
      ]
    ]
