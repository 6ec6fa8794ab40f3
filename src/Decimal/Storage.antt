-- ===== src/Decimal/Storage.antt =====
-- Decimals as SQLite stores them.
use domainry_foundation.Prelude.{
  ℕ, ◌+◌, ◌≡◌, refl, sym, ap, ◌∙◌, inl, inr, ltb_ℤ, true, Bool-cases, Option, none, some, List,
  length, ltb, arith,
}
use domainry_foundation.Decimal.Digits.{digits, shown, nat_text}
use domainry_foundation.Decimal.Numerals.{digits_below, length-shown, comes_first}
use domainry_foundation.Decimal.Model.{
  DecimalConfig, Input, Shopspring, Result, ok, error, ◌>>=◌, decimal_input, absolute,
  round_decimal, or_invalid, rounded, fixed_text, normalize_decimal, encode_sqlite_decimal,
  decode_sqlite_decimal,
}
use domainry_foundation.Decimal.Offsets.{
  IsSmall, stored-offset, stored_digits, encode_minor-digits, length-stored_digits, read_int-stored,
  stored-comes_first,
}

module _ (sp : Shopspring) where
  open sp use {Decimal, new_from_string, string_fixed, shift_to_int, from_minor}

  -- What is used of the package, at a scale and for values rounded to it: the fixed text of such a value
  -- is read as a value of the same minor units, and the value made of its minor units has the same fixed
  -- text.
  abbrev pub IsExact : DecimalConfig → Type 0
  IsExact config =
      (d : Decimal)
      → let r = round_decimal sp config.scale config.rounding_mode d in
        ((e : Decimal) × (new_from_string (string_fixed config.scale r) ≡ some e)
          × (shift_to_int config.scale e ≡ shift_to_int config.scale r))
        × (string_fixed config.scale (from_minor config.scale (shift_to_int config.scale r))
            ≡ string_fixed config.scale r)

  -- The value is read and rounded to one with these minor units, which fit in the precision.
  abbrev Normal : Input → DecimalConfig → List ℕ → Decimal → Type 0
  Normal value config t d =
      let r = round_decimal sp config.scale config.rounding_mode d in
      (rounded sp value config ≡ ok r)
      × IsSmall config.precision (shift_to_int config.scale r)
      × (t ≡ string_fixed config.scale r)

  rounded-parsed :
      (config : DecimalConfig) (o : Option Decimal) (r : Decimal)
      → (or_invalid sp o >>= λ parsed.
          ok (round_decimal sp config.scale config.rounding_mode parsed))
        ≡ ok r
      → (d : Decimal) × (r ≡ round_decimal sp config.scale config.rounding_mode d)
  rounded-parsed config none r h = absurd (cc)
  rounded-parsed config (some d) r h = (d, cc)

  rounded-input :
      (config : DecimalConfig) (o : Option (List ℕ)) (r : Decimal)
      → (or_invalid sp o >>= λ t. or_invalid sp (new_from_string t) >>= λ parsed.
          ok (round_decimal sp config.scale config.rounding_mode parsed))
        ≡ ok r
      → (d : Decimal) × (r ≡ round_decimal sp config.scale config.rounding_mode d)
  rounded-input config none r h = absurd (cc)
  rounded-input config (some t) r h = rounded-parsed config (new_from_string t) r h

  fixed_text-IsSmall :
      (config : DecimalConfig) (r : Decimal) (t : List ℕ)
      → fixed_text sp config r ≡ ok t
      → IsSmall config.precision (shift_to_int config.scale r) × (t ≡ string_fixed config.scale r)
  unfolding fixed_text nat_text
  fixed_text-IsSmall config r t h =
      let n = absolute (shift_to_int config.scale r) in
      elim (Bool-cases (ltb config.precision (length (shown (digits n n))))) [
        | inl long ↦ absurd (cc (rw long at h))
        | inr short ↦ (
          digits_below n n config.precision (omega arith)
              (ground (arith, length-shown (digits n n))),
          cc (rw short at h),
        )
      ]

  normal_from :
      (value : Input) (config : DecimalConfig) (t : List ℕ) (o : Result Decimal)
      → rounded sp value config ≡ o
      → (o >>= fixed_text sp config) ≡ ok t
      → (d : Decimal) × Normal value config t d
  unfolding rounded
  normal_from value config t (error e) r h = absurd (cc)
  normal_from value config t (ok v) r h =
      let found = rounded-input config (decimal_input value) v r in
      let sized = fixed_text-IsSmall config v t h in
      let exact = rw found.1 at sized in (found.0, (r ∙ ap ok found.1, exact.0, exact.1))

  normal :
      (value : Input) (config : DecimalConfig) (t : List ℕ)
      → normalize_decimal sp value config ≡ ok t
      → (d : Decimal) × Normal value config t d
  unfolding normalize_decimal
  normal value config t h = normal_from value config t (rounded sp value config) refl h

  encode-stored :
      (value : Input) (config : DecimalConfig) (t : List ℕ) (d : Decimal)
      → IsExact config
      → normalize_decimal sp value config ≡ ok t
      → Normal value config t d
      → encode_sqlite_decimal sp value config
        ≡ ok (
            shown (
              stored_digits config.precision
                (shift_to_int config.scale (round_decimal sp config.scale config.rounding_mode d))))
  unfolding encode_sqlite_decimal
  encode-stored value config t d exact h n =
      let back = (exact d).0 in
      rw (h, n.2, back.1, back.2)
        (encode_minor-digits config.precision
          (shift_to_int config.scale (round_decimal sp config.scale config.rounding_mode d)) n.1)

  -- What is stored is read back: a value that `NormalizeDecimal` accepts is encoded, as a text of one
  -- digit more than the precision, and this is decoded to the normal form of the value.
  pub decode-encode :
      (value : Input) (config : DecimalConfig) (t : List ℕ)
      → IsExact config
      → normalize_decimal sp value config ≡ ok t
      → (s : List ℕ) × (encode_sqlite_decimal sp value config ≡ ok s)
        × (length s ≡ config.precision + 1)
        × (decode_sqlite_decimal sp s config ≡ ok t)
  unfolding decode_sqlite_decimal
  decode-encode value config t exact h =
      let (d, n) = normal value config t h in
      let m = shift_to_int config.scale (round_decimal sp config.scale config.rounding_mode d) in
      let s = stored_digits config.precision m in
      let size = length-shown s ∙ length-stored_digits config.precision m n.1 in
      (
        shown s,
        encode-stored value config t d exact h n,
        size,
        rw
            (
              size,
              read_int-stored config.precision m n.1,
              stored-offset config.precision m n.1,
              (exact d).1,
              n.2,
            )
            (ground arith),
      )

  same_value : (d e : Decimal) → ok d ≡ ok e → d ≡ e
  same_value d e h = cc

  -- The stored texts are ordered as the numbers are: of two values that `NormalizeDecimal` accepts, the
  -- one with the fewer minor units has the text that comes first.
  pub encode-ordered :
      (v w : Input) (config : DecimalConfig) (a b : List ℕ) (d e : Decimal)
      → IsExact config
      → normalize_decimal sp v config ≡ ok a
      → normalize_decimal sp w config ≡ ok b
      → rounded sp v config ≡ ok d
      → rounded sp w config ≡ ok e
      → ltb_ℤ (shift_to_int config.scale d) (shift_to_int config.scale e) ≡ true
      → (s t : List ℕ) × (encode_sqlite_decimal sp v config ≡ ok s)
        × (encode_sqlite_decimal sp w config ≡ ok t)
        × (comes_first s t ≡ true)
  encode-ordered v w config a b d e exact h i f g less =
      let (d', n) = normal v config a h in
      let (e', k) = normal w config b i in
      let left = same_value d _ (sym f ∙ n.0) in
      let right = same_value e _ (sym g ∙ k.0) in
      let below = rw (left, right) at less in
      let m = shift_to_int config.scale (round_decimal sp config.scale config.rounding_mode d') in
      let m' = shift_to_int config.scale (round_decimal sp config.scale config.rounding_mode e') in
      (
        shown (stored_digits config.precision m),
        shown (stored_digits config.precision m'),
        encode-stored v config a d' exact h n,
        encode-stored w config b e' exact i k,
        stored-comes_first config.precision m m' n.1 k.1 below,
      )
