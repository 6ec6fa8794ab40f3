-- ===== src/Prelude/Text.antt =====
-- Texts: `strings.TrimSpace` over the code points of a text.
use Prim.Native.Nat.{ℕ}
use Prim.Native.Char.{code}
use Prim.Native.String.{String}
use mathlib.Core.Path.{◌≡◌, refl}
use mathlib.Core.Bool.{Bool, true, false, not, ◌&&◌, ◌||◌}
use mathlib.Core.Logic.{inl, inr}
use mathlib.Core.List.{List, [], ◌∷◌}
use domainry_foundation.Prelude.Tests.{leb, ◌==◌, if◌then◌else◌, Bool-cases}

-- The code points of a text.
abbrev pub codes : String → List ℕ
codes String.[] = []
codes (String.◌∷◌ c s) = code c ∷ codes s

abbrev pub eq_codes : List ℕ → List ℕ → Bool
eq_codes [] [] = true
eq_codes (c ∷ cs) (d ∷ ds) = let rest = eq_codes cs ds in if c == d then rest else false
eq_codes _ _ = false

-- `unicode.IsSpace`.
abbrev pub is_space : ℕ → Bool
is_space c =
    (leb 9 c && leb c 13)
    || c == 32
    || c == 133
    || c == 160
    || c == 5760
    || (leb 8192 c && leb c 8202)
    || c == 8232
    || c == 8233
    || c == 8239
    || c == 8287
    || c == 12288

abbrev is_nil : String → Bool
is_nil String.[] = true
is_nil (String.◌∷◌ _ _) = false

trim_left : String → String
trim_left String.[] = String.[]
trim_left (String.◌∷◌ c s) =
    let rest = trim_left s in if is_space (code c) then rest else String.◌∷◌ c s

trim_right : String → String
trim_right String.[] = String.[]
trim_right (String.◌∷◌ c s) =
    let rest = trim_right s in
    if is_space (code c) && is_nil rest then String.[] else String.◌∷◌ c rest

unfoldable pub trim_space : String → String
unfolding trim_left trim_right
trim_space s = trim_right (trim_left s)

-- A trimmed text is trimmed.
trim_left_idem : (s : String) → trim_left (trim_left s) ≡ trim_left s
unfolding trim_left
trim_left_idem String.[] = refl
trim_left_idem (String.◌∷◌ c s) = elim (Bool-cases (is_space (code c))) [
  | inl space ↦ rw space (trim_left_idem s)
  | inr other ↦ rw other (rw other refl)
]

-- The text does not begin with a space.
abbrev begins_plain : String → Bool
begins_plain String.[] = true
begins_plain (String.◌∷◌ c _) = not (is_space (code c))

begins_plain-trim_left : (s : String) → begins_plain (trim_left s) ≡ true
unfolding trim_left
begins_plain-trim_left String.[] = refl
begins_plain-trim_left (String.◌∷◌ c s) = elim (Bool-cases (is_space (code c))) [
  | inl space ↦ rw space (begins_plain-trim_left s)
  | inr other ↦ rw other (rw other refl)
]

trim_left-begins_plain : (s : String) → begins_plain s ≡ true → trim_left s ≡ s
unfolding trim_left
trim_left-begins_plain String.[] h = refl
trim_left-begins_plain (String.◌∷◌ c s) h = elim (Bool-cases (is_space (code c))) [
  | inl space ↦ cc (rw space at h)
  | inr other ↦ rw other refl
]

trim_right_idem : (s : String) → trim_right (trim_right s) ≡ trim_right s
unfolding trim_right
trim_right_idem String.[] = refl
trim_right_idem (String.◌∷◌ c s) = elim (Bool-cases (is_space (code c) && is_nil (trim_right s))) [
  | inl empty ↦ rw empty refl
  | inr other ↦ rw other (rw (trim_right_idem s) (rw other refl))
]

begins_plain-trim_right : (s : String) → begins_plain s ≡ true → begins_plain (trim_right s) ≡ true
unfolding trim_right
begins_plain-trim_right String.[] h = refl
begins_plain-trim_right (String.◌∷◌ c s) h = elim (Bool-cases (is_space (code c))) [
  | inl space ↦ cc
  | inr other ↦ rw other (rw other refl)
]

pub trim_space_idem : (s : String) → trim_space (trim_space s) ≡ trim_space s
unfolding trim_space
trim_space_idem s =
    rw
      (trim_left-begins_plain (trim_right (trim_left s))
        (begins_plain-trim_right (trim_left s) (begins_plain-trim_left s)))
      (trim_right_idem (trim_left s))
