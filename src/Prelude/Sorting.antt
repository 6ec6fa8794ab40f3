-- ===== src/Prelude/Sorting.antt =====
-- Sorting by a total order, and Go's order of texts.
use Prim.Native.Char.{code}
use Prim.Native.String.{String}
use mathlib.Core.Path.{◌≡◌, refl, ap, ◌∙◌}
use mathlib.Core.Bool.{Bool, true, false}
use mathlib.Core.Logic.{inl, inr}
use mathlib.Core.List.{List, [], ◌∷◌, map}
use native.Mathlib.Omega.{arith}
use domainry_foundation.Prelude.Tests.{ltb, if◌then◌else◌, Bool-cases}
use domainry_foundation.Prelude.Lists.{count_if}

-- `s <= t`. The order of the bytes of UTF-8 is the order of the code points.
abbrev pub text_le : String → String → Bool
text_le String.[] t = true
text_le (String.◌∷◌ c s) String.[] = false
text_le (String.◌∷◌ c s) (String.◌∷◌ d t) =
    let rest = text_le s t in
    if ltb (code c) (code d) then true else if ltb (code d) (code c) then false else rest

pub text_le_total : (s t : String) → text_le s t ≡ false → text_le t s ≡ true
text_le_total String.[] t h = cc
text_le_total (String.◌∷◌ c s) String.[] h = refl
text_le_total (String.◌∷◌ c s) (String.◌∷◌ d t) h = ground (arith, text_le_total s t)

abbrev pub All {ℓ κ} : {A : Type ℓ} → (A → Type κ) → List A → Type κ
All P [] = Unit
All P (x ∷ xs) = P x × All P xs

module _ {A : Type 0} (le : A → A → Bool) where
  abbrev place : A → List A → List A
  place x [] = x ∷ []
  place x (y ∷ ys) = let rest = place x ys in if le x y then x ∷ y ∷ ys else y ∷ rest

  abbrev pub sort : List A → List A
  sort [] = []
  sort (x ∷ xs) = place x (sort xs)

  -- Every element is at most its successor.
  abbrev pub IsSorted : List A → Type 0
  IsSorted [] = Unit {0}
  IsSorted (x ∷ []) = Unit {0}
  IsSorted (x ∷ y ∷ ys) = (le x y ≡ true) × IsSorted (y ∷ ys)

  place-IsSorted :
      ((x y : A) → le x y ≡ false → le y x ≡ true)
      → (x : A) (ys : List A) → IsSorted ys
      → IsSorted (place x ys)
  place-IsSorted total x [] h = tt
  place-IsSorted total x (y ∷ []) h = elim (Bool-cases (le x y)) [
    | inl first ↦ rw first (first, tt)
    | inr last ↦ rw last (total x y last, tt)
  ]
  place-IsSorted total x (y ∷ z ∷ zs) h =
      let later = place-IsSorted total x (z ∷ zs) h.1 in
      elim (Bool-cases (le x y)) [
        | inl first ↦ rw first (first, h)
        | inr last ↦ elim (Bool-cases (le x z)) [
          | inl second ↦ rw (last, second) (total x y last, (second, h.1))
          | inr third ↦ rw (last, third) (h.0, rw third at later)
        ]
      ]

  pub sort-IsSorted :
      ((x y : A) → le x y ≡ false → le y x ≡ true) → (xs : List A) → IsSorted (sort xs)
  sort-IsSorted total [] = tt
  sort-IsSorted total (x ∷ xs) = place-IsSorted total x (sort xs) (sort-IsSorted total xs)

  place_first : (x : A) (ys : List A) → IsSorted (x ∷ ys) → place x ys ≡ x ∷ ys
  place_first x [] h = refl
  place_first x (y ∷ ys) h = rw (h.0) refl

  IsSorted-tail : (x : A) (xs : List A) → IsSorted (x ∷ xs) → IsSorted xs
  IsSorted-tail x [] h = tt
  IsSorted-tail x (y ∷ ys) h = h.1

  sort_sorted : (xs : List A) → IsSorted xs → sort xs ≡ xs
  sort_sorted [] h = refl
  sort_sorted (x ∷ xs) h = rw (sort_sorted xs (IsSorted-tail x xs h)) (place_first x xs h)

  place-All : (P : A → Type 0) (x : A) (ys : List A) → P x → All P ys → All P (place x ys)
  place-All P x [] p h = (p, tt)
  place-All P x (y ∷ ys) p h = elim (Bool-cases (le x y)) [
    | inl first ↦ rw first (p, h)
    | inr last ↦ rw last (h.0, place-All P x ys p h.1)
  ]

  pub sort-All : (P : A → Type 0) (xs : List A) → All P xs → All P (sort xs)
  sort-All P [] h = tt
  sort-All P (x ∷ xs) h = place-All P x (sort xs) h.0 (sort-All P xs h.1)

  count_if-place :
      (p : A → Bool) (x : A) (ys : List A) → count_if p (place x ys) ≡ count_if p (x ∷ ys)
  count_if-place p x [] = refl
  count_if-place p x (y ∷ ys) = ground (arith, count_if-place p x ys)

  -- Sorting only moves the elements.
  pub count_if-sort : (p : A → Bool) (xs : List A) → count_if p (sort xs) ≡ count_if p xs
  count_if-sort p [] = refl
  count_if-sort p (x ∷ xs) = count_if-place p x (sort xs) ∙ ground (arith, count_if-sort p xs)

  map-fixed : (f : A → A) (xs : List A) → All (λ x. f x ≡ x) xs → map f xs ≡ xs
  map-fixed f [] h = refl
  map-fixed f (x ∷ xs) h = rw (h.0, map-fixed f xs h.1) refl

  fixed-map :
      (f : A → A) → ((x : A) → f (f x) ≡ f x) → (xs : List A) → All (λ x. f x ≡ x) (map f xs)
  fixed-map f idem [] = tt
  fixed-map f idem (x ∷ xs) = (idem x, fixed-map f idem xs)

  -- Cleaning the elements and sorting them, once is enough.
  pub sort-map_idem :
      (f : A → A)
      → ((x : A) → f (f x) ≡ f x)
      → ((x y : A) → le x y ≡ false → le y x ≡ true)
      → (xs : List A) → sort (map f (sort (map f xs))) ≡ sort (map f xs)
  sort-map_idem f idem total xs =
      ap sort
        (map-fixed f (sort (map f xs)) (sort-All (λ x. f x ≡ x) (map f xs) (fixed-map f idem xs)))
      ∙ sort_sorted (sort (map f xs)) (sort-IsSorted total (map f xs))

  pub sort_idem :
      ((x y : A) → le x y ≡ false → le y x ≡ true) → (xs : List A) → sort (sort xs) ≡ sort xs
  sort_idem total xs = sort_sorted (sort xs) (sort-IsSorted total xs)
