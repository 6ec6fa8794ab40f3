-- ===== src/Expression/Fitting.antt =====
-- Values that are of a type, and postconditions of an evaluation.
use domainry_foundation.Prelude.{
  Every-map, Every, ◌≡◌, refl, inl, inr, Bool, true, false, not, ◌&&◌, ◌||◌, Option, none, some,
  String, List, [], ◌∷◌, arith, Bool-cases,
}
use domainry_foundation.Expression.Model.{
  Any, null, boolean, text, integer, number, moment, duration, items, texts, fields, other, Items,
  nil, cons, ValueKind, kind_boolean, kind_integer, kind_decimal, kind_date, kind_datetime,
  kind_duration, kind_text, kind_relation, kind_list, kind_unknown, value_kind, ExpressionType,
  ExpressionValue, Outcome, ok, failed, panicked, ◌>>=◌, Runtime,
}
use domainry_foundation.Expression.Operators.{is_list}
use domainry_foundation.Expression.Values.{
  normalize_flat, cons_option, normalize_texts, as_items, normalize, normalize_items,
  normalize_value,
}

-- The Go value is of the dynamic type that the kind stands for, or nil. A decimal is held as a text.
abbrev pub flat_fits : {T : Type 0} → ValueKind → Any T → Bool
flat_fits kind null = true
flat_fits kind_boolean (boolean _) = true
flat_fits kind_integer (integer _) = true
flat_fits kind_decimal (text _) = true
flat_fits kind_date (moment _) = true
flat_fits kind_datetime (moment _) = true
flat_fits kind_duration (duration _) = true
flat_fits kind_text (text _) = true
flat_fits kind_relation (text _) = true
flat_fits _ _ = false

unfoldable mutual
  pub fits : {T : Type 0} → ValueKind → ValueKind → Any T → Bool
  fits kind element (items xs) = let rest = all_fit element xs in is_list kind && rest
  fits kind element v = flat_fits kind v

  pub all_fit : {T : Type 0} → ValueKind → Items T → Bool
  all_fit element nil = true
  all_fit element (cons x xs) = let rest = all_fit element xs in fits element kind_unknown x && rest

abbrev pub is_nil : {T : Type 0} → Any T → Bool
is_nil null = true
is_nil _ = false

-- With `full` on, the value is not nil.
abbrev pub is_full : {T : Type 0} → Bool → Any T → Bool
is_full full v = not full || not (is_nil v)

-- A value of its type.
abbrev pub Fits : {T : Type 0} → Bool → ExpressionType → Any T → Type 0
Fits full t v =
    (fits (value_kind t.kind) (value_kind t.element_type) v ≡ true) × (is_full full v ≡ true)

abbrev pub AllFit : {T : Type 0} → Bool → List (ExpressionValue T) → Type 0
AllFit full [] = Unit {0}
AllFit full (v ∷ vs) = Fits full v.type v.value × AllFit full vs

-- The outcome has the property if it is a value, and is no panic unless `N` holds.
abbrev pub Post : {A : Type 0} → (A → Type 0) → Type 0 → Outcome A → Type 0
Post P N (ok a) = P a
Post P N (failed d) = Unit {0}
Post P N panicked = N

pub Post-bind :
    {A B : Type 0} (P : A → Type 0) (Q : B → Type 0) (N : Type 0) (o : Outcome A)
    (f : A → Outcome B)
    → Post P N o
    → ((a : A) → P a → Post Q N (f a))
    → Post Q N (o >>= f)
Post-bind P Q N (ok a) f h k = k a h
Post-bind P Q N (failed d) f h k = tt
Post-bind P Q N panicked f h k = h

module _ (rt : Runtime) where
  open rt use {Time, Location, normalize_decimal, parse_int, parse_date, parse_time, parse_duration}

  -- What normalisation keeps: the result is of the kind, and nil exactly if the value was.
  abbrev Kept : ValueKind → ValueKind → Any Time → Option (Any Time) → Type 0
  Kept kind element v o = Every (λ w. (fits kind element w ≡ true) × (is_nil w ≡ is_nil v)) o

  flat-Kept :
      (l : Location) (kind element : ValueKind) (v : Any Time)
      → Kept kind element v (normalize_flat rt l kind v)
  unfolding normalize_flat fits
  flat-Kept l kind_boolean element v = ground arith
  flat-Kept l kind_integer element v = ground arith
  flat-Kept l kind_decimal element v = ground arith
  flat-Kept l kind_date element v = ground arith
  flat-Kept l kind_datetime element v = ground arith
  flat-Kept l kind_duration element v = ground arith
  flat-Kept l kind_text element v = ground arith
  flat-Kept l kind_relation element v = ground arith
  flat-Kept l kind_list element v = ground arith
  flat-Kept l kind_unknown element v = ground arith

  abbrev AllKept : ValueKind → Option (Items Time) → Type 0
  AllKept element o = Every (λ ws. all_fit element ws ≡ true) o

  cons-AllKept :
      (element : ValueKind) (v : Any Time) (o : Option (Any Time)) (r : Option (Items Time))
      → Kept element kind_unknown v o
      → AllKept element r
      → AllKept element (cons_option rt o r)
  unfolding fits
  cons-AllKept element v none r h k = tt
  cons-AllKept element v (some w) none h k = tt
  cons-AllKept element v (some w) (some ws) h k = ground arith

  texts-AllKept :
      (l : Location) (element : ValueKind) (ss : List String)
      → AllKept element (normalize_texts rt l element ss)
  unfolding fits
  texts-AllKept l element [] = refl
  texts-AllKept l element (s ∷ ss) =
      cons-AllKept element (text s) (normalize_flat rt l element (text s))
        (normalize_texts rt l element ss) (flat-Kept l element kind_unknown (text s))
        (texts-AllKept l element ss)

  as_items-Kept :
      (kind element : ValueKind) (v : Any Time) (r : Option (Items Time))
      → is_list kind ≡ true
      → is_nil v ≡ false
      → AllKept element r
      → Kept kind element v (as_items rt r)
  unfolding fits
  as_items-Kept kind element v none h n k = tt
  as_items-Kept kind element v (some ws) h n k = ground (arith, h, n, k)

  mutual
    unfolding normalize fits

    normalize-Kept :
        (l : Location) (kind element : ValueKind) (v : Any Time)
        → Kept kind element v (normalize rt l kind element v)
    normalize-Kept l kind element (items xs) =
        let rest = items-AllKept l element xs in
        elim (Bool-cases (is_list kind)) [
          | inl list ↦ rw list (
              as_items-Kept kind element (items xs) (normalize_items rt l element xs) list refl
                rest)
          | inr flat ↦ rw flat (flat-Kept l kind element (items xs))
        ]
    normalize-Kept l kind element (texts ss) = elim (Bool-cases (is_list kind)) [
      | inl list ↦ rw list (
          as_items-Kept kind element (texts ss) (normalize_texts rt l element ss) list refl
            (texts-AllKept l element ss))
      | inr flat ↦ rw flat (flat-Kept l kind element (texts ss))
    ]
    normalize-Kept l kind element null = flat-Kept l kind element null
    normalize-Kept l kind element (boolean b) = flat-Kept l kind element (boolean b)
    normalize-Kept l kind element (text s) = flat-Kept l kind element (text s)
    normalize-Kept l kind element (integer n) = flat-Kept l kind element (integer n)
    normalize-Kept l kind element (number s) = flat-Kept l kind element (number s)
    normalize-Kept l kind element (moment t) = flat-Kept l kind element (moment t)
    normalize-Kept l kind element (duration d) = flat-Kept l kind element (duration d)
    normalize-Kept l kind element (fields m) = flat-Kept l kind element (fields m)
    normalize-Kept l kind element (other s) = flat-Kept l kind element (other s)

    items-AllKept :
        (l : Location) (element : ValueKind) (xs : Items Time)
        → AllKept element (normalize_items rt l element xs)
    items-AllKept l element nil = refl
    items-AllKept l element (cons x xs) =
        cons-AllKept element x (normalize rt l element kind_unknown x)
          (normalize_items rt l element xs) (normalize-Kept l element kind_unknown x)
          (items-AllKept l element xs)

  -- A normalised value fits the type, and is not nil if the value was not.
  pub normalize_value-Fits :
      (full : Bool) (v : Any Time) (t : ExpressionType) (l : Location)
      → is_full full v ≡ true
      → Every (Fits full t) (normalize_value rt v t l)
  normalize_value-Fits full v t l h =
      Every-map _ _ (normalize rt l (value_kind t.kind) (value_kind t.element_type) v)
        (normalize-Kept l (value_kind t.kind) (value_kind t.element_type) v)
        (λ w k. (k.0, rw (k.1) h))
