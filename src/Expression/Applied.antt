-- ===== src/Expression/Applied.antt =====
-- Operations applied to values of their types.
use domainry_foundation.Prelude.{
  ◌≡◌, refl, ap, inl, inr, ◌⊎◌, Bool, true, false, String, eq_iff, List, [], ◌∷◌, arith,
  if◌then◌else◌,
}
use domainry_foundation.Expression.Model.{
  Any, ValueKind, kind_boolean, kind_integer, kind_decimal, kind_date, kind_datetime, kind_duration,
  kind_text, kind_relation, kind_list, kind_unknown, value_kind, ExpressionType, ExpressionValue,
  Outcome, ◌>>=◌, Runtime,
}
use domainry_foundation.Expression.Operators.{
  Comparison, typed, untyped, kind_is, all_type, comparable, is_list,
}
use domainry_foundation.Expression.Values.{
  the_boolean, the_integer, the_moment, the_duration, sign_of, expression_compare,
}
use domainry_foundation.Expression.Evaluation.{all_hold, any_holds, expression_types}
use domainry_foundation.Expression.Fitting.{fits, flat_fits, is_full, Fits, AllFit, Post, Post-bind}

-- The kinds of the types that the operators ask for.
pub kind_is-kind :
    (k : String) (t : ExpressionType) → kind_is k t ≡ true → value_kind t.kind ≡ value_kind k
kind_is-kind k t h = ap value_kind ((eq_iff t.kind k).0 h)

pub if_typed :
    (b : Bool) (s t : ExpressionType) (p : String × String)
    → (if b then typed s else untyped p) ≡ typed t
    → (b ≡ true) × (s ≡ t)
if_typed true s t p h = (refl, cc)
if_typed false s t p h = cc

fits-flat :
    {T : Type 0} (kind element : ValueKind) (v : Any T)
    → is_list kind ≡ false
    → fits kind element v ≡ true
    → flat_fits kind v ≡ true
unfolding fits
fits-flat kind element v h k = ground (arith, h, k)

module _ (rt : Runtime) (full : Bool) where
  open rt use {Time}

  -- A type assertion succeeds on a value of the type that is not nil.
  abbrev pub Sure : {A : Type 0} → Outcome A → Type 0
  Sure o = Post (λ _. Unit {0}) (full ≡ false) o

  the_boolean-Sure :
      (v : Any Time)
      → flat_fits kind_boolean v ≡ true
      → is_full full v ≡ true
      → Sure (the_boolean rt v)
  the_boolean-Sure v h k = ground (arith, h, k)

  the_integer-Sure :
      (v : Any Time)
      → flat_fits kind_integer v ≡ true
      → is_full full v ≡ true
      → Sure (the_integer rt v)
  the_integer-Sure v h k = ground (arith, h, k)

  pub the_moment-Sure :
      (kind : ValueKind) (v : Any Time)
      → (kind ≡ kind_date) ⊎ (kind ≡ kind_datetime)
      → flat_fits kind v ≡ true
      → is_full full v ≡ true
      → Sure (the_moment rt v)
  the_moment-Sure kind v c h k = ground (arith, c, h, k)

  pub the_duration-Sure :
      (v : Any Time)
      → flat_fits kind_duration v ≡ true
      → is_full full v ≡ true
      → Sure (the_duration rt v)
  the_duration-Sure v h k = ground (arith, h, k)

  pub Sure-bind :
      {A B : Type 0} (Q : B → Type 0) (o : Outcome A) (f : A → Outcome B)
      → Sure o
      → ((a : A) → Post Q (full ≡ false) (f a))
      → Post Q (full ≡ false) (o >>= f)
  Sure-bind Q o f h k = Post-bind (λ _. Unit {0}) Q (full ≡ false) o f h (λ a _. k a)

  pub flat_of :
      (kind : ValueKind) (t : ExpressionType) (v : Any Time)
      → is_list kind ≡ false
      → value_kind t.kind ≡ kind
      → Fits full t v
      → flat_fits kind v ≡ true
  flat_of kind t v l e h = let f = rw e at (h.0) in fits-flat kind (value_kind t.element_type) v l f

  -- The type of a list of values all of one kind.
  abbrev pub AllBoolean : List (ExpressionValue Time) → Type 0
  AllBoolean vs = all_type "boolean" (expression_types rt vs) ≡ true

  pub the_boolean-at :
      (v : ExpressionValue Time)
      → kind_is "boolean" v.type ≡ true
      → Fits full v.type v.value
      → Sure (the_boolean rt v.value)
  unfolding value_kind
  the_boolean-at v k h =
      the_boolean-Sure v.value
        (flat_of kind_boolean v.type v.value refl (kind_is-kind "boolean" v.type k) h) (h.1)

  pub all_hold-Sure :
      (b : Bool) (vs : List (ExpressionValue Time))
      → AllFit full vs
      → AllBoolean vs
      → Sure (all_hold rt b vs)
  unfolding all_hold
  all_hold-Sure b [] h k = tt
  all_hold-Sure true (v ∷ vs) h k =
      let here : kind_is "boolean" v.type ≡ true = ground (arith, k) in
      let there : all_type "boolean" (expression_types rt vs) ≡ true = ground (arith, k) in
      Sure-bind (λ _. Unit {0}) (the_boolean rt v.value) (λ b. all_hold rt b vs)
        (the_boolean-at v here (h.0)) (λ b. all_hold-Sure b vs (h.1) there)
  all_hold-Sure false (v ∷ vs) h k =
      let there : all_type "boolean" (expression_types rt vs) ≡ true = ground (arith, k) in
      all_hold-Sure false vs (h.1) there

  pub any_holds-Sure :
      (b : Bool) (vs : List (ExpressionValue Time))
      → AllFit full vs
      → AllBoolean vs
      → Sure (any_holds rt b vs)
  unfolding any_holds
  any_holds-Sure b [] h k = tt
  any_holds-Sure false (v ∷ vs) h k =
      let here : kind_is "boolean" v.type ≡ true = ground (arith, k) in
      let there : all_type "boolean" (expression_types rt vs) ≡ true = ground (arith, k) in
      Sure-bind (λ _. Unit {0}) (the_boolean rt v.value) (λ b. any_holds rt b vs)
        (the_boolean-at v here (h.0)) (λ b. any_holds-Sure b vs (h.1) there)
  any_holds-Sure true (v ∷ vs) h k =
      let there : all_type "boolean" (expression_types rt vs) ≡ true = ground (arith, k) in
      any_holds-Sure true vs (h.1) there

  -- A comparison is sure on two values of one type.
  sign_of-Sure :
      (kind : ValueKind) (v w : Any Time)
      → (is_list kind ≡ false → flat_fits kind v ≡ true)
      → (is_list kind ≡ false → flat_fits kind w ≡ true)
      → is_full full v ≡ true
      → is_full full w ≡ true
      → Sure (sign_of rt kind v w)
  sign_of-Sure kind_integer v w a b p q =
      Sure-bind (λ _. Unit {0}) (the_integer rt v) _ (the_integer-Sure v (a refl) p)
        (λ m.
          Sure-bind (λ _. Unit {0}) (the_integer rt w) _ (the_integer-Sure w (b refl) q) (λ n. tt))
  sign_of-Sure kind_date v w a b p q =
      Sure-bind (λ _. Unit {0}) (the_moment rt v) _
        (the_moment-Sure kind_date v (inl refl) (a refl) p)
        (λ s.
          Sure-bind (λ _. Unit {0}) (the_moment rt w) _
            (the_moment-Sure kind_date w (inl refl) (b refl) q) (λ t. tt))
  sign_of-Sure kind_datetime v w a b p q =
      Sure-bind (λ _. Unit {0}) (the_moment rt v) _
        (the_moment-Sure kind_datetime v (inr refl) (a refl) p)
        (λ s.
          Sure-bind (λ _. Unit {0}) (the_moment rt w) _
            (the_moment-Sure kind_datetime w (inr refl) (b refl) q) (λ t. tt))
  sign_of-Sure kind_decimal v w a b p q = tt
  sign_of-Sure kind_boolean v w a b p q = tt
  sign_of-Sure kind_duration v w a b p q = tt
  sign_of-Sure kind_text v w a b p q = tt
  sign_of-Sure kind_relation v w a b p q = tt
  sign_of-Sure kind_list v w a b p q = tt
  sign_of-Sure kind_unknown v w a b p q = tt

  pub expression_compare-Sure :
      (v w : ExpressionValue Time) (c : Comparison)
      → Fits full v.type v.value
      → Fits full w.type w.value
      → comparable v.type w.type c ≡ true
      → Sure (expression_compare rt v w c)
  unfolding expression_compare
  expression_compare-Sure v w c h k e =
      let kinds : w.type.kind ≡ v.type.kind = ground (arith, e, eq_iff v.type.kind w.type.kind) in
      Sure-bind (λ _. Unit {0}) (sign_of rt (value_kind v.type.kind) v.value w.value) _
        (sign_of-Sure (value_kind v.type.kind) v.value w.value
          (λ l. flat_of (value_kind v.type.kind) v.type v.value l refl h)
          (λ l. flat_of (value_kind v.type.kind) w.type w.value l (ap value_kind kinds) k) (h.1)
          (k.1))
        (λ s. tt)
