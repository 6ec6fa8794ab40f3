-- ===== src/Worker/Fairness/Classes.antt =====
-- The items of the classes, counted.
use mathlib.Core.List.{Permᴰ}
use domainry_foundation.Prelude.{
  ℕ, zero, suc, ◌+◌, ◌≤◌, min, ◌≡◌, refl, sym, ap, ◌∙◌, Bool, none, String, ℤ, pos, negsuc, eq_iff,
  List, [], ◌∷◌, ◌++◌, take, drop, take-append-drop, count_if, Map, lookup, lookup_or, insert,
  IsMap, insert-IsMap, ltb, arith, if◌then◌else◌,
}
use domainry_foundation.Worker.Fairness.{fair_limit}
use domainry_foundation.Worker.Fairness.Queues.{has, Distinct, queues_of, total, count_if-append}
use domainry_foundation.Worker.Fairness.Quota.{bounded_quota, add_classes, unnamed}

pub fair_limit_pos : (l n : ℕ) → fair_limit (pos (suc l)) n ≡ (if ltb n (suc l) then n else suc l)
unfolding fair_limit
fair_limit_pos l n = refl

pub fair_limit_all : (n : ℕ) → fair_limit (pos n) n ≡ n
unfolding fair_limit
fair_limit_all zero = refl
fair_limit_all (suc n) = ground arith

pub fair_limit_within : (k n : ℕ) → 1 ≤ k → k ≤ n → fair_limit (pos k) n ≡ k
unfolding fair_limit
fair_limit_within zero n h i = absurd (omega arith)
fair_limit_within (suc k) n h i = ground arith

pub fair_limit-min : (l n : ℕ) → fair_limit (pos (suc l)) n ≡ min (suc l) n
unfolding fair_limit
fair_limit-min l n = ground arith

pub bounded_quota-le : (quota : ℤ) (free size : ℕ) → bounded_quota quota free size ≤ free
unfolding bounded_quota
bounded_quota-le (pos n) free size = ground arith
bounded_quota-le (negsuc n) free size = ground arith

module _ {A : Type 0} where
  -- How many elements of a map's lists pass a test.
  abbrev pub held : (A → Bool) → Map (List A) → ℕ
  held p [] = 0
  held p ((k, v) ∷ m) = count_if p v + held p m

  pub held-insert :
      (p : A → Bool) (k : String) (w : List A) (m : Map (List A))
      → held p (insert k w m) + count_if p (lookup_or [] k m) ≡ held p m + count_if p w
  held-insert p k w [] = omega arith
  held-insert p k w ((j, v) ∷ m) = ground (arith, held-insert p k w m)

  pub total-first :
      (p : A → Bool) (j : String) (v : List A) (ks : List String) (m : Map (List A))
      → lookup j m ≡ none
      → Distinct ks
      → total p (queues_of ks ((j, v) ∷ m))
        ≡ (if has j ks then count_if p v else 0) + total p (queues_of ks m)
  total-first p j v [] m h d = omega arith
  total-first p j v (k ∷ ks) m h d =
      ground (arith, eq_iff j k, eq_iff k j, total-first p j v ks m h d.1, d.0)

  pub total-none : (p : A → Bool) (ks : List String) → total {A = A} p (queues_of ks []) ≡ 0
  total-none p [] = refl
  total-none p (k ∷ ks) = omega (arith, total-none p ks)

  -- What the order names and what it does not are the whole map.
  pub held-split :
      (p : A → Bool) (ks : List String) (m : Map (List A))
      → IsMap m
      → Distinct ks
      → total p (queues_of ks m) + count_if p (unnamed ks m) ≡ held p m
  held-split p ks [] u d = omega (arith, total-none p ks)
  held-split p ks ((j, v) ∷ m) u d = ground (
    arith,
    total-first p j v ks m u.0 d,
    held-split p ks m u.1 d,
    count_if-append p v (unnamed ks m),
  )

  abbrev pub entry : (A → Bool) → List String → String × List A → ℕ
  entry p ks (k, v) = if has k ks then 0 else count_if p v

  pub unnamed-first :
      (p : A → Bool) (ks : List String) (e : String × List A) (m : Map (List A))
      → count_if p (unnamed ks (e ∷ m)) ≡ entry p ks e + count_if p (unnamed ks m)
  unnamed-first p ks (k, v) m = ground (arith, count_if-append p v (unnamed ks m))

  pub unnamed-perm :
      (p : A → Bool) (ks : List String) {m n : Map (List A)}
      → Permᴰ m n
      → count_if p (unnamed ks m) ≡ count_if p (unnamed ks n)
  unnamed-perm p ks Permᴰ.nil = refl
  unnamed-perm p ks (Permᴰ.cons {a} {b} {l₁} {l₂} e π) = omega (
    arith,
    unnamed-first p ks a l₁,
    unnamed-first p ks b l₂,
    ap (entry p ks) e,
    unnamed-perm p ks π,
  )
  unnamed-perm p ks (Permᴰ.swap {a} {b} {a' = c} {b' = d} {l} e f) = omega (
    arith,
    unnamed-first p ks a (b ∷ l),
    unnamed-first p ks b l,
    unnamed-first p ks c (d ∷ l),
    unnamed-first p ks d l,
    ap (entry p ks) e,
    ap (entry p ks) f,
  )
  unnamed-perm p ks (Permᴰ.trans π ρ) = unnamed-perm p ks π ∙ unnamed-perm p ks ρ

  pub count_if-take-drop :
      (p : A → Bool) (n : ℕ) (xs : List A)
      → count_if p (take n xs) + count_if p (drop n xs) ≡ count_if p xs
  count_if-take-drop p n xs =
      sym (count_if-append p (take n xs) (drop n xs)) ∙ ap (count_if p) (take-append-drop n xs)

module _ {A : Type 0} (class : A → String) where
  pub add_classes-IsMap :
      (items : List A) (m : Map (List A)) → IsMap m → IsMap (add_classes class items m)
  unfolding add_classes
  add_classes-IsMap [] m u = u
  add_classes-IsMap (x ∷ xs) m u = add_classes-IsMap xs _ (insert-IsMap (class x) _ m u)

  pub held-add_classes :
      (p : A → Bool) (items : List A) (m : Map (List A))
      → held p (add_classes class items m) ≡ held p m + count_if p items
  unfolding add_classes
  held-add_classes p [] m = omega arith
  held-add_classes p (x ∷ xs) m =
      let old = lookup_or [] (class x) m in
      ground (
        arith,
        held-add_classes p xs (insert (class x) (old ++ x ∷ []) m),
        held-insert p (class x) (old ++ x ∷ []) m,
        count_if-append p old (x ∷ []),
      )
