-- ===== src/Worker/Fairness/Counts.antt =====
-- What the rounds take, counted.
use domainry_foundation.Prelude.{
  ℕ, zero, suc, ◌+◌, ◌≤◌, ◌≡◌, refl, sym, Bool, true, false, String, ℤ, pos, negsuc, List, [], ◌∷◌,
  length, count_if, Map, lookup, lookup_or, is_some, arith,
}
use domainry_foundation.Worker.Fairness.{fair_limit}
use domainry_foundation.Worker.Fairness.Queues.{total, count_if-append}
use domainry_foundation.Worker.Fairness.Rounds.{heads, tails, rounds}

pub fair_limit-le : (limit : ℤ) (n : ℕ) → fair_limit limit n ≤ n
unfolding fair_limit
fair_limit-le (pos zero) n = omega arith
fair_limit-le (pos (suc l)) n = ground arith
fair_limit-le (negsuc l) n = omega arith

module _ {A : Type 0} where
  pub absent_queue :
      (k : String) (m : Map (List A)) → is_some (lookup k m) ≡ false → lookup_or [] k m ≡ []
  absent_queue k m h = ground arith

  -- No queue is longer than `n`.
  abbrev pub AllWithin : ℕ → List (List A) → Type 0
  AllWithin n [] = Unit {0}
  AllWithin n (q ∷ qs) = (length q ≤ n) × AllWithin n qs

  pub total-heads :
      (p : A → Bool) (qs : List (List A)) → total p qs ≡ count_if p (heads qs) + total p (tails qs)
  total-heads p [] = omega arith
  total-heads p ([] ∷ qs) = omega (arith, total-heads p qs)
  total-heads p ((x ∷ xs) ∷ qs) = ground (arith, total-heads p qs)

  pub total_empty : (p : A → Bool) (qs : List (List A)) → AllWithin 0 qs → total p qs ≡ 0
  total_empty p [] w = refl
  total_empty p ([] ∷ qs) w = omega (arith, total_empty p qs w.1)
  total_empty p ((x ∷ xs) ∷ qs) w = absurd (omega (arith, w.0))

  pub tails-AllWithin : (n : ℕ) (qs : List (List A)) → AllWithin (suc n) qs → AllWithin n (tails qs)
  tails-AllWithin n [] w = tt
  tails-AllWithin n ([] ∷ qs) w = (omega arith, tails-AllWithin n qs w.1)
  tails-AllWithin n ((x ∷ xs) ∷ qs) w = (omega (arith, w.0), tails-AllWithin n qs w.1)

  -- As many rounds as the longest queue has elements take everything.
  pub count_if-rounds :
      (p : A → Bool) (n : ℕ) (qs : List (List A))
      → AllWithin n qs
      → count_if p (rounds n qs) ≡ total p qs
  unfolding rounds
  count_if-rounds p zero qs w = sym (total_empty p qs w)
  count_if-rounds p (suc n) qs w = omega (
    arith,
    count_if-append p (heads qs) (rounds n (tails qs)),
    total-heads p qs,
    count_if-rounds p n (tails qs) (tails-AllWithin n qs w),
  )

  pub count_if_all : (xs : List A) → count_if (λ _. true) xs ≡ length xs
  count_if_all [] = refl
  count_if_all (x ∷ xs) = omega (arith, count_if_all xs)

  pub total-AllWithin : (n : ℕ) (qs : List (List A)) → total (λ _. true) qs ≤ n → AllWithin n qs
  total-AllWithin n [] h = tt
  total-AllWithin n (q ∷ qs) h =
      (omega (arith, count_if_all q, h), total-AllWithin n qs (omega (arith, h)))
