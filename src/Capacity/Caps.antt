-- ===== src/Capacity/Caps.antt =====
-- The limits of one counter map, and the updates that respect them.
use domainry_foundation.Prelude.{
  ℕ, ◌≤◌, ◌<◌, ◌⊎◌, ◌≡◌, refl, true, String, Option, none, some, arith, Map, IsMap, is_some, lookup,
  lookup_or, insert, retain, length, lookup-insert, lookup-retain, length-insert, length-retain-le,
  Time,
}
use domainry_foundation.Capacity.Model.{Counter, zero_counter}
use domainry_foundation.Capacity.Admission.{reset_counter_window, stays}
use domainry_foundation.Capacity.Controller.{bump, decremented, decrement}
use domainry_foundation.Capacity.InFlight.{in_flight_of, reset_entry}

abbrev pub rate_of : Map Counter → String → ℕ
rate_of m k = (lookup_or zero_counter k m).rate

-- Each key of the map has at most `a` requests in flight and `b` in its window, and there are at
-- most `n` keys.
pub record IsCapped (a b n : ℕ) (m : Map Counter) : Type 0 where
  pub in_flight : (k : String) → in_flight_of m k ≤ a
  pub rate : (k : String) → rate_of m k ≤ b
  pub states : length m ≤ n

module _ {a b n : ℕ} where
  pub retain-IsCapped :
      (ttl : ℕ) (now : Time) (m : Map Counter)
      → IsMap m
      → IsCapped a b n m
      → IsCapped a b n (retain (stays ttl now) m)
  retain-IsCapped ttl now m u h = record {
    in_flight = λ k. ground (arith, lookup-retain (stays ttl now) k m u, h.in_flight k);
    rate = λ k. ground (arith, lookup-retain (stays ttl now) k m u, h.rate k);
    states = omega (arith, length-retain-le (stays ttl now) m, h.states);
  }

  reset_found-IsCapped :
      (now : Time) (window : ℕ) (j : String) (m : Map Counter) (o : Option Counter)
      → lookup j m ≡ o
      → IsCapped a b n m
      → IsCapped a b n
          (elim o [ none ↦ m | some v ↦ insert j (reset_counter_window v now window) m ])
  unfolding reset_counter_window
  reset_found-IsCapped now window j m none e h = h
  reset_found-IsCapped now window j m (some v) e h =
      let v' = reset_counter_window v now window in
      record {
        in_flight = λ k. ground (arith, lookup-insert j k v' m, h.in_flight k, h.in_flight j);
        rate = λ k. ground (arith, lookup-insert j k v' m, h.rate k, h.rate j);
        states = ground (arith, length-insert j v' m, h.states);
      }

  pub reset_entry-IsCapped :
      (now : Time) (window : ℕ) (j : String) (m : Map Counter)
      → IsCapped a b n m
      → IsCapped a b n (reset_entry now window j m)
  reset_entry-IsCapped now window j m = reset_found-IsCapped now window j m (lookup j m) refl

  pub bump-IsCapped :
      (now : Time) (window : ℕ) (j : String) (m : Map Counter)
      → in_flight_of m j < a
      → rate_of m j < b
      → (is_some (lookup j m) ≡ true) ⊎ (length m < n)
      → IsCapped a b n m
      → IsCapped a b n (insert j (bump now window (lookup_or zero_counter j m)) m)
  unfolding bump
  bump-IsCapped now window j m room rate_room state_room h =
      let v' = bump now window (lookup_or zero_counter j m) in
      record {
        in_flight = λ k. ground (arith, lookup-insert j k v' m, h.in_flight k);
        rate = λ k. ground (arith, lookup-insert j k v' m, h.rate k);
        states = ground (arith, length-insert j v' m, h.states);
      }

  pub decrement-IsCapped :
      (j : String) (m : Map Counter)
      → 0 < in_flight_of m j
      → IsCapped a b n m
      → IsCapped a b n (decrement m j)
  unfolding decrement
  decrement-IsCapped j m busy h =
      let v' = decremented (lookup_or zero_counter j m) in
      record {
        in_flight = λ k. ground (arith, lookup-insert j k v' m, h.in_flight k, h.in_flight j);
        rate = λ k. ground (arith, lookup-insert j k v' m, h.rate k, h.rate j);
        states = ground (arith, length-insert j v' m, h.states);
      }
