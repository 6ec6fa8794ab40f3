-- ===== src/Capacity/InFlight.antt =====
-- What the updates of one counter map do to the in-flight count of a key.
use domainry_foundation.Prelude.{
  ℕ, suc, ◌-◌, ◌≡◌, refl, Option, none, insert-IsMap, String, some, str_eq, eq_iff, arith, Map,
  IsMap, lookup, lookup_or, insert, retain, lookup-insert, lookup-retain, Time, if◌then◌else◌,
}
use domainry_foundation.Capacity.Model.{Counter, zero_counter}
use domainry_foundation.Capacity.Admission.{reset_counter_window, stays}
use domainry_foundation.Capacity.Controller.{bump, decremented, decrement}

abbrev pub in_flight_of : Map Counter → String → ℕ
in_flight_of m k = (lookup_or zero_counter k m).in_flight

-- A sweep drops only counters with nothing in flight.
pub in_flight_of-retain :
    (ttl : ℕ) (now : Time) (m : Map Counter) (k : String)
    → IsMap m
    → in_flight_of (retain (stays ttl now) m) k ≡ in_flight_of m k
unfolding stays
in_flight_of-retain ttl now m k h = ground (arith, lookup-retain (stays ttl now) k m h)

pub in_flight_of-reset :
    (now : Time) (window : ℕ) (m : Map Counter) (j k : String) (v : Counter)
    → lookup j m ≡ some v
    → in_flight_of (insert j (reset_counter_window v now window) m) k ≡ in_flight_of m k
unfolding reset_counter_window
in_flight_of-reset now window m j k v h =
    ground (arith, eq_iff j k, lookup-insert j k (reset_counter_window v now window) m)

pub in_flight_of-bump :
    (now : Time) (window : ℕ) (m : Map Counter) (j k : String)
    → in_flight_of (insert j (bump now window (lookup_or zero_counter j m)) m) k
      ≡ (if str_eq j k then suc (in_flight_of m k) else in_flight_of m k)
unfolding bump
in_flight_of-bump now window m j k =
    ground (arith, eq_iff j k, lookup-insert j k (bump now window (lookup_or zero_counter j m)) m)

pub in_flight_of-decrement :
    (m : Map Counter) (j k : String)
    → in_flight_of (decrement m j) k
      ≡ (if str_eq j k then in_flight_of m k - 1 else in_flight_of m k)
unfolding decrement
in_flight_of-decrement m j k =
    ground (arith, eq_iff j k, lookup-insert j k (decremented (lookup_or zero_counter j m)) m)

-- The step of `resetRateWindows` on one map.
abbrev pub reset_entry : Time → ℕ → String → Map Counter → Map Counter
reset_entry now window j m = elim (lookup j m) [
  | none ↦ m
  | some v ↦ insert j (reset_counter_window v now window) m
]

in_flight_of-reset_found :
    (now : Time) (window : ℕ) (j k : String) (m : Map Counter) (o : Option Counter)
    → lookup j m ≡ o
    → in_flight_of (elim o [ none ↦ m | some v ↦ insert j (reset_counter_window v now window) m ]) k
      ≡ in_flight_of m k
in_flight_of-reset_found now window j k m none h = refl
in_flight_of-reset_found now window j k m (some v) h = in_flight_of-reset now window m j k v h

pub in_flight_of-reset_entry :
    (now : Time) (window : ℕ) (j k : String) (m : Map Counter)
    → in_flight_of (reset_entry now window j m) k ≡ in_flight_of m k
in_flight_of-reset_entry now window j k m =
    in_flight_of-reset_found now window j k m (lookup j m) refl

reset_found-IsMap :
    (now : Time) (window : ℕ) (j : String) (m : Map Counter) (o : Option Counter)
    → IsMap m
    → IsMap (elim o [ none ↦ m | some v ↦ insert j (reset_counter_window v now window) m ])
reset_found-IsMap now window j m none h = h
reset_found-IsMap now window j m (some v) h = insert-IsMap j _ m h

pub reset_entry-IsMap :
    (now : Time) (window : ℕ) (j : String) (m : Map Counter)
    → IsMap m
    → IsMap (reset_entry now window j m)
reset_entry-IsMap now window j m h = reset_found-IsMap now window j m (lookup j m) h
