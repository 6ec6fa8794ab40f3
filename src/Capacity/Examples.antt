-- ===== src/Capacity/Examples.antt =====
-- The theorems on the admission controller at concrete calls. Ratios are in thousandths.
use domainry_foundation.Prelude.{
  negsuc, ℕ, ◌*◌, ◌/◌, ◌<◌, ◌≡◌, ◌↔◌, refl, pos, true, false, String, List, [], ◌∷◌, arith, leb,
  ltb, trim_space,
}
use domainry_foundation.Capacity.Model.{Float, Config, Request, Controller, normal}
use domainry_foundation.Capacity.Admission.{
  admit, reject, evict_idle, reset_rate_windows, reset_counter_window, stays,
}
use domainry_foundation.Capacity.Limits.{new_controller, normalize_limits}
use domainry_foundation.Capacity.Controller.{acquire, acquire_locked, release, grant}
use domainry_foundation.Capacity.Leases.{
  Lease, Call, acquires, releases, step, run, outstanding, release_lease,
}
use domainry_foundation.Capacity.InFlight.{in_flight_of}
use domainry_foundation.Capacity.Guards.{HasRoom, admit-HasRoom_iff}
use domainry_foundation.Capacity.Calls.{IsPositive, configured, normalize_limits_idem}
use domainry_foundation.Capacity.History.{IsSound, run-IsSound, started}
use domainry_foundation.Capacity.States.{FloatLaws, IsTuned, IsSettled, run-IsSettled, run_drained}

abbrev thousandths : Float
thousandths = record {
  Number = ℕ;
  of_int = λ n. 1000 * n;
  div = λ a b. 1000 * a / b;
  le = leb;
  lt = ltb;
  default_degraded = 800;
  default_recovery = 600;
}

below_one : (a n : ℕ) → a < n → 1000 * (1000 * a) / (1000 * n) < 1000
below_one a n h = grind arith

thousandths_laws : FloatLaws thousandths
thousandths_laws = record {
  zero_ratio = λ n h. ground arith;
  ratio_lt_one = λ a n h k. (ground (arith, below_one a n h), ground (arith, below_one a n h));
}

abbrev small : Config thousandths
small = record {
  global_in_flight = pos 2;
  workspace_in_flight = pos 2;
  use_case_in_flight = pos 2;
  retry_in_flight = pos 1;
  global_rate = pos 0;
  workspace_rate = pos 0;
  use_case_rate = pos 0;
  rate_window = pos 0;
  max_workspace_states = pos 0;
  max_use_case_states = pos 0;
  workspace_state_ttl = pos 0;
  degraded_ratio = 0;
  recovery_ratio = 0;
  retry_after = pos 0;
}

abbrev import_request : Request
import_request = record {
  workspace_id = " acme";
  use_case = "import";
  retry = true;
  essential = true;
}

-- Two requests take the slots, a third is refused, and both leases are released, one of them twice.
abbrev busy_day : List Call
busy_day =
    acquires false 1000 import_request
    ∷ acquires false 2000 (record import_request { retry = false })
    ∷ acquires false 3000 import_request
    ∷ releases 4000 0
    ∷ releases 5000 0
    ∷ releases 6000 1
    ∷ []

abbrev identity : String → String
identity s = s

busy_day_ends :
    let s = run identity (started small true) busy_day in
    (outstanding s.leases ≡ []) × (s.controller.rejected ≡ 1) × (s.controller.recovered ≡ 1)
unfolding run step acquire acquire_locked release new_controller evict_idle reset_rate_windows
    reset_counter_window admit reject grant stays release_lease trim_space
busy_day_ends = (refl, refl, refl)

run-IsSound_example :
    let s = run identity (started small true) busy_day in
    IsSound s.controller (outstanding s.leases)
run-IsSound_example = run-IsSound identity small true busy_day

small-IsTuned : IsTuned (normalize_limits thousandths small)
unfolding normalize_limits
small-IsTuned = record {
  positive = omega arith;
  exact = omega arith;
  degraded_positive = refl;
  recovery_nonneg = refl;
}

run-IsSettled_example : IsSettled (run identity (started small true) busy_day).controller
run-IsSettled_example = run-IsSettled thousandths_laws identity small true busy_day small-IsTuned

run_drained_example :
    let s = run identity (started small true) busy_day in
    (s.controller.global ≡ 0)
    × (s.controller.retries ≡ 0)
    × ((k : String) → in_flight_of s.controller.workspaces k ≡ 0)
    × ((k : String) → in_flight_of s.controller.use_cases k ≡ 0)
    × (s.controller.state ≡ normal)
run_drained_example =
    run_drained thousandths_laws identity small true busy_day small-IsTuned busy_day_ends.0

abbrev idle : Controller thousandths
idle = new_controller thousandths small true

admit-HasRoom_iff_example :
    ((admit idle import_request).1.allowed ≡ true) ↔ HasRoom idle import_request
admit-HasRoom_iff_example = admit-HasRoom_iff idle import_request

abbrev first_lease : Lease
first_lease = record { request = import_request; released = false }

abbrev default_request : Request
default_request = record import_request { workspace_id = " Default " }

-- A configuration with a negative count and ratios that are out of range.
abbrev misconfigured : Config thousandths
misconfigured = record small {
  global_in_flight = negsuc 3;
  degraded_ratio = 1000;
  recovery_ratio = 900;
}

normalize_limits_idem_example :
    IsPositive (normalize_limits thousandths misconfigured)
    × (normalize_limits thousandths
          (configured thousandths (normalize_limits thousandths misconfigured))
        ≡ normalize_limits thousandths misconfigured)
normalize_limits_idem_example = normalize_limits_idem thousandths misconfigured
