-- ===== src/Capacity/Calls.antt =====
-- Single calls: a second release, the refusals before the lock, and the limits as configured.
use domainry_foundation.Prelude.{
  ℕ, ◌*◌, minute, second, zero, suc, ℤ, pos, negsuc, Bool-cases, inl, inr, ◌<◌, ◌≡◌, refl, Bool,
  true, false, String, none, Time, arith, str_eq, ◌||◌, if◌then◌else◌,
}
use domainry_foundation.Capacity.Model.{Float, Config, Limits, Request, Controller}
use domainry_foundation.Capacity.Limits.{
  positive_or, normal_degraded, normalize_limits, bounded_key, is_default,
}
use domainry_foundation.Capacity.Controller.{acquire}
use domainry_foundation.Capacity.Leases.{Lease, release_lease}

module _ {f : Float} where
  -- The second release of a lease changes neither the controller nor the lease, and reports nothing.
  pub release_lease_twice :
      (c d : Controller f) (now later : Time) (l : Lease)
      → let first = release_lease c now l in release_lease d later first.1 ≡ (d, first.1, none)
  unfolding release_lease
  release_lease_twice c d now later l = ground arith

  -- A request whose context is done, or whose workspace is missing, too long or "default", is refused
  -- with no lease and no event, and leaves the controller as it was.
  acquire_unscoped :
      (lower : String → String) (cancelled : Bool) (c : Controller f) (now : Time) (r : Request)
      → let ws = bounded_key lower r.workspace_id "" in
        (cancelled || (str_eq ws "" || is_default ws)) ≡ true
        → let result = acquire lower cancelled c now r in
          (result.0 ≡ c) × (result.1 ≡ none) × (result.2.allowed ≡ false) × (result.3 ≡ none)
  unfolding acquire
  acquire_unscoped lower true c now r h = (refl, refl, refl, refl)
  acquire_unscoped lower false c now r h = rw h (refl, refl, refl, refl)

-- Every normalised limit of a count or a duration is positive.
pub record IsPositive {f : Float} (l : Limits f) : Type 0 where
  pub global_in_flight : 0 < l.global_in_flight
  pub workspace_in_flight : 0 < l.workspace_in_flight
  pub use_case_in_flight : 0 < l.use_case_in_flight
  pub retry_in_flight : 0 < l.retry_in_flight
  pub global_rate : 0 < l.global_rate
  pub workspace_rate : 0 < l.workspace_rate
  pub use_case_rate : 0 < l.use_case_rate
  pub rate_window : 0 < l.rate_window
  pub max_workspace_states : 0 < l.max_workspace_states
  pub max_use_case_states : 0 < l.max_use_case_states
  pub workspace_state_ttl : 0 < l.workspace_state_ttl
  pub retry_after : 0 < l.retry_after

module _ (f : Float) where
  open f use {of_int, le, default_recovery}

  -- Limits as a configuration.
  abbrev pub configured : Limits f → Config f
  configured l = record {
    global_in_flight = pos l.global_in_flight;
    workspace_in_flight = pos l.workspace_in_flight;
    use_case_in_flight = pos l.use_case_in_flight;
    retry_in_flight = pos l.retry_in_flight;
    global_rate = pos l.global_rate;
    workspace_rate = pos l.workspace_rate;
    use_case_rate = pos l.use_case_rate;
    rate_window = pos l.rate_window;
    max_workspace_states = pos l.max_workspace_states;
    max_use_case_states = pos l.max_use_case_states;
    workspace_state_ttl = pos l.workspace_state_ttl;
    degraded_ratio = l.degraded_ratio;
    recovery_ratio = l.recovery_ratio;
    retry_after = pos l.retry_after;
  }

  normalize_limits-IsPositive : (v : Config f) → IsPositive (normalize_limits f v)
  unfolding normalize_limits
  normalize_limits-IsPositive v = ground arith

  -- Where each configured value passes a test or is replaced by the fallback, once is enough.
  fallback_idem :
      (is_bad : f.Number → Bool) (fallback v : f.Number)
      → (if is_bad (if is_bad v then fallback else v)
          then fallback
          else (if is_bad v then fallback else v))
        ≡ (if is_bad v then fallback else v)
  fallback_idem is_bad fallback v = elim (Bool-cases (is_bad v)) [
    | inl bad ↦ elim (Bool-cases (is_bad fallback)) [
      | inl again ↦ rw (bad, again) refl
      | inr good ↦ rw (bad, good) refl
    ]
    | inr good ↦ rw (good, good) refl
  ]

  positive_or-pos :
      (fallback : ℕ) (v : ℤ)
      → positive_or fallback (pos (positive_or fallback v)) ≡ positive_or fallback v
  unfolding positive_or
  positive_or-pos zero (pos zero) = refl
  positive_or-pos zero (pos (suc n)) = refl
  positive_or-pos zero (negsuc n) = refl
  positive_or-pos (suc k) (pos zero) = refl
  positive_or-pos (suc k) (pos (suc n)) = refl
  positive_or-pos (suc k) (negsuc n) = refl

  -- Whatever the configuration, a NaN or a negative number in it included, every normalised limit of a
  -- count or a duration is positive, and normalising the normalised limits again changes none of them,
  -- the two ratios included.
  pub normalize_limits_idem :
      (v : Config f)
      → IsPositive (normalize_limits f v)
        × (normalize_limits f (configured (normalize_limits f v)) ≡ normalize_limits f v)
  unfolding normalize_limits
  normalize_limits_idem v =
      let d = normal_degraded f v.degraded_ratio in
      let same_degraded : normal_degraded f d ≡ d =
        fallback_idem (λ x. le x (of_int 0) || le (of_int 1) x) f.default_degraded
          v.degraded_ratio in
      let same_recovery =
        fallback_idem (λ x. le x (of_int 0) || le d x) default_recovery v.recovery_ratio in
      (
        normalize_limits-IsPositive v,
        rw
            (
              positive_or-pos 256 v.global_in_flight,
              positive_or-pos 32 v.workspace_in_flight,
              positive_or-pos 64 v.use_case_in_flight,
              positive_or-pos 16 v.retry_in_flight,
              positive_or-pos 6000 v.global_rate,
              positive_or-pos 600 v.workspace_rate,
              positive_or-pos 1200 v.use_case_rate,
              positive_or-pos minute v.rate_window,
              positive_or-pos 10000 v.max_workspace_states,
              positive_or-pos 1024 v.max_use_case_states,
              positive_or-pos (30 * minute) v.workspace_state_ttl,
              positive_or-pos (2 * second) v.retry_after,
              same_degraded,
              same_recovery,
            )
            refl,
      )
