-- ===== src/Capacity/States.antt =====
-- The state machine of the controller: normal, degraded and overloaded.
use native.Mathlib.Decide.{dec_lt}
use domainry_foundation.Prelude.{
  ℕ, zero, suc, ◌≤◌, ◌<◌, ◌≡◌, refl, sym, ap, ◌∙◌, Bool, true, false, String, List, [], ◌∷◌, Time,
  arith, Bool-cases, inl, inr, str_eq, ◌||◌, length,
}
use domainry_foundation.Capacity.Model.{
  State, normal, degraded, overloaded, Float, Config, Limits, Request, Controller,
}
use domainry_foundation.Capacity.Admission.{evict_idle, reset_rate_windows, reject, admit}
use domainry_foundation.Capacity.Limits.{new_controller, normalize_limits, bounded_key, is_default}
use domainry_foundation.Capacity.Controller.{
  ratio, next_state, update_state, give_back, grant, acquire_locked, acquire, release,
}
use domainry_foundation.Capacity.Guards.{admit_unchanged, admit_allowed}
use domainry_foundation.Capacity.Leases.{
  Lease, System, Call, acquires, releases, release_lease, release_nth, step, run, outstanding,
}
use domainry_foundation.Capacity.InFlight.{in_flight_of}
use domainry_foundation.Capacity.History.{run-IsSound, started}

-- What the controller relies on of `float64` division and comparison: IEEE 754 division is correctly
-- rounded, and integers up to 2 ^ 53 are exact.
pub record FloatLaws (f : Float) : Type 0 where
  pub zero_ratio : (n : ℕ) → 0 < n → f.div (f.of_int 0) (f.of_int n) ≡ f.of_int 0
  pub ratio_lt_one :
      (a n : ℕ)
      → a < n
      → n ≤ 9007199254740992
      → (f.lt (f.div (f.of_int a) (f.of_int n)) (f.of_int 1) ≡ true)
        × (f.le (f.of_int 1) (f.div (f.of_int a) (f.of_int n)) ≡ false)

-- The limits are such that a process with nothing in flight counts as recovered.
pub record IsTuned {f : Float} (l : Limits f) : Type 0 where
  pub positive : 0 < l.global_in_flight
  pub exact : l.global_in_flight ≤ 9007199254740992
  pub degraded_positive : f.le l.degraded_ratio (f.of_int 0) ≡ false
  pub recovery_nonneg : f.le (f.of_int 0) l.recovery_ratio ≡ true

-- Overload means that no slot is free, and an idle process is normal.
pub record IsSettled {f : Float} (c : Controller f) : Type 0 where
  pub tuned : IsTuned c.limits
  pub full : c.state ≡ overloaded → c.limits.global_in_flight ≤ c.global
  pub idle : c.global ≡ 0 → c.state ≡ normal

module _ {f : Float} (c : Controller f) (r : Request) where
  -- Only a full process is reported as overloaded.
  admit-full :
      (c.state ≡ overloaded → c.limits.global_in_flight ≤ c.global)
      → (admit c r).0.state ≡ overloaded
      → c.limits.global_in_flight ≤ c.global
  unfolding admit reject
  admit-full h e = ground arith

  admit-idle :
      0 < c.limits.global_in_flight
      → (c.global ≡ 0 → c.state ≡ normal)
      → c.global ≡ 0
      → (admit c r).0.state ≡ normal
  unfolding admit reject
  admit-idle positive h e = ground arith

module _ {f : Float} (laws : FloatLaws f) where
  next_state-full :
      (c : Controller f) (s : State)
      → IsTuned c.limits
      → next_state c.limits (ratio c) s ≡ overloaded
      → c.limits.global_in_flight ≤ c.global
  unfolding next_state ratio
  next_state-full c s t h = elim (dec_lt c.global c.limits.global_in_flight) [
    | yes below ↦
        (let w = laws.ratio_lt_one c.global c.limits.global_in_flight below t.exact in
          absurd (contra s h w.0 w.1))
    | no above ↦ omega arith
  ]
    where
      contra :
          (s : State)
          → next_state c.limits (ratio c) s ≡ overloaded
          → f.lt (ratio c) (f.of_int 1) ≡ true
          → f.le (f.of_int 1) (ratio c) ≡ false
          → ⊥
      contra normal h p q = ground arith
      contra degraded h p q = ground arith
      contra overloaded h p q = ground arith

  next_state-zero :
      (l : Limits f) (s : State)
      → IsTuned l
      → f.le (f.of_int 1) (f.of_int 0) ≡ false
      → next_state l (f.of_int 0) s ≡ normal
  unfolding next_state
  next_state-zero l normal t h = rw (h, t.degraded_positive) refl
  next_state-zero l degraded t h = rw (t.recovery_nonneg) refl
  next_state-zero l overloaded t h = rw (t.recovery_nonneg) refl

  next_state-idle :
      (c : Controller f) (s : State)
      → IsTuned c.limits
      → c.global ≡ 0
      → next_state c.limits (ratio c) s ≡ normal
  unfolding ratio
  next_state-idle c s t h =
      let zero_ratio = laws.zero_ratio c.limits.global_in_flight t.positive in
      let below = laws.ratio_lt_one 0 c.limits.global_in_flight t.positive t.exact in
      rw (h, zero_ratio) (next_state-zero c.limits s t (rw zero_ratio at below.1))

  update_state-IsSettled : (c : Controller f) → IsTuned c.limits → IsSettled (update_state c)
  unfolding update_state
  update_state-IsSettled c t = record {
    tuned = t;
    full = next_state-full c c.state t;
    idle = next_state-idle c c.state t;
  }

  admit-IsSettled : (c : Controller f) (r : Request) → IsSettled c → IsSettled (admit c r).0
  admit-IsSettled c r h =
      let u = admit_unchanged c r in
      record {
        tuned = rw (u.0) h.tuned;
        full = λ e. rw (u.0, u.1) (admit-full c r h.full e);
        idle = λ e. admit-idle c r h.tuned.positive h.idle (sym (u.1) ∙ e);
      }

  acquire_locked-IsSettled :
      (c : Controller f) (now : Time) (r : Request)
      → IsSettled c
      → IsSettled (acquire_locked c now r).0
  unfolding acquire_locked grant evict_idle reset_rate_windows
  acquire_locked-IsSettled c now r h =
      let c' = reset_rate_windows now r (evict_idle now c) in
      let h' : IsSettled c' = record { tuned = h.tuned; full = h.full; idle = h.idle } in
      elim (Bool-cases (admit c' r).1.allowed) [
        | inl granted ↦
            rw granted (rw (admit_allowed c' r granted) (update_state-IsSettled _ h.tuned))
        | inr refused ↦ rw refused (admit-IsSettled c' r h')
      ]

  acquire-IsSettled :
      (lower : String → String) (cancelled : Bool) (c : Controller f) (now : Time) (r : Request)
      → IsSettled c
      → IsSettled (acquire lower cancelled c now r).0
  unfolding acquire
  acquire-IsSettled lower true c now r h = h
  acquire-IsSettled lower false c now r h =
      let ws = bounded_key lower r.workspace_id "" in
      elim (Bool-cases (str_eq ws "" || is_default ws)) [
        | inl scopeless ↦ rw scopeless h
        | inr scoped ↦ rw scoped (acquire_locked-IsSettled c now _ h)
      ]

  release-IsSettled :
      (c : Controller f) (now : Time) (r : Request) → IsSettled c → IsSettled (release c now r).0
  unfolding release
  release-IsSettled c now r h =
      let v = update_state-IsSettled (give_back r c) h.tuned in
      record { tuned = v.tuned; full = v.full; idle = v.idle }

  release_lease-IsSettled :
      (c : Controller f) (now : Time) (request : Request) (released : Bool)
      → IsSettled c
      → IsSettled (release_lease c now (record { request = request; released = released })).0
  unfolding release_lease
  release_lease-IsSettled c now request true h = h
  release_lease-IsSettled c now request false h = release-IsSettled c now request h

  release_nth-IsSettled :
      (c : Controller f) (now : Time) (ls : List Lease) (i : ℕ)
      → IsSettled c
      → IsSettled (release_nth c now ls i).0
  unfolding release_nth
  release_nth-IsSettled c now [] i h = h
  release_nth-IsSettled c now (l ∷ ls) zero h = release_lease-IsSettled c now l.request l.released h
  release_nth-IsSettled c now (l ∷ ls) (suc i) h = release_nth-IsSettled c now ls i h

  step-IsSettled :
      (lower : String → String) (s : System f) (call : Call)
      → IsSettled s.controller
      → IsSettled (step lower s call).controller
  unfolding step
  step-IsSettled lower s (acquires cancelled now r) h =
      acquire-IsSettled lower cancelled s.controller now r h
  step-IsSettled lower s (releases now i) h = release_nth-IsSettled s.controller now s.leases i h

  run_from-IsSettled :
      (lower : String → String) (s : System f) (calls : List Call)
      → IsSettled s.controller
      → IsSettled (run lower s calls).controller
  unfolding run
  run_from-IsSettled lower s [] h = h
  run_from-IsSettled lower s (call ∷ calls) h =
      run_from-IsSettled lower (step lower s call) calls (step-IsSettled lower s call h)

  -- After any calls on a controller with tuned limits, the state is overloaded only while no slot is
  -- free, and it is normal whenever nothing is in flight.
  pub run-IsSettled :
      (lower : String → String) (v : Config f) (has_sink : Bool) (calls : List Call)
      → IsTuned (normalize_limits f v)
      → IsSettled (run lower (started v has_sink) calls).controller
  unfolding new_controller
  run-IsSettled lower v has_sink calls t =
      run_from-IsSettled lower (started v has_sink) calls
        (record { tuned = t; full = λ e. cc; idle = λ e. refl })

  -- After any calls on a controller with tuned limits, once every lease has been released, nothing is in
  -- flight in the process, in any workspace, for any use case or as a retry, and the state is normal. The
  -- limits are tuned where the limit in flight is positive and exact as a float, the degraded ratio is
  -- positive and the recovery ratio compares as zero or more, which NaN does not; and float division and
  -- comparison obey `FloatLaws`.
  pub run_drained :
      (lower : String → String) (v : Config f) (has_sink : Bool) (calls : List Call)
      → IsTuned (normalize_limits f v)
      → let s = run lower (started v has_sink) calls in
        outstanding s.leases ≡ []
        → (s.controller.global ≡ 0)
          × (s.controller.retries ≡ 0)
          × ((k : String) → in_flight_of s.controller.workspaces k ≡ 0)
          × ((k : String) → in_flight_of s.controller.use_cases k ≡ 0)
          × (s.controller.state ≡ normal)
  run_drained lower v has_sink calls t none_out =
      let a = (run-IsSound lower v has_sink calls).accounts in
      let idle : (run lower (started v has_sink) calls).controller.global ≡ 0 =
        a.process ∙ ap length none_out in
      (
        idle,
        rw none_out at (a.retry),
        λ k. rw none_out at (a.workspace k),
        λ k. rw none_out at (a.use_case k),
        (run-IsSettled lower v has_sink calls t).idle idle,
      )
