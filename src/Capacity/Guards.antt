-- ===== src/Capacity/Guards.antt =====
-- When `admit` admits, and what it leaves alone.
use domainry_foundation.Prelude.{
  ℕ, ◌<◌, ◌≡◌, refl, ◌⊎◌, ◌↔◌, Bool, true, false, not, ◌&&◌, arith, is_some, lookup, lookup_or,
  length, leb,
}
use domainry_foundation.Capacity.Model.{Float, Request, zero_counter, Controller}
use domainry_foundation.Capacity.Admission.{reject, admit, is_degraded}

-- Every budget that `admit` checks has room for one more request.
pub record HasRoom {f : Float} (c : Controller f) (r : Request) : Type 0 where
  pub not_shed : (is_degraded c.state ≡ false) ⊎ (r.essential ≡ true)
  pub process : c.global < c.limits.global_in_flight
  pub process_rate : c.global_rate.rate < c.limits.global_rate
  pub workspace :
      (lookup_or zero_counter r.workspace_id c.workspaces).in_flight < c.limits.workspace_in_flight
  pub workspace_rate :
      (lookup_or zero_counter r.workspace_id c.workspaces).rate < c.limits.workspace_rate
  pub use_case :
      (lookup_or zero_counter r.use_case c.use_cases).in_flight < c.limits.use_case_in_flight
  pub use_case_rate : (lookup_or zero_counter r.use_case c.use_cases).rate < c.limits.use_case_rate
  pub retry : (r.retry ≡ false) ⊎ (c.retries < c.limits.retry_in_flight)
  pub workspace_states :
      (is_some (lookup r.workspace_id c.workspaces) ≡ true)
      ⊎ (length c.workspaces < c.limits.max_workspace_states)
  pub use_case_states :
      (is_some (lookup r.use_case c.use_cases) ≡ true)
      ⊎ (length c.use_cases < c.limits.max_use_case_states)

lt→leb : (a b : ℕ) → a < b → leb b a ≡ false
lt→leb a b h = ground arith

shed_false : (s e : Bool) → (s ≡ false) ⊎ (e ≡ true) → (s && not e) ≡ false
shed_false s e h = ground arith

retry_false : (b : Bool) (m n : ℕ) → (b ≡ false) ⊎ (n < m) → (b && leb m n) ≡ false
retry_false b m n h = ground arith

states_false : (b : Bool) (m n : ℕ) → (b ≡ true) ⊎ (n < m) → (not b && leb m n) ≡ false
states_false b m n h = ground arith

module _ {f : Float} (c : Controller f) (r : Request) where
  admit-HasRoom : (admit c r).1.allowed ≡ true → HasRoom c r
  unfolding admit reject
  admit-HasRoom h = ground arith

  HasRoom-admit : HasRoom c r → (admit c r).1.allowed ≡ true
  unfolding admit
  HasRoom-admit h =
      rw
        (
          shed_false _ _ h.not_shed,
          lt→leb _ _ h.process,
          lt→leb _ _ h.process_rate,
          lt→leb _ _ h.workspace,
          lt→leb _ _ h.workspace_rate,
          lt→leb _ _ h.use_case,
          lt→leb _ _ h.use_case_rate,
          retry_false _ _ _ h.retry,
          states_false _ _ _ h.workspace_states,
          states_false _ _ _ h.use_case_states,
        )
        refl

  -- A request is admitted exactly when every budget that `admit` checks has room for it: it is not shed
  -- in the degraded state, and the in-flight, rate, retry and key-count limits are not reached.
  pub admit-HasRoom_iff : ((admit c r).1.allowed ≡ true) ↔ HasRoom c r
  admit-HasRoom_iff = (admit-HasRoom, HasRoom-admit)

  -- Admission itself changes no counter but `rejected`, and the state only to `overloaded`.
  pub admit_unchanged :
      ((admit c r).0.limits ≡ c.limits)
      × ((admit c r).0.global ≡ c.global)
      × ((admit c r).0.global_rate ≡ c.global_rate)
      × ((admit c r).0.workspaces ≡ c.workspaces)
      × ((admit c r).0.use_cases ≡ c.use_cases)
      × ((admit c r).0.retries ≡ c.retries)
      × ((admit c r).0.recovered ≡ c.recovered)
      × ((admit c r).0.has_sink ≡ c.has_sink)
  unfolding admit reject
  admit_unchanged = ground arith

  pub admit_allowed : (admit c r).1.allowed ≡ true → (admit c r).0 ≡ c
  unfolding admit reject
  admit_allowed h = ground arith
