-- ===== src/Capacity/Bounds.antt =====
-- The budgets of the controller: the limits of every counter map together.
use domainry_foundation.Prelude.{◌≤◌, Bool, List, ◌∷◌, arith, eq_iff, Time}
use domainry_foundation.Capacity.Model.{Float, Config, Request, Controller}
use domainry_foundation.Capacity.Admission.{
  evict_idle, reset_rate_windows, admit, reset_counter_window,
}
use domainry_foundation.Capacity.Limits.{new_controller}
use domainry_foundation.Capacity.Controller.{grant, release}
use domainry_foundation.Capacity.Guards.{HasRoom, admit_unchanged}
use domainry_foundation.Capacity.Ledger.{Accounts}
use domainry_foundation.Capacity.Caps.{
  IsCapped, retain-IsCapped, reset_entry-IsCapped, bump-IsCapped, decrement-IsCapped,
}

abbrev pub IsWorkspaceCapped : {f : Float} → Controller f → Type 0
IsWorkspaceCapped c =
    IsCapped c.limits.workspace_in_flight c.limits.workspace_rate c.limits.max_workspace_states
      c.workspaces

abbrev pub IsUseCaseCapped : {f : Float} → Controller f → Type 0
IsUseCaseCapped c =
    IsCapped c.limits.use_case_in_flight c.limits.use_case_rate c.limits.max_use_case_states
      c.use_cases

-- Every number that the limits bound is within its limit.
pub record IsBounded {f : Float} (c : Controller f) : Type 0 where
  pub process : c.global ≤ c.limits.global_in_flight
  pub process_rate : c.global_rate.rate ≤ c.limits.global_rate
  pub workspaces : IsWorkspaceCapped c
  pub use_cases : IsUseCaseCapped c
  pub retries : c.retries ≤ c.limits.retry_in_flight

module _ {f : Float} where
  pub new_controller-IsBounded :
      (v : Config f) (has_sink : Bool) → IsBounded (new_controller f v has_sink)
  unfolding new_controller
  new_controller-IsBounded v has_sink = record {
    process = omega arith;
    process_rate = omega arith;
    workspaces = record {
      in_flight = λ k. omega arith;
      rate = λ k. omega arith;
      states = omega arith;
    };
    use_cases = record {
      in_flight = λ k. omega arith;
      rate = λ k. omega arith;
      states = omega arith;
    };
    retries = omega arith;
  }

  pub prepare-IsBounded :
      (now : Time) (r : Request) (c : Controller f) (rs : List Request)
      → Accounts c rs
      → IsBounded c
      → IsBounded (reset_rate_windows now r (evict_idle now c))
  unfolding evict_idle reset_rate_windows reset_counter_window
  prepare-IsBounded now r c rs a h =
      let l = c.limits in
      record {
        process = h.process;
        process_rate = ground (arith, h.process_rate);
        workspaces =
            reset_entry-IsCapped now l.rate_window r.workspace_id _
              (retain-IsCapped l.workspace_state_ttl now c.workspaces a.workspace_map h.workspaces);
        use_cases =
            reset_entry-IsCapped now l.rate_window r.use_case _
              (retain-IsCapped l.workspace_state_ttl now c.use_cases a.use_case_map h.use_cases);
        retries = h.retries;
      }

  pub admit-IsBounded : (c : Controller f) (r : Request) → IsBounded c → IsBounded (admit c r).0
  admit-IsBounded c r h =
      let u = admit_unchanged c r in
      record {
        process = rw (u.0, u.1) h.process;
        process_rate = rw (u.0, u.2) h.process_rate;
        workspaces = rw (u.0, u.3) h.workspaces;
        use_cases = rw (u.0, u.4) h.use_cases;
        retries = rw (u.0, u.5) h.retries;
      }

  pub grant-IsBounded :
      (now : Time) (r : Request) (c : Controller f)
      → HasRoom c r
      → IsBounded c
      → IsBounded (grant now r c)
  unfolding grant
  grant-IsBounded now r c room h = record {
    process = omega arith;
    process_rate = omega arith;
    workspaces =
        bump-IsCapped now c.limits.rate_window r.workspace_id c.workspaces room.workspace
          room.workspace_rate room.workspace_states h.workspaces;
    use_cases =
        bump-IsCapped now c.limits.rate_window r.use_case c.use_cases room.use_case
          room.use_case_rate room.use_case_states h.use_cases;
    retries = ground (arith, room.retry, h.retries);
  }

  pub release-IsBounded :
      (now : Time) (r : Request) (c : Controller f) (rs : List Request)
      → Accounts c (r ∷ rs)
      → IsBounded c
      → IsBounded (release c now r).0
  unfolding release
  release-IsBounded now r c rs a h = record {
    process = ground (arith, h.process);
    process_rate = h.process_rate;
    workspaces =
        decrement-IsCapped r.workspace_id c.workspaces
          (ground (arith, a.workspace r.workspace_id, eq_iff r.workspace_id r.workspace_id))
          h.workspaces;
    use_cases =
        decrement-IsCapped r.use_case c.use_cases
          (ground (arith, a.use_case r.use_case, eq_iff r.use_case r.use_case)) h.use_cases;
    retries = ground (arith, h.retries);
  }
