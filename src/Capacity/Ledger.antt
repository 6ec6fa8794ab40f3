-- ===== src/Capacity/Ledger.antt =====
-- The in-flight numbers of the controller against the requests whose leases are out.
use domainry_foundation.Prelude.{
  ◌≡◌, refl, ◌∙◌, Bool, String, List, [], ◌∷◌, arith, str_eq, IsMap, insert-IsMap, retain-IsMap,
  count_if, length, Time,
}
use domainry_foundation.Capacity.Model.{Float, Config, Request, Controller}
use domainry_foundation.Capacity.Admission.{evict_idle, reset_rate_windows, admit}
use domainry_foundation.Capacity.Limits.{new_controller}
use domainry_foundation.Capacity.Controller.{grant, release}
use domainry_foundation.Capacity.Guards.{admit_unchanged}
use domainry_foundation.Capacity.InFlight.{
  in_flight_of, in_flight_of-retain, in_flight_of-reset_entry, reset_entry-IsMap, in_flight_of-bump,
  in_flight_of-decrement,
}

abbrev pub of_workspace : String → Request → Bool
of_workspace k r = str_eq r.workspace_id k

abbrev pub of_use_case : String → Request → Bool
of_use_case k r = str_eq r.use_case k

-- Every in-flight number is the number of outstanding requests that it stands for.
pub record Accounts {f : Float} (c : Controller f) (rs : List Request) : Type 0 where
  pub workspace_map : IsMap c.workspaces
  pub use_case_map : IsMap c.use_cases
  pub process : c.global ≡ length rs
  pub workspace : (k : String) → in_flight_of c.workspaces k ≡ count_if (of_workspace k) rs
  pub use_case : (k : String) → in_flight_of c.use_cases k ≡ count_if (of_use_case k) rs
  pub retry : c.retries ≡ count_if (λ r. r.retry) rs

module _ {f : Float} where
  pub new_controller-Accounts :
      (v : Config f) (has_sink : Bool) → Accounts (new_controller f v has_sink) []
  unfolding new_controller
  new_controller-Accounts v has_sink = record {
    workspace_map = tt;
    use_case_map = tt;
    process = refl;
    workspace = λ k. refl;
    use_case = λ k. refl;
    retry = refl;
  }

  pub evict_idle-Accounts :
      (now : Time) (c : Controller f) (rs : List Request)
      → Accounts c rs
      → Accounts (evict_idle now c) rs
  unfolding evict_idle
  evict_idle-Accounts now c rs a = record {
    workspace_map = retain-IsMap _ c.workspaces a.workspace_map;
    use_case_map = retain-IsMap _ c.use_cases a.use_case_map;
    process = a.process;
    workspace = λ k. in_flight_of-retain _ now c.workspaces k a.workspace_map ∙ a.workspace k;
    use_case = λ k. in_flight_of-retain _ now c.use_cases k a.use_case_map ∙ a.use_case k;
    retry = a.retry;
  }

  pub reset_rate_windows-Accounts :
      (now : Time) (r : Request) (c : Controller f) (rs : List Request)
      → Accounts c rs
      → Accounts (reset_rate_windows now r c) rs
  unfolding reset_rate_windows
  reset_rate_windows-Accounts now r c rs a = record {
    workspace_map = reset_entry-IsMap now _ r.workspace_id c.workspaces a.workspace_map;
    use_case_map = reset_entry-IsMap now _ r.use_case c.use_cases a.use_case_map;
    process = a.process;
    workspace = λ k. in_flight_of-reset_entry now _ r.workspace_id k c.workspaces ∙ a.workspace k;
    use_case = λ k. in_flight_of-reset_entry now _ r.use_case k c.use_cases ∙ a.use_case k;
    retry = a.retry;
  }

  pub admit-Accounts :
      (c : Controller f) (r : Request) (rs : List Request)
      → Accounts c rs
      → Accounts (admit c r).0 rs
  admit-Accounts c r rs a =
      let u = admit_unchanged c r in
      record {
        workspace_map = rw (u.3) a.workspace_map;
        use_case_map = rw (u.4) a.use_case_map;
        process = rw (u.1) a.process;
        workspace = λ k. rw (u.3) (a.workspace k);
        use_case = λ k. rw (u.4) (a.use_case k);
        retry = rw (u.5) a.retry;
      }

  pub grant-Accounts :
      (now : Time) (r : Request) (c : Controller f) (rs : List Request)
      → Accounts c rs
      → Accounts (grant now r c) (r ∷ rs)
  unfolding grant
  grant-Accounts now r c rs a = record {
    workspace_map = insert-IsMap r.workspace_id _ c.workspaces a.workspace_map;
    use_case_map = insert-IsMap r.use_case _ c.use_cases a.use_case_map;
    process = omega (arith, a.process);
    workspace = λ k. ground (
      arith,
      in_flight_of-bump now c.limits.rate_window c.workspaces r.workspace_id k,
      a.workspace k,
    );
    use_case = λ k.
        ground (
          arith,
          in_flight_of-bump now c.limits.rate_window c.use_cases r.use_case k,
          a.use_case k,
        );
    retry = ground (arith, a.retry);
  }

  pub release-Accounts :
      (now : Time) (r : Request) (c : Controller f) (rs : List Request)
      → Accounts c (r ∷ rs)
      → Accounts (release c now r).0 rs
  unfolding release
  release-Accounts now r c rs a = record {
    workspace_map = insert-IsMap r.workspace_id _ c.workspaces a.workspace_map;
    use_case_map = insert-IsMap r.use_case _ c.use_cases a.use_case_map;
    process = ground (arith, a.process);
    workspace =
        λ k. ground (arith, in_flight_of-decrement c.workspaces r.workspace_id k, a.workspace k);
    use_case = λ k. ground (arith, in_flight_of-decrement c.use_cases r.use_case k, a.use_case k);
    retry = ground (arith, a.retry);
  }
