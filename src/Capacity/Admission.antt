-- ===== src/Capacity/Admission.antt =====
-- capacity/controller.go: the helpers of `Acquire`, and `admit`.
use domainry_foundation.Prelude.{
  ℕ, ◌+◌, ◌%◌, Bool, true, false, not, ◌&&◌, ◌||◌, Time, String, str_eq, pos, leb, leb_ℤ, ◌==◌,
  is_zero, sub_time, lookup, lookup_or, insert, retain, is_some, length, uint64_mod, if◌then◌else◌,
  none, some,
}
use domainry_foundation.Capacity.Model.{
  State, degraded, overloaded, Dimension, process, workspace, use_case, retry, unset, Float,
  Request, Decision, Counter, zero_counter, Controller,
}

unfoldable pub reset_counter_window : Counter → Time → ℕ → Counter
reset_counter_window v now window =
    if is_zero v.window_from || leb_ℤ (pos window) (sub_time now v.window_from)
    then record v { rate = 0; window_from = now }
    else v

-- The test of the two loops of `evictIdle`, turned round: the entry stays.
unfoldable pub stays : ℕ → Time → Counter → Bool
stays ttl now v = not (v.in_flight == 0 && leb_ℤ (pos ttl) (sub_time now v.last_seen))

abbrev pub is_degraded : State → Bool
is_degraded degraded = true
is_degraded _ = false

module _ {f : Float} where
  unfoldable pub evict_idle : Time → Controller f → Controller f
  evict_idle now c = record c {
    workspaces = retain (stays c.limits.workspace_state_ttl now) c.workspaces;
    use_cases = retain (stays c.limits.workspace_state_ttl now) c.use_cases;
  }

  unfoldable pub reset_rate_windows : Time → Request → Controller f → Controller f
  reset_rate_windows now r c = record c {
    global_rate = reset_counter_window c.global_rate now c.limits.rate_window;
    workspaces = elim (lookup r.workspace_id c.workspaces) [
      | none ↦ c.workspaces
      | some v ↦
          insert r.workspace_id (reset_counter_window v now c.limits.rate_window) c.workspaces
    ];
    use_cases = elim (lookup r.use_case c.use_cases) [
      | none ↦ c.use_cases
      | some v ↦ insert r.use_case (reset_counter_window v now c.limits.rate_window) c.use_cases
    ];
  }

  -- `uint64` counters wrap.
  unfoldable pub reject :
      Controller f → Decision → Dimension → ℕ → ℕ → String → Controller f × Decision
  reject c d dimension current limit code =
      let d' = record d {
        allowed = false;
        dimension = dimension;
        current = current;
        limit = limit;
        code = code;
      } in
      let c' = record c { rejected = (c.rejected + 1) % uint64_mod } in
      if str_eq code "capacity.process_overloaded"
      then (record c' { state = overloaded }, record d' { state = overloaded })
      else (c', d')

  abbrev pub base_decision : Controller f → Decision
  base_decision c = record {
    allowed = true;
    state = c.state;
    dimension = unset;
    current = 0;
    limit = 0;
    retry_after = c.limits.retry_after;
    code = "";
  }

  unfoldable pub admit : Controller f → Request → Controller f × Decision
  admit c r =
      let refuse = reject c (base_decision c) in
      let ws = lookup_or zero_counter r.workspace_id c.workspaces in
      let uc = lookup_or zero_counter r.use_case c.use_cases in
      if is_degraded c.state && not r.essential
      then refuse process c.global c.limits.global_in_flight "capacity.nonessential_shed"
      else if leb c.limits.global_in_flight c.global
      then refuse process c.global c.limits.global_in_flight "capacity.process_overloaded"
      else if leb c.limits.global_rate c.global_rate.rate
      then refuse process c.global_rate.rate c.limits.global_rate "capacity.process_rate_exceeded"
      else if leb c.limits.workspace_in_flight ws.in_flight
      then refuse workspace ws.in_flight c.limits.workspace_in_flight
          "capacity.workspace_overloaded"
      else if leb c.limits.workspace_rate ws.rate
      then refuse workspace ws.rate c.limits.workspace_rate "capacity.workspace_rate_exceeded"
      else if leb c.limits.use_case_in_flight uc.in_flight
      then refuse use_case uc.in_flight c.limits.use_case_in_flight "capacity.use_case_overloaded"
      else if leb c.limits.use_case_rate uc.rate
      then refuse use_case uc.rate c.limits.use_case_rate "capacity.use_case_rate_exceeded"
      else if r.retry && leb c.limits.retry_in_flight c.retries
      then refuse retry c.retries c.limits.retry_in_flight "capacity.retry_budget_exhausted"
      else if not (is_some (lookup r.workspace_id c.workspaces))
          && leb c.limits.max_workspace_states (length c.workspaces)
      then refuse workspace (length c.workspaces) c.limits.max_workspace_states
          "capacity.workspace_state_exhausted"
      else if not (is_some (lookup r.use_case c.use_cases))
          && leb c.limits.max_use_case_states (length c.use_cases)
      then refuse use_case (length c.use_cases) c.limits.max_use_case_states
          "capacity.use_case_state_exhausted"
      else (c, base_decision c)
