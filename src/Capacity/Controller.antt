-- ===== src/Capacity/Controller.antt =====
-- capacity/controller.go: `Acquire`, `Release` and `Snapshot`.
use domainry_foundation.Prelude.{
  ℕ, ◌+◌, ◌-◌, ◌%◌, Bool, true, false, not, ◌&&◌, ◌||◌, Time, String, Option, none, some, str_eq,
  ltb, Map, lookup_or, insert, length, uint64_mod, if◌then◌else◌,
}
use domainry_foundation.Capacity.Model.{
  State, normal, degraded, overloaded, process, unset, Float, Limits, Request, Decision, Event,
  Snapshot, Counter, zero_counter, Controller,
}
use domainry_foundation.Capacity.Admission.{
  reset_counter_window, evict_idle, reset_rate_windows, admit,
}
use domainry_foundation.Capacity.Limits.{bounded_key, is_default}

-- The updates of an admitted request in one of the two maps.
unfoldable pub bump : Time → ℕ → Counter → Counter
unfolding reset_counter_window
bump now window v =
    let v' = reset_counter_window v now window in
    record v' { in_flight = v'.in_flight + 1; rate = v'.rate + 1; last_seen = now }

abbrev pub decremented : Counter → Counter
decremented v = if ltb 0 v.in_flight then record v { in_flight = v.in_flight - 1 } else v

unfoldable pub decrement : Map Counter → String → Map Counter
decrement values key = insert key (decremented (lookup_or zero_counter key values)) values

abbrev pub is_normal : State → Bool
is_normal normal = true
is_normal _ = false

module _ {f : Float} where
  open f use {of_int, div, le, lt}

  unfoldable pub ratio : Controller f → f.Number
  ratio c = div (of_int c.global) (of_int c.limits.global_in_flight)

  -- The `switch` of `updateStateLocked`.
  unfoldable pub next_state : Limits f → f.Number → State → State
  next_state l r normal =
      if le (of_int 1) r then overloaded else if le l.degraded_ratio r then degraded else normal
  next_state l r degraded =
      if le r l.recovery_ratio then normal else if lt r (of_int 1) then degraded else degraded
  next_state l r overloaded =
      if le r l.recovery_ratio then normal else if lt r (of_int 1) then degraded else overloaded

  unfoldable pub update_state : Controller f → Controller f
  unfolding ratio next_state
  update_state c = record c { state = next_state c.limits (ratio c) c.state }

  unfoldable pub grant : Time → Request → Controller f → Controller f
  unfolding bump update_state
  grant now r c = update_state (record c {
    global = c.global + 1;
    global_rate = record c.global_rate { rate = c.global_rate.rate + 1; last_seen = now };
    workspaces =
        insert r.workspace_id
          (bump now c.limits.rate_window (lookup_or zero_counter r.workspace_id c.workspaces))
          c.workspaces;
    use_cases =
        insert r.use_case
          (bump now c.limits.rate_window (lookup_or zero_counter r.use_case c.use_cases))
          c.use_cases;
    retries = if r.retry then c.retries + 1 else c.retries;
  })

  -- `eventFor`, and the call of the sink.
  unfoldable pub event_for : Controller f → Decision → Request → Time → Option Event
  event_for c d r now =
      if d.allowed
      then none
      else if c.has_sink && not (str_eq d.code "")
      then some (record {
        state = d.state;
        dimension = d.dimension;
        workspace_id = r.workspace_id;
        use_case = r.use_case;
        current = d.current;
        limit = d.limit;
        code = d.code;
        at = now;
      })
      else none

  -- `Acquire` between its two locks, for a request whose keys are normalised. The lease is given
  -- by its request.
  unfoldable pub acquire_locked :
      Controller f → Time → Request → Controller f × Option Request × Decision × Option Event
  unfolding event_for
  acquire_locked c now r =
      let (c', d) = admit (reset_rate_windows now r (evict_idle now c)) r in
      if d.allowed
      then (let g = grant now r c' in (g, some r, record d { state = g.state }, none))
      else (c', none, d, event_for c' d r now)

  abbrev pub refused : Controller f → String → Decision
  refused c code = record {
    allowed = false;
    state = c.state;
    dimension = unset;
    current = 0;
    limit = 0;
    retry_after = 0;
    code = code;
  }

  -- `Acquire`; `cancelled` tells whether `ctx.Err()` is an error.
  unfoldable pub acquire :
      (String → String)
      → Bool
      → Controller f
      → Time
      → Request
      → Controller f × Option Request × Decision × Option Event
  unfolding bounded_key is_default
  acquire lower cancelled c now r =
      let ws = bounded_key lower r.workspace_id "" in
      if cancelled
      then (c, none, refused c "capacity.request_cancelled", none)
      else if str_eq ws "" || is_default ws
      then (c, none, refused c "capacity.workspace_scope_required", none)
      else acquire_locked c now
          (record r { workspace_id = ws; use_case = bounded_key lower r.use_case "unknown" })

  -- The counters of `release`.
  abbrev pub give_back : Request → Controller f → Controller f
  give_back r c = record c {
    global = if ltb 0 c.global then c.global - 1 else c.global;
    workspaces = decrement c.workspaces r.workspace_id;
    use_cases = decrement c.use_cases r.use_case;
    retries = if r.retry && ltb 0 c.retries then c.retries - 1 else c.retries;
  }

  -- `release`
  unfoldable pub release : Controller f → Time → Request → Controller f × Option Event
  unfolding decrement update_state
  release c now r =
      let u = update_state (give_back r c) in
      let back = not (is_normal c.state) && is_normal u.state in
      (
        record u { recovered = if back then (u.recovered + 1) % uint64_mod else u.recovered },
        if back && c.has_sink
            then some (record {
              state = u.state;
              dimension = process;
              workspace_id = "";
              use_case = "";
              current = u.global;
              limit = c.limits.global_in_flight;
              code = "capacity.recovered";
              at = now;
            })
            else none,
      )

  unfoldable pub snapshot : Controller f → Snapshot
  snapshot c = record {
    state = c.state;
    global_in_flight = c.global;
    global_limit = c.limits.global_in_flight;
    global_rate = c.global_rate.rate;
    global_rate_limit = c.limits.global_rate;
    workspace_states = length c.workspaces;
    use_case_states = length c.use_cases;
    rejected_total = c.rejected;
    recovered_total = c.recovered;
  }
