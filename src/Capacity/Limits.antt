-- ===== src/Capacity/Limits.antt =====
-- capacity/controller.go: `normalizeLimits`, `NewController` and `boundedKey`.
use Prim.Native.String.{len}
use domainry_foundation.Prelude.{
  ℕ, zero, suc, ◌+◌, ◌*◌, ℤ, pos, negsuc, Bool, ◌&&◌, ◌||◌, String, str_eq, leb, ltb, [], map,
  trim_space, codes, eq_codes, if◌then◌else◌, minute, second,
}
use domainry_foundation.Capacity.Model.{normal, Float, Config, Limits, zero_counter, Controller}

-- `if value <= 0 { value = fallback }`
unfoldable pub positive_or : ℕ → ℤ → ℕ
positive_or fallback (pos zero) = fallback
positive_or fallback (pos (suc n)) = suc n
positive_or fallback (negsuc n) = fallback

module _ (f : Float) where
  open f use {Number, of_int, le, default_degraded, default_recovery}

  abbrev pub normal_degraded : Number → Number
  normal_degraded d = if le d (of_int 0) || le (of_int 1) d then default_degraded else d

  -- `normalizeLimits`
  unfoldable pub normalize_limits : Config f → Limits f
  unfolding positive_or
  normalize_limits v =
      let d = normal_degraded v.degraded_ratio in
      record {
        global_in_flight = positive_or 256 v.global_in_flight;
        workspace_in_flight = positive_or 32 v.workspace_in_flight;
        use_case_in_flight = positive_or 64 v.use_case_in_flight;
        retry_in_flight = positive_or 16 v.retry_in_flight;
        global_rate = positive_or 6000 v.global_rate;
        workspace_rate = positive_or 600 v.workspace_rate;
        use_case_rate = positive_or 1200 v.use_case_rate;
        rate_window = positive_or minute v.rate_window;
        max_workspace_states = positive_or 10000 v.max_workspace_states;
        max_use_case_states = positive_or 1024 v.max_use_case_states;
        workspace_state_ttl = positive_or (30 * minute) v.workspace_state_ttl;
        degraded_ratio = d;
        recovery_ratio =
            if le v.recovery_ratio (of_int 0) || le d v.recovery_ratio
            then default_recovery
            else v.recovery_ratio;
        retry_after = positive_or (2 * second) v.retry_after;
      }

  -- `NewController`
  unfoldable pub new_controller : Config f → Bool → Controller f
  unfolding normalize_limits
  new_controller v has_sink = record {
    limits = normalize_limits v;
    global = 0;
    global_rate = zero_counter;
    workspaces = [];
    use_cases = [];
    retries = 0;
    state = normal;
    rejected = 0;
    recovered = 0;
    has_sink = has_sink;
  }

-- `strings.ToLower` is a parameter: the case tables of the `unicode` package are not in the source.
unfoldable pub bounded_key : (String → String) → String → String → String
bounded_key lower value fallback =
    let v = lower (trim_space value) in if str_eq v "" || ltb 128 (len v) then fallback else v

fold_ascii : ℕ → ℕ
fold_ascii c = if leb 65 c && leb c 90 then c + 32 else c

-- `strings.EqualFold(s, "default")`: the letters of that word fold to themselves and to their
-- capitals only.
unfoldable pub is_default : String → Bool
unfolding fold_ascii
is_default s = eq_codes (map fold_ascii (codes s)) (codes "default")
