-- ===== src/Worker/Retry.antt =====
-- worker/retry.go, and `nextAdaptiveInterval` of worker/lifecycle.go. Durations and attempts are 64-bit
-- integers. A jitter source is a parameter: nil, or a function on durations.
use domainry_foundation.Prelude.{
  ℕ, zero, suc, ◌-◌, ℤ, pos, ◌*ℤ◌, ◌+ℤ◌, wrap, ltb_ℤ, leb_ℤ, pos_part, Bool, ◌&&◌, ◌||◌, Option,
  none, some, String, str_eq, Time, Duration, is_zero, before, if◌then◌else◌,
}

abbrev pub BackoffKind : Type 0
BackoffKind = String

abbrev pub backoff_fixed : BackoffKind
backoff_fixed = "fixed"

abbrev pub backoff_exponential : BackoffKind
backoff_exponential = "exponential"

pub record RetryPolicy : Type 0 where
  pub max_attempts : ℤ
  pub base_delay : Duration
  pub max_delay : Duration
  pub backoff : BackoffKind
  pub deadline : Time
  pub jitter_max : Duration

abbrev pub JitterSource : Type 0
JitterSource = Option (Duration → Duration)

unfoldable pub allows : RetryPolicy → ℤ → Time → Bool
allows policy attempt now =
    ltb_ℤ (pos 0) attempt
    && (ltb_ℤ (pos 0) policy.max_attempts
        && (ltb_ℤ attempt policy.max_attempts
            && (is_zero policy.deadline || before now policy.deadline)))

-- The loop of `Delay`, with the number of steps that are left.
unfoldable pub double_delay : ℕ → Duration → Duration → Duration
double_delay zero max delay = delay
double_delay (suc n) max delay =
    let delay' = wrap (delay *ℤ pos 2) in
    let rest = double_delay n max delay' in
    if ltb_ℤ delay max then (if leb_ℤ delay' (pos 0) then max else rest) else delay

unfoldable pub cap_delay : Duration → Duration → Duration
cap_delay max delay = if ltb_ℤ (pos 0) max && ltb_ℤ max delay then max else delay

unfoldable pub add_jitter : Duration → JitterSource → Duration → Duration
add_jitter max none delay = delay
add_jitter max (some jitter) delay = if ltb_ℤ (pos 0) max then wrap (delay +ℤ jitter max) else delay

unfoldable pub delay : RetryPolicy → ℤ → JitterSource → Duration
unfolding double_delay cap_delay add_jitter
delay policy attempt jitter =
    let base = if ltb_ℤ policy.base_delay (pos 0) then pos 0 else policy.base_delay in
    let grown =
      if str_eq policy.backoff backoff_exponential && ltb_ℤ (pos 1) attempt
      then double_delay (pos_part attempt - 1) policy.max_delay base
      else base in
    add_jitter policy.jitter_max jitter (cap_delay policy.max_delay grown)

-- `nextAdaptiveInterval` of worker/lifecycle.go.
unfoldable pub next_adaptive_interval : Duration → Duration → Duration → Bool → Duration
next_adaptive_interval current min_interval max_interval worked =
    if worked
    then min_interval
    else if leb_ℤ max_interval current
    then max_interval
    else (let current' = wrap (current *ℤ pos 2) in
        if ltb_ℤ max_interval current' then max_interval else current')
