-- ===== src/Worker/Backoff.antt =====
-- The delays between retries, and the intervals between idle polls.
use native.Mathlib.Nat.{pow-succ', mul_assoc}
use domainry_foundation.Prelude.{
  ℕ, zero, suc, ◌+◌, ◌*◌, ◌^◌, ◌-◌, ◌≤◌, ◌<◌, min, ◌≡◌, refl, inl, inr, pos, negsuc, ◌*ℤ◌, wrap,
  pos-mul, wrap-pos, ltb_ℤ, ltb, leb, int64_bound, uint64_mod, true, false, none, arith, Bool-cases,
  str_eq, Duration, if◌then◌else◌, ltb-eq-true, leb-eq-false, ltb-eq-false,
}
use domainry_foundation.Worker.Retry.{
  RetryPolicy, backoff_exponential, double_delay, cap_delay, add_jitter, delay,
  next_adaptive_interval,
}

scaled-suc : (d n : ℕ) → d * 2 ^ suc n ≡ (d * 2) * 2 ^ n
scaled-suc d n = rw (pow-succ' 2 n, mul_assoc d 2 (2 ^ n)) refl

scaled-ge : (d n : ℕ) → d ≤ d * 2 ^ n
scaled-ge d zero = omega arith
scaled-ge d (suc n) = let k = scaled-ge (d * 2) n in rw (scaled-suc d n) (omega arith)

-- Doubling a duration, within the range and past it.
double-eq : (d : ℕ) → d * 2 < int64_bound → wrap (pos d *ℤ pos 2) ≡ pos (d * 2)
double-eq d h = rw (pos-mul d 2) (wrap-pos (d * 2) h)

double-overflow :
    (d : ℕ)
    → d < int64_bound
    → int64_bound ≤ d * 2
    → wrap (pos d *ℤ pos 2) ≡ negsuc (uint64_mod - 1 - d * 2)
unfolding wrap
double-overflow d h k = rw (pos-mul d 2) (ground arith)

cap_delay-min : (m d : ℕ) → 0 < m → cap_delay (pos m) (pos d) ≡ pos (min d m)
unfolding cap_delay
cap_delay-min m d h = ground arith

-- The three ways the loop of `Delay` goes on.
double_delay-enough : (n m d : ℕ) → m ≤ d → double_delay (suc n) (pos m) (pos d) ≡ pos d
unfolding double_delay
double_delay-enough n m d h = rw (ltb-eq-false (d + 0) (m + 0) (omega arith)) refl

double_delay-fits :
    (n m d : ℕ)
    → d < m
    → 0 < d
    → d * 2 < int64_bound
    → double_delay (suc n) (pos m) (pos d) ≡ double_delay n (pos m) (pos (d * 2))
unfolding double_delay
double_delay-fits n m d h k f =
    rw
      (
        ltb-eq-true (d + 0) (m + 0) (omega arith),
        double-eq d f,
        leb-eq-false (d * 2 + 0) 0 (omega arith),
      )
      refl

double_delay-wraps :
    (n m d : ℕ)
    → d < m
    → d < int64_bound
    → int64_bound ≤ d * 2
    → double_delay (suc n) (pos m) (pos d) ≡ pos m
unfolding double_delay
double_delay-wraps n m d h k f =
    rw (ltb-eq-true (d + 0) (m + 0) (omega arith), double-overflow d k f) (ground arith)

double_delay-zero : (max d : Duration) → double_delay 0 max d ≡ d
unfolding double_delay
double_delay-zero max d = refl

double_delay-min :
    (n m d : ℕ)
    → 0 < d
    → 0 < m
    → d < int64_bound
    → m < int64_bound
    → cap_delay (pos m) (double_delay n (pos m) (pos d)) ≡ pos (min (d * 2 ^ n) m)
double_delay-min zero m d p q r s =
    rw (double_delay-zero (pos m) (pos d), cap_delay-min m d q) (ground arith)
double_delay-min (suc n) m d p q r s =
    let below = scaled-ge (d * 2) n in
    elim (Bool-cases (ltb d m)) [
      | inr over ↦
          rw (double_delay-enough n m d (ground arith), cap_delay-min m d q, scaled-suc d n)
            (ground arith)
      | inl under ↦ elim (Bool-cases (ltb (d * 2) int64_bound)) [
        | inl fits ↦
            let later = double_delay-min n m (d * 2) (omega arith) q (ground arith) s in
            rw (double_delay-fits n m d (ground arith) p (ground arith), later, scaled-suc d n) refl
        | inr wraps ↦
            rw
              (
                double_delay-wraps n m d (ground arith) r (ground arith),
                cap_delay-min m m q,
                scaled-suc d n,
              )
              (ground arith)
      ]
    ]

-- With a positive base delay `b` and a positive maximum `m`, and without jitter, attempt n + 1 waits for
-- b * 2 ^ n under exponential backoff and for b otherwise, but for `m` at most: the overflow of the
-- doubling is never seen.
delay_exact :
    (policy : RetryPolicy) (b m n : ℕ)
    → policy.base_delay ≡ pos b
    → policy.max_delay ≡ pos m
    → 0 < b
    → 0 < m
    → b < int64_bound
    → m < int64_bound
    → delay policy (pos (suc n)) none
      ≡ pos (min (if str_eq policy.backoff backoff_exponential then b * 2 ^ n else b) m)
unfolding delay add_jitter
delay_exact policy b m n e f p q r s =
    let positive : ltb_ℤ (pos b) (pos 0) ≡ false = ltb-eq-false (b + 0) 0 (omega arith) in
    elim (Bool-cases (str_eq policy.backoff backoff_exponential)) [
      | inr fixed ↦ rw (fixed, e, f, positive) (cap_delay-min m b q)
      | inl exponential ↦ elim (Bool-cases (ltb_ℤ (pos 1) (pos (suc n)))) [
        | inl later ↦
            let k : suc n - 1 ≡ n = omega arith in
            rw (exponential, e, f, positive, later, k) (double_delay-min n m b p q r s)
        | inr first ↦
            let k : n ≡ 0 = ground arith in
            rw (exponential, e, f, positive, first, k, cap_delay-min m b q) (ground arith)
      ]
    ]

-- Under exponential backoff with no base delay the second attempt and every later one waits for the
-- maximum delay at once: the loop takes the doubled zero for an overflow.
pub delay_zero_base :
    (policy : RetryPolicy) (m n : ℕ)
    → policy.base_delay ≡ pos 0
    → policy.max_delay ≡ pos m
    → str_eq policy.backoff backoff_exponential ≡ true
    → 0 < m
    → delay policy (pos (suc (suc n))) none ≡ pos m
unfolding delay add_jitter double_delay cap_delay wrap ◌*ℤ◌
delay_zero_base policy m n e f exponential q = rw (exponential, e, f) (ground arith)

-- The interval after so many polls in a row that found no work.
abbrev pub idle_interval : ℕ → Duration → Duration → Duration → Duration
idle_interval zero current min_interval max_interval = current
idle_interval (suc k) current min_interval max_interval =
    idle_interval k (next_adaptive_interval current min_interval max_interval false) min_interval
      max_interval

next_adaptive_interval-min :
    (d m M : ℕ)
    → 0 < d
    → d ≤ M
    → M * 2 < int64_bound
    → next_adaptive_interval (pos d) (pos m) (pos M) false ≡ pos (min (d * 2) M)
unfolding next_adaptive_interval
next_adaptive_interval-min d m M p h k = rw (double-eq d (omega arith)) (ground arith)

scaled-min : (d M k : ℕ) → min (min (d * 2) M * 2 ^ k) M ≡ min (d * 2 ^ suc k) M
scaled-min d M k = elim (Bool-cases (leb (d * 2) M)) [
  | inl fits ↦ let e : min (d * 2) M ≡ d * 2 = ground arith in rw (e, scaled-suc d k) refl
  | inr over ↦
      let e : min (d * 2) M ≡ M = ground arith in
      let below = scaled-ge (d * 2) k in
      let top = scaled-ge M k in rw (e, scaled-suc d k) (ground arith)
]

-- Polls that find no work wait twice as long each time, up to the maximum: after `k` of them an interval
-- of `d` is d * 2 ^ k, but `M` at most. The maximum has to be below 2 ^ 62 nanoseconds.
idle_interval_lem :
    (k d m M : ℕ)
    → 0 < d
    → d ≤ M
    → M * 2 < int64_bound
    → idle_interval k (pos d) (pos m) (pos M) ≡ pos (min (d * 2 ^ k) M)
idle_interval_lem zero d m M p h b = ground arith
idle_interval_lem (suc k) d m M p h b =
    rw
      (
        next_adaptive_interval-min d m M p h b,
        idle_interval_lem k (min (d * 2) M) m M (ground arith) (ground arith) b,
        scaled-min d M k,
      )
      refl

-- With a maximum above 2 ^ 62 nanoseconds the doubling overflows: from an interval of 2 ^ 62 or more
-- that is below the maximum, the next interval is negative, so the loop does not wait.
pub next_adaptive_interval_overflow :
    (d m M : ℕ)
    → d < M
    → M < int64_bound
    → int64_bound ≤ d * 2
    → next_adaptive_interval (pos d) (pos m) (pos M) false ≡ negsuc (uint64_mod - 1 - d * 2)
unfolding next_adaptive_interval
next_adaptive_interval_overflow d m M h k o = rw (double-overflow d (omega arith) o) (ground arith)
