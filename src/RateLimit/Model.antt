-- ===== src/RateLimit/Model.antt =====
-- ratelimit/ratelimit.go: the process-local limiter. The lock makes each method one step; the clock is
-- an argument. A request count never reaches the end of `int`, so it is a plain number.
use domainry_foundation.Prelude.{
  ℕ, zero, suc, ◌+◌, ◌*◌, ◌%◌, ℤ, pos, negsuc, ◌-ℤ◌, wrap, leb_ℤ, Bool, true, false, not, ◌&&◌,
  ◌||◌, Option, none, some, String, str_eq, [], ◌∷◌, length, count_if, leb, Map, lookup, insert,
  erase, retain, Time, Duration, is_zero, before, sub_time, minute, uint64_mod, if◌then◌else◌,
}

pub record Bucket : Type 0 where
  pub window_start : Time
  pub last_seen : Time
  pub count : ℕ

pub record MemoryLimiter : Type 0 where
  pub buckets : Map Bucket
  pub capacity : ℕ
  pub idle_ttl : Duration
  pub evictions : ℕ
  pub expirations : ℕ

pub record Stats : Type 0 where
  pub entries : ℕ
  pub capacity : ℕ
  pub evictions : ℕ
  pub expirations : ℕ

pub record Decision : Type 0 where
  pub allowed : Bool
  pub count : ℕ
  pub limit : ℤ
  pub retry_after : Duration

-- `context_error` is the error of a context that is done.
pub data Answer : Type 0 where
  context_error : Answer
  decided : Decision → Answer

abbrev pub default_memory_capacity : ℕ
default_memory_capacity = 10000

abbrev pub default_memory_idle_ttl : ℕ
default_memory_idle_ttl = 30 * minute

unfoldable pub positive_capacity : ℤ → ℕ
positive_capacity (pos zero) = default_memory_capacity
positive_capacity (pos (suc n)) = suc n
positive_capacity (negsuc n) = default_memory_capacity

unfoldable pub new_memory_limiter : ℤ → MemoryLimiter
unfolding positive_capacity
new_memory_limiter capacity = record {
  buckets = [];
  capacity = positive_capacity capacity;
  idle_ttl = pos default_memory_idle_ttl;
  evictions = 0;
  expirations = 0;
}

-- The test of the loop of `evictExpired`.
unfoldable pub is_expired : Duration → Time → Bucket → Bool
is_expired ttl now b = not (is_zero b.last_seen) && leb_ℤ ttl (sub_time now b.last_seen)

unfoldable pub evict_expired : Time → MemoryLimiter → MemoryLimiter
evict_expired now l = if leb_ℤ l.idle_ttl (pos 0) then l else record l {
  buckets = retain (λ b. not (is_expired l.idle_ttl now b)) l.buckets;
  expirations =
      (l.expirations + count_if (λ e. is_expired l.idle_ttl now e.1) l.buckets) % uint64_mod;
}

-- `time.Unix(1<<62, 0)`, counted from the zero time.
abbrev pub far_future : Time
far_future = 4611686080562984704000000000

-- The loop of `evictOldest`.
unfoldable pub oldest_entry : String × Time → Map Bucket → String × Time
oldest_entry best [] = best
oldest_entry best ((k, b) ∷ m) =
    oldest_entry (if before b.last_seen best.1 then (k, b.last_seen) else best) m

unfoldable pub evict_oldest : MemoryLimiter → MemoryLimiter
unfolding oldest_entry
evict_oldest l =
    let oldest = (oldest_entry ("", far_future) l.buckets).0 in
    if str_eq oldest ""
    then l
    else record l { buckets = erase oldest l.buckets; evictions = (l.evictions + 1) % uint64_mod }

-- The bucket that counts a request: the one found, or a new one where there is none or its window is
-- over.
unfoldable pub current_bucket : Time → Duration → Option Bucket → Bucket
current_bucket now window none = record { window_start = now; last_seen = 0; count = 0 }
current_bucket now window (some b) =
    if is_zero b.window_start || leb_ℤ window (sub_time now b.window_start)
    then record { window_start = now; last_seen = 0; count = 0 }
    else b

-- The bucket after the request is counted.
abbrev pub counted : Time → Bucket → Bucket
counted now b = record b { count = b.count + 1; last_seen = now }

abbrev pub is_none {ℓ} : {A : Type ℓ} → Option A → Bool
is_none none = true
is_none (some _) = false

-- `Allow` below its early returns.
unfoldable pub count_request :
    MemoryLimiter → Time → String → ℤ → Duration → MemoryLimiter × Decision
count_request l now key limit window =
    let l1 = evict_expired now l in
    let found = lookup key l1.buckets in
    let l2 = if is_none found && leb l1.capacity (length l1.buckets) then evict_oldest l1 else l1 in
    let b = counted now (current_bucket now window found) in
    let allowed = leb_ℤ (pos b.count) limit in
    (
      record l2 { buckets = insert key b l2.buckets },
      record {
        allowed = allowed;
        count = b.count;
        limit = limit;
        retry_after = if allowed then pos 0 else wrap (window -ℤ sub_time now b.window_start);
      },
    )

-- `Allow`; `cancelled` tells whether `ctx.Err()` is an error.
unfoldable pub allow : Bool → MemoryLimiter → Time → String → ℤ → Duration → MemoryLimiter × Answer
allow cancelled l now key limit window =
    if cancelled
    then (l, context_error)
    else if leb_ℤ limit (pos 0) || leb_ℤ window (pos 0)
    then (l, decided (record { allowed = true; count = 0; limit = limit; retry_after = pos 0 }))
    else (let (l', d) = count_request l now key limit window in (l', decided d))

unfoldable pub stats : MemoryLimiter → Stats
stats l = record {
  entries = length l.buckets;
  capacity = l.capacity;
  evictions = l.evictions;
  expirations = l.expirations;
}
