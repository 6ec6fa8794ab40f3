-- ===== src/RateLimit/Windows.antt =====
-- What one call of `Allow` decides, and where the limit can be passed.
use domainry_foundation.Prelude.{
  ℕ, suc, ◌+◌, ◌<◌, ◌≡◌, refl, inl, inr, Bool, true, false, not, ◌&&◌, ◌||◌, ℤ, pos, none, some,
  String, str_eq, List, [], ◌∷◌, length, arith, leb, ◌∙◌, IsMap, lookup, lookup-insert_self,
  insert-IsMap, retain-IsMap, erase-IsMap, min, ◌-◌, lookup-retain, Time, Duration, is_zero,
  sub_time, Bool-cases, if◌then◌else◌, leb_ℤ, wrap, ◌-ℤ◌,
}
use domainry_foundation.RateLimit.Model.{
  Bucket, MemoryLimiter, Answer, context_error, decided, oldest_entry, far_future, is_expired,
  evict_expired, evict_oldest, is_none, current_bucket, counted, count_request, allow,
}

-- The bucket that `Allow` counts a request in: the stored one, unless it is expired or its window is
-- over.
abbrev pub live_bucket : MemoryLimiter → Time → String → Duration → Bucket
live_bucket l now key window = elim (lookup key l.buckets) [
  | none ↦ current_bucket now window none
  | some b ↦
      if not (leb_ℤ l.idle_ttl (pos 0)) && is_expired l.idle_ttl now b
      then current_bucket now window none
      else current_bucket now window (some b)
]

evict_expired-live :
    (l : MemoryLimiter) (now : Time) (key : String) (window : Duration)
    → IsMap l.buckets
    → current_bucket now window (lookup key (evict_expired now l).buckets)
      ≡ live_bucket l now key window
unfolding evict_expired
evict_expired-live l now key window u =
    ground (arith, lookup-retain (λ b. not (is_expired l.idle_ttl now b)) key l.buckets u)

-- With a positive limit and window, `Allow` counts the request in the live bucket of its key, allows it
-- exactly if the new count is within the limit, and stores the new count.
pub allow_counts :
    (l : MemoryLimiter) (now : Time) (key : String) (limit : ℤ) (window : Duration)
    → IsMap l.buckets
    → leb_ℤ limit (pos 0) ≡ false
    → leb_ℤ window (pos 0) ≡ false
    → let b = counted now (live_bucket l now key window) in
      let result = allow false l now key limit window in
      (result.1
        ≡ decided (record {
          allowed = leb_ℤ (pos b.count) limit;
          count = b.count;
          limit = limit;
          retry_after =
              if leb_ℤ (pos b.count) limit
              then pos 0
              else wrap (window -ℤ sub_time now b.window_start);
        }))
      × (lookup key result.0.buckets ≡ some b)
unfolding allow count_request
allow_counts l now key limit window u h k =
    rw (h, k, evict_expired-live l now key window u) (refl, lookup-insert_self key _ _)

-- What every step keeps of a limiter.
abbrev Keeps : MemoryLimiter → MemoryLimiter → Type 0
Keeps l l' = IsMap l'.buckets × (l'.idle_ttl ≡ l.idle_ttl)

evict_expired-Keeps :
    (now : Time) (l : MemoryLimiter) → IsMap l.buckets → Keeps l (evict_expired now l)
unfolding evict_expired
evict_expired-Keeps now l u = elim (Bool-cases (leb_ℤ l.idle_ttl (pos 0))) [
  | inl off ↦ rw off (u, refl)
  | inr on ↦ rw on (retain-IsMap _ l.buckets u, refl)
]

evict_oldest-Keeps : (l : MemoryLimiter) → IsMap l.buckets → Keeps l (evict_oldest l)
unfolding evict_oldest
evict_oldest-Keeps l u =
    let key = (oldest_entry ("", far_future) l.buckets).0 in
    elim (Bool-cases (str_eq key "")) [
      | inl empty ↦ rw empty (u, refl)
      | inr named ↦ rw named (erase-IsMap key l.buckets u, refl)
    ]

evict-Keeps :
    (full : Bool) (l : MemoryLimiter)
    → IsMap l.buckets
    → Keeps l (if full then evict_oldest l else l)
evict-Keeps true l u = evict_oldest-Keeps l u
evict-Keeps false l u = (u, refl)

count_request-Keeps :
    (l : MemoryLimiter) (now : Time) (key : String) (limit : ℤ) (window : Duration)
    → IsMap l.buckets
    → Keeps l (count_request l now key limit window).0
unfolding count_request
count_request-Keeps l now key limit window u =
    let l1 = evict_expired now l in
    let k1 = evict_expired-Keeps now l u in
    let full = is_none (lookup key l1.buckets) && leb l1.capacity (length l1.buckets) in
    let k2 = evict-Keeps full l1 (k1.0) in (insert-IsMap key _ _ (k2.0), k2.1 ∙ k1.1)

allow-Keeps :
    (l : MemoryLimiter) (now : Time) (key : String) (limit : ℤ) (window : Duration)
    → IsMap l.buckets
    → Keeps l (allow false l now key limit window).0
unfolding allow
allow-Keeps l now key limit window u =
    elim (Bool-cases (leb_ℤ limit (pos 0) || leb_ℤ window (pos 0))) [
      | inl off ↦ rw off (u, refl)
      | inr on ↦ rw on (count_request-Keeps l now key limit window u)
    ]

-- A bucket that is neither expired nor past its window is the live one.
live_bucket-steady :
    (l : MemoryLimiter) (now : Time) (key : String) (window : Duration) (b : Bucket)
    → lookup key l.buckets ≡ some b
    → is_zero b.window_start ≡ false
    → leb_ℤ window (sub_time now b.window_start) ≡ false
    → leb_ℤ l.idle_ttl (sub_time now b.last_seen) ≡ false
    → live_bucket l now key window ≡ b
unfolding is_expired current_bucket
live_bucket-steady l now key window b f z w t = ground arith

-- Requests at these times, the bucket having been opened at `start` and last seen at `last`, fall into
-- one window, and none comes after the idle time.
abbrev pub IsSteady : Time → Duration → Duration → Time → List Time → Type 0
IsSteady start window ttl last [] = Unit {0}
IsSteady start window ttl last (t ∷ ts) =
    (leb_ℤ window (sub_time t start) ≡ false)
    × (leb_ℤ ttl (sub_time t last) ≡ false)
    × IsSteady start window ttl t ts

abbrev allowed_one : Answer → ℕ
allowed_one context_error = 0
allowed_one (decided d) = if d.allowed then 1 else 0

-- How many of a key's requests at these times are allowed.
abbrev pub allowed_count : MemoryLimiter → String → ℤ → Duration → List Time → ℕ
allowed_count l key limit window [] = 0
allowed_count l key limit window (t ∷ ts) =
    let result = allow false l t key limit window in
    allowed_one result.1 + allowed_count result.0 key limit window ts

-- While no other key is used, a key that has a bucket gets within its window what is left of its limit and
-- no more: of its requests in a row, at steady times, exactly `n - b.count` are allowed where there are
-- that many, and all of them where there are fewer, `b` being its bucket with a window start, `n` its
-- positive limit, and the window positive. Requests of another key between them may evict the bucket, and
-- are not covered.
pub allowed_count_lem :
    (l : MemoryLimiter) (key : String) (n : ℕ) (window : Duration) (b : Bucket) (ts : List Time)
    → IsMap l.buckets
    → lookup key l.buckets ≡ some b
    → is_zero b.window_start ≡ false
    → 0 < n
    → leb_ℤ window (pos 0) ≡ false
    → IsSteady b.window_start window l.idle_ttl b.last_seen ts
    → allowed_count l key (pos n) window ts ≡ min (length ts) (n - b.count)
allowed_count_lem l key n window b [] u f z p w s = omega arith
allowed_count_lem l key n window b (t ∷ ts) u f z p w s =
    let result = allow false l t key (pos n) window in
    let counts = allow_counts l t key (pos n) window u (ground arith) w in
    let kept = allow-Keeps l t key (pos n) window u in
    let live = live_bucket-steady l t key window b f z (s.0) (s.1) in
    let later =
      allowed_count_lem result.0 key n window (counted t b) ts (kept.0) (rw live at (counts.1)) z p
        w (rw (kept.1) (s.2)) in
    rw (counts.0, live, later) (ground arith)

fresh_bucket :
    (l : MemoryLimiter) (now : Time) (key : String) (window : Duration) (b : Bucket)
    → lookup key l.buckets ≡ some b
    → leb_ℤ l.idle_ttl (pos 0) ≡ false
    → is_zero b.last_seen ≡ false
    → leb_ℤ l.idle_ttl (sub_time now b.last_seen) ≡ true
    → live_bucket l now key window ≡ record { window_start = now; last_seen = 0; count = 0 }
unfolding is_expired current_bucket
fresh_bucket l now key window b f on seen idle =
    rw (live_bucket, f, on, is_expired, seen, idle) refl

-- A bucket that was idle for the idle time is dropped even if its window is longer than that: whatever
-- it had counted, the next request of its key is allowed, as the first of a new window.
pub expiry_resets :
    (l : MemoryLimiter) (now : Time) (key : String) (n : ℕ) (window : Duration) (b : Bucket)
    → IsMap l.buckets
    → lookup key l.buckets ≡ some b
    → leb_ℤ l.idle_ttl (pos 0) ≡ false
    → is_zero b.last_seen ≡ false
    → leb_ℤ l.idle_ttl (sub_time now b.last_seen) ≡ true
    → leb_ℤ window (sub_time now b.window_start) ≡ false
    → leb_ℤ window (pos 0) ≡ false
    → (allow false l now key (pos (suc n)) window).1
      ≡ decided (record { allowed = true; count = 1; limit = pos (suc n); retry_after = pos 0 })
expiry_resets l now key n window b u f on seen idle within w =
    (allow_counts l now key (pos (suc n)) window u (ground arith) w).0
    ∙ rw (fresh_bucket l now key window b f on seen idle) (ground arith)
