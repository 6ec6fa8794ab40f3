-- ===== src/RateLimit/EmptyKey.antt =====
-- The empty key: `evictOldest` takes it for "no bucket found".
use domainry_foundation.Prelude.{
  ◌≡◌, false, ℤ, pos, String, str_eq, [], ◌∷◌, length, arith, Time, Duration, leb_ℤ,
}
use domainry_foundation.RateLimit.Model.{
  Bucket, MemoryLimiter, is_expired, evict_expired, oldest_entry, evict_oldest, count_request,
  allow,
}

-- Where the oldest bucket, still alive, stands under the empty key, a limiter of capacity 1 that is full
-- evicts nothing for a new key, and then holds two buckets.
pub empty_key-exceeds :
    (l : MemoryLimiter) (now : Time) (key : String) (limit : ℤ) (window : Duration) (b : Bucket)
    → l.buckets ≡ ("", b) ∷ []
    → l.capacity ≡ 1
    → is_expired l.idle_ttl now b ≡ false
    → str_eq "" key ≡ false
    → leb_ℤ limit (pos 0) ≡ false
    → leb_ℤ window (pos 0) ≡ false
    → length (allow false l now key limit window).0.buckets ≡ 2
unfolding allow count_request evict_expired evict_oldest oldest_entry
empty_key-exceeds l now key limit window b one full alive named h k = ground arith
