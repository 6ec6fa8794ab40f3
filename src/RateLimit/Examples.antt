-- ===== src/RateLimit/Examples.antt =====
-- The theorems on the limiter at concrete requests.
use domainry_foundation.Prelude.{◌≡◌, refl, pos, List, [], ◌∷◌, arith, Time}
use domainry_foundation.RateLimit.Model.{Bucket, MemoryLimiter}
use domainry_foundation.RateLimit.Windows.{allowed_count, allowed_count_lem}

abbrev opened : Bucket
opened = record { window_start = 1000; last_seen = 1000; count = 1 }

-- One bucket, a capacity of one, and an idle time of 50.
abbrev limiter : MemoryLimiter
limiter = record {
  buckets = ("a", opened) ∷ [];
  capacity = 1;
  idle_ttl = pos 50;
  evictions = 0;
  expirations = 0;
}

abbrev requests : List Time
requests = 1010 ∷ 1020 ∷ 1060 ∷ []

allowed_count_lem_example : allowed_count limiter "a" (pos 2) (pos 100) requests ≡ 1
allowed_count_lem_example =
    allowed_count_lem limiter "a" 2 (pos 100) opened requests (refl, tt) refl refl (omega arith)
      refl (refl, refl, (refl, refl, (refl, refl, tt)))
