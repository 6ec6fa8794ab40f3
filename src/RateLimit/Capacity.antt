-- ===== src/RateLimit/Capacity.antt =====
-- The number of buckets against the capacity.
use domainry_foundation.Prelude.{
  ◌+◌, ◌≤◌, ◌<◌, ◌≡◌, refl, ◌⊎◌, inl, inr, true, ℤ, none, String, str_eq, eq_iff, [], ◌∷◌, length,
  arith, Map, IsMap, lookup, erase, is_some, lookup-erase, length-erase, erase-IsMap, Time, before,
  Bool-cases, if◌then◌else◌,
}
use domainry_foundation.RateLimit.Model.{
  Bucket, MemoryLimiter, far_future, oldest_entry, evict_oldest, new_memory_limiter,
}

-- Every bucket was seen before the sentinel time of `evictOldest`.
abbrev pub IsDated : Map Bucket → Type 0
IsDated [] = Unit {0}
IsDated ((k, b) ∷ m) = (b.last_seen < far_future) × IsDated m

-- The limiter holds at most `capacity` buckets, one to a key, none under the empty key.
pub record IsValid (l : MemoryLimiter) : Type 0 where
  pub map : IsMap l.buckets
  pub dated : IsDated l.buckets
  pub named : lookup "" l.buckets ≡ none
  pub positive : 0 < l.capacity
  pub within : length l.buckets ≤ l.capacity

erase-IsDated : (k : String) (m : Map Bucket) → IsDated m → IsDated (erase k m)
erase-IsDated k [] d = tt
erase-IsDated k ((j, c) ∷ m) d = ground (arith, erase-IsDated k m)

-- The loop of `evictOldest` returns its start or the key of an entry.
oldest_entry-mem :
    (best : String × Time) (m : Map Bucket)
    → ((oldest_entry best m).0 ≡ best.0) ⊎ (is_some (lookup (oldest_entry best m).0 m) ≡ true)
unfolding oldest_entry
oldest_entry-mem best [] = inl refl
oldest_entry-mem best ((k, b) ∷ m) =
    let best' : String × Time = if before b.last_seen best.1 then (k, b.last_seen) else best in
    ground (arith, oldest_entry-mem best' m, eq_iff k (oldest_entry best' m).0)

-- Where there is an entry, that is the key of one.
oldest_entry-found :
    (m : Map Bucket)
    → IsDated m
    → 0 < length m
    → is_some (lookup (oldest_entry ("", far_future) m).0 m) ≡ true
unfolding oldest_entry
oldest_entry-found [] d h = absurd (omega arith)
oldest_entry-found ((k, b) ∷ m) d h =
    ground
      (arith, oldest_entry-mem (k, b.last_seen) m, eq_iff k (oldest_entry (k, b.last_seen) m).0)

-- With at least one bucket, `evictOldest` takes one away.
pub evict_oldest-IsValid :
    (l : MemoryLimiter)
    → IsValid l
    → 0 < length l.buckets
    → IsValid (evict_oldest l)
      × (length (evict_oldest l).buckets + 1 ≡ length l.buckets)
      × ((evict_oldest l).capacity ≡ l.capacity)
unfolding evict_oldest
evict_oldest-IsValid l v h =
    let key = (oldest_entry ("", far_future) l.buckets).0 in
    let found = oldest_entry-found l.buckets v.dated h in
    let fewer = length-erase key l.buckets v.map found in
    elim (Bool-cases (str_eq key "")) [
      | inl empty ↦ absurd (nameless ((eq_iff key "").0 empty) found v.named)
      | inr named ↦ rw named (
        record {
          map = erase-IsMap key l.buckets v.map;
          dated = erase-IsDated key l.buckets v.dated;
          named = ground (arith, lookup-erase key "" l.buckets, v.named);
          positive = v.positive;
          within = omega (arith, v.within);
        },
        fewer,
        refl,
      )
    ]
  where
    nameless :
        {k : String} → k ≡ "" → is_some (lookup k l.buckets) ≡ true → lookup "" l.buckets ≡ none → ⊥
    nameless e s n = ground arith

pub new_memory_limiter-IsValid : (capacity : ℤ) → IsValid (new_memory_limiter capacity)
unfolding new_memory_limiter
new_memory_limiter-IsValid capacity = record {
  map = tt;
  dated = tt;
  named = refl;
  positive = ground arith;
  within = omega arith;
}
