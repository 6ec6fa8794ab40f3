-- ===== src/Pagination/Numbers.antt =====
-- Numbered pages: their bounds, their concatenation, and what happens past the range of `int`.
use domainry_foundation.Prelude.{
  ℕ, zero, suc, ◌+◌, ◌-◌, ◌*◌, ◌<◌, ◌≤◌, ℤ, pos, negsuc, ◌≤ℤ◌, ltb_ℤ, ◌≡◌, refl, ap, ◌∙◌, true,
  none, some, Option, List, [], ◌++◌, length, take, drop, arith, if◌then◌else◌, int64_bound,
  uint64_mod, wrap, wrap-pos, pos-add, pos-sub, pos-mul, ltb, leb-eq-true, take-add, take-min,
  take-nil, drop_all, length-drop,
}
use Prim.Native.Nat.{min}
use native.Mathlib.Decide.{dec_le}
use domainry_foundation.Pagination.Model.{
  at_most, non_negative, normal_size, slice_items, Numbered, bounds, slice_numbered,
}

-- Whatever is requested, the page size is positive, and within the maximum where there is one.
pub normal_size_bounds :
    (requested default maximum : ℤ)
    → let size = normal_size requested default maximum in
      (pos 1 ≤ℤ size) × (ltb_ℤ (pos 0) maximum ≡ true → size ≤ℤ maximum)
unfolding normal_size
normal_size_bounds requested default maximum = (ground arith, λ h. ground arith)

at_most-pos : (a total : ℕ) → at_most (pos total) (pos a) ≡ pos (min a total)
unfolding at_most
at_most-pos a total = ground arith

non_negative-pos : (total : ℕ) → non_negative (pos total) ≡ pos total
unfolding non_negative
non_negative-pos total = ground arith

add_zero : (a b : ℕ) → ltb_ℤ (pos a) (pos b) ≡ ltb a b
add_zero a b = ground arith

abbrev pub numbered : ℕ → ℕ → Numbered
numbered p n = record { page = pos (suc p); page_size = pos n }

-- The window of page `p + 1` of size `n`, where neither its end nor the next page's number overflows:
-- it runs from `p * n` to `p * n + n`, both held to the length, and there is a next page exactly if it
-- ends before the length.
pub bounds_window :
    (p n total : ℕ)
    → p * n + n < int64_bound
    → suc p + 1 < int64_bound
    → bounds (numbered p n) (pos total) ≡ record {
      start = pos (min (p * n) total);
      end = pos (min (p * n + n) total);
      has_next = ltb (min (p * n + n) total) total;
      next_page = if ltb (min (p * n + n) total) total then pos (suc p + 1) else pos 0;
    }
unfolding bounds
bounds_window p n total h k =
    rw
      (
        bounds,
        non_negative-pos total,
        pos-sub (suc p) 1 (omega arith),
        wrap-pos (suc p - 1) (omega arith),
        pos-mul (suc p - 1) n,
        ap (λ (q : ℕ). q * n) (let e : suc p - 1 ≡ p = omega arith in e),
        wrap-pos (p * n) (omega arith),
        at_most-pos (p * n) total,
        pos-add (min (p * n) total) n,
        wrap-pos (min (p * n) total + n) (omega arith),
        at_most-pos (min (p * n) total + n) total,
        pos-add (suc p) 1,
        wrap-pos (suc p + 1) k,
        let e : min (min (p * n) total + n) total ≡ min (p * n + n) total = omega arith in e,
        add_zero (min (p * n + n) total) total,
      )
      refl

window_items {ℓ} :
    {T : Type ℓ} (a n : ℕ) (items : List T)
    → take (min (a + n) (length items) - min a (length items)) (drop (min a (length items)) items)
      ≡ take n (drop a items)
window_items a n items = elim (dec_le a (length items)) [
  | yes inside ↦ rw (let e : min a (length items) ≡ a = omega arith in e) (
      ap (λ (k : ℕ). take k (drop a items)) (omega (arith, length-drop a items))
      ∙ take-min n (drop a items))
  | no outside ↦
      rw
        (
          drop_all (min a (length items)) items (omega arith),
          drop_all a items (omega arith),
          take-nil n,
          take-nil (min (a + n) (length items) - min a (length items)),
        )
        refl
]

-- Where nothing overflows, `SliceNumbered` does not panic and the items of page `p + 1` are those from `p * n` up to `p * n + n`.
pub slice_numbered-window {ℓ} :
    {T : Type ℓ} (p n : ℕ) (items : List T)
    → p * n + n < int64_bound
    → suc p + 1 < int64_bound
    → (slice_numbered (numbered p n) items).0 ≡ some (take n (drop (p * n) items))
unfolding slice_numbered slice_items
slice_numbered-window p n items h k =
    rw
      (
        bounds_window p n (length items) h k,
        leb-eq-true (min (p * n) (length items)) (min (p * n + n) (length items)) (omega arith),
        leb-eq-true (min (p * n + n) (length items)) (length items) (omega arith),
      )
      (ap some (window_items (p * n) n items))

abbrev or_empty {ℓ} : {A : Type ℓ} → Option (List A) → List A
or_empty none = []
or_empty (some xs) = xs

-- The pages 1 to `k`, one behind the other.
abbrev pub first_pages {ℓ} : {T : Type ℓ} → ℕ → ℕ → List T → List T
first_pages zero n items = []
first_pages (suc k) n items =
    first_pages k n items ++ or_empty (slice_numbered (numbered k n) items).0

-- The pages 1 to `k` of size `n` are the first `k * n` items: no item is skipped or repeated, where
-- neither `k * n` nor the number behind `k` overflows an `int`.
pub first_pages-take {ℓ} :
    {T : Type ℓ} (k n : ℕ) (items : List T)
    → k * n < int64_bound
    → k + 1 < int64_bound
    → first_pages k n items ≡ take (k * n) items
first_pages-take zero n items h l = let none_yet : 0 * n ≡ 0 = omega arith in rw none_yet refl
first_pages-take (suc k) n items h l =
    let next : suc k * n ≡ k * n + n = omega arith in
    rw
      (
        first_pages-take k n items (omega arith) (omega arith),
        slice_numbered-window k n items (omega arith) (omega arith),
        next,
        take-add (k * n) n items,
      )
      refl

wrap_negative :
    (m : ℕ) → int64_bound ≤ m → m < uint64_mod → wrap (pos m) ≡ negsuc (uint64_mod - 1 - m)
unfolding wrap
wrap_negative m low high = ground arith

at_most-negsuc : (a total : ℕ) → at_most (pos total) (negsuc a) ≡ negsuc a
unfolding at_most
at_most-negsuc a total = ground arith

-- Past the range: if the offset of page `p + 1` is at least 2 ^ 63 and below 2 ^ 64, it wraps to a
-- negative number, and `SliceNumbered` panics whatever the items.
slice_numbered_overflow {ℓ} :
    {T : Type ℓ} (p n : ℕ) (items : List T)
    → p < int64_bound
    → int64_bound ≤ p * n
    → p * n < uint64_mod
    → (slice_numbered (numbered p n) items).0 ≡ none
unfolding slice_numbered slice_items bounds
slice_numbered_overflow p n items h low high =
    rw
      (
        bounds,
        non_negative-pos (length items),
        pos-sub (suc p) 1 (omega arith),
        let e : suc p - 1 ≡ p = omega arith in e,
        wrap-pos p h,
        pos-mul p n,
        wrap_negative (p * n) low high,
        at_most-negsuc (uint64_mod - 1 - p * n) (length items),
      )
      refl
