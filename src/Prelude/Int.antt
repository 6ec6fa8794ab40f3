-- ===== src/Prelude/Int.antt =====
-- Go's signed integers. A value of `int` or `int64` is an integer; `wrap` brings the result of an
-- operation back into the 64-bit range, the way two's complement does.
use Prim.Native.Nat.{ℕ, suc, ◌+◌, ◌-◌, ◌*◌, ◌%◌, ◌≤◌, ◌<◌}
use mathlib.Core.Path.{◌≡◌}
use mathlib.Core.Bool.{Bool}
use native.Mathlib.Omega.{arith}
use domainry_foundation.Prelude.Tests.{ltb, leb, if◌then◌else◌}

-- `negsuc n` is -(n + 1).
pub data ℤ : Type 0 where
  pos : ℕ → ℤ
  negsuc : ℕ → ℤ

abbrev pub pos_part : ℤ → ℕ
pos_part (pos n) = n
pos_part (negsuc n) = 0

abbrev pub neg_part : ℤ → ℕ
neg_part (pos n) = 0
neg_part (negsuc n) = suc n

-- a - b, as an integer.
abbrev pub sub_ℕ : ℕ → ℕ → ℤ
sub_ℕ a b = if leb b a then pos (a - b) else negsuc (b - a - 1)

infixl 65 ◌+ℤ◌ ◌-ℤ◌
infixl 70 ◌*ℤ◌
infix 50 ◌≤ℤ◌
unfoldable pub ◌+ℤ◌ : ℤ → ℤ → ℤ
a +ℤ b = sub_ℕ (pos_part a + pos_part b) (neg_part a + neg_part b)

unfoldable pub ◌-ℤ◌ : ℤ → ℤ → ℤ
a -ℤ b = sub_ℕ (pos_part a + neg_part b) (neg_part a + pos_part b)

unfoldable pub ◌*ℤ◌ : ℤ → ℤ → ℤ
a *ℤ b =
    sub_ℕ (pos_part a * pos_part b + neg_part a * neg_part b)
      (pos_part a * neg_part b + neg_part a * pos_part b)

abbrev pub ◌≤ℤ◌ : ℤ → ℤ → Type 0
a ≤ℤ b = pos_part a + neg_part b ≤ pos_part b + neg_part a

abbrev pub ltb_ℤ : ℤ → ℤ → Bool
ltb_ℤ a b = ltb (pos_part a + neg_part b) (pos_part b + neg_part a)

abbrev pub leb_ℤ : ℤ → ℤ → Bool
leb_ℤ a b = leb (pos_part a + neg_part b) (pos_part b + neg_part a)

-- 2 ^ 63 and 2 ^ 64, the bounds of `int64` and of `uint64`.
abbrev pub int64_bound : ℕ
int64_bound = 9223372036854775808

abbrev pub uint64_mod : ℕ
uint64_mod = 18446744073709551616

-- The 64-bit integer with the bits of a number below 2 ^ 64.
abbrev pub of_bits : ℕ → ℤ
of_bits n = if ltb n int64_bound then pos n else negsuc (uint64_mod - 1 - n)

-- The 64-bit integer that is congruent to an integer modulo 2 ^ 64.
unfoldable pub wrap : ℤ → ℤ
wrap (pos n) = of_bits (n % uint64_mod)
wrap (negsuc n) = of_bits (uint64_mod - 1 - n % uint64_mod)

-- The integer is a value of `int64`.
abbrev pub InRange : ℤ → Type 0
InRange (pos n) = n < int64_bound
InRange (negsuc n) = n < int64_bound

pub wrap-InRange : (a : ℤ) → InRange (wrap a)
unfolding wrap
wrap-InRange (pos n) = ground arith
wrap-InRange (negsuc n) = ground arith

pub wrap-eq_of_InRange : (a : ℤ) → InRange a → wrap a ≡ a
unfolding wrap
wrap-eq_of_InRange (pos n) h = ground arith
wrap-eq_of_InRange (negsuc n) h = ground arith

pub pos-add : (a b : ℕ) → pos a +ℤ pos b ≡ pos (a + b)
unfolding ◌+ℤ◌
pos-add a b = ground arith

pub wrap-pos : (n : ℕ) → n < int64_bound → wrap (pos n) ≡ pos n
wrap-pos n h = wrap-eq_of_InRange (pos n) h

pub pos-mul : (a b : ℕ) → pos a *ℤ pos b ≡ pos (a * b)
unfolding ◌*ℤ◌
pos-mul a b = ground arith

pub pos-sub : (a b : ℕ) → b ≤ a → pos a -ℤ pos b ≡ pos (a - b)
unfolding ◌-ℤ◌
pos-sub a b h = ground arith
