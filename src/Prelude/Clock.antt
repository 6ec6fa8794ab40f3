-- ===== src/Prelude/Clock.antt =====
-- Go's `time.Time` and `time.Duration`. A time is the count of nanoseconds since the zero time
-- (`Time.IsZero`), no time before it being modelled; a duration is an `int64` count of nanoseconds.
use Prim.Native.Nat.{ℕ, ◌-◌}
use mathlib.Core.Bool.{Bool}
use domainry_foundation.Prelude.Tests.{ltb, leb, ◌==◌, if◌then◌else◌}
use domainry_foundation.Prelude.Int.{ℤ, pos, negsuc}

abbrev pub Time : Type 0
Time = ℕ

abbrev pub Duration : Type 0
Duration = ℤ

abbrev pub is_zero : Time → Bool
is_zero t = t == 0

abbrev pub before : Time → Time → Bool
before t u = ltb t u

abbrev pub after : Time → Time → Bool
after t u = ltb u t

-- `t.Sub(u)`: the difference, held at the ends of the range of a duration.
abbrev pub sub_time : Time → Time → Duration
sub_time t u =
    if leb u t
    then (if leb (t - u) 9223372036854775807 then pos (t - u) else pos 9223372036854775807)
    else (if leb (u - t) 9223372036854775808
        then negsuc (u - t - 1)
        else negsuc 9223372036854775807)

-- Units, in nanoseconds.
abbrev pub second : ℕ
second = 1000000000

abbrev pub minute : ℕ
minute = 60000000000
