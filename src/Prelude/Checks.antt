-- ===== src/Prelude/Checks.antt =====
-- Checks in sequence, the first that fails giving its error, and membership of a text.
use Prim.Native.String.{String}
use text.Mathlib.Text.{◌==◌ as str_eq}
use mathlib.Core.Path.{◌≡◌, refl}
use mathlib.Core.Bool.{Bool, true, false, ◌||◌}
use mathlib.Core.Option.{Option, none, some}
use mathlib.Core.List.{List, [], ◌∷◌}
use domainry_foundation.Prelude.Tests.{if◌then◌else◌}

abbrev pub one_of : List String → String → Bool
one_of [] s = false
one_of (t ∷ ts) s = let rest = one_of ts s in str_eq s t || rest

-- A check, and the checks that follow it.
abbrev pub refuse : {E : Type 0} → Bool → E → Option E → Option E
refuse bad e rest = if bad then some e else rest

abbrev pub and_then : {E : Type 0} → Option E → Option E → Option E
and_then none rest = rest
and_then (some e) rest = some e

pub refuse-none :
    {E : Type 0} (b : Bool) (e : E) (r : Option E) → refuse b e r ≡ none → (b ≡ false) × (r ≡ none)
refuse-none true e r h = cc
refuse-none false e r h = (refl, h)

pub and_then-none : {E : Type 0} (o r : Option E) → and_then o r ≡ none → (o ≡ none) × (r ≡ none)
and_then-none none r h = (refl, h)
and_then-none (some e) r h = cc
