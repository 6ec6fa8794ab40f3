-- ===== src/Capacity/Leases.antt =====
-- Clients of the controller: the leases that `Acquire` handed out, and histories of calls.
use domainry_foundation.Prelude.{
  ℕ, zero, suc, Bool, true, false, String, Option, none, some, List, [], ◌∷◌, Time, if◌then◌else◌,
}
use domainry_foundation.Capacity.Model.{Float, Request, Event, Controller}
use domainry_foundation.Capacity.Controller.{acquire, release}

-- `released` is the state of the lease's `sync.Once`.
pub record Lease : Type 0 where
  pub request : Request
  pub released : Bool

-- `Lease.Release`
unfoldable pub release_lease :
    {f : Float} → Controller f → Time → Lease → Controller f × Lease × Option Event
release_lease c now l =
    if l.released
    then (c, l, none)
    else (let (c', e) = release c now l.request in (c', record l { released = true }, e))

pub record System (f : Float) : Type 0 where
  pub controller : Controller f
  pub leases : List Lease

-- A call of a client: `Acquire`, with the fate of its context, or `Release` of the lease at a
-- position of the list, newest first.
pub data Call : Type 0 where
  acquires : Bool → Time → Request → Call
  releases : Time → ℕ → Call

unfoldable pub release_nth :
    {f : Float} → Controller f → Time → List Lease → ℕ → Controller f × List Lease
unfolding release_lease
release_nth c now [] i = (c, [])
release_nth c now (l ∷ ls) zero = let (c', l', e) = release_lease c now l in (c', l' ∷ ls)
release_nth c now (l ∷ ls) (suc i) = let (c', ls') = release_nth c now ls i in (c', l ∷ ls')

abbrev pub add_lease : Option Request → List Lease → List Lease
add_lease none ls = ls
add_lease (some r) ls = record { request = r; released = false } ∷ ls

unfoldable pub step : {f : Float} → (String → String) → System f → Call → System f
unfolding release_nth
step lower s (acquires cancelled now r) =
    let (c', lease, d, e) = acquire lower cancelled s.controller now r in
    record { controller = c'; leases = add_lease lease s.leases }
step lower s (releases now i) =
    let (c', ls) = release_nth s.controller now s.leases i in
    record { controller = c'; leases = ls }

unfoldable pub run : {f : Float} → (String → String) → System f → List Call → System f
run lower s [] = s
run lower s (call ∷ calls) = run lower (step lower s call) calls

-- The requests whose leases are out.
abbrev pub outstanding : List Lease → List Request
outstanding [] = []
outstanding (l ∷ ls) = let rest = outstanding ls in if l.released then rest else l.request ∷ rest
