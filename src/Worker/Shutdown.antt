-- ===== src/Worker/Shutdown.antt =====
-- A controller that is draining or stopped.
use domainry_foundation.Prelude.{
  subst, sym, Bool-cases, ◌&&◌, not, ℕ, suc, ◌-◌, ◌≡◌, refl, inl, inr, Bool, true, false, none,
  some, List, [], ◌∷◌, arith,
}
use domainry_foundation.Worker.Control.{
  ShutdownState, running, paused, draining, stopped, eq_state, Controller, transition, drain, stop,
  try_begin, EndOutcome, panic, ended, end, Call, call_pause, call_resume, call_undrain, call_drain,
  call_stop, call_try_begin, call_end, step, after, run,
}
use domainry_foundation.Worker.Drain.{IsValid, Keeps, step-Keeps}

-- How many of the calls are `End`, and whether none is `Undrain`.
abbrev pub ends : List Call → ℕ
ends [] = 0
ends (call_end ∷ calls) = suc (ends calls)
ends (_ ∷ calls) = ends calls

abbrev pub is_undrain : Call → Bool
is_undrain call_undrain = true
is_undrain _ = false

abbrev pub no_undrain : List Call → Bool
no_undrain [] = true
no_undrain (call ∷ calls) = not (is_undrain call) && no_undrain calls

abbrev pub is_leaving : ShutdownState → Bool
is_leaving draining = true
is_leaving stopped = true
is_leaving _ = false

-- The outcome is a controller on its way out, with so much in flight.
abbrev pub Leaves : ℕ → EndOutcome → Type 0
Leaves n panic = ⊥
Leaves n (ended none) = ⊥
Leaves n (ended (some c)) = (is_leaving c.state ≡ true) × (c.in_flight ≡ n)

eq_state-leaving : (a b : ShutdownState) → eq_state a b ≡ true → is_leaving a ≡ is_leaving b
eq_state-leaving a b h = ground arith

transition-Leaves :
    (from to : ShutdownState) (c : Controller)
    → is_leaving from ≡ false
    → is_leaving c.state ≡ true
    → Leaves c.in_flight (ended (transition from to (some c)).0)
unfolding transition
transition-Leaves from to c h k = elim (Bool-cases (eq_state c.state from)) [
  | inl there ↦ let e = eq_state-leaving c.state from there in ground (arith, e, h, k)
  | inr elsewhere ↦ rw elsewhere (k, refl)
]

drain-Leaves :
    (c : Controller) → is_leaving c.state ≡ true → Leaves c.in_flight (ended (drain (some c)).0)
unfolding drain
drain-Leaves c k = ground arith

try_begin-Leaves :
    (c : Controller) → is_leaving c.state ≡ true → Leaves c.in_flight (ended (try_begin (some c)).0)
unfolding try_begin
try_begin-Leaves c k = ground arith

end-Leaves :
    (c : Controller)
    → IsValid c
    → is_leaving c.state ≡ true
    → Leaves (c.in_flight - 1) (end (some c))
unfolding end
end-Leaves c v k = let w = v.idle_closed in ground arith

-- What is in flight after a call, unless a run begins.
abbrev left : Call → ℕ → ℕ
left call_end n = n - 1
left _ n = n

left-ends :
    (call : Call) (calls : List Call) (n : ℕ) → left call n - ends calls ≡ n - ends (call ∷ calls)
left-ends call calls n = ground arith

step-Leaves :
    (call : Call) (c : Controller)
    → IsValid c
    → is_undrain call ≡ false
    → is_leaving c.state ≡ true
    → Leaves (left call c.in_flight) (step call (some c))
unfolding step stop
step-Leaves call_pause c v h k = transition-Leaves running paused c refl k
step-Leaves call_resume c v h k = transition-Leaves paused running c refl k
step-Leaves call_undrain c v h k = ground (arith, h)
step-Leaves call_drain c v h k = drain-Leaves c k
step-Leaves call_stop c v h k = (refl, refl)
step-Leaves call_try_begin c v h k = try_begin-Leaves c k
step-Leaves call_end c v h k = end-Leaves c v k

Leaves-run :
    (calls : List Call) (n : ℕ) (o : EndOutcome)
    → ((c : Controller)
        → IsValid c
        → is_leaving c.state ≡ true
        → Leaves (c.in_flight - ends calls) (run calls (some c)))
    → Keeps o
    → Leaves n o
    → Leaves (n - ends calls) (after o (λ r. run calls r))
Leaves-run calls n panic f v l = elim v [ ]
Leaves-run calls n (ended none) f v l = elim v [ ]
Leaves-run calls n (ended (some c)) f v l =
    subst (λ m. Leaves (m - ends calls) (run calls (some c))) (l.1) (f c v (l.0))

-- Once a controller is draining or stopped, and unless `Undrain` is called, no run begins and none of
-- the other calls brings it back: after any calls it is draining or stopped, and what is in flight is
-- what was, less one for each `End`, down to zero.
pub run-Leaves :
    (calls : List Call) (c : Controller)
    → IsValid c
    → is_leaving c.state ≡ true
    → no_undrain calls ≡ true
    → Leaves (c.in_flight - ends calls) (run calls (some c))
unfolding run
run-Leaves [] c v k h = (k, omega arith)
run-Leaves (call ∷ calls) c v k h =
    let here : is_undrain call ≡ false = ground arith in
    let there : no_undrain calls ≡ true = ground arith in
    rw (sym (left-ends call calls c.in_flight)) (
      Leaves-run calls (left call c.in_flight) (step call (some c))
        (λ c' v' k'. run-Leaves calls c' v' k' there) (step-Keeps call c v)
        (step-Leaves call c v here k))
