-- ===== src/Worker/Drain.antt =====
-- The controller after every history of calls.
use domainry_foundation.Prelude.{
  Bool-cases, ◌∙◌, ◌||◌, ℕ, ◌+◌, ◌<◌, ◌≡◌, refl, inl, inr, true, false, none, some, List, [], ◌∷◌,
  ◌==◌, arith,
}
use domainry_foundation.Worker.Control.{
  ShutdownState, running, paused, draining, stopped, accepts_claims, eq_state, Controller, close,
  new_controller, transition, drain, stop, opened, try_begin, EndOutcome, panic, ended, end, Call,
  call_pause, call_resume, call_undrain, call_drain, call_stop, call_try_begin, call_end, step,
  after, run,
}

-- The idle channel is the newest; it is closed exactly if nothing is in flight, and every older one is
-- closed.
pub record IsValid (c : Controller) : Type 0 where
  pub newest : c.idle + 1 ≡ c.made
  pub idle_closed : c.closed c.idle ≡ c.in_flight == 0
  pub old_closed : (i : ℕ) → i < c.idle → c.closed i ≡ true

-- The outcome is no panic, and its controller is valid.
abbrev pub Keeps : EndOutcome → Type 0
Keeps panic = ⊥
Keeps (ended none) = ⊥
Keeps (ended (some c)) = IsValid c

pub new_controller-IsValid : IsValid new_controller
new_controller-IsValid = record {
  newest = refl;
  idle_closed = refl;
  old_closed = λ i h. ground arith;
}

with_state-IsValid :
    (s : ShutdownState) (c : Controller) → IsValid c → IsValid (record c { state = s })
with_state-IsValid s c v = record {
  newest = v.newest;
  idle_closed = v.idle_closed;
  old_closed = v.old_closed;
}

transition-Keeps :
    (from to : ShutdownState) (c : Controller)
    → IsValid c
    → Keeps (ended (transition from to (some c)).0)
unfolding transition
transition-Keeps from to c v = elim (Bool-cases (eq_state c.state from)) [
  | inl there ↦ rw there (with_state-IsValid to c v)
  | inr elsewhere ↦ rw elsewhere v
]

drain-Keeps : (c : Controller) → IsValid c → Keeps (ended (drain (some c)).0)
unfolding drain
drain-Keeps c v = elim (Bool-cases (eq_state c.state stopped || eq_state c.state draining)) [
  | inl over ↦ rw over v
  | inr before ↦ rw before (with_state-IsValid draining c v)
]

-- With nothing in flight every channel made so far is closed.
all_closed :
    (c : Controller)
    → IsValid c
    → c.in_flight == 0 ≡ true
    → (i : ℕ) → i < c.made
    → c.closed i ≡ true
all_closed c v idle i h = elim (Bool-cases (i == c.idle)) [
  | inl same ↦ let e : i ≡ c.idle = ground arith in rw (e, v.idle_closed, idle) refl
  | inr other ↦ v.old_closed i (ground (arith, h))
]

begun-IsValid :
    (c : Controller) → IsValid c → IsValid (record (opened c) { in_flight = c.in_flight + 1 })
begun-IsValid c v = elim (Bool-cases (c.in_flight == 0)) [
  | inl first ↦ rw first (record {
    newest = refl;
    idle_closed = ground arith;
    old_closed = λ i h. (let k = all_closed c v first i h in ground arith);
  })
  | inr more ↦ rw more (record {
    newest = v.newest;
    idle_closed = v.idle_closed ∙ (more ∙ ground arith);
    old_closed = v.old_closed;
  })
]

try_begin-Keeps : (c : Controller) → IsValid c → Keeps (ended (try_begin (some c)).0)
unfolding try_begin
try_begin-Keeps c v = elim (Bool-cases (accepts_claims c.state)) [
  | inl accepts ↦ rw accepts (begun-IsValid c v)
  | inr refuses ↦ rw refuses v
]

-- Closing the idle channel as the last run ends.
last_end-IsValid :
    (c : Controller)
    → IsValid c
    → IsValid (record c { in_flight = 0; closed = close c.idle c.closed })
last_end-IsValid c v = record {
  newest = v.newest;
  idle_closed = ground arith;
  old_closed = λ i h. (let k = v.old_closed i h in ground arith);
}

end-Keeps : (c : Controller) → IsValid c → Keeps (end (some c))
unfolding end
end-Keeps c v = elim (Bool-cases (c.in_flight == 0)) [
  | inl none_left ↦ rw none_left v
  | inr some_left ↦ elim (Bool-cases (c.in_flight == 1)) [
    | inl last ↦
        let waiting : c.closed c.idle ≡ false = v.idle_closed ∙ some_left in
        rw (some_left, last, waiting) (last_end-IsValid c v)
    | inr more ↦
        rw (some_left, more)
          (record {
            newest = v.newest;
            idle_closed = v.idle_closed ∙ (some_left ∙ ground arith);
            old_closed = v.old_closed;
          })
  ]
]

pub step-Keeps : (call : Call) (c : Controller) → IsValid c → Keeps (step call (some c))
unfolding step stop
step-Keeps call_pause c v = transition-Keeps running paused c v
step-Keeps call_resume c v = transition-Keeps paused running c v
step-Keeps call_undrain c v = transition-Keeps draining running c v
step-Keeps call_drain c v = drain-Keeps c v
step-Keeps call_stop c v = with_state-IsValid stopped c v
step-Keeps call_try_begin c v = try_begin-Keeps c v
step-Keeps call_end c v = end-Keeps c v

Keeps-run :
    (o : EndOutcome) (calls : List Call)
    → ((c : Controller) → IsValid c → Keeps (run calls (some c)))
    → Keeps o
    → Keeps (after o (λ r. run calls r))
Keeps-run panic calls f v = elim v [ ]
Keeps-run (ended none) calls f v = elim v [ ]
Keeps-run (ended (some c)) calls f v = f c v

pub run-Keeps : (calls : List Call) (c : Controller) → IsValid c → Keeps (run calls (some c))
unfolding run
run-Keeps [] c v = v
run-Keeps (call ∷ calls) c v =
    Keeps-run (step call (some c)) calls (run-Keeps calls) (step-Keeps call c v)

-- Whatever calls are made on a new controller, none panics by closing a closed channel, and after them
-- the idle channel is closed exactly if nothing is in flight, and every earlier idle channel is closed.
pub run-new_controller : (calls : List Call) → Keeps (run calls (some new_controller))
run-new_controller calls = run-Keeps calls new_controller new_controller-IsValid
