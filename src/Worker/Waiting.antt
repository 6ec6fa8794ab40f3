-- ===== src/Worker/Waiting.antt =====
-- What `WaitIdle` of worker/controller.go tells.
use domainry_foundation.Prelude.{
  subst, Bool-cases, ◌∙◌, ◌≤◌, ◌||◌, ℕ, ◌+◌, ◌-◌, ◌<◌, ◌≡◌, refl, ◌&&◌, ◌++◌, inl, inr, Bool, true,
  false, none, some, List, [], ◌∷◌, ◌==◌, arith, pos, leb_ℤ, Duration, if◌then◌else◌,
}
use domainry_foundation.Worker.Control.{
  ShutdownState, running, paused, draining, stopped, accepts_claims, eq_state, Controller, close,
  transition, drain, stop, opened, try_begin, EndOutcome, panic, ended, end, Call, call_pause,
  call_resume, call_undrain, call_drain, call_stop, call_try_begin, call_end, step, after, run,
  is_closed, Timer, fired, pending, wait_idle,
}
use domainry_foundation.Worker.Drain.{IsValid, Keeps, step-Keeps}

-- The second controller has every closed channel of the first, and the same idle channel if something
-- was in flight.
record Extends (c c' : Controller) : Type 0 where
  pub made : c.made ≤ c'.made
  pub still_closed : (i : ℕ) → i < c.made → c.closed i ≡ true → c'.closed i ≡ true
  pub same_idle : c.in_flight == 0 ≡ false → c'.idle ≡ c.idle

abbrev Grows : Controller → EndOutcome → Type 0
Grows c panic = ⊥
Grows c (ended none) = ⊥
Grows c (ended (some c')) = Extends c c'

Extends-refl :
    (s : ShutdownState) (n : ℕ) (c : Controller) → Extends c (record c { state = s; in_flight = n })
Extends-refl s n c = record { made = omega arith; still_closed = λ i h k. k; same_idle = λ h. refl }

transition-Grows :
    (from to : ShutdownState) (c : Controller) → Grows c (ended (transition from to (some c)).0)
unfolding transition
transition-Grows from to c = elim (Bool-cases (eq_state c.state from)) [
  | inl there ↦ rw there (Extends-refl to c.in_flight c)
  | inr elsewhere ↦ rw elsewhere (Extends-refl c.state c.in_flight c)
]

drain-Grows : (c : Controller) → Grows c (ended (drain (some c)).0)
unfolding drain
drain-Grows c = elim (Bool-cases (eq_state c.state stopped || eq_state c.state draining)) [
  | inl over ↦ rw over (Extends-refl c.state c.in_flight c)
  | inr before ↦ rw before (Extends-refl draining c.in_flight c)
]

begun-Extends : (c : Controller) → Extends c (record (opened c) { in_flight = c.in_flight + 1 })
begun-Extends c = elim (Bool-cases (c.in_flight == 0)) [
  | inl first ↦ rw first (record {
    made = omega arith;
    still_closed = λ i h k. ground (arith, h, k);
    same_idle = λ h. ground (arith, h);
  })
  | inr more ↦ rw more (Extends-refl c.state (c.in_flight + 1) c)
]

try_begin-Grows : (c : Controller) → Grows c (ended (try_begin (some c)).0)
unfolding try_begin
try_begin-Grows c = elim (Bool-cases (accepts_claims c.state)) [
  | inl accepts ↦ rw accepts (begun-Extends c)
  | inr refuses ↦ rw refuses (Extends-refl c.state c.in_flight c)
]

last_end-Extends :
    (c : Controller) → Extends c (record c { in_flight = 0; closed = close c.idle c.closed })
last_end-Extends c = record {
  made = omega arith;
  still_closed = λ i h k. ground (arith, k);
  same_idle = λ h. refl;
}

end-Grows : (c : Controller) → IsValid c → Grows c (end (some c))
unfolding end
end-Grows c v = elim (Bool-cases (c.in_flight == 0)) [
  | inl none_left ↦ rw none_left (Extends-refl c.state c.in_flight c)
  | inr some_left ↦ elim (Bool-cases (c.in_flight == 1)) [
    | inl last ↦
        let waiting : c.closed c.idle ≡ false = v.idle_closed ∙ some_left in
        rw (some_left, last, waiting) (last_end-Extends c)
    | inr more ↦ rw (some_left, more) (Extends-refl c.state (c.in_flight - 1) c)
  ]
]

step-Grows : (call : Call) (c : Controller) → IsValid c → Grows c (step call (some c))
unfolding step stop
step-Grows call_pause c v = transition-Grows running paused c
step-Grows call_resume c v = transition-Grows paused running c
step-Grows call_undrain c v = transition-Grows draining running c
step-Grows call_drain c v = drain-Grows c
step-Grows call_stop c v = Extends-refl stopped c.in_flight c
step-Grows call_try_begin c v = try_begin-Grows c
step-Grows call_end c v = end-Grows c v

-- Whether nothing is in flight before some of the calls or after all of them.
abbrev pub gets_idle : List Call → EndOutcome → Bool
gets_idle calls panic = false
gets_idle calls (ended none) = true
gets_idle [] (ended (some c)) = c.in_flight == 0
gets_idle (call ∷ calls) (ended (some c)) = c.in_flight == 0 || gets_idle calls (step call (some c))

-- The induction steps, given what the rest of the calls do.
is_closed-stays-after :
    (calls : List Call) (i : ℕ) (c : Controller) (o : EndOutcome)
    → ((c' : Controller)
        → IsValid c'
        → i < c'.made
        → c'.closed i ≡ true
        → is_closed i (run calls (some c')) ≡ true)
    → i < c.made
    → c.closed i ≡ true
    → Keeps o
    → Grows c o
    → is_closed i (after o (λ r. run calls r)) ≡ true
is_closed-stays-after calls i c panic f h k v g = elim v [ ]
is_closed-stays-after calls i c (ended none) f h k v g = elim v [ ]
is_closed-stays-after calls i c (ended (some c')) f h k v g =
    let m = g.made in f c' v (omega arith) (g.still_closed i h k)

is_closed-stays :
    (calls : List Call) (i : ℕ) (c : Controller)
    → IsValid c
    → i < c.made
    → c.closed i ≡ true
    → is_closed i (run calls (some c)) ≡ true
unfolding run
is_closed-stays [] i c v h k = k
is_closed-stays (call ∷ calls) i c v h k =
    is_closed-stays-after calls i c (step call (some c)) (λ c'. is_closed-stays calls i c') h k
      (step-Keeps call c v) (step-Grows call c v)

gets_idle-after :
    (calls : List Call) (c : Controller) (o : EndOutcome)
    → ((c' : Controller)
        → IsValid c'
        → is_closed c'.idle (run calls (some c')) ≡ gets_idle calls (ended (some c')))
    → c.in_flight == 0 ≡ false
    → Keeps o
    → Grows c o
    → is_closed c.idle (after o (λ r. run calls r)) ≡ gets_idle calls o
gets_idle-after calls c panic f h v g = elim v [ ]
gets_idle-after calls c (ended none) f h v g = elim v [ ]
gets_idle-after calls c (ended (some c')) f h v g =
    subst (λ i. is_closed i (run calls (some c')) ≡ gets_idle calls (ended (some c')))
      (g.same_idle h) (f c' v)

is_closed-gets_idle :
    (calls : List Call) (c : Controller)
    → IsValid c
    → is_closed c.idle (run calls (some c)) ≡ gets_idle calls (ended (some c))
unfolding run
is_closed-gets_idle [] c v = v.idle_closed
is_closed-gets_idle (call ∷ calls) c v = elim (Bool-cases (c.in_flight == 0)) [
  | inl idle ↦
      let n = v.newest in
      let stays = is_closed-stays (call ∷ calls) c.idle c v (omega arith) (v.idle_closed ∙ idle) in
      rw (idle, stays) refl
  | inr busy ↦
      let later =
        gets_idle-after calls c (step call (some c)) (is_closed-gets_idle calls) busy
          (step-Keeps call c v) (step-Grows call c v) in
      rw (busy, later) refl
]

-- What a wait tells: whether nothing was in flight at some moment before the timer fired, or with a timer
-- that has fired before the wait, whether that was so and the `select` picked it.
abbrev pub waited : List Call → Controller → Timer → Bool
waited before c (fired picks_idle) = gets_idle before (ended (some c)) && picks_idle
waited before c (pending calls) = gets_idle (before ++ calls) (ended (some c))

-- On a valid controller `WaitIdle` with a timeout of zero or less tells whether nothing was in flight at
-- some moment between its reading of the idle channel and its `select`. With a positive one it tells
-- whether nothing was in flight at some moment from that reading until the timer fired, though new runs
-- may have begun by then; but if the timer has fired before the `select` is entered, it is true only
-- where the `select`, with both channels ready, also picks the idle one.
pub wait_idle-gets_idle :
    (c : Controller) (timeout : Duration) (before : List Call) (timer : Timer)
    → IsValid c
    → wait_idle (some c) timeout before timer
      ≡ (if leb_ℤ timeout (pos 0) then gets_idle before (ended (some c)) else waited before c timer)
unfolding wait_idle
wait_idle-gets_idle c timeout before (fired picks_idle) v = rw (is_closed-gets_idle before c v) refl
wait_idle-gets_idle c timeout before (pending calls) v =
    rw (is_closed-gets_idle before c v, is_closed-gets_idle (before ++ calls) c v) refl
