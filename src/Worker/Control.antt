-- ===== src/Worker/Control.antt =====
-- worker/controller.go, and `ShutdownState` of worker/contract.go: claim admission and drain. The lock
-- makes each method one step. A receiver may be nil, which is `none`. A channel is a number; `made`
-- counts the channels there are and `closed` tells the closed ones.
use domainry_foundation.Prelude.{
  ℕ, ◌+◌, ◌-◌, pos, Bool, true, false, ◌&&◌, ◌||◌, ◌++◌, Option, none, some, List, [], ◌∷◌, ◌==◌,
  leb_ℤ, Duration, if◌then◌else◌,
}

pub data ShutdownState : Type 0 where
  running : ShutdownState
  paused : ShutdownState
  draining : ShutdownState
  stopped : ShutdownState

abbrev pub accepts_claims : ShutdownState → Bool
accepts_claims running = true
accepts_claims _ = false

-- `==` on states.
abbrev pub eq_state : ShutdownState → ShutdownState → Bool
eq_state running running = true
eq_state paused paused = true
eq_state draining draining = true
eq_state stopped stopped = true
eq_state _ _ = false

pub record Controller : Type 0 where
  pub state : ShutdownState
  pub in_flight : ℕ
  pub idle : ℕ
  pub made : ℕ
  pub closed : ℕ → Bool

-- A receiver: nil, or a controller.
abbrev pub Receiver : Type 0
Receiver = Option Controller

pub record ControllerSnapshot : Type 0 where
  pub state : ShutdownState
  pub in_flight : ℕ

-- The closed channels after one more is closed.
abbrev pub close : ℕ → (ℕ → Bool) → ℕ → Bool
close channel closed i = if i == channel then true else closed i

-- The open channels after `make`: the new one, with the number `channel`, is open.
abbrev pub make : ℕ → (ℕ → Bool) → ℕ → Bool
make channel closed i = if i == channel then false else closed i

abbrev pub new_controller : Controller
new_controller = record {
  state = running;
  in_flight = 0;
  idle = 0;
  made = 1;
  closed = close 0 (λ _. false);
}

abbrev pub snapshot : Receiver → ControllerSnapshot
snapshot none = record { state = stopped; in_flight = 0 }
snapshot (some c) = record { state = c.state; in_flight = c.in_flight }

unfoldable pub transition : ShutdownState → ShutdownState → Receiver → Receiver × Bool
transition from to none = (none, false)
transition from to (some c) =
    if eq_state c.state from then (some (record c { state = to }), true) else (some c, false)

abbrev pub pause : Receiver → Receiver × Bool
pause r = transition running paused r

abbrev pub resume : Receiver → Receiver × Bool
resume r = transition paused running r

abbrev pub undrain : Receiver → Receiver × Bool
undrain r = transition draining running r

unfoldable pub drain : Receiver → Receiver × Bool
drain none = (none, false)
drain (some c) =
    if eq_state c.state stopped || eq_state c.state draining
    then (some c, false)
    else (some (record c { state = draining }), true)

unfoldable pub stop : Receiver → Receiver
stop none = none
stop (some c) = some (record c { state = stopped })

-- The test of `TryBegin` that opens a new idle channel.
abbrev pub opened : Controller → Controller
opened c =
    if c.in_flight == 0
    then record c { idle = c.made; made = c.made + 1; closed = make c.made c.closed }
    else c

unfoldable pub try_begin : Receiver → Receiver × Bool
try_begin none = (none, true)
try_begin (some c) =
    if accepts_claims c.state
    then (some (record (opened c) { in_flight = c.in_flight + 1 }), true)
    else (some c, false)

-- What `End` does: to close a closed channel is a panic.
pub data EndOutcome : Type 0 where
  panic : EndOutcome
  ended : Receiver → EndOutcome

unfoldable pub end : Receiver → EndOutcome
end none = ended none
end (some c) =
    if c.in_flight == 0
    then ended (some c)
    else if c.in_flight == 1
    then (if c.closed c.idle
        then panic
        else ended (some (record c { in_flight = 0; closed = close c.idle c.closed })))
    else ended (some (record c { in_flight = c.in_flight - 1 }))

-- `RunIfAccepting`: the callback, nil or a function, acts on the controller between the two calls.
unfoldable pub run_if_accepting : Option (Receiver → Receiver) → Receiver → EndOutcome × Bool
unfolding try_begin end
run_if_accepting none r = (ended r, false)
run_if_accepting (some run) r =
    let (r', began) = try_begin r in if began then (end (run r'), true) else (ended r', false)

pub data Call : Type 0 where
  call_pause : Call
  call_resume : Call
  call_undrain : Call
  call_drain : Call
  call_stop : Call
  call_try_begin : Call
  call_end : Call

unfoldable pub step : Call → Receiver → EndOutcome
step call_pause r = ended (pause r).0
step call_resume r = ended (resume r).0
step call_undrain r = ended (undrain r).0
step call_drain r = ended (drain r).0
step call_stop r = ended (stop r)
step call_try_begin r = ended (try_begin r).0
step call_end r = end r

abbrev pub after : EndOutcome → (Receiver → EndOutcome) → EndOutcome
after panic f = panic
after (ended r) f = f r

-- A history of calls, the first call first.
unfoldable pub run : List Call → Receiver → EndOutcome
run [] r = ended r
run (call ∷ calls) r = after (step call r) (λ r'. run calls r')

abbrev pub is_closed : ℕ → EndOutcome → Bool
is_closed channel panic = false
is_closed channel (ended none) = false
is_closed channel (ended (some c)) = c.closed channel

-- The timer of `WaitIdle` when the second `select` is entered: fired, with what the `select` picks if
-- both channels are ready, or pending, with the calls of others until it fires.
pub data Timer : Type 0 where
  fired : Bool → Timer
  pending : List Call → Timer

-- The second `select`, entered in the state that `before` leaves. A goroutine that waits is woken by the
-- close of the idle channel. A closed channel stays closed, so the last state tells whether it was closed
-- before the timer fired.
abbrev pub select_idle : Controller → List Call → Timer → Bool
select_idle c before (fired picks_idle) = is_closed c.idle (run before (some c)) && picks_idle
select_idle c before (pending calls) = is_closed c.idle (run (before ++ calls) (some c))

-- `WaitIdle`: `before` are the calls of others between the reading of the idle channel and the `select`.
unfoldable pub wait_idle : Receiver → Duration → List Call → Timer → Bool
unfolding run
wait_idle none timeout before timer = true
wait_idle (some c) timeout before timer =
    if leb_ℤ timeout (pos 0)
    then is_closed c.idle (run before (some c))
    else select_idle c before timer
