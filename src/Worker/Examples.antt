-- ===== src/Worker/Examples.antt =====
-- The theorems on the workers at concrete calls.
use domainry_foundation.Prelude.{
  Bool, false, lookup_or, map, Every, ℕ, inl, ◌<◌, ◌+◌, ◌-◌, ◌≤◌, ◌≡◌, refl, pos, true, some, List,
  [], ◌∷◌, ◌==◌, length, leb_ℤ, arith, if◌then◌else◌, is_some,
}
use domainry_foundation.Worker.Control.{
  draining, Controller, new_controller, Call, call_drain, call_end, call_try_begin, ended, pending,
  wait_idle, run,
}
use domainry_foundation.Worker.Drain.{Keeps, IsValid, run-new_controller}
use domainry_foundation.Worker.Waiting.{gets_idle, waited, wait_idle-gets_idle}
use domainry_foundation.Worker.Shutdown.{Leaves, ends, run-Leaves}
use domainry_foundation.Worker.Retry.{RetryPolicy, backoff_exponential}
use domainry_foundation.Worker.Dispatch.{
  Dispatcher, Event, recovered, woken, sent, all_sent, completion, cancelled, job_taken, job_done,
  context_ended, joined, closing, sending, new_dispatcher, step, send, take_job, end_job,
}
use domainry_foundation.Worker.Dispatch
use domainry_foundation.Worker.Slots.{IsBalanced}
use domainry_foundation.Worker.Closing.{
  run-IsBalanced, sends_ready, work, closing_bounded, next_closing, closing_progress,
}
use domainry_foundation.Worker.Broker.{WakeupBroker, DurableTaskLocator}
use domainry_foundation.Worker.Wakeups.{
  IsBounded, addressed, filled, publish_all, publish_all-filled,
}
use domainry_foundation.Worker.Handled.{IsAccounted, run-IsAccounted}

abbrev calls : List Call
calls = call_try_begin ∷ call_try_begin ∷ call_drain ∷ call_end ∷ call_end ∷ []

run-new_controller_example : Keeps (run calls (some new_controller))
run-new_controller_example = run-new_controller calls

-- One run is in flight, on the second channel.
abbrev busy : Controller
busy = record { state = draining; in_flight = 1; idle = 1; made = 2; closed = λ i. i == 0 }

busy-IsValid : IsValid busy
busy-IsValid = record { newest = refl; idle_closed = refl; old_closed = λ i h. ground arith }

wait_idle-gets_idle_example :
    wait_idle (some busy) (pos 5) (call_try_begin ∷ []) (pending (call_end ∷ [])) ≡ (
      if leb_ℤ (pos 5) (pos 0)
      then gets_idle (call_try_begin ∷ []) (ended (some busy))
      else waited (call_try_begin ∷ []) busy (pending (call_end ∷ [])))
wait_idle-gets_idle_example =
    wait_idle-gets_idle busy (pos 5) (call_try_begin ∷ []) (pending (call_end ∷ [])) busy-IsValid

run-Leaves_example :
    Leaves
      (1 - ends (call_try_begin ∷ call_end ∷ []))
      (run (call_try_begin ∷ call_end ∷ []) (some busy))
run-Leaves_example = run-Leaves (call_try_begin ∷ call_end ∷ []) busy busy-IsValid refl refl

abbrev policy : RetryPolicy
policy = record {
  max_attempts = pos 5;
  base_delay = pos 100;
  max_delay = pos 1000;
  backoff = backoff_exponential;
  deadline = 0;
  jitter_max = pos 0;
}

-- Two items recovered, one of them handled, and one woken.
abbrev events : List (Event ℕ)
events =
    recovered (some (7 ∷ 8 ∷ 9 ∷ []))
    ∷ sent
    ∷ job_taken
    ∷ sent
    ∷ all_sent
    ∷ job_done 0 true
    ∷ completion
    ∷ woken 5
    ∷ sent
    ∷ all_sent
    ∷ context_ended
    ∷ job_taken
    ∷ job_done 0 false
    ∷ []

events-possible : is_some (Dispatch.run 2 events new_dispatcher) ≡ true
unfolding Dispatch.run Dispatch.step send take_job end_job
events-possible = refl

run-IsBalanced_example : Every (IsBalanced 2) (Dispatch.run 2 events new_dispatcher)
run-IsBalanced_example = run-IsBalanced 2 events

run-IsAccounted_example : Every (IsAccounted (λ x. x == 8)) (Dispatch.run 2 events new_dispatcher)
run-IsAccounted_example = run-IsAccounted (λ x. x == 8) 2 events

-- One job is in the channel and one with an executor.
abbrev leaving : Dispatcher ℕ
leaving = record {
  phase = closing;
  in_flight = 2;
  wakeups = true;
  jobs = 5 ∷ [];
  running = record { item = 8; late = false } ∷ [];
  completed = 0;
  context_done = true;
  accepted = 7 ∷ 8 ∷ 5 ∷ [];
  handled = 7 ∷ [];
  discarded = [];
}

leaving-IsBalanced : IsBalanced 2 leaving
leaving-IsBalanced = record { balance = refl; within = omega arith }

sends_ready_example :
    ((x : ℕ) (xs : List ℕ)
      → leaving.phase ≡ sending (x ∷ xs)
      → is_some (step 2 sent leaving) ≡ true)
    × ((i : ℕ)
        → i < length leaving.running
        → (executes : Bool) × (is_some (step 2 (job_done i executes) leaving) ≡ true))
sends_ready_example = sends_ready 2 leaving leaving-IsBalanced

abbrev way_out : List (Event ℕ)
way_out = job_done 0 true ∷ job_taken ∷ job_done 0 false ∷ joined ∷ []

closing_bounded_example :
    Every
      (λ d.
        length way_out + work d.phase d.jobs d.running
        ≤ work leaving.phase leaving.jobs leaving.running)
      (Dispatch.run 2 way_out leaving)
closing_bounded_example = closing_bounded 2 way_out leaving (inl refl)

closing_progress_example :
    is_some (step 2 (next_closing leaving.jobs leaving.running) leaving) ≡ true
closing_progress_example = closing_progress 2 leaving (omega arith) leaving-IsBalanced refl

abbrev subscribed : WakeupBroker
subscribed = ("mail", record { capacity = 1; buffer = [] } ∷ []) ∷ []

subscribed-IsBounded : IsBounded subscribed
subscribed-IsBounded kind = ground arith

-- Two wakeups for a channel of one place, an incomplete one, and one for another queue.
abbrev locators : List DurableTaskLocator
locators =
    record { queue_kind = " mail"; workspace_id = "w"; task_id = "t" }
    ∷ record { queue_kind = "mail"; workspace_id = ""; task_id = "u" }
    ∷ record { queue_kind = "mail"; workspace_id = "w"; task_id = "v" }
    ∷ record { queue_kind = "sms"; workspace_id = "w"; task_id = "x" }
    ∷ []

publish_all-filled_example :
    lookup_or [] "mail" (publish_all locators subscribed)
    ≡ map (filled (addressed "mail" locators)) (lookup_or [] "mail" subscribed)
publish_all-filled_example = publish_all-filled "mail" locators subscribed subscribed-IsBounded
