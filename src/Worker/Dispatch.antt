-- ===== src/Worker/Dispatch.antt =====
-- worker/lifecycle.go: `StartWakeableDispatcherWithExecutors`, its dispatcher goroutine and its executor
-- goroutines. An event is one step of one goroutine; `step` is `none` where the goroutine cannot take
-- that step, as at a channel that is full or empty. What `recover` finds is an argument of its event,
-- the end of the context is an event of its own, and the time that `execute` takes is the time between
-- two events.
use domainry_foundation.Prelude.{
  ℕ, zero, suc, ◌+◌, ◌-◌, ℤ, pos, negsuc, Bool, true, false, not, ◌&&◌, ◌||◌, Option, none, some,
  List, [], ◌∷◌, ◌++◌, length, take, ltb, if◌then◌else◌,
}

-- Where the dispatcher goroutine is: before the first recovery, at its `select`, in the loop that sends
-- these items to `jobs`, waiting for the executors after `close(jobs)`, or returned.
pub data Phase (A : Type 0) : Type 0 where
  starting : Phase A
  selecting : Phase A
  sending : List A → Phase A
  closing : Phase A
  finished : Phase A

-- A job that an executor holds, and whether the context was done when the executor received it.
pub record Job (A : Type 0) : Type 0 where
  pub item : A
  pub late : Bool

-- `jobs` and `completed` are the buffers of the two channels and `running` the jobs that executors
-- hold. `accepted` records the items that the dispatcher received from `wakeups` or took of a recovery,
-- `handled` those that were executed, and `discarded` those that were not, as the context was done.
pub record Dispatcher (A : Type 0) : Type 0 where
  pub phase : Phase A
  pub in_flight : ℕ
  pub wakeups : Bool
  pub jobs : List A
  pub running : List (Job A)
  pub completed : ℕ
  pub context_done : Bool
  pub accepted : List A
  pub handled : List A
  pub discarded : List A

pub data Event (A : Type 0) : Type 0 where
  recovered : Option (List A) → Event A
  woken : A → Event A
  wakeups_closed : Event A
  sent : Event A
  all_sent : Event A
  completion : Event A
  cancelled : Event A
  job_taken : Event A
  job_done : ℕ → Bool → Event A
  context_ended : Event A
  joined : Event A

-- The concurrency of the configuration, one where it is not positive.
abbrev pub positive_concurrency : ℤ → ℕ
positive_concurrency (pos zero) = 1
positive_concurrency (pos (suc n)) = suc n
positive_concurrency (negsuc n) = 1

abbrev pub new_dispatcher : {A : Type 0} → Dispatcher A
new_dispatcher = record {
  phase = starting;
  in_flight = 0;
  wakeups = true;
  jobs = [];
  running = [];
  completed = 0;
  context_done = false;
  accepted = [];
  handled = [];
  discarded = [];
}

abbrev pub is_selecting : {A : Type 0} → Phase A → Bool
is_selecting selecting = true
is_selecting _ = false

abbrev pub is_starting : {A : Type 0} → Phase A → Bool
is_starting starting = true
is_starting _ = false

abbrev pub is_closing : {A : Type 0} → Phase A → Bool
is_closing closing = true
is_closing _ = false

-- Where the context may still end: the way out begins with a context that is done.
abbrev pub is_leaving : {A : Type 0} → Phase A → Bool
is_leaving closing = true
is_leaving finished = true
is_leaving _ = false

-- The items of a recovery that are dispatched: none after an error, and no more than there is room for.
abbrev pub dispatched : {A : Type 0} → ℕ → ℕ → Option (List A) → List A
dispatched n in_flight none = []
dispatched n in_flight (some items) = take (n - in_flight) items

-- The item at a position, and the others.
abbrev pub extract : {A : Type 0} → ℕ → List A → Option (A × List A)
extract i [] = none
extract zero (x ∷ xs) = some (x, xs)
extract (suc i) (x ∷ xs) = elim (extract i xs) [ none ↦ none | some (y, ys) ↦ some (y, x ∷ ys) ]

-- `jobs <- item; inFlight++`.
unfoldable pub send : {A : Type 0} → ℕ → Phase A → Dispatcher A → Option (Dispatcher A)
send n (sending (x ∷ xs)) d =
    if ltb (length d.jobs) n
    then some
        (record d { phase = sending xs; in_flight = d.in_flight + 1; jobs = d.jobs ++ x ∷ [] })
    else none
send n _ d = none

abbrev pub end_sending : {A : Type 0} → Phase A → Dispatcher A → Option (Dispatcher A)
end_sending (sending []) d = some (record d { phase = selecting })
end_sending _ d = none

-- An executor receives from `jobs`; there are `n` executors.
unfoldable pub take_job : {A : Type 0} → ℕ → List A → Dispatcher A → Option (Dispatcher A)
take_job n [] d = none
take_job n (x ∷ xs) d =
    if ltb (length d.running) n
    then some (record d {
      jobs = xs;
      running = d.running ++ record { item = x; late = d.context_done } ∷ [];
    })
    else none

-- What `ctx.Err()` lets an executor do with its job: it looks between the receipt of the job and the
-- send to `completed`, so the job is executed only if the context was not done at the receipt, and
-- discarded only if it is done now.
abbrev pub may_end : {A : Type 0} → Bool → Job A → Bool → Bool
may_end executes j context_done = if executes then not j.late else j.late || context_done

-- An executor is done with its job, executed or discarded, and sends to `completed`.
unfoldable pub end_job :
    {A : Type 0} → ℕ → Bool → Option (Job A × List (Job A)) → Dispatcher A → Option (Dispatcher A)
end_job n executes none d = none
end_job n executes (some (j, js)) d =
    if ltb d.completed n && may_end executes j d.context_done
    then some (record d {
      running = js;
      completed = d.completed + 1;
      handled = if executes then d.handled ++ j.item ∷ [] else d.handled;
      discarded = if executes then d.discarded else d.discarded ++ j.item ∷ [];
    })
    else none

-- The dispatcher receives from `completed`.
abbrev pub receive_completion : {A : Type 0} → ℕ → Dispatcher A → Option (Dispatcher A)
receive_completion zero d = none
receive_completion (suc k) d = some (record d { completed = k; in_flight = d.in_flight - 1 })

-- `executors.Wait()` returns when `jobs` is empty and no executor holds a job.
abbrev pub join : {A : Type 0} → List A → List (Job A) → Dispatcher A → Option (Dispatcher A)
join [] [] d = some (record d { phase = finished })
join _ _ d = none

unfoldable pub step : {A : Type 0} → ℕ → Event A → Dispatcher A → Option (Dispatcher A)
unfolding send take_job end_job
step n (recovered found) d =
    if is_starting d.phase || is_selecting d.phase
    then some (record d {
      phase = sending (dispatched n d.in_flight found);
      accepted = d.accepted ++ dispatched n d.in_flight found;
    })
    else none
step n (woken item) d =
    if is_selecting d.phase && (d.wakeups && ltb d.in_flight n)
    then some (record d { phase = sending (item ∷ []); accepted = d.accepted ++ item ∷ [] })
    else none
step n wakeups_closed d =
    if is_selecting d.phase && (d.wakeups && ltb d.in_flight n)
    then some (record d { wakeups = false })
    else none
step n sent d = send n d.phase d
step n all_sent d = end_sending d.phase d
step n completion d = if is_selecting d.phase then receive_completion d.completed d else none
step n context_ended d =
    if not (is_leaving d.phase) && not d.context_done
    then some (record d { context_done = true })
    else none
step n cancelled d =
    if is_selecting d.phase && d.context_done then some (record d { phase = closing }) else none
step n job_taken d = take_job n d.jobs d
step n (job_done i executes) d = end_job n executes (extract i d.running) d
step n joined d = if is_closing d.phase then join d.jobs d.running d else none

abbrev pub and_then : {B C : Type 0} → Option B → (B → Option C) → Option C
and_then none f = none
and_then (some x) f = f x

-- Events in a row.
unfoldable pub run : {A : Type 0} → ℕ → List (Event A) → Dispatcher A → Option (Dispatcher A)
run n [] d = some d
run n (e ∷ es) d = and_then (step n e d) (λ d'. run n es d')
