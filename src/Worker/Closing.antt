-- ===== src/Worker/Closing.antt =====
-- No goroutine of the dispatcher waits at a channel for ever, and the way out after a cancellation.
use domainry_foundation.Prelude.{
  Every-map, Every, ℕ, zero, suc, ◌+◌, ◌*◌, ◌≤◌, ◌<◌, ◌≡◌, refl, ◌⊎◌, inl, inr, true, false, Bool,
  not, ◌&&◌, ◌||◌, if◌then◌else◌, subst, sym, Bool-cases, Option-cases, Option, none, some, List,
  [], ◌∷◌, length, length-append, arith, ltb, is_some, ltb-eq-true,
}
use domainry_foundation.Worker.Dispatch.{
  Phase, sending, closing, finished, Dispatcher, Event, recovered, woken, wakeups_closed, sent,
  all_sent, completion, cancelled, job_taken, job_done, joined, context_ended, Job, may_end,
  extract, send, take_job, end_job, join, step, run, new_dispatcher, and_then,
}
use domainry_foundation.Worker.Slots.{IsBalanced, length-extract, step-IsBalanced}

pub Every-and_then :
    {B C : Type 0} (P : B → Type 0) (Q : C → Type 0) (o : Option B) (f : B → Option C)
    → Every P o
    → ((x : B) → P x → Every Q (f x))
    → Every Q (and_then o f)
Every-and_then P Q none f h k = tt
Every-and_then P Q (some x) f h k = k x h

pub Every-run :
    {A : Type 0} (n : ℕ) (P : Dispatcher A → Type 0) (es : List (Event A)) (d : Dispatcher A)
    → ((e : Event A) (d' : Dispatcher A) → P d' → Every P (step n e d'))
    → P d
    → Every P (run n es d)
unfolding run
Every-run n P [] d f v = v
Every-run n P (e ∷ es) d f v =
    Every-and_then P P (step n e d) (λ d'. run n es d') (f e d v) (λ d' w. Every-run n P es d' f w)

-- Whatever the dispatcher and its executors do, in any order, the number in flight is the number of
-- items in the two channels and with the executors, and the concurrency at most.
pub run-IsBalanced :
    {A : Type 0} (n : ℕ) (es : List (Event A)) → Every (IsBalanced n) (run n es new_dispatcher)
run-IsBalanced n es =
    Every-run n (IsBalanced n) es new_dispatcher (step-IsBalanced n)
      (record { balance = refl; within = omega arith })

extract-is_some : {A : Type 0} (i : ℕ) (xs : List A) → i < length xs → is_some (extract i xs) ≡ true
extract-is_some i [] h = ground (arith, h)
extract-is_some zero (x ∷ xs) h = refl
extract-is_some (suc i) (x ∷ xs) h = elim (Option-cases (extract i xs)) [
  | inl out ↦
      let k = extract-is_some i xs (omega arith) in
      let k' : false ≡ true = rw out at k in ground (arith, k')
  | inr (r, found) ↦ rw found refl
]

own_outcome : (late done : Bool) → (if not late then not late else late || done) ≡ true
own_outcome true done = refl
own_outcome false done = refl

-- An executor that received its job before the context was done may execute it, and any other may discard
-- it.
end_job_ready :
    {A : Type 0} (n : ℕ) (j : Job A) (js : List (Job A)) (d : Dispatcher A)
    → ltb d.completed n ≡ true
    → is_some (end_job n (not j.late) (some (j, js)) d) ≡ true
unfolding end_job
end_job_ready n j js d room = rw (room, own_outcome j.late d.context_done) refl

-- In a balanced state no send blocks: neither the dispatcher's next send to `jobs`, nor the send to
-- `completed` of any executor that has executed its job or discards it.
pub sends_ready :
    {A : Type 0} (n : ℕ) (d : Dispatcher A)
    → IsBalanced n d
    → ((x : A) (xs : List A) → d.phase ≡ sending (x ∷ xs) → is_some (step n sent d) ≡ true)
      × ((i : ℕ)
          → i < length d.running
          → (executes : Bool) × (is_some (step n (job_done i executes) d) ≡ true))
unfolding step send end_job
sends_ready n d v =
    let b = v.balance in
    let w = v.within in
    (
      λ x xs e.
          (let w' = rw e at w in
            let room = ltb-eq-true (length d.jobs) n (ground arith) in rw (e, room) refl),
      λ i h. elim (Option-cases (extract i d.running)) [
        | inl out ↦
            let there = extract-is_some i d.running h in
            let k : false ≡ true = rw out at there in ground (arith, k)
        | inr (r, found) ↦
            let room = ltb-eq-true d.completed n (ground arith) in
            (
              not r.0.late,
              subst (λ o. is_some (end_job n (not r.0.late) o d) ≡ true) (sym found)
                  (end_job_ready n r.0 r.1 d room),
            )
      ],
    )

-- The way out: the channel `jobs` is closed, or everything is done.
abbrev pub Leaving : {A : Type 0} → Dispatcher A → Type 0
Leaving d = (d.phase ≡ closing) ⊎ ((d.phase ≡ finished) × (d.jobs ≡ []) × (d.running ≡ []))

-- How many steps are left on the way out.
abbrev pub work : {A : Type 0} → Phase A → List A → List (Job A) → ℕ
work finished jobs running = 0
work _ jobs running = 1 + 2 * length jobs + length running

abbrev Nearer : {A : Type 0} → Dispatcher A → Dispatcher A → Type 0
Nearer d d' = Leaving d' × (work d'.phase d'.jobs d'.running < work d.phase d.jobs d.running)

take_job-Nearer :
    {A : Type 0} (n : ℕ) (jobs : List A) (d : Dispatcher A)
    → d.jobs ≡ jobs
    → d.phase ≡ closing
    → Every (Nearer d) (take_job n jobs d)
unfolding take_job
take_job-Nearer n [] d e c = tt
take_job-Nearer n (x ∷ xs) d e c = elim (Bool-cases (ltb (length d.running) n)) [
  | inr full ↦ rw full tt
  | inl room ↦ rw room (
    inl c,
    rw (e, c, length-append d.running (record { item = x; late = d.context_done } ∷ []))
        (omega arith),
  )
]

end_job-Nearer :
    {A : Type 0} (n : ℕ) (executes : Bool) (found : Option (Job A × List (Job A)))
    (d : Dispatcher A)
    → Every (λ r. length d.running ≡ suc (length r.1)) found
    → d.phase ≡ closing
    → Every (Nearer d) (end_job n executes found d)
unfolding end_job
end_job-Nearer n executes none d e c = tt
end_job-Nearer n executes (some (j, js)) d e c =
    elim (Bool-cases (ltb d.completed n && may_end executes j d.context_done)) [
      | inr full ↦ rw full tt
      | inl room ↦ rw room (inl c, rw c (omega arith))
    ]

join-Nearer :
    {A : Type 0} (jobs : List A) (running : List (Job A)) (d : Dispatcher A)
    → d.jobs ≡ jobs
    → d.running ≡ running
    → d.phase ≡ closing
    → Every (Nearer d) (join jobs running d)
join-Nearer [] [] d e f c = (inr (refl, e, f), rw c (omega arith))
join-Nearer [] (_ ∷ _) d e f c = tt
join-Nearer (_ ∷ _) _ d e f c = tt

step-Nearer :
    {A : Type 0} (n : ℕ) (e : Event A) (d : Dispatcher A)
    → Leaving d
    → Every (Nearer d) (step n e d)
unfolding step send take_job end_job
step-Nearer n (recovered found) d (inl c) = rw c tt
step-Nearer n (recovered found) d (inr f) = rw (f.0) tt
step-Nearer n (woken item) d (inl c) = rw c tt
step-Nearer n (woken item) d (inr f) = rw (f.0) tt
step-Nearer n wakeups_closed d (inl c) = rw c tt
step-Nearer n wakeups_closed d (inr f) = rw (f.0) tt
step-Nearer n sent d (inl c) = rw c tt
step-Nearer n sent d (inr f) = rw (f.0) tt
step-Nearer n all_sent d (inl c) = rw c tt
step-Nearer n all_sent d (inr f) = rw (f.0) tt
step-Nearer n completion d (inl c) = rw c tt
step-Nearer n completion d (inr f) = rw (f.0) tt
step-Nearer n cancelled d (inl c) = rw c tt
step-Nearer n cancelled d (inr f) = rw (f.0) tt
step-Nearer n job_taken d (inl c) = take_job-Nearer n d.jobs d refl c
step-Nearer n job_taken d (inr f) = rw (f.1) tt
step-Nearer n context_ended d (inl c) = rw c tt
step-Nearer n context_ended d (inr f) = rw (f.0) tt
step-Nearer n (job_done i executes) d (inl c) =
    end_job-Nearer n executes (extract i d.running) d (length-extract i d.running) c
step-Nearer n (job_done i executes) d (inr f) = rw (f.2) tt
step-Nearer n joined d (inl c) =
    rw c (join-Nearer d.jobs d.running (record d { phase = closing }) refl refl refl)
step-Nearer n joined d (inr f) = rw (f.0) tt

-- After a cancellation only so many more steps can be taken: one for each job with an executor, two for
-- each job that none has taken, and one for the return.
pub closing_bounded :
    {A : Type 0} (n : ℕ) (es : List (Event A)) (d : Dispatcher A)
    → Leaving d
    → Every
        (λ d'. length es + work d'.phase d'.jobs d'.running ≤ work d.phase d.jobs d.running)
        (run n es d)
unfolding run
closing_bounded n [] d l = omega arith
closing_bounded n (e ∷ es) d l =
    Every-and_then (Nearer d) _ (step n e d) (λ d'. run n es d') (step-Nearer n e d l)
      (λ d' near.
        Every-map _ _ (run n es d') (closing_bounded n es d' (near.0))
          (λ d'' h. (let k = near.1 in omega arith)))

-- The step that is taken next on the way out.
abbrev pub next_closing : {A : Type 0} → List A → List (Job A) → Event A
next_closing jobs (j ∷ _) = job_done 0 (not j.late)
next_closing (_ ∷ _) [] = job_taken
next_closing [] [] = joined

progress-at :
    {A : Type 0} (n : ℕ) (jobs : List A) (running : List (Job A)) (d : Dispatcher A)
    → 0 < n
    → IsBalanced n d
    → d.phase ≡ closing
    → d.jobs ≡ jobs
    → d.running ≡ running
    → is_some (step n (next_closing jobs running) d) ≡ true
unfolding step take_job
progress-at n jobs (y ∷ ys) d p v c e f =
    let b = rw f at v.balance in
    let w = v.within in
    subst (λ r. is_some (end_job n (not y.late) (extract 0 r) d) ≡ true) (sym f)
      (end_job_ready n y ys d (ltb-eq-true d.completed n (ground arith)))
progress-at n (x ∷ xs) [] d p v c e f = rw (e, f, ltb-eq-true 0 n p) refl
progress-at n [] [] d p v c e f = rw (c, e, f) refl

-- With one executor or more, a balanced dispatcher that waits for its executors after a cancellation is
-- never stuck: until it returns some goroutine can take its next step.
pub closing_progress :
    {A : Type 0} (n : ℕ) (d : Dispatcher A)
    → 0 < n
    → IsBalanced n d
    → d.phase ≡ closing
    → is_some (step n (next_closing d.jobs d.running) d) ≡ true
closing_progress n d p v c = progress-at n d.jobs d.running d p v c refl refl
