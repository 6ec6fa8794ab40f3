-- ===== src/Worker/Slots.antt =====
-- The dispatcher and its executors against the concurrency.
use domainry_foundation.Prelude.{
  Every, ℕ, zero, suc, ◌+◌, ◌-◌, ◌≤◌, ◌≡◌, refl, inl, inr, Bool, true, false, ◌&&◌, ◌||◌, not, ◌++◌,
  Bool-cases, Option-cases, subst, ap, Option, none, some, List, [], ◌∷◌, length, length-append,
  length-take, arith, ltb, if◌then◌else◌,
}
use domainry_foundation.Worker.Dispatch.{
  Phase, starting, selecting, sending, closing, finished, Dispatcher, Event, recovered, woken,
  wakeups_closed, sent, all_sent, completion, cancelled, job_taken, job_done, joined, context_ended,
  Job, may_end, is_leaving, is_selecting, is_starting, is_closing, dispatched, extract, send,
  end_sending, take_job, end_job, receive_completion, join, step,
}

-- How many items the dispatcher is still to send.
abbrev pub unsent : {A : Type 0} → Phase A → ℕ
unsent (sending xs) = length xs
unsent _ = 0

-- The number in flight is the number of items in the two channels and with the executors, and with the
-- items still to be sent it is within the concurrency.
pub record IsBalanced {A : Type 0} (n : ℕ) (d : Dispatcher A) : Type 0 where
  pub balance : d.in_flight ≡ length d.jobs + length d.running + d.completed
  pub within : d.in_flight + unsent d.phase ≤ n

pub length-extract :
    {A : Type 0} (i : ℕ) (xs : List A) → Every (λ r. length xs ≡ suc (length r.1)) (extract i xs)
length-extract i [] = tt
length-extract zero (y ∷ xs) = refl
length-extract (suc i) (y ∷ xs) = elim (Option-cases (extract i xs)) [
  | inl out ↦ rw out tt
  | inr ((z, zs), found) ↦
      let k = subst (Every (λ r. length xs ≡ suc (length r.1))) found (length-extract i xs) in
      rw found (ap suc k)
]

send-IsBalanced :
    {A : Type 0} (n : ℕ) (p : Phase A) (d : Dispatcher A)
    → d.phase ≡ p
    → IsBalanced n d
    → Every (IsBalanced n) (send n p d)
unfolding send
send-IsBalanced n starting d e v = tt
send-IsBalanced n selecting d e v = tt
send-IsBalanced n closing d e v = tt
send-IsBalanced n finished d e v = tt
send-IsBalanced n (sending []) d e v = tt
send-IsBalanced n (sending (x ∷ xs)) d e v = elim (Bool-cases (ltb (length d.jobs) n)) [
  | inr full ↦ rw full tt
  | inl room ↦
      let b = v.balance in
      let w = rw e at v.within in
      rw room (record {
        balance = rw (length-append d.jobs (x ∷ [])) (omega arith);
        within = ground arith;
      })
]

end_sending-IsBalanced :
    {A : Type 0} (n : ℕ) (p : Phase A) (d : Dispatcher A)
    → d.phase ≡ p
    → IsBalanced n d
    → Every (IsBalanced n) (end_sending p d)
end_sending-IsBalanced n starting d e v = tt
end_sending-IsBalanced n selecting d e v = tt
end_sending-IsBalanced n closing d e v = tt
end_sending-IsBalanced n finished d e v = tt
end_sending-IsBalanced n (sending (x ∷ xs)) d e v = tt
end_sending-IsBalanced n (sending []) d e v =
    let w = v.within in record { balance = v.balance; within = omega arith }

take_job-IsBalanced :
    {A : Type 0} (n : ℕ) (jobs : List A) (d : Dispatcher A)
    → d.jobs ≡ jobs
    → IsBalanced n d
    → Every (IsBalanced n) (take_job n jobs d)
unfolding take_job
take_job-IsBalanced n [] d e v = tt
take_job-IsBalanced n (x ∷ xs) d e v = elim (Bool-cases (ltb (length d.running) n)) [
  | inr full ↦ rw full tt
  | inl room ↦
      let b = rw e at v.balance in
      rw room (record {
        balance =
            rw (length-append d.running (record { item = x; late = d.context_done } ∷ []))
              (ground arith);
        within = v.within;
      })
]

end_job-IsBalanced :
    {A : Type 0} (n : ℕ) (executes : Bool) (found : Option (Job A × List (Job A)))
    (d : Dispatcher A)
    → Every (λ r. length d.running ≡ suc (length r.1)) found
    → IsBalanced n d
    → Every (IsBalanced n) (end_job n executes found d)
unfolding end_job
end_job-IsBalanced n executes none d e v = tt
end_job-IsBalanced n executes (some (j, js)) d e v =
    elim (Bool-cases (ltb d.completed n && may_end executes j d.context_done)) [
      | inr full ↦ rw full tt
      | inl room ↦
          let b = v.balance in rw room (record { balance = omega arith; within = v.within })
    ]

receive-IsBalanced :
    {A : Type 0} (n k : ℕ) (d : Dispatcher A)
    → d.completed ≡ k
    → IsBalanced n d
    → Every (IsBalanced n) (receive_completion k d)
receive-IsBalanced n zero d e v = tt
receive-IsBalanced n (suc k) d e v =
    let b = v.balance in let w = v.within in record { balance = omega arith; within = omega arith }

join-IsBalanced :
    {A : Type 0} (n : ℕ) (jobs : List A) (running : List (Job A)) (d : Dispatcher A)
    → IsBalanced n d
    → Every (IsBalanced n) (join jobs running d)
join-IsBalanced n [] [] d v =
    let w = v.within in record { balance = v.balance; within = omega arith }
join-IsBalanced n [] (_ ∷ _) d v = tt
join-IsBalanced n (_ ∷ _) _ d v = tt

unsent-dispatched :
    {A : Type 0} (n k : ℕ) (found : Option (List A)) → k ≤ n → k + length (dispatched n k found) ≤ n
unsent-dispatched n k none h = omega arith
unsent-dispatched n k (some items) h = omega (arith, length-take (n - k) items)

if-IsBalanced :
    {A : Type 0} (n : ℕ) (b : Bool) (o : Option (Dispatcher A))
    → (b ≡ true → Every (IsBalanced n) o)
    → Every (IsBalanced n) (if b then o else none)
if-IsBalanced n true o f = f refl
if-IsBalanced n false o f = tt

-- Every step of the dispatcher or of an executor keeps the account of the items in flight, which are the
-- concurrency at most.
pub step-IsBalanced :
    {A : Type 0} (n : ℕ) (e : Event A) (d : Dispatcher A)
    → IsBalanced n d
    → Every (IsBalanced n) (step n e d)
unfolding step
step-IsBalanced n (recovered found) d v =
    let w = v.within in
    if-IsBalanced n (is_starting d.phase || is_selecting d.phase)
      (some (record d {
        phase = sending (dispatched n d.in_flight found);
        accepted = d.accepted ++ dispatched n d.in_flight found;
      }))
      (λ _. record {
        balance = v.balance;
        within = unsent-dispatched n d.in_flight found (omega arith);
      })
step-IsBalanced n (woken item) d v =
    if-IsBalanced n (is_selecting d.phase && (d.wakeups && ltb d.in_flight n))
      (some (record d { phase = sending (item ∷ []); accepted = d.accepted ++ item ∷ [] }))
      (λ h. record { balance = v.balance; within = ground (arith, h) })
step-IsBalanced n wakeups_closed d v =
    if-IsBalanced n (is_selecting d.phase && (d.wakeups && ltb d.in_flight n))
      (some (record d { wakeups = false })) (λ _. record { balance = v.balance; within = v.within })
step-IsBalanced n sent d v = send-IsBalanced n d.phase d refl v
step-IsBalanced n all_sent d v = end_sending-IsBalanced n d.phase d refl v
step-IsBalanced n completion d v =
    if-IsBalanced n (is_selecting d.phase) (receive_completion d.completed d)
      (λ _. receive-IsBalanced n d.completed d refl v)
step-IsBalanced n cancelled d v =
    let w = v.within in
    if-IsBalanced n (is_selecting d.phase && d.context_done) (some (record d { phase = closing }))
      (λ _. record { balance = v.balance; within = omega arith })
step-IsBalanced n job_taken d v = take_job-IsBalanced n d.jobs d refl v
step-IsBalanced n context_ended d v =
    if-IsBalanced n (not (is_leaving d.phase) && not d.context_done)
      (some (record d { context_done = true }))
      (λ _. record { balance = v.balance; within = v.within })
step-IsBalanced n (job_done i executes) d v =
    end_job-IsBalanced n executes (extract i d.running) d (length-extract i d.running) v
step-IsBalanced n joined d v =
    if-IsBalanced n (is_closing d.phase) (join d.jobs d.running d)
      (λ _. join-IsBalanced n d.jobs d.running d v)
