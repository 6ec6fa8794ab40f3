-- ===== src/Worker/Handled.antt =====
-- The items that were accepted against those on their way, handled or discarded (worker/lifecycle.go).
use domainry_foundation.Prelude.{
  Every, ℕ, zero, suc, ◌+◌, ◌≡◌, refl, inl, inr, Bool, true, false, Bool-cases, Option-cases, not,
  ◌&&◌, ◌||◌, Option, none, some, List, [], ◌∷◌, ◌++◌, ltb, length, arith, count_if, if◌then◌else◌,
  subst,
}
use domainry_foundation.Worker.Dispatch.{
  Phase, starting, selecting, sending, closing, finished, Dispatcher, Event, recovered, woken,
  wakeups_closed, sent, all_sent, completion, cancelled, job_taken, job_done, joined, context_ended,
  Job, may_end, is_leaving, is_selecting, is_starting, is_closing, new_dispatcher, dispatched,
  extract, send, end_sending, take_job, end_job, receive_completion, join, step, run,
}
use domainry_foundation.Worker.Closing.{Every-run}

count_if-append :
    {A : Type 0} (p : A → Bool) (xs ys : List A)
    → count_if p (xs ++ ys) ≡ count_if p xs + count_if p ys
count_if-append p [] ys = omega arith
count_if-append p (x ∷ xs) ys = ground (arith, count_if-append p xs ys)

count_if-extract :
    {A : Type 0} (p : A → Bool) (i : ℕ) (xs : List A)
    → Every (λ r. count_if p xs ≡ count_if p (r.0 ∷ []) + count_if p r.1) (extract i xs)
count_if-extract p i [] = tt
count_if-extract p zero (y ∷ xs) = ground arith
count_if-extract p (suc i) (y ∷ xs) = elim (Option-cases (extract i xs)) [
  | inl out ↦ rw out tt
  | inr ((z, zs), found) ↦
      let k =
        subst (Every (λ r. count_if p xs ≡ count_if p (r.0 ∷ []) + count_if p r.1)) found
          (count_if-extract p i xs) in
      rw found (ground (arith, k))
]

-- The items that the dispatcher is still to send.
abbrev pending : {A : Type 0} → Phase A → List A
pending (sending xs) = xs
pending _ = []

abbrev has_item : {A : Type 0} → (A → Bool) → Job A → Bool
has_item p j = p j.item

-- Each accepted item with a property is still to be sent, waits in `jobs`, is with an executor, was
-- executed, or was discarded; and none was discarded or received late before the context was done.
pub record IsAccounted {A : Type 0} (p : A → Bool) (d : Dispatcher A) : Type 0 where
  pub account :
      count_if p d.accepted
      ≡ count_if p (pending d.phase)
        + count_if p d.jobs
        + count_if (has_item p) d.running
        + count_if p d.handled
        + count_if p d.discarded
  pub none_late : d.context_done ≡ false → count_if (λ j. j.late) d.running ≡ 0
  pub none_discarded : d.context_done ≡ false → d.discarded ≡ []

send-IsAccounted :
    {A : Type 0} (p : A → Bool) (n : ℕ) (phase : Phase A) (d : Dispatcher A)
    → d.phase ≡ phase
    → IsAccounted p d
    → Every (IsAccounted p) (send n phase d)
unfolding send
send-IsAccounted p n starting d e v = tt
send-IsAccounted p n selecting d e v = tt
send-IsAccounted p n closing d e v = tt
send-IsAccounted p n finished d e v = tt
send-IsAccounted p n (sending []) d e v = tt
send-IsAccounted p n (sending (x ∷ xs)) d e v = elim (Bool-cases (ltb (length d.jobs) n)) [
  | inr full ↦ rw full tt
  | inl room ↦
      let a = rw e at v.account in
      rw room (record {
        account = rw (count_if-append p d.jobs (x ∷ [])) (ground (arith, a));
        none_late = v.none_late;
        none_discarded = v.none_discarded;
      })
]

end_sending-IsAccounted :
    {A : Type 0} (p : A → Bool) (phase : Phase A) (d : Dispatcher A)
    → d.phase ≡ phase
    → IsAccounted p d
    → Every (IsAccounted p) (end_sending phase d)
end_sending-IsAccounted p starting d e v = tt
end_sending-IsAccounted p selecting d e v = tt
end_sending-IsAccounted p closing d e v = tt
end_sending-IsAccounted p finished d e v = tt
end_sending-IsAccounted p (sending []) d e v = record {
  account = rw e at v.account;
  none_late = v.none_late;
  none_discarded = v.none_discarded;
}
end_sending-IsAccounted p (sending (_ ∷ _)) d e v = tt

take_job-IsAccounted :
    {A : Type 0} (p : A → Bool) (n : ℕ) (jobs : List A) (d : Dispatcher A)
    → d.jobs ≡ jobs
    → IsAccounted p d
    → Every (IsAccounted p) (take_job n jobs d)
unfolding take_job
take_job-IsAccounted p n [] d e v = tt
take_job-IsAccounted {A = A} p n (x ∷ xs) d e v = elim (Bool-cases (ltb (length d.running) n)) [
  | inr full ↦ rw full tt
  | inl room ↦
      let a = rw e at v.account in
      let j : Job A = record { item = x; late = d.context_done } in
      rw room (record {
        account = rw (count_if-append (has_item p) d.running (j ∷ [])) (ground (arith, a));
        none_late = λ live.
            rw (count_if-append (λ (j : Job A). j.late) d.running (j ∷ []))
              (ground (arith, v.none_late live, live));
        none_discarded = v.none_discarded;
      })
]

end_job-IsAccounted :
    {A : Type 0} (p : A → Bool) (n : ℕ) (executes : Bool) (found : Option (Job A × List (Job A)))
    (d : Dispatcher A)
    → Every
        (λ r.
          count_if (has_item p) d.running
          ≡ count_if (has_item p) (r.0 ∷ []) + count_if (has_item p) r.1)
        found
    → Every
        (λ r.
          count_if (λ (j : Job A). j.late) d.running
          ≡ count_if (λ (j : Job A). j.late) (r.0 ∷ []) + count_if (λ (j : Job A). j.late) r.1)
        found
    → IsAccounted p d
    → Every (IsAccounted p) (end_job n executes found d)
unfolding end_job
end_job-IsAccounted p n executes none d e f v = tt
end_job-IsAccounted p n true (some (j, js)) d e f v =
    elim (Bool-cases (ltb d.completed n && may_end true j d.context_done)) [
      | inr full ↦ rw full tt
      | inl room ↦
          let a = v.account in
          rw room (record {
            account = rw (count_if-append p d.handled (j.item ∷ [])) (ground (arith, a, e));
            none_late = λ live. ground (arith, v.none_late live, f);
            none_discarded = v.none_discarded;
          })
    ]
end_job-IsAccounted p n false (some (j, js)) d e f v =
    elim (Bool-cases (ltb d.completed n && may_end false j d.context_done)) [
      | inr full ↦ rw full tt
      | inl room ↦
          let a = v.account in
          rw room (record {
            account = rw (count_if-append p d.discarded (j.item ∷ [])) (ground (arith, a, e));
            none_late = λ live. ground (arith, v.none_late live, f);
            none_discarded = λ live. ground (arith, v.none_late live, f, room, live);
          })
    ]

receive-IsAccounted :
    {A : Type 0} (p : A → Bool) (k : ℕ) (d : Dispatcher A)
    → IsAccounted p d
    → Every (IsAccounted p) (receive_completion k d)
receive-IsAccounted p zero d v = tt
receive-IsAccounted p (suc k) d v = record {
  account = v.account;
  none_late = v.none_late;
  none_discarded = v.none_discarded;
}

join-IsAccounted :
    {A : Type 0} (p : A → Bool) (jobs : List A) (running : List (Job A)) (d : Dispatcher A)
    → count_if p (pending d.phase) ≡ 0
    → IsAccounted p d
    → Every (IsAccounted p) (join jobs running d)
join-IsAccounted p [] [] d e v =
    let a = v.account in
    record {
      account = omega (arith, e);
      none_late = v.none_late;
      none_discarded = v.none_discarded;
    }
join-IsAccounted p [] (_ ∷ _) d e v = tt
join-IsAccounted p (_ ∷ _) _ d e v = tt

if-IsAccounted :
    {A : Type 0} (p : A → Bool) (b : Bool) (o : Option (Dispatcher A))
    → (b ≡ true → Every (IsAccounted p) o)
    → Every (IsAccounted p) (if b then o else none)
if-IsAccounted p true o f = f refl
if-IsAccounted p false o f = tt

-- At rest, and on the way out, nothing is to be sent.
pending-selecting :
    {A : Type 0} (p : A → Bool) (phase : Phase A)
    → (is_starting phase || is_selecting phase) ≡ true
    → count_if p (pending phase) ≡ 0
pending-selecting p starting h = refl
pending-selecting p selecting h = refl
pending-selecting p (sending xs) h = cc
pending-selecting p closing h = cc
pending-selecting p finished h = cc

pending-closing :
    {A : Type 0} (p : A → Bool) (phase : Phase A)
    → is_closing phase ≡ true
    → count_if p (pending phase) ≡ 0
pending-closing p starting h = cc
pending-closing p selecting h = cc
pending-closing p (sending xs) h = cc
pending-closing p closing h = refl
pending-closing p finished h = cc

-- The dispatcher accepts items, none being left to send.
accept-IsAccounted :
    {A : Type 0} (p : A → Bool) (xs : List A) (d : Dispatcher A)
    → (is_starting d.phase || is_selecting d.phase) ≡ true
    → IsAccounted p d
    → IsAccounted p (record d { phase = sending xs; accepted = d.accepted ++ xs })
accept-IsAccounted p xs d h v =
    let a = v.account in
    let at_rest = pending-selecting p d.phase h in
    record {
      account = rw (count_if-append p d.accepted xs) (omega (arith, at_rest));
      none_late = v.none_late;
      none_discarded = v.none_discarded;
    }

step-IsAccounted :
    {A : Type 0} (p : A → Bool) (n : ℕ) (e : Event A) (d : Dispatcher A)
    → IsAccounted p d
    → Every (IsAccounted p) (step n e d)
unfolding step
step-IsAccounted p n (recovered found) d v =
    if-IsAccounted p (is_starting d.phase || is_selecting d.phase)
      (some (record d {
        phase = sending (dispatched n d.in_flight found);
        accepted = d.accepted ++ dispatched n d.in_flight found;
      }))
      (λ h. accept-IsAccounted p (dispatched n d.in_flight found) d h v)
step-IsAccounted p n (woken item) d v =
    if-IsAccounted p (is_selecting d.phase && (d.wakeups && ltb d.in_flight n))
      (some (record d { phase = sending (item ∷ []); accepted = d.accepted ++ item ∷ [] }))
      (λ h. accept-IsAccounted p (item ∷ []) d (ground (arith, h)) v)
step-IsAccounted p n wakeups_closed d v =
    if-IsAccounted p (is_selecting d.phase && (d.wakeups && ltb d.in_flight n))
      (some (record d { wakeups = false }))
      (λ h. record {
        account = v.account;
        none_late = v.none_late;
        none_discarded = v.none_discarded;
      })
step-IsAccounted p n sent d v = send-IsAccounted p n d.phase d refl v
step-IsAccounted p n all_sent d v = end_sending-IsAccounted p d.phase d refl v
step-IsAccounted p n completion d v =
    if-IsAccounted p (is_selecting d.phase) (receive_completion d.completed d)
      (λ h. receive-IsAccounted p d.completed d v)
step-IsAccounted p n context_ended d v =
    if-IsAccounted p (not (is_leaving d.phase) && not d.context_done)
      (some (record d { context_done = true }))
      (λ h. record { account = v.account; none_late = λ live. cc; none_discarded = λ live. cc })
step-IsAccounted p n cancelled d v =
    if-IsAccounted p (is_selecting d.phase && d.context_done) (some (record d { phase = closing }))
      (λ h.
        let a = v.account in
        let at_rest = pending-selecting p d.phase (ground (arith, h)) in
        record {
          account = omega (arith, at_rest);
          none_late = v.none_late;
          none_discarded = v.none_discarded;
        })
step-IsAccounted p n job_taken d v = take_job-IsAccounted p n d.jobs d refl v
step-IsAccounted p n (job_done i executes) d v =
    end_job-IsAccounted p n executes (extract i d.running) d
      (count_if-extract (has_item p) i d.running) (count_if-extract (λ j. j.late) i d.running) v
step-IsAccounted p n joined d v =
    if-IsAccounted p (is_closing d.phase) (join d.jobs d.running d)
      (λ h. join-IsAccounted p d.jobs d.running d (pending-closing p d.phase h) v)

-- No item is lost or doubled on its way, whatever the order of the steps: for every property of items,
-- the items that have it and that the dispatcher received from `wakeups` or took of a recovery are as
-- many as those that are still to be sent, are in `jobs`, are with an executor, were executed or were
-- discarded, taken together; and no item is discarded, and none received late, before the context is
-- done.
pub run-IsAccounted :
    {A : Type 0} (p : A → Bool) (n : ℕ) (es : List (Event A))
    → Every (IsAccounted p) (run n es new_dispatcher)
run-IsAccounted p n es =
    Every-run n (IsAccounted p) es new_dispatcher (step-IsAccounted p n)
      (record { account = refl; none_late = λ live. refl; none_discarded = λ live. refl })
