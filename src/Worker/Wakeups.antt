-- ===== src/Worker/Wakeups.antt =====
-- The buffers of the broker's channels.
use domainry_foundation.Prelude.{
  ℕ, zero, suc, ◌≡◌, refl, sym, ap, ◌∙◌, not, ◌&&◌, eq_iff, map, take, take_all, if◌then◌else◌, ◌≤◌,
  inl, inr, String, str_eq, List, [], ◌∷◌, ◌++◌, length, length-append, lookup_or, insert,
  lookup-insert, ltb, arith, Bool-cases, trim_space, ℤ,
}
use domainry_foundation.Worker.Broker.{
  DurableTaskLocator, Channel, WakeupBroker, channel_capacity, subscribe, offer, offer_all, trimmed,
  is_incomplete, publish,
}

-- Every channel holds its capacity at most.
abbrev pub AllFit : List Channel → Type 0
AllFit [] = Unit {0}
AllFit (c ∷ cs) = (length c.buffer ≤ c.capacity) × AllFit cs

offer_all-AllFit :
    (l : DurableTaskLocator) (cs : List Channel) → AllFit cs → AllFit (offer_all l cs)
unfolding offer
offer_all-AllFit l [] h = tt
offer_all-AllFit l (c ∷ cs) h = elim (Bool-cases (ltb (length c.buffer) c.capacity)) [
  | inl room ↦
      rw (room, length-append c.buffer (l ∷ [])) (ground arith, offer_all-AllFit l cs (h.1))
  | inr full ↦ rw full (h.0, offer_all-AllFit l cs (h.1))
]

add-AllFit :
    (cs : List Channel) (n : ℕ)
    → AllFit cs
    → AllFit (cs ++ record { capacity = n; buffer = [] } ∷ [])
add-AllFit [] n h = (omega arith, tt)
add-AllFit (c ∷ cs) n h = (h.0, add-AllFit cs n (h.1))

abbrev pub IsBounded : WakeupBroker → Type 0
IsBounded b = (kind : String) → AllFit (lookup_or [] kind b)

insert-IsBounded :
    (kind : String) (cs : List Channel) (b : WakeupBroker)
    → IsBounded b
    → AllFit cs
    → IsBounded (insert kind cs b)
insert-IsBounded kind cs b h k j = elim (Bool-cases (str_eq kind j)) [
  | inl same ↦ rw (lookup_or, lookup-insert kind j cs b, same) k
  | inr other ↦ rw (lookup_or, lookup-insert kind j cs b, other) (h j)
]

publish-IsBounded :
    (locator : DurableTaskLocator) (b : WakeupBroker) → IsBounded b → IsBounded (publish locator b)
unfolding publish
publish-IsBounded locator b h =
    let l = trimmed locator in
    elim (Bool-cases (is_incomplete l)) [
      | inl incomplete ↦ rw incomplete h
      | inr complete ↦ rw complete (
          insert-IsBounded l.queue_kind (offer_all l (lookup_or [] l.queue_kind b)) b h
            (offer_all-AllFit l (lookup_or [] l.queue_kind b) (h l.queue_kind)))
    ]

subscribe-IsBounded :
    (kind : String) (capacity : ℤ) (b : WakeupBroker)
    → IsBounded b
    → IsBounded (subscribe kind capacity b)
unfolding subscribe
subscribe-IsBounded kind capacity b h = elim (Bool-cases (str_eq (trim_space kind) "")) [
  | inl nameless ↦ rw nameless h
  | inr named ↦ rw named (
      insert-IsBounded (trim_space kind) _ b h (
        add-AllFit (lookup_or [] (trim_space kind) b) (channel_capacity capacity)
          (h (trim_space kind))))
]

-- The wakeups of a list that are sent to a queue, trimmed, in their order.
abbrev pub addressed : String → List DurableTaskLocator → List DurableTaskLocator
addressed kind [] = []
addressed kind (l ∷ ls) =
    let rest = addressed kind ls in
    if not (is_incomplete (trimmed l)) && str_eq (trim_space l.queue_kind) kind
    then trimmed l ∷ rest
    else rest

-- A channel that kept the first of these wakeups, as many as it has room for.
abbrev pub filled : List DurableTaskLocator → Channel → Channel
filled ls c = record c { buffer = take c.capacity (c.buffer ++ ls) }

abbrev pub publish_all : List DurableTaskLocator → WakeupBroker → WakeupBroker
publish_all [] b = b
publish_all (l ∷ ls) b = publish_all ls (publish l b)

append_nil : (xs : List DurableTaskLocator) → xs ++ [] ≡ xs
append_nil [] = refl
append_nil (x ∷ xs) = ap (λ ys. x ∷ ys) (append_nil xs)

append_assoc : (xs ys zs : List DurableTaskLocator) → (xs ++ ys) ++ zs ≡ xs ++ (ys ++ zs)
append_assoc [] ys zs = refl
append_assoc (x ∷ xs) ys zs = ap (λ ws. x ∷ ws) (append_assoc xs ys zs)

take_full : (n : ℕ) (xs ys : List DurableTaskLocator) → length xs ≡ n → take n (xs ++ ys) ≡ xs
take_full zero [] [] h = refl
take_full zero [] (y ∷ ys) h = refl
take_full zero (x ∷ xs) ys h = absurd (omega (arith, h))
take_full (suc n) [] ys h = absurd (omega (arith, h))
take_full (suc n) (x ∷ xs) ys h = ap (λ ws. x ∷ ws) (take_full n xs ys (omega (arith, h)))

filled-offer :
    (l : DurableTaskLocator) (ls : List DurableTaskLocator) (c : Channel)
    → length c.buffer ≤ c.capacity
    → filled ls (offer l c) ≡ filled (l ∷ ls) c
unfolding offer
filled-offer l ls c fits = elim (Bool-cases (ltb (length c.buffer) c.capacity)) [
  | inl room ↦
      rw room
        (ap (λ b. record c { buffer = take c.capacity b }) (append_assoc c.buffer (l ∷ []) ls))
  | inr full ↦
      let whole : length c.buffer ≡ c.capacity = ground (arith, full, fits) in
      rw full (
        ap (λ b. record c { buffer = b })
          (take_full c.capacity c.buffer ls whole
            ∙ sym (take_full c.capacity c.buffer (l ∷ ls) whole)))
]

map-filled-offer_all :
    (l : DurableTaskLocator) (ls : List DurableTaskLocator) (cs : List Channel)
    → AllFit cs
    → map (filled ls) (offer_all l cs) ≡ map (filled (l ∷ ls)) cs
map-filled-offer_all l ls [] h = refl
map-filled-offer_all l ls (c ∷ cs) h =
    rw (filled-offer l ls c h.0, map-filled-offer_all l ls cs h.1) refl

map-filled_nil : (cs : List Channel) → AllFit cs → map (filled []) cs ≡ cs
map-filled_nil [] h = refl
map-filled_nil (c ∷ cs) h =
    let same : take c.capacity (c.buffer ++ []) ≡ c.buffer =
      rw (append_nil c.buffer) (take_all c.capacity c.buffer h.0) in
    rw (same, map-filled_nil cs h.1) refl

-- One wakeup, as the channels of a queue see it.
channels-publish :
    (kind : String) (l : DurableTaskLocator) (b : WakeupBroker)
    → lookup_or [] kind (publish l b) ≡ (
        if not (is_incomplete (trimmed l)) && str_eq (trim_space l.queue_kind) kind
        then offer_all (trimmed l) (lookup_or [] kind b)
        else lookup_or [] kind b)
unfolding publish
channels-publish kind l b =
    let t = trimmed l in
    let sent = offer_all t (lookup_or [] t.queue_kind b) in
    elim (Bool-cases (is_incomplete t)) [
      | inl incomplete ↦ rw incomplete refl
      | inr complete ↦ elim (Bool-cases (str_eq t.queue_kind kind)) [
        | inr other ↦
            let found : lookup_or [] kind (insert t.queue_kind sent b) ≡ lookup_or [] kind b =
              rw (lookup_or, lookup-insert t.queue_kind kind sent b, other) refl in
            rw (complete, other) found
        | inl same ↦
            let found : lookup_or [] kind (insert t.queue_kind sent b) ≡ sent =
              rw (lookup_or, lookup-insert t.queue_kind kind sent b, same) refl in
            let named = (eq_iff t.queue_kind kind).0 same in
            rw (complete, same) (found ∙ ap (λ k. offer_all t (lookup_or [] k b)) named)
      ]
    ]

-- Where every channel is within its capacity, each channel of a queue holds, after any wakeups are
-- published and none is received, what it held followed by the trimmed wakeups of that queue in the order
-- of their publication, cut to its capacity: the first that fit are kept and the others dropped. A wakeup
-- without a queue, a workspace or a task goes to no queue.
pub publish_all-filled :
    (kind : String) (ls : List DurableTaskLocator) (b : WakeupBroker)
    → IsBounded b
    → lookup_or [] kind (publish_all ls b) ≡ map (filled (addressed kind ls)) (lookup_or [] kind b)
publish_all-filled kind [] b h = sym (map-filled_nil (lookup_or [] kind b) (h kind))
publish_all-filled kind (l ∷ ls) b h =
    let later = publish_all-filled kind ls (publish l b) (publish-IsBounded l b h) in
    let step = channels-publish kind l b in
    elim (Bool-cases (not (is_incomplete (trimmed l)) && str_eq (trim_space l.queue_kind) kind)) [
      | inl here ↦
          let now : lookup_or [] kind (publish l b) ≡ offer_all (trimmed l) (lookup_or [] kind b) =
            step ∙ rw here refl in
          let all : addressed kind (l ∷ ls) ≡ trimmed l ∷ addressed kind ls = rw here refl in
          later
          ∙ ap (map (filled (addressed kind ls))) now
          ∙ map-filled-offer_all (trimmed l) (addressed kind ls) (lookup_or [] kind b) (h kind)
          ∙ ap (λ xs. map (filled xs) (lookup_or [] kind b)) (sym all)
      | inr elsewhere ↦
          let now : lookup_or [] kind (publish l b) ≡ lookup_or [] kind b =
            step ∙ rw elsewhere refl in
          let all : addressed kind (l ∷ ls) ≡ addressed kind ls = rw elsewhere refl in
          later
          ∙ ap (map (filled (addressed kind ls))) now
          ∙ ap (λ xs. map (filled xs) (lookup_or [] kind b)) (sym all)
    ]
