-- ===== src/Worker/Fairness/Rounds.antt =====
-- Round-robin order as a function of the queues alone, and what the loops of `FairOrder` make of it.
use domainry_foundation.Prelude.{
  ℕ, zero, suc, ◌≤◌, ◌<◌, ◌≡◌, refl, sym, ◌∙◌, inl, inr, true, false, Bool-cases, some, String,
  eq_refl, List, [], ◌∷◌, ◌++◌, length, length-append, length-take, take, take_all, List-cases, Map,
  lookup_or, insert, ltb, ◌==◌, arith,
}
use domainry_foundation.Worker.Fairness.{visit, serve}
use domainry_foundation.Worker.Fairness.Queues.{
  has, Distinct, queues_of, lookup_or-insert, queues_of-insert,
}

module _ {A : Type 0} where
  -- One round takes the first element of every queue that has one.
  abbrev pub heads : List (List A) → List A
  heads [] = []
  heads ([] ∷ qs) = heads qs
  heads ((x ∷ xs) ∷ qs) = x ∷ heads qs

  abbrev pub rest_of : List A → List A
  rest_of [] = []
  rest_of (x ∷ xs) = xs

  abbrev pub tails : List (List A) → List (List A)
  tails [] = []
  tails (q ∷ qs) = rest_of q ∷ tails qs

  unfoldable pub rounds : ℕ → List (List A) → List A
  rounds zero qs = []
  rounds (suc n) qs = heads qs ++ rounds n (tails qs)

  pub append_nil : (xs : List A) → xs ++ [] ≡ xs
  append_nil [] = refl
  append_nil (x ∷ xs) = rw (append_nil xs) refl

  pub append_assoc : (xs ys zs : List A) → (xs ++ ys) ++ zs ≡ xs ++ (ys ++ zs)
  append_assoc [] ys zs = refl
  append_assoc (x ∷ xs) ys zs = rw (append_assoc xs ys zs) refl

  pub take-append_short : (n : ℕ) (xs ys : List A) → n ≤ length xs → take n (xs ++ ys) ≡ take n xs
  take-append_short zero xs ys h = refl
  take-append_short (suc n) [] ys h = absurd (omega arith)
  take-append_short (suc n) (x ∷ xs) ys h = rw (take-append_short n xs ys (omega arith)) refl

not-ltb : (a b : ℕ) → b ≤ a → ltb a b ≡ false
not-ltb a b h = ground arith

module _ {A : Type 0} (key : A → String) where
  visit-empty :
      (limit : ℕ) (k : String) (ks : List String) (m : Map (List A)) (out : List A)
      → lookup_or [] k m ≡ []
      → visit key limit (k ∷ ks) m out ≡ visit key limit ks m out
  unfolding visit
  visit-empty limit k ks m out e = rw (visit, e) refl

  visit-full :
      (limit : ℕ) (k : String) (ks : List String) (m : Map (List A)) (out : List A) (x : A)
      (xs : List A)
      → lookup_or [] k m ≡ x ∷ xs
      → (length (out ++ x ∷ []) == limit) ≡ true
      → visit key limit (k ∷ ks) m out ≡ (insert k xs m, out ++ x ∷ [])
  unfolding visit
  visit-full limit k ks m out x xs e full = ground arith

  visit-more :
      (limit : ℕ) (k : String) (ks : List String) (m : Map (List A)) (out : List A) (x : A)
      (xs : List A)
      → lookup_or [] k m ≡ x ∷ xs
      → (length (out ++ x ∷ []) == limit) ≡ false
      → visit key limit (k ∷ ks) m out ≡ visit key limit ks (insert k xs m) (out ++ x ∷ [])
  unfolding visit
  visit-more limit k ks m out x xs e more = rw (visit, e, more) refl

  -- The inner loop fills the result from the first elements of the queues.
  pub visit-out :
      (limit : ℕ) (ks : List String) (m : Map (List A)) (out : List A)
      → Distinct ks
      → length out < limit
      → (visit key limit ks m out).1 ≡ take limit (out ++ heads (queues_of ks m))
  unfolding visit
  visit-out limit [] m out d h = rw (append_nil out, take_all limit out (omega arith)) refl
  visit-out limit (k ∷ ks) m out d h = elim (List-cases (lookup_or [] k m)) [
    | inl e ↦ rw (visit-empty limit k ks m out e, e) (visit-out limit ks m out d.1 h)
    | inr (x, xs, e) ↦
        let size = length-append out (x ∷ []) in
        let ready = append_assoc out (x ∷ []) (heads (queues_of ks m)) in
        elim (Bool-cases (length (out ++ x ∷ []) == limit)) [
          | inl full ↦
              rw
                (
                  visit-full limit k ks m out x xs e full,
                  e,
                  sym ready,
                  take-append_short limit (out ++ x ∷ []) (heads (queues_of ks m)) (ground arith),
                  take_all limit (out ++ x ∷ []) (ground arith),
                )
                refl
          | inr more ↦
              rw
                (
                  visit-more limit k ks m out x xs e more,
                  e,
                  sym ready,
                  sym (queues_of-insert k xs ks m d.0),
                )
                (visit-out limit ks (insert k xs m) (out ++ x ∷ []) d.1 (ground arith))
        ]
  ]

  -- If a whole round leaves room in the result, every queue has lost its first element.
  pub visit-queues :
      (limit : ℕ) (ks : List String) (m : Map (List A)) (out : List A)
      → Distinct ks
      → length (out ++ heads (queues_of ks m)) < limit
      → (queues_of ks (visit key limit ks m out).0 ≡ tails (queues_of ks m))
        × ((j : String)
            → has j ks ≡ false
            → lookup_or [] j (visit key limit ks m out).0 ≡ lookup_or [] j m)
  unfolding visit
  visit-queues limit [] m out d h = (refl, λ j a. refl)
  visit-queues limit (k ∷ ks) m out d h = elim (List-cases (lookup_or [] k m)) [
    | inl e ↦
        let r = visit-queues limit ks m out d.1 (rw e at h) in
        rw (visit-empty limit k ks m out e)
          (rw (r.1 k d.0, r.0, e) refl, λ j a. r.1 j (ground (arith, a)))
    | inr (x, xs, e) ↦
        let held = rw (e, sym (append_assoc out (x ∷ []) (heads (queues_of ks m)))) at h in
        let size = length-append (out ++ x ∷ []) (heads (queues_of ks m)) in
        elim (Bool-cases (length (out ++ x ∷ []) == limit)) [
          | inl full ↦ absurd (ground arith)
          | inr more ↦
              let same = queues_of-insert k xs ks m d.0 in
              let r = visit-queues limit ks (insert k xs m) (out ++ x ∷ []) d.1 (rw same held) in
              rw (visit-more limit k ks m out x xs e more) (
                rw (r.1 k d.0, r.0, lookup_or-insert k k xs m, eq_refl k, same, e) refl,
                λ j a. r.1 j (ground (arith, a)) ∙ ground (arith, a, lookup_or-insert k j xs m),
              )
        ]
  ]

  serve-full :
      (n limit : ℕ) (ks : List String) (m : Map (List A)) (out : List A)
      → limit ≤ length out
      → serve key n limit ks m out ≡ some out
  unfolding serve
  serve-full zero limit ks m out h = ground arith
  serve-full (suc n) limit ks m out h =
      let full = not-ltb (length out) limit h in rw (serve, full) refl

  serve-step :
      (n limit : ℕ) (ks : List String) (m : Map (List A)) (out : List A)
      → ltb (length out) limit ≡ true
      → serve key (suc n) limit ks m out
        ≡ serve key n limit ks (visit key limit ks m out).0 (visit key limit ks m out).1
  unfolding serve
  serve-step n limit ks m out h = rw (serve, h) refl

  -- The outer loop takes the first elements in round-robin order, given a round for each element of the
  -- longest queue.
  pub serve-rounds :
      (n limit : ℕ) (ks : List String) (m : Map (List A)) (out : List A)
      → Distinct ks
      → length out ≤ limit
      → limit ≤ length (out ++ rounds n (queues_of ks m))
      → serve key n limit ks m out ≡ some (take limit (out ++ rounds n (queues_of ks m)))
  unfolding rounds
  serve-rounds zero limit ks m out d short enough =
      let enough' = rw (append_nil out) at enough in
      serve-full zero limit ks m out enough' ∙ rw (append_nil out, take_all limit out short) refl
  serve-rounds (suc n) limit ks m out d short enough =
      let first = heads (queues_of ks m) in
      let later = rounds n (tails (queues_of ks m)) in
      let room = visit-out limit ks m out d in
      elim (Bool-cases (ltb (length out) limit)) [
        | inr full ↦
            serve-full (suc n) limit ks m out (ground arith)
            ∙ rw
                (
                  take-append_short limit out (first ++ later) (ground arith),
                  take_all limit out short,
                )
                refl
        | inl more ↦ elim (Bool-cases (ltb (length (out ++ first)) limit)) [
          | inl more' ↦
              let r = visit-queues limit ks m out d (ground arith) in
              let o = room (ground arith) ∙ take_all limit (out ++ first) (ground arith) in
              let ih =
                serve-rounds n limit ks (visit key limit ks m out).0 (out ++ first) d (ground arith)
                  (rw (r.0, append_assoc out first later) enough) in
              rw (serve-step n limit ks m out more, o, ih, r.0, append_assoc out first later) refl
          | inr full' ↦
              let size = length-take limit (out ++ first) in
              let filled =
                serve-full n limit ks (visit key limit ks m out).0 (take limit (out ++ first))
                  (ground arith) in
              rw
                (
                  serve-step n limit ks m out more,
                  room (ground arith),
                  filled,
                  sym (append_assoc out first later),
                  take-append_short limit (out ++ first) later (ground arith),
                )
                refl
        ]
      ]
