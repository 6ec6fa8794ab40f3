-- ===== src/Capacity/History.antt =====
-- What holds of the controller after every history of calls.
use mathlib.Core.List.{append_assoc}
use domainry_foundation.Prelude.{
  ℕ, zero, suc, ◌≡◌, refl, sym, ◌∙◌, Bool, true, false, String, Option, none, some, List, [], ◌∷◌,
  Time, arith, count_if, length, Bool-cases, inl, inr, str_eq, if◌then◌else◌, ◌||◌, ◌++◌, subst,
}
use domainry_foundation.Capacity.Model.{Float, Config, Request, Controller}
use domainry_foundation.Capacity.Admission.{evict_idle, reset_rate_windows, admit}
use domainry_foundation.Capacity.Limits.{new_controller, bounded_key, is_default}
use domainry_foundation.Capacity.Controller.{acquire_locked, acquire}
use domainry_foundation.Capacity.Guards.{admit-HasRoom_iff, admit_allowed}
use domainry_foundation.Capacity.Ledger.{
  Accounts, new_controller-Accounts, evict_idle-Accounts, reset_rate_windows-Accounts,
  admit-Accounts, grant-Accounts, release-Accounts,
}
use domainry_foundation.Capacity.Bounds.{
  IsBounded, new_controller-IsBounded, prepare-IsBounded, admit-IsBounded, grant-IsBounded,
  release-IsBounded,
}
use domainry_foundation.Capacity.Leases.{
  Lease, System, Call, acquires, releases, release_lease, release_nth, add_lease, step, run,
  outstanding,
}

-- The numbers account for the requests, and are within the limits.
pub record IsSound {f : Float} (c : Controller f) (rs : List Request) : Type 0 where
  pub accounts : Accounts c rs
  pub bounded : IsBounded c

abbrev with_lease : Option Request → List Request → List Request
with_lease none rs = rs
with_lease (some r) rs = r ∷ rs

-- Two lists of requests with the same counts are one to the invariant.
abbrev SameCounts : List Request → List Request → Type 0
SameCounts xs ys = (length xs ≡ length ys) × ((p : Request → Bool) → count_if p xs ≡ count_if p ys)

count_middle :
    (r : Request) (xs ys : List Request) (p : Request → Bool)
    → count_if p (xs ++ r ∷ ys) ≡ count_if p (r ∷ xs ++ ys)
count_middle r [] ys p = refl
count_middle r (x ∷ xs) ys p = ground (arith, count_middle r xs ys p)

length_middle : (r : Request) (xs ys : List Request) → length (xs ++ r ∷ ys) ≡ length (r ∷ xs ++ ys)
length_middle r [] ys = refl
length_middle r (x ∷ xs) ys = omega (arith, length_middle r xs ys)

middle_counts : (r : Request) (xs ys : List Request) → SameCounts (xs ++ r ∷ ys) (r ∷ xs ++ ys)
middle_counts r xs ys = (length_middle r xs ys, count_middle r xs ys)

add_lease-outstanding :
    (o : Option Request) (ls : List Lease)
    → outstanding (add_lease o ls) ≡ with_lease o (outstanding ls)
add_lease-outstanding none ls = refl
add_lease-outstanding (some r) ls = refl

module _ {f : Float} where
  prepare-IsSound :
      (now : Time) (r : Request) (c : Controller f) (rs : List Request)
      → IsSound c rs
      → IsSound (reset_rate_windows now r (evict_idle now c)) rs
  prepare-IsSound now r c rs s = record {
    accounts = reset_rate_windows-Accounts now r _ rs (evict_idle-Accounts now c rs s.accounts);
    bounded = prepare-IsBounded now r c rs s.accounts s.bounded;
  }

  acquire_locked-IsSound :
      (c : Controller f) (now : Time) (r : Request) (rs : List Request)
      → IsSound c rs
      → IsSound (acquire_locked c now r).0 (with_lease (acquire_locked c now r).1 rs)
  unfolding acquire_locked
  acquire_locked-IsSound c now r rs s =
      let c' = reset_rate_windows now r (evict_idle now c) in
      let s' = prepare-IsSound now r c rs s in
      elim (Bool-cases (admit c' r).1.allowed) [
        | inl yes' ↦ rw yes' (
            rw (admit_allowed c' r yes') (record {
              accounts = grant-Accounts now r c' rs s'.accounts;
              bounded = grant-IsBounded now r c' ((admit-HasRoom_iff c' r).0 yes') s'.bounded;
            }))
        | inr no' ↦ rw no' (record {
          accounts = admit-Accounts c' r rs s'.accounts;
          bounded = admit-IsBounded c' r s'.bounded;
        })
      ]

  acquire-IsSound :
      (lower : String → String) (cancelled : Bool) (c : Controller f) (now : Time) (r : Request)
      (rs : List Request)
      → IsSound c rs
      → IsSound
          (acquire lower cancelled c now r).0
          (with_lease (acquire lower cancelled c now r).1 rs)
  unfolding acquire
  acquire-IsSound lower true c now r rs s = s
  acquire-IsSound lower false c now r rs s =
      let ws = bounded_key lower r.workspace_id "" in
      elim (Bool-cases (str_eq ws "" || is_default ws)) [
        | inl scopeless ↦ rw scopeless s
        | inr scoped ↦ rw scoped (acquire_locked-IsSound c now _ rs s)
      ]

  Accounts-counts :
      (c : Controller f) (xs ys : List Request) → SameCounts xs ys → Accounts c xs → Accounts c ys
  Accounts-counts c xs ys e a = record {
    workspace_map = a.workspace_map;
    use_case_map = a.use_case_map;
    process = a.process ∙ e.0;
    workspace = λ k. a.workspace k ∙ e.1 _;
    use_case = λ k. a.use_case k ∙ e.1 _;
    retry = a.retry ∙ e.1 _;
  }

  IsSound-counts :
      (c : Controller f) (xs ys : List Request) → SameCounts xs ys → IsSound c xs → IsSound c ys
  IsSound-counts c xs ys e s = record {
    accounts = Accounts-counts c xs ys e s.accounts;
    bounded = s.bounded;
  }

  -- `xs` holds the requests of the leases before this one, `rest` of those behind it.
  release_lease-IsSound :
      (c : Controller f) (now : Time) (xs rest : List Request) (request : Request) (released : Bool)
      → IsSound c (xs ++ (if released then rest else request ∷ rest))
      → let q = release_lease c now (record { request = request; released = released }) in
        IsSound q.0 (xs ++ (if q.1.released then rest else q.1.request ∷ rest))
  unfolding release_lease
  release_lease-IsSound c now xs rest request true s = s
  release_lease-IsSound c now xs rest request false s =
      let t = IsSound-counts c _ _ (middle_counts request xs rest) s in
      record {
        accounts = release-Accounts now request c (xs ++ rest) t.accounts;
        bounded = release-IsBounded now request c (xs ++ rest) t.accounts t.bounded;
      }

  -- `xs` holds the requests of the leases before `ls`.
  release_nth-IsSound :
      (c : Controller f) (now : Time) (xs : List Request) (ls : List Lease) (i : ℕ)
      → IsSound c (xs ++ outstanding ls)
      → let q = release_nth c now ls i in IsSound q.0 (xs ++ outstanding q.1)
  unfolding release_nth
  release_nth-IsSound c now xs [] i s = s
  release_nth-IsSound c now xs (l ∷ ls) zero s =
      release_lease-IsSound c now xs (outstanding ls) l.request l.released s
  release_nth-IsSound c now xs (l ∷ ls) (suc i) s = elim (Bool-cases l.released) [
    | inl done ↦ rw done (release_nth-IsSound c now xs ls i (rw done at s))
    | inr out ↦ rw out (
        subst (IsSound _) (append_assoc xs (l.request ∷ []) _) (
          release_nth-IsSound c now (xs ++ l.request ∷ []) ls i
            (subst (IsSound c) (sym (append_assoc xs (l.request ∷ []) _)) (rw out at s))))
  ]

  pub step-IsSound :
      (lower : String → String) (s : System f) (call : Call)
      → IsSound s.controller (outstanding s.leases)
      → let t = step lower s call in IsSound t.controller (outstanding t.leases)
  unfolding step
  step-IsSound lower s (acquires cancelled now r) h =
      rw (add_lease-outstanding _ s.leases) (acquire-IsSound lower cancelled s.controller now r _ h)
  step-IsSound lower s (releases now i) h = release_nth-IsSound s.controller now [] s.leases i h

  run_from-IsSound :
      (lower : String → String) (s : System f) (calls : List Call)
      → IsSound s.controller (outstanding s.leases)
      → let t = run lower s calls in IsSound t.controller (outstanding t.leases)
  unfolding run
  run_from-IsSound lower s [] h = h
  run_from-IsSound lower s (call ∷ calls) h =
      run_from-IsSound lower (step lower s call) calls (step-IsSound lower s call h)

  abbrev pub started : Config f → Bool → System f
  started v has_sink = record { controller = new_controller f v has_sink; leases = [] }

  -- After any calls of `Acquire` and `Release` on a new controller, in any order, every in-flight
  -- number equals the number of outstanding leases that it counts, and every number that a limit
  -- bounds is within it.
  pub run-IsSound :
      (lower : String → String) (v : Config f) (has_sink : Bool) (calls : List Call)
      → let s = run lower (started v has_sink) calls in IsSound s.controller (outstanding s.leases)
  run-IsSound lower v has_sink calls = run_from-IsSound lower (started v has_sink) calls (record {
    accounts = new_controller-Accounts v has_sink;
    bounded = new_controller-IsBounded v has_sink;
  })
