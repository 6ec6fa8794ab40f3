-- ===== src/Health/History.antt =====
-- What the registry keeps of past evaluations.
use domainry_foundation.Prelude.{
  ◌≡◌, refl, ap, ◌∙◌, ◌&&◌, Bool, true, false, not, String, str_eq, eq_iff, List, [], ◌∷◌,
  lookup_or, lookup-insert, arith, if◌then◌else◌,
}
use domainry_foundation.Health.Registry.{
  Ending, succeeded, check_failed, timed_out, Run, CheckSnapshot, no_snapshot, Registry, result_of,
  evaluate_check, Status, all_ok, evaluate_all, evaluate,
}

-- An evaluation: when it was, and the checks as they were run.
abbrev pub Evaluation : Type 0
Evaluation = String × List Run

abbrev pub evaluations : List Evaluation → Registry → Registry
evaluations [] states = states
evaluations ((now, rs) ∷ es) states = evaluations es (evaluate now rs states).1

abbrev pub is_success : Ending → Bool
is_success succeeded = true
is_success check_failed = false
is_success timed_out = false

-- The time of the last run of the check that ended well, or did not, or `before` if there is none.
abbrev last_of : Bool → String → String → List Run → String → String
last_of good k now [] before = before
last_of good k now (r ∷ rs) before =
    let same = if is_success r.ending then good else not good in
    last_of good k now rs (if str_eq r.check.name k && same then now else before)

abbrev pub last_time : Bool → String → List Evaluation → String → String
last_time good k [] before = before
last_time good k ((now, rs) ∷ es) before = last_time good k es (last_of good k now rs before)

abbrev known : String → Registry → CheckSnapshot
known k states = lookup_or no_snapshot k states

result_of-times :
    (now : String) (r : Run) (p : CheckSnapshot)
    → ((result_of now r p).last_success_at
        ≡ (if is_success r.ending then now else p.last_success_at))
      × ((result_of now r p).last_error_at ≡ (if is_success r.ending then p.last_error_at else now))
unfolding result_of
result_of-times now r p = ground arith

-- One run changes the times of its own check alone.
evaluate_check-times :
    (k now : String) (r : Run) (states : Registry)
    → ((known k (evaluate_check now r states).1).last_success_at
        ≡ last_of true k now (r ∷ []) (known k states).last_success_at)
      × ((known k (evaluate_check now r states).1).last_error_at
          ≡ last_of false k now (r ∷ []) (known k states).last_error_at)
unfolding evaluate_check
evaluate_check-times k now r states =
    let p = lookup_or no_snapshot r.check.name states in
    ground (
      arith,
      lookup-insert r.check.name k (result_of now r p) states,
      eq_iff r.check.name k,
      result_of-times now r p,
    )

evaluate_all-times :
    (k now : String) (rs : List Run) (status : Status) (results : List CheckSnapshot)
    (states : Registry)
    → ((known k (evaluate_all now rs status results states).2).last_success_at
        ≡ last_of true k now rs (known k states).last_success_at)
      × ((known k (evaluate_all now rs status results states).2).last_error_at
          ≡ last_of false k now rs (known k states).last_error_at)
unfolding evaluate_all
evaluate_all-times k now [] status results states = (refl, refl)
evaluate_all-times k now (r ∷ rs) status results states =
    let one = evaluate_check-times k now r states in
    let later = evaluate_all-times k now rs _ _ (evaluate_check now r states).1 in
    (later.0 ∙ ap (last_of true k now rs) one.0, later.1 ∙ ap (last_of false k now rs) one.1)

-- After any evaluations, of any checks, the registry has for each check the time of the last evaluation in
-- which it ended well and the time of the last one in which it did not; where there is none the times of
-- the registry before stay.
pub evaluations-times :
    (k : String) (es : List Evaluation) (states : Registry)
    → ((lookup_or no_snapshot k (evaluations es states)).last_success_at
        ≡ last_time true k es (lookup_or no_snapshot k states).last_success_at)
      × ((lookup_or no_snapshot k (evaluations es states)).last_error_at
          ≡ last_time false k es (lookup_or no_snapshot k states).last_error_at)
unfolding evaluate
evaluations-times k [] states = (refl, refl)
evaluations-times k ((now, rs) ∷ es) states =
    let one = evaluate_all-times k now rs all_ok [] states in
    let later = evaluations-times k es (evaluate now rs states).1 in
    (later.0 ∙ ap (last_time true k es) one.0, later.1 ∙ ap (last_time false k es) one.1)
