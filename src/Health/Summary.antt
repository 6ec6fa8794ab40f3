-- ===== src/Health/Summary.antt =====
-- The status of a snapshot.
use domainry_foundation.Prelude.{
  ◌≡◌, refl, ◌∙◌, ◌&&◌, ◌||◌, Bool, true, false, not, String, List, [], ◌∷◌, ◌++◌, lookup_or, arith,
  if◌then◌else◌,
}
use domainry_foundation.Health.Registry.{
  Criticality, critical, optional, check_ok, check_error, Run, CheckSnapshot, Registry, no_snapshot,
  result_of, evaluate_check, Status, all_ok, degraded, unavailable, worsen, evaluate_all, evaluate,
}
use domainry_foundation.Health.History.{is_success}

abbrev is_critical : Criticality → Bool
is_critical critical = true
is_critical optional = false

-- Some check failed, and some critical one did.
abbrev pub some_failed : List Run → Bool
some_failed [] = false
some_failed (r ∷ rs) = let rest = some_failed rs in not (is_success r.ending) || rest

abbrev pub critical_failed : List Run → Bool
critical_failed [] = false
critical_failed (r ∷ rs) =
    let rest = critical_failed rs in
    (not (is_success r.ending) && is_critical r.check.criticality) || rest

abbrev combined : Status → Bool → Bool → Status
combined unavailable c f = unavailable
combined degraded c f = if c then unavailable else degraded
combined all_ok c f = if c then unavailable else if f then degraded else all_ok

result_of-status :
    (now : String) (r : Run) (p : CheckSnapshot)
    → (result_of now r p).status ≡ (if is_success r.ending then check_ok else check_error)
unfolding result_of
result_of-status now r p = ground arith

combined-worsen :
    (good c f : Bool) (k : Criticality) (status : Status)
    → combined (worsen (if good then check_ok else check_error) k status) c f
      ≡ combined status ((not good && is_critical k) || c) (not good || f)
combined-worsen good c f critical status = ground arith
combined-worsen good c f optional status = ground arith

evaluate_all-status :
    (now : String) (rs : List Run) (status : Status) (results : List CheckSnapshot)
    (states : Registry)
    → (evaluate_all now rs status results states).0
      ≡ combined status (critical_failed rs) (some_failed rs)
unfolding evaluate_all evaluate_check
evaluate_all-status now [] all_ok results states = refl
evaluate_all-status now [] degraded results states = refl
evaluate_all-status now [] unavailable results states = refl
evaluate_all-status now (r ∷ rs) status results states =
    let p = lookup_or no_snapshot r.check.name states in
    let result = result_of now r p in
    evaluate_all-status now rs (worsen result.status r.check.criticality status)
      (results ++ result ∷ []) (evaluate_check now r states).1
    ∙ rw (result_of-status now r p) (
        combined-worsen (is_success r.ending) (critical_failed rs) (some_failed rs)
          r.check.criticality status)

-- A snapshot is unavailable exactly if some critical check failed, degraded if only others did, and ok if
-- none failed, in whatever order the checks stand.
pub evaluate-status :
    (now : String) (rs : List Run) (states : Registry)
    → (evaluate now rs states).0.status
      ≡ (if critical_failed rs then unavailable else if some_failed rs then degraded else all_ok)
unfolding evaluate
evaluate-status now rs states = evaluate_all-status now rs all_ok [] states
