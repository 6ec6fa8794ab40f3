-- ===== src/Health/Examples.antt =====
-- Two evaluations of a database and a connector.
use domainry_foundation.Prelude.{pos, ◌≡◌, List, [], ◌∷◌, true, false, if◌then◌else◌, lookup_or}
use domainry_foundation.Health.Registry.{
  critical, optional, succeeded, check_failed, timed_out, Run, all_ok, degraded, unavailable,
  no_snapshot, evaluate,
}
use domainry_foundation.Health.History.{Evaluation, evaluations, last_time, evaluations-times}
use domainry_foundation.Health.Summary.{some_failed, critical_failed, evaluate-status}

abbrev database : Run
database = record {
  check = record { name = "database"; criticality = critical; timeout = pos 0 };
  ending = succeeded;
  took = pos 3;
}

abbrev connector : Run
connector = record {
  check = record { name = "connector"; criticality = optional; timeout = pos 50000000 };
  ending = timed_out;
  took = pos 50;
}

abbrev days : List Evaluation
days =
    ("2026-01-01T00:00:00Z", connector ∷ database ∷ [])
    ∷ ("2026-01-02T00:00:00Z", record database { ending = check_failed } ∷ [])
    ∷ []

evaluations-times_example :
    ((lookup_or no_snapshot "database" (evaluations days [])).last_success_at
      ≡ last_time true "database" days "")
    × ((lookup_or no_snapshot "database" (evaluations days [])).last_error_at
        ≡ last_time false "database" days "")
evaluations-times_example = evaluations-times "database" days []

evaluate-status_example :
    (evaluate "2026-01-01T00:00:00Z" (connector ∷ database ∷ []) []).0.status ≡ (
      if critical_failed (connector ∷ database ∷ [])
      then unavailable
      else if some_failed (connector ∷ database ∷ [])
      then degraded
      else all_ok)
evaluate-status_example = evaluate-status "2026-01-01T00:00:00Z" (connector ∷ database ∷ []) []
