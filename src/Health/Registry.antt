-- ===== src/Health/Registry.antt =====
-- health/health.go: the registry of checks. A clock reading is the text that the code formats it to, and
-- what a check's `Run` and its context come to is an argument.
use package.text.Mathlib.Text.{is_le}
use Prim.Native.String.{compare}
use domainry_foundation.Prelude.{
  ℕ, zero, suc, ◌/◌, ℤ, pos, negsuc, String, List, [], ◌∷◌, ◌++◌, Map, lookup_or, insert, Duration,
  if◌then◌else◌,
}

-- `Critical`, and `Optional` or any other text.
pub data Criticality : Type 0 where
  critical optional : Criticality

pub data CheckStatus : Type 0 where
  check_ok check_error : CheckStatus

pub data Status : Type 0 where
  all_ok degraded unavailable : Status

pub record Check : Type 0 where
  pub name : String
  pub criticality : Criticality
  pub timeout : Duration

-- How a check ends: with no error, with an error before its context is done, or with one after that.
pub data Ending : Type 0 where
  succeeded check_failed timed_out : Ending

-- A check as it is run: how it ended, and the milliseconds that it took.
pub record Run : Type 0 where
  pub check : Check
  pub ending : Ending
  pub took : ℤ

pub record CheckSnapshot : Type 0 where
  pub name : String
  pub status : CheckStatus
  pub criticality : Criticality
  pub timeout_ms : ℕ
  pub duration_ms : ℤ
  pub last_success_at : String
  pub last_error_at : String
  pub last_error_code : String

pub record Snapshot : Type 0 where
  pub status : Status
  pub checked_at : String
  pub checks : List CheckSnapshot

abbrev pub Registry : Type 0
Registry = Map CheckSnapshot

-- The zero value of `CheckSnapshot`; its empty status is never looked at.
abbrev pub no_snapshot : CheckSnapshot
no_snapshot = record {
  name = "";
  status = check_error;
  criticality = optional;
  timeout_ms = 0;
  duration_ms = pos 0;
  last_success_at = "";
  last_error_at = "";
  last_error_code = "";
}

-- The timeout in milliseconds, two seconds if there is none.
unfoldable pub timeout_milliseconds : Duration → ℕ
timeout_milliseconds (pos zero) = 2000
timeout_milliseconds (pos (suc n)) = suc n / 1000000
timeout_milliseconds (negsuc n) = 2000

-- The result before its outcome is known, with what the previous one is kept for.
abbrev pub started : Run → CheckSnapshot → CheckSnapshot
started r previous = record {
  name = r.check.name;
  status = check_error;
  criticality = r.check.criticality;
  timeout_ms = timeout_milliseconds r.check.timeout;
  duration_ms = r.took;
  last_success_at = previous.last_success_at;
  last_error_at = previous.last_error_at;
  last_error_code = previous.last_error_code;
}

unfoldable pub result_of : String → Run → CheckSnapshot → CheckSnapshot
unfolding timeout_milliseconds
result_of now r previous = elim r.ending [
  | succeeded ↦ record (started r previous) { status = check_ok; last_success_at = now }
  | check_failed ↦ record (started r previous) {
    last_error_at = now;
    last_error_code = "check_failed";
  }
  | timed_out ↦ record (started r previous) { last_error_at = now; last_error_code = "timeout" }
]

-- `Registry.evaluate`
unfoldable pub evaluate_check : String → Run → Registry → CheckSnapshot × Registry
unfolding result_of
evaluate_check now r states =
    let result = result_of now r (lookup_or no_snapshot r.check.name states) in
    (result, insert r.check.name result states)

-- What a result makes of the status.
abbrev pub worsen : CheckStatus → Criticality → Status → Status
worsen check_ok c status = status
worsen check_error critical status = unavailable
worsen check_error optional all_ok = degraded
worsen check_error optional status = status

-- `sort.Slice` by the names.
abbrev pub insert_sorted : CheckSnapshot → List CheckSnapshot → List CheckSnapshot
insert_sorted s [] = s ∷ []
insert_sorted s (t ∷ ts) =
    let rest = insert_sorted s ts in if is_le (compare s.name t.name) then s ∷ t ∷ ts else t ∷ rest

abbrev pub sort_by_name : List CheckSnapshot → List CheckSnapshot
sort_by_name [] = []
sort_by_name (s ∷ ss) = insert_sorted s (sort_by_name ss)

-- The loop of `Evaluate`.
unfoldable pub evaluate_all :
    String
    → List Run
    → Status
    → List CheckSnapshot
    → Registry
    → Status × List CheckSnapshot × Registry
unfolding evaluate_check
evaluate_all now [] status results states = (status, results, states)
evaluate_all now (r ∷ rs) status results states =
    let result = (evaluate_check now r states).0 in
    evaluate_all now rs (worsen result.status r.check.criticality status) (results ++ result ∷ [])
      (evaluate_check now r states).1

-- `Registry.Evaluate`
unfoldable pub evaluate : String → List Run → Registry → Snapshot × Registry
unfolding evaluate_all
evaluate now rs states =
    let (status, results, states') = evaluate_all now rs all_ok [] states in
    (record { status = status; checked_at = now; checks = sort_by_name results }, states')
