-- ===== src/Idempotency/Claims.antt =====
-- Who may execute: the classification over time, and the fencing by tokens.
use domainry_foundation.Prelude.{
  ◌≡◌, ◌≤◌, refl, Bool, true, false, inl, inr, String, ℤ, Time, arith, Bool-cases, trim_space,
  trim_space_idem, eq_iff,
}
use domainry_foundation.Idempotency.Receipts.{
  Decision, in_progress, Scope, normalized, is_complete, Lease, eq_token, is_live, matches,
  ReceiptState, classify_status, classify,
}

-- Normalising a scope once more changes nothing, and a scope is complete exactly if its normal form is.
pub normalized_idem :
    (scope : Scope)
    → (normalized (normalized scope) ≡ normalized scope)
      × (is_complete (normalized scope) ≡ is_complete scope)
unfolding normalized is_complete
normalized_idem scope =
    rw
      (
        trim_space_idem scope.workspace_id,
        trim_space_idem scope.use_case,
        trim_space_idem scope.resource_type,
        trim_space_idem scope.target_id,
        trim_space_idem scope.key,
      )
      (refl, refl)

is_live-earlier :
    (lease : Lease) (now later : Time)
    → now ≤ later
    → is_live lease later ≡ true
    → is_live lease now ≡ true
unfolding is_live
is_live-earlier lease now later h k = ground (arith, h, k)

abbrev pub is_waiting : Decision → Bool
is_waiting in_progress = true
is_waiting _ = false

-- A receipt that can be taken over, replayed or is in conflict stays so as long as it is not written: a
-- decision other than "in progress" is the same at every later time.
pub classify-later :
    (state : ReceiptState) (fingerprint : String) (now later : Time) (d : Decision)
    → now ≤ later
    → classify state fingerprint now ≡ d
    → is_waiting d ≡ false
    → classify state fingerprint later ≡ d
unfolding classify classify_status
classify-later state fingerprint now later d h k n = elim (Bool-cases (is_live state.lease later)) [
  | inl live ↦
      let before = is_live-earlier state.lease now later h live in
      ground (arith, k, n, live, before)
  | inr over ↦ ground (arith, k, n, over)
]

-- A fencing token shuts out every other one: if a lease matches one owner and token, it matches no other
-- owner and no other token.
pub matches_fences :
    (lease : Lease) (owner other : String) (token token' : ℤ)
    → matches lease owner token ≡ true
    → matches lease other token' ≡ true
    → (trim_space owner ≡ trim_space other) × (eq_token token token' ≡ true)
unfolding matches
matches_fences lease owner other token token' h k = ground (
  arith,
  h,
  k,
  eq_iff (trim_space owner) (trim_space lease.owner),
  eq_iff (trim_space other) (trim_space lease.owner),
)
