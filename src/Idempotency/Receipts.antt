-- ===== src/Idempotency/Receipts.antt =====
-- idempotency/idempotency_contract.go: scopes, leases, and the classification of a receipt. A token is a
-- 64-bit integer and is only compared. A status is a text, as it comes from a store.
use domainry_foundation.Prelude.{
  Bool, not, ◌&&◌, ◌||◌, String, str_eq, ℤ, pos, leb_ℤ, ltb_ℤ, Time, after, trim_space,
  if◌then◌else◌,
}

pub data Decision : Type 0 where
  acquired : Decision
  replay : Decision
  in_progress : Decision
  fingerprint_conflict : Decision

pub record Scope : Type 0 where
  pub workspace_id : String
  pub use_case : String
  pub resource_type : String
  pub target_id : String
  pub key : String

unfoldable pub normalized : Scope → Scope
normalized scope = record {
  workspace_id = trim_space scope.workspace_id;
  use_case = trim_space scope.use_case;
  resource_type = trim_space scope.resource_type;
  target_id = trim_space scope.target_id;
  key = trim_space scope.key;
}

unfoldable pub is_complete : Scope → Bool
unfolding normalized
is_complete scope =
    let s = normalized scope in
    not (str_eq s.workspace_id "")
    && (not (str_eq s.use_case "") && (not (str_eq s.resource_type "") && not (str_eq s.key "")))

pub record Lease : Type 0 where
  pub owner : String
  pub token : ℤ
  pub expires_at : Time

-- `==` on tokens.
abbrev pub eq_token : ℤ → ℤ → Bool
eq_token a b = leb_ℤ a b && leb_ℤ b a

unfoldable pub is_live : Lease → Time → Bool
is_live lease now =
    not (str_eq (trim_space lease.owner) "")
    && (ltb_ℤ (pos 0) lease.token && after lease.expires_at now)

unfoldable pub matches : Lease → String → ℤ → Bool
matches lease owner token =
    not (str_eq (trim_space owner) "")
    && (str_eq (trim_space owner) (trim_space lease.owner)
        && (ltb_ℤ (pos 0) token && eq_token token lease.token))

pub record ReceiptState : Type 0 where
  pub status : String
  pub fingerprint : String
  pub lease : Lease

-- The switch of `Classify`.
unfoldable pub classify_status : ReceiptState → Time → Decision
unfolding is_live
classify_status state now =
    if str_eq state.status "succeeded" || str_eq state.status "failed_terminal"
    then replay
    else if str_eq state.status "processing"
    then (if is_live state.lease now then in_progress else acquired)
    else if str_eq state.status "failed_retryable"
    then acquired
    else in_progress

unfoldable pub classify : ReceiptState → String → Time → Decision
unfolding classify_status
classify state fingerprint now =
    if str_eq (trim_space state.fingerprint) (trim_space fingerprint)
    then classify_status state now
    else fingerprint_conflict
