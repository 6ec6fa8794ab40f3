-- ===== src/Idempotency/Examples.antt =====
-- The theorems on receipts at concrete receipts.
use domainry_foundation.Prelude.{◌≡◌, refl, pos, arith, trim_space}
use domainry_foundation.Idempotency.Receipts.{
  acquired, Lease, ReceiptState, classify_status, classify,
}
use domainry_foundation.Idempotency.Claims.{classify-later}

abbrev lease : Lease
lease = record { owner = "a"; token = pos 3; expires_at = 100 }

abbrev receipt : ReceiptState
receipt = record { status = "processing"; fingerprint = "f"; lease = lease }

receipt_acquired : classify receipt "f" 200 ≡ acquired
unfolding classify classify_status trim_space
receipt_acquired = refl

classify-later_example : classify receipt "f" 300 ≡ acquired
classify-later_example =
    classify-later receipt "f" 200 300 acquired (omega arith) receipt_acquired refl
