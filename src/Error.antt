-- ===== src/Error.antt =====
-- operator/src/error.rs: every refusal of the wire profile, its code, its HTTP status and its details. The
-- messages are for people, so they are literals here and the parts that name a run-time cause are
-- left out.
pub mod Codes
pub mod Detail
pub mod Body
use onym_backup.Prelude.{ℕ, String, List, Bool, true, false}
use onym_backup.Prelude.{Text, leb, ◌&&◌}
use onym_backup.Prelude.Int.{ℤ}
use onym_backup.Prelude.Exec.{Result}

pub data Resource : Type 0 where
  snapshot upload operation terms receipt : Resource

pub data Error : Type 0 where
  bad_request : String → Error
  signature_invalid : Error
  terms_changed : Text → Error
  payment_required : Text → List Text → List Text → Text → Error
  invalid_entitlement : List Text → Error
  snapshot_too_large : ℕ → Error
  quota_exceeded : ℕ → ℕ → ℕ → ℤ → ℕ → ℕ → Error
  upload_incomplete : List (ℕ × ℕ) → ℤ → Error
  upload_expired : Error
  chunk_mismatch : Error
  digest_mismatch : Error
  not_found : Resource → Error
  retention_expired : Error
  receipt_expired : Error
  internal : String → Error

-- `Result<T>` of this crate
abbrev pub Fallible : Type 0 → Type 0
Fallible A = Result Error A

unfoldable pub code : Error → String
code (bad_request _) = "bad_request"
code signature_invalid = "signature_invalid"
code (terms_changed _) = "terms_changed"
code (payment_required _ _ _ _) = "payment_required"
code (invalid_entitlement _) = "invalid_entitlement"
code (snapshot_too_large _) = "snapshot_too_large"
code (quota_exceeded _ _ _ _ _ _) = "quota_exceeded"
code (upload_incomplete _ _) = "upload_incomplete"
code upload_expired = "upload_expired"
code chunk_mismatch = "chunk_mismatch"
code digest_mismatch = "digest_mismatch"
code (not_found snapshot) = "snapshot_not_found"
code (not_found upload) = "upload_not_found"
code (not_found operation) = "operation_not_found"
code (not_found terms) = "terms_not_found"
code (not_found receipt) = "receipt_not_found"
code retention_expired = "retention_expired"
code receipt_expired = "receipt_expired"
code (internal _) = "internal_error"

unfoldable pub status : Error → ℕ
status (bad_request _) = 400
status signature_invalid = 401
status (invalid_entitlement _) = 401
status (terms_changed _) = 409
status (quota_exceeded _ _ _ _ _ _) = 409
status (upload_incomplete _ _) = 409
status upload_expired = 409
status chunk_mismatch = 409
status digest_mismatch = 409
status (payment_required _ _ _ _) = 402
status (snapshot_too_large _) = 413
status (not_found _) = 404
status retention_expired = 410
status receipt_expired = 410
status (internal _) = 500

-- `StatusCode::is_server_error`, which decides whether a refusal is logged as an error
unfoldable pub is_server_error : ℕ → Bool
is_server_error s = leb 500 s && leb s 599
