-- ===== src/Error/Body.antt =====
-- How the details of a refusal go into its response (`into_response` of operator/src/error.rs).
use onym_backup.Prelude.{◌≡◌, refl, none, text, eq_text}
use onym_backup.Error.{
  Error, bad_request, signature_invalid, terms_changed, payment_required, invalid_entitlement,
  snapshot_too_large, quota_exceeded, upload_incomplete, upload_expired, chunk_mismatch,
  digest_mismatch, not_found, retention_expired, receipt_expired, internal,
}
use onym_backup.Error.Detail.{detail}
use onym_backup.Documents.Json.{get, get_field}

-- No refusal's details have an entry `error` or `message`: inserting them into the response replaces
-- neither the code nor the message.
pub detail_adds_only :
    (e : Error) → (get (text "error") (detail e) ≡ none) × (get (text "message") (detail e) ≡ none)
unfolding detail get get_field text eq_text
detail_adds_only (terms_changed _) = (refl, refl)
detail_adds_only (payment_required _ _ _ _) = (refl, refl)
detail_adds_only (invalid_entitlement _) = (refl, refl)
detail_adds_only (snapshot_too_large _) = (refl, refl)
detail_adds_only (quota_exceeded _ _ _ _ _ _) = (refl, refl)
detail_adds_only (upload_incomplete _ _) = (refl, refl)
detail_adds_only (bad_request _) = (refl, refl)
detail_adds_only signature_invalid = (refl, refl)
detail_adds_only upload_expired = (refl, refl)
detail_adds_only chunk_mismatch = (refl, refl)
detail_adds_only digest_mismatch = (refl, refl)
detail_adds_only (not_found _) = (refl, refl)
detail_adds_only retention_expired = (refl, refl)
detail_adds_only receipt_expired = (refl, refl)
detail_adds_only (internal _) = (refl, refl)
