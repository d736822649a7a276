-- ===== src/Error/Detail.antt =====
-- `detail` of operator/src/error.rs: the entries that a refusal adds to its response.
use onym_backup.Prelude.{ℕ, List, [], ◌∷◌, Text, text}
use onym_backup.Prelude.Int.{pos}
use onym_backup.Error.{
  Error, bad_request, signature_invalid, terms_changed, payment_required, invalid_entitlement,
  snapshot_too_large, quota_exceeded, upload_incomplete, upload_expired, chunk_mismatch,
  digest_mismatch, not_found, retention_expired, receipt_expired, internal,
}
use onym_backup.Documents.Json.{
  Value, number, integer, string, array, object, Values, nil, cons, end, field, text_values,
}

count : ℕ → Value
count n = number (integer (pos n))

-- each run of missing chunks as a pair
ranges : List (ℕ × ℕ) → Values
unfolding count
ranges [] = nil
ranges (r ∷ rs) = cons (array (cons (count r.0) (cons (count r.1) nil))) (ranges rs)

payment : Text → List Text → List Text → Text → Value
unfolding count text_values
payment component_id offers issuers manifest_url = object (
    field (text "componentId") (string component_id) (
      field (text "entitlementIssuers") (array (text_values issuers)) (
        field (text "manifestUrl") (string manifest_url) (
          field (text "offers") (array (text_values offers))
            (field (text "version") (count 1) end)))))

unfoldable pub detail : Error → Value
unfolding count ranges payment text_values
detail (terms_changed current) = object (field (text "currentTermsId") (string current) end)
detail (payment_required component_id offers issuers manifest_url) =
    object (field (text "paymentRequired") (payment component_id offers issuers manifest_url) end)
detail (invalid_entitlement issuers) =
    object (field (text "entitlementIssuers") (array (text_values issuers)) end)
detail (snapshot_too_large maximum) =
    object (field (text "maximumSealedSnapshotBytes") (count maximum) end)
detail (quota_exceeded snapshots maximum bytes limit grants grant_bytes) = object (
    field (text "limitBytes") (number (integer limit)) (
      field (text "maximumRetainedSnapshots") (count maximum) (
        field (text "openGrantBytes") (count grant_bytes) (
          field (text "openGrants") (count grants) (
            field (text "retainedBytes") (count bytes)
              (field (text "retainedSnapshots") (count snapshots) end))))))
detail (upload_incomplete missing chunk_count) = object (
    field (text "chunkCount") (number (integer chunk_count))
      (field (text "missingChunks") (array (ranges missing)) end))
detail (bad_request _) = object end
detail signature_invalid = object end
detail upload_expired = object end
detail chunk_mismatch = object end
detail digest_mismatch = object end
detail (not_found _) = object end
detail retention_expired = object end
detail receipt_expired = object end
detail (internal _) = object end
