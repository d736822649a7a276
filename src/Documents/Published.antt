-- ===== src/Documents/Published.antt =====
-- What operator/src/documents.rs publishes: the terms, the manifest and the profile, and `build`, which
-- signs them at boot.
use onym_backup.Prelude.{
  ℕ, ◌-◌, ◌*◌, ◌/◌, ◌%◌, ◌^◌, ◌==◌, ltb, true, List, [], ◌∷◌, ◌++◌, Text, text, if◌then◌else◌,
}
use onym_backup.Prelude.Int.{pos}
use onym_backup.Prelude.Decimal.{decimal}
use onym_backup.Prelude.Exec.{ok}
use onym_backup.Prelude.Results.{◌>>=◌, ok_or}
use onym_backup.Error.{Fallible, internal}
use onym_backup.Crypto.{Crypto}
use onym_backup.Config.{Config}
use onym_backup.Operator.{Documents}
use onym_backup.Blobs.Digest.{digest_text}
use onym_backup.Documents.Json.{
  Json, Value, null, bool, number, integer, string, array, object, Values, nil, cons, text_values,
  fields_of, values_of,
}
use onym_backup.Documents.Canonical.{canonical_bytes}
use onym_backup.Documents.Duration.{iso_duration}
use onym_backup.Documents.Sign.{sign, detached, terms_id_field, signature_field}

abbrev pub portable_profile_id : Text
portable_profile_id = text "onym:backup-profile:sealed-device-archive-v1"

abbrev pub implementation_profile_id : Text
implementation_profile_id = text "onym:backup-implementation:object-http-v1"

abbrev pub seat : Text
seat = text "storage.backup"

-- `iso_duration(n as i64)` of an n below 2^64: from 2^63 on the `i64` is n - 2^64
unfoldable pub poll_duration : ℕ → Text
poll_duration n =
    if ltb n (2 ^ 63)
    then iso_duration n
    else if (2 ^ 64 - n) % (24 * 60 * 60) == 0
    then text "P-" ++ (decimal ((2 ^ 64 - n) / (24 * 60 * 60)) ++ text "D")
    else if (2 ^ 64 - n) % (60 * 60) == 0
    then text "PT-" ++ (decimal ((2 ^ 64 - n) / (60 * 60)) ++ text "H")
    else if (2 ^ 64 - n) % 60 == 0
    then text "PT-" ++ (decimal ((2 ^ 64 - n) / 60) ++ text "M")
    else text "PT-" ++ (decimal (2 ^ 64 - n) ++ text "S")

unfoldable pub erasure_terms : Value
unfolding fields_of
erasure_terms = object (
    fields_of (
      (text "acknowledgementDeadline", (string (text "PT1H")))
      ∷ (text "completionDeadline", (string (text "P7D")))
      ∷ (
        text "excluded",
        (string (
            text
              "copies held by the other participants in every conversation this snapshot contains, and any copy you exported yourself")),
      )
      ∷ (text "scope", (string (text "the primary copy and this operator's own backups of it")))
      ∷ []))

unfoldable pub end_of_payment_terms : Value
unfolding fields_of values_of
end_of_payment_terms = object (
    fields_of (
      (text "afterGrace", (string (text "erase")))
      ∷ (
        text "duringGrace",
        (array (
            values_of (
              (string (text "download"))
              ∷ (string (text "export"))
              ∷ (string (text "erase"))
              ∷ []))),
      )
      ∷ (text "grace", (string (text "P30D")))
      ∷ (text "notice", (string (text "P14D")))
      ∷ []))

unfoldable pub metadata_terms : Config → Value
unfolding fields_of poll_duration
metadata_terms config = object (
    fields_of (
      (text "accessLogs", (string (text "none")))
      ∷ (text "entitlementRecords", string (poll_duration config.revocation_poll_secs))
      ∷ (text "erasedReferences", string (iso_duration config.erased_reference_retention_secs))
      ∷ (text "erasureReceipts", string (iso_duration config.receipt_retention_secs))
      ∷ (
        text "holderIdentifiers",
        (string (text "while any snapshot, receipt, erased reference, or live grant is held")),
      )
      ∷ (
        text "lapseState",
        (string (
            text
              "while a lapsed holder still has a snapshot inside the notice-and-grace its own terms promised, and until the post-grace action those terms declare has been taken; then discarded")),
      )
      ∷ (text "operationOutcomes", string (iso_duration config.outcome_retention_secs))
      ∷ (text "sizeAndTiming", (string (text "while the snapshot is retained")))
      ∷ (text "uploadGrants", (string (text "PT1H")))
      ∷ []))

unfoldable pub default_terms : Config → Text → Value
unfolding fields_of values_of erasure_terms end_of_payment_terms metadata_terms
default_terms config operator_key = object (
    fields_of (
      (
        text "breachDisclosure",
        (object (fields_of ((text "holderNotice", (string (text "P3D"))) ∷ []))),
      )
      ∷ (text "endOfPayment", end_of_payment_terms)
      ∷ (text "erasure", erasure_terms)
      ∷ (
        text "export",
        (object (
            fields_of (
              (text "availableWhileUnpaid", bool true)
              ∷ (text "format", (string (text "tar")))
              ∷ []))),
      )
      ∷ (text "jurisdictions", (array (values_of ((string (text "EE")) ∷ []))))
      ∷ (
        text "lawfulAccess",
        (object (
            fields_of (
              (
                text "disclosureWhatIsProduced",
                (string (text "sealed-bytes-and-declared-metadata-only")),
              )
              ∷ (text "notifyHolderWhenPermitted", bool true)
              ∷ (text "transparencyReporting", null)
              ∷ []))),
      )
      ∷ (text "metadataRetention", metadata_terms config)
      ∷ (text "operator", string operator_key)
      ∷ (
        text "retention",
        (object (
            fields_of (
              (text "class", (string (text "best-effort")))
              ∷ (text "expiryBehavior", (string (text "notify-then-erase")))
              ∷ (text "maximumRetentionPeriod", (string (text "until-erased")))
              ∷ (text "snapshotsRetained", string (decimal config.maximum_retained_snapshots))
              ∷ []))),
      )
      ∷ (text "shutdownNotice", (string (text "P90D")))
      ∷ (text "subProcessors", array nil)
      ∷ (text "termsVersion", (number (integer (pos 1))))
      ∷ []))

offer_values : List Text → Values
offer_values [] = nil
offer_values (offer ∷ offers) =
    cons
      (object (
        fields_of
          ((text "model", string (text "subscription")) ∷ (text "offerId", string offer) ∷ [])))
      (offer_values offers)

unfoldable pub manifest_document : Config → Text → Text → Value
unfolding fields_of values_of text_values offer_values
manifest_document config operator_key terms_id = object (
    fields_of (
      (text "backupProfileId", string portable_profile_id)
      ∷ (
        text "capabilities",
        (array (
            values_of (
              (string (text "upload"))
              ∷ (string (text "list"))
              ∷ (string (text "download"))
              ∷ (string (text "erase"))
              ∷ (string (text "export"))
              ∷ []))),
      )
      ∷ (text "componentId", string config.component_id)
      ∷ (text "declaredTerms", string terms_id)
      ∷ (
        text "endpoints",
        (array (
            values_of (
              (object (
                fields_of (
                  (text "role", (string (text "read-write")))
                  ∷ (text "uri", string config.public_url)
                  ∷ [])))
              ∷ []))),
      )
      ∷ (text "entitlementIssuers", array (text_values config.entitlement_issuers))
      ∷ (text "implementationProfileId", string implementation_profile_id)
      ∷ (
        text "limits",
        (object (
            fields_of (
              (
                text "maximumRetainedSnapshots",
                (number (integer (pos config.maximum_retained_snapshots))),
              )
              ∷ (
                text "maximumSealedSnapshotBytes",
                (number (integer (pos config.maximum_sealed_snapshot_bytes))),
              )
              ∷ []))),
      )
      ∷ (text "offers", array (offer_values config.offers))
      ∷ (text "operator", string operator_key)
      ∷ (text "seat", string seat)
      ∷ (text "version", (number (integer (pos 1))))
      ∷ []))

unfoldable pub profile_document : Value
unfolding fields_of values_of
profile_document = object (
    fields_of (
      (
        text "authentication",
        (array
            (values_of ((string (text "holder-scoped-capability/ed25519-request-bound-v1")) ∷ []))),
      )
      ∷ (text "backupProfileId", string portable_profile_id)
      ∷ (text "digestSuite", (string (text "sha-256/lowercase-hex")))
      ∷ (text "implementationProfileId", string implementation_profile_id)
      ∷ (text "implementationVersion", (number (integer (pos 1))))
      ∷ (text "incrementModel", (string (text "whole-snapshot-transfer-chunked-v1")))
      ∷ (text "paymentRefusal", (string (text "onym-payment-required-v1")))
      ∷ (text "sealingSuite", (string (text "aes-256-gcm/hkdf-sha256-from-bip39-seed")))
      ∷ []))

module _ (x : Crypto) (j : Json) (config : Config) where
  unfoldable pub operator_reference : Text
  operator_reference = text "onym:key:" ++ x.hex_encode (x.verifying_key config.signing_seed)

  unfoldable pub build : Fallible Documents
  unfolding operator_reference default_terms manifest_document profile_document sign detached
  build = do
    terms ←
        sign x j config.signing_seed (default_terms config operator_reference)
          (terms_id_field ∷ signature_field ∷ [])
    document ← ok_or (j.from_slice terms) (internal "terms are not JSON")
    bytes ← canonical_bytes document (terms_id_field ∷ signature_field ∷ [])
    manifest ←
        sign x j config.signing_seed
          (manifest_document config operator_reference (digest_text x bytes)) (signature_field ∷ [])
    ok (record {
      manifest = manifest;
      profile = j.to_vec profile_document;
      manifest_signature = detached x j config.signing_seed manifest;
      terms_signature = detached x j config.signing_seed terms;
      terms_id = digest_text x bytes;
      terms = terms;
      operator_key = operator_reference;
    })
