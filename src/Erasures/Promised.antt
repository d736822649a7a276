-- ===== src/Erasures/Promised.antt =====
-- The erasure that the published terms of operator/src/documents.rs declare, as
-- operator/src/erasures.rs reads it.
use onym_backup.Prelude.{
  ◌*◌, ◌≡◌, refl, some, List, Text, text, trim, strip_prefix, strip_suffix, eq_text, is_empty,
  false, all,
}
use onym_backup.Prelude.Int.{pos}
use onym_backup.Prelude.Exec.{ok}
use onym_backup.Prelude.Decimal.{parse_digits}
use onym_backup.Clock.{Time}
use onym_backup.Documents.Json.{
  Value, string, number, integer, array, object, field, end, text_values, as_str, get, get_field,
  fields_of,
}
use onym_backup.Documents.Published.{default_terms, erasure_terms}
use onym_backup.Config.{Config}
use onym_backup.Operator.{Operator}
use onym_backup.Erasures.Days.{iso8601_days}
use onym_backup.Erasures.Compose.{compose, index}

week : iso8601_days (text "P7D") ≡ ok (7 * (24 * 60 * 60))
unfolding iso8601_days strip_prefix text strip_suffix all parse_digits
week = refl

erasure_part :
    (config : Config) (operator_key : Text)
    → index (text "erasure") (default_terms config operator_key) ≡ erasure_terms
unfolding index get get_field default_terms fields_of eq_text text
erasure_part config operator_key = refl

abbrev excluded : Text
excluded =
    text
      "copies held by the other participants in every conversation this snapshot contains, and any copy you exported yourself"

abbrev covered : Text
covered = text "the primary copy and this operator's own backups of it"

excluded_part : as_str (get (text "excluded") erasure_terms) ≡ some excluded
unfolding get get_field erasure_terms fields_of eq_text text
excluded_part = refl

covered_part : as_str (get (text "scope") erasure_terms) ≡ some covered
unfolding get get_field erasure_terms fields_of eq_text text
covered_part = refl

deadline_part : as_str (get (text "completionDeadline") erasure_terms) ≡ some (text "P7D")
unfolding get get_field erasure_terms fields_of eq_text text
deadline_part = refl

excluded_said : is_empty (trim excluded) ≡ false
unfolding trim text
excluded_said = refl

covered_said : is_empty (trim covered) ≡ false
unfolding trim text
covered_said = refl

module _ (o : Operator) where
  open o use {clock, config, documents}

  -- the receipt that comes of the published terms
  unfoldable promised : Text → Text → Text → List Text → Text → Text → Value
  promised receipt_id terms_id scope snapshots stamp written = object (
      field (text "acknowledgedAt") (string stamp) (
        field (text "completionCommittedBy") (string written) (
          field (text "coveredScope") (string covered) (
            field (text "excludedScope") (string excluded) (
              field (text "operator") (string documents.operator_key) (
                field (text "receiptId") (string receipt_id) (
                  field (text "receiptVersion") (number (integer (pos 1))) (
                    field (text "scope") (string scope) (
                      field (text "snapshots") (array (text_values snapshots))
                        (field (text "termsId") (string terms_id) end))))))))))

  -- Under the operator's own terms a receipt can be composed for any scope at any readable instant from
  -- which seven days later can be written, and it commits to those seven days.
  pub default_terms_erasable :
      (receipt_id terms_id scope : Text) (snapshots : List Text) (stamp written : Text)
      (at by : Time)
      → clock.parse stamp ≡ some at
      → clock.checked_add at (7 * (24 * 60 * 60)) ≡ some by
      → clock.format by ≡ some written
      → (receipt : Value) × (compose o receipt_id
            (default_terms config documents.operator_key)
            terms_id
            scope
            snapshots
            stamp
          ≡ ok receipt)
        × (get (text "completionCommittedBy") receipt ≡ some (string written))
        × (get (text "termsId") receipt ≡ some (string terms_id))
  unfolding compose promised get get_field text eq_text
  default_terms_erasable receipt_id terms_id scope snapshots stamp written at by e f g = (
    promised receipt_id terms_id scope snapshots stamp written,
    rw
        (
          erasure_part config documents.operator_key,
          excluded_part,
          covered_part,
          deadline_part,
          excluded_said,
          covered_said,
          week,
          e,
          f,
          g,
        )
        refl,
    refl,
    refl,
  )
