-- ===== src/Erasures/Compose.antt =====
-- `compose` of operator/src/erasures.rs: one receipt, against one pinned terms document.
use onym_backup.Prelude.{Option, none, some, List, [], Text, text, is_empty, trim, not}
use onym_backup.Prelude.Int.{pos}
use onym_backup.Prelude.Exec.{ok}
use onym_backup.Prelude.Results.{◌>>=◌, ◌>>◌, ok_or, require_that}
use onym_backup.Error.{Fallible, internal}
use onym_backup.Documents.Json.{
  Value, null, number, integer, string, array, object, end, field, get, as_str, text_values,
}
use onym_backup.Operator.{Operator}
use onym_backup.Erasures.Days.{iso8601_days}

-- `value[key]`: null where there is none
unfoldable pub index : Text → Value → Value
index key v = elim (get key v) [ none ↦ null | some w ↦ w ]

or_empty : Option Text → Text
or_empty none = []
or_empty (some t) = t

module _ (o : Operator) where
  open o use {clock, documents}

  -- `receipt_id` is the hex of a new UUID.
  unfoldable pub compose : Text → Value → Text → Text → List Text → Text → Fallible Value
  unfolding index or_empty text_values
  compose receipt_id terms terms_id scope snapshots acknowledged_at = do
    let erasure = index (text "erasure") terms
    let excluded = or_empty (as_str (get (text "excluded") erasure))
    require_that (not (is_empty (trim excluded)))
        (internal "pinned terms declare no erasure exclusions")
    let covered = or_empty (as_str (get (text "scope") erasure))
    require_that (not (is_empty (trim covered))) (internal "pinned terms declare no erasure scope")
    deadline ←
        ok_or (as_str (get (text "completionDeadline") erasure))
          (internal "pinned terms declare no erasure completion deadline")
    acknowledged ← ok_or (clock.parse acknowledged_at) (internal "unparseable stamp")
    period ← iso8601_days deadline
    committed ←
        ok_or (clock.checked_add acknowledged period)
          (internal "erasure completion deadline is out of range")
    committed_by ← ok_or (clock.format committed) (internal "format timestamp")
    ok (
        object (
          field (text "acknowledgedAt") (string acknowledged_at) (
            field (text "completionCommittedBy") (string committed_by) (
              field (text "coveredScope") (string covered) (
                field (text "excludedScope") (string excluded) (
                  field (text "operator") (string documents.operator_key) (
                    field (text "receiptId") (string receipt_id) (
                      field (text "receiptVersion") (number (integer (pos 1))) (
                        field (text "scope") (string scope) (
                          field (text "snapshots") (array (text_values snapshots))
                            (field (text "termsId") (string terms_id) end)))))))))))
