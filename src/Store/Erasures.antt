-- ===== src/Store/Erasures.antt =====
-- The statements of operator/src/store.rs on receipts: the erasure transaction, which is one step
-- here, the lookup, and the sweep of what has aged.
pub mod Erased
pub mod Covered
use onym_backup.Prelude.{
  ℕ, ◌-◌, Bool, true, false, not, ◌&&◌, ◌||◌, Option, some, none, List, [], ◌∷◌, ◌++◌, map, Text,
  Bytes, if◌then◌else◌, length, select, find?, any, eq_text,
}
use onym_backup.Clock.{Clock, jd_lt}
use onym_backup.Store.Rows.{Store, SnapshotRow, ReceiptRow, CoverRow, OutcomeRow}
use onym_backup.Store.Snapshots.{mark_erased, distinct}
use onym_backup.Store.Outcomes.{record_outcome, erasure_status}

-- what `compose` hands over for one receipt, with the digests it covers
pub record NewReceipt : Type 0 where
  pub receipt_id : Text
  pub terms_id : Text
  pub raw : Bytes
  pub covers : List Text

abbrev is_cover : Text → Text → CoverRow → Bool
is_cover receipt_id digest row = eq_text row.receipt_id receipt_id && eq_text row.digest digest

-- INSERT OR IGNORE, once for each digest
unfoldable pub add_covers : Text → List Text → List CoverRow → List CoverRow
unfolding any
add_covers receipt_id [] rows = rows
add_covers receipt_id (digest ∷ digests) rows = add_covers receipt_id digests (
    if any (is_cover receipt_id digest) rows
    then rows
    else rows ++ record { receipt_id = receipt_id; digest = digest } ∷ [])

-- INSERT OR REPLACE of each receipt, with its coverage
unfoldable pub add_receipts : Text → Text → Text → List NewReceipt → Store → Store
unfolding add_covers select
add_receipts handle scope stamp [] s = s
add_receipts handle scope stamp (r ∷ rs) s = add_receipts handle scope stamp rs (record s {
  erasure_receipts =
      select (λ row. not (eq_text row.receipt_id r.receipt_id)) s.erasure_receipts
      ++ record {
        receipt_id = r.receipt_id;
        holder_handle = handle;
        scope = scope;
        terms_id = r.terms_id;
        raw = r.raw;
        issued_at = stamp;
      }
        ∷ [];
  receipt_snapshots = add_covers r.receipt_id r.covers s.receipt_snapshots;
})

unfoldable pub commit_erasure :
    Text → Text → List Text → List NewReceipt → Text → Text → Store → Store
unfolding add_receipts mark_erased
commit_erasure handle scope digests receipts operation_id stamp s =
    record_outcome
      (record {
        operation_id = operation_id;
        holder_handle = handle;
        subject = scope;
        status = erasure_status;
        receipt_ids = some (map (λ r. r.receipt_id) receipts);
        recorded_at = stamp;
      })
      (add_receipts handle scope stamp receipts
        (record s { snapshots = mark_erased handle digests stamp s.snapshots }))

abbrev is_receipt : Text → Text → ReceiptRow → Bool
is_receipt handle receipt_id row =
    eq_text row.holder_handle handle && eq_text row.receipt_id receipt_id

unfoldable pub receipt : Text → Text → Store → Option ReceiptRow
unfolding find?
receipt handle receipt_id s = find? (is_receipt handle receipt_id) s.erasure_receipts

unfoldable pub receipt_terms_ids : Text → Store → List Text
unfolding select distinct
receipt_terms_ids handle s = distinct [] (
    map (λ row. row.terms_id) (select (λ row. eq_text row.holder_handle handle) s.erasure_receipts))

module _ (c : Clock) where
  -- the two DELETEs on outcomes, by status
  abbrev is_aged : Text → Text → OutcomeRow → Bool
  is_aged uploads_before receipts_before row =
      if eq_text row.status erasure_status
      then jd_lt c row.recorded_at receipts_before
      else jd_lt c row.recorded_at uploads_before

  -- a cover whose receipt goes in this sweep
  unfoldable pub loses_receipt : Text → List ReceiptRow → CoverRow → Bool
  unfolding any
  loses_receipt receipts_before receipts cover =
      any (λ row. eq_text row.receipt_id cover.receipt_id && jd_lt c row.issued_at receipts_before)
        receipts

  unfoldable pub sweep_outcomes_and_receipts : Text → Text → Store → (ℕ × ℕ) × Store
  unfolding select loses_receipt
  sweep_outcomes_and_receipts uploads_before receipts_before s =
      let outcomes =
        select (λ row. not (is_aged uploads_before receipts_before row)) s.operation_outcomes in
      let receipts =
        select (λ row. not (jd_lt c row.issued_at receipts_before)) s.erasure_receipts in
      (
        (
          length s.operation_outcomes - length outcomes,
          length s.erasure_receipts - length receipts,
        ),
        record s {
          operation_outcomes = outcomes;
          receipt_snapshots =
              select (λ row. not (loses_receipt receipts_before s.erasure_receipts row))
                s.receipt_snapshots;
          erasure_receipts = receipts;
        },
      )
