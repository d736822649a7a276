-- ===== src/Tests/Erasures.antt =====
-- An erasure transaction and the sweep of its receipt, at concrete inputs.
use onym_backup.Prelude.{
  ◌≡◌, refl, false, ◌&&◌, some, List, [], ◌∷◌, Text, text, if◌then◌else◌, map, eq_text,
}
use onym_backup.Store.Rows.{Store, in_memory}
use onym_backup.Store.Snapshots.{snapshot_exists, retain}
use onym_backup.Store.Outcomes.{outcome, record_outcome, erasure_status}
use onym_backup.Store.Erasures.{NewReceipt, commit_erasure, sweep_outcomes_and_receipts}
use onym_backup.Store.Erasures.Erased.{named, commit_erasure_erases}
use onym_backup.Store.Erasures.Covered.{Covered, coverage_kept}
use onym_backup.Tests.Fixture.{clock}
use onym_backup.Tests.Data.{row}

abbrev new_receipt : NewReceipt
new_receipt = record {
  receipt_id = text "r1";
  terms_id = text "t";
  raw = 1 ∷ [];
  covers = text "sha256:d" ∷ [];
}

abbrev held : Store
held = retain row (text "now") in_memory

abbrev erased : Store
erased =
    commit_erasure (text "h") (text "all") (text "sha256:d" ∷ []) (new_receipt ∷ []) (text "op2")
      (5 ∷ 0 ∷ []) held

commit_erasure_erases_example :
    (snapshot_exists (text "h") (text "sha256:d") erased ≡ (
      if eq_text (text "h") (text "h") && named (text "sha256:d") (text "sha256:d" ∷ [])
      then false
      else snapshot_exists (text "h") (text "sha256:d") held))
    × (outcome (text "h") (text "op2") erased
        ≡ some (record {
          operation_id = text "op2";
          holder_handle = text "h";
          subject = text "all";
          status = erasure_status;
          receipt_ids = some (map (λ r. r.receipt_id) (new_receipt ∷ []));
          recorded_at = 5 ∷ 0 ∷ [];
        }))
commit_erasure_erases_example =
    commit_erasure_erases (text "h") (text "sha256:d") (text "h") (text "all")
      (text "sha256:d" ∷ []) (new_receipt ∷ []) (text "op2") (5 ∷ 0 ∷ []) held

coverage_at_first : Covered erased
unfolding commit_erasure record_outcome retain in_memory eq_text text
coverage_at_first = (refl, tt)

coverage_kept_example :
    ((handle scope : Text) (digests : List Text) (receipts : List NewReceipt)
        (operation_id stamp : Text)
      → Covered (commit_erasure handle scope digests receipts operation_id stamp erased))
    × ((uploads_before receipts_before : Text)
        → Covered (sweep_outcomes_and_receipts clock uploads_before receipts_before erased).1)
coverage_kept_example = coverage_kept clock erased coverage_at_first
