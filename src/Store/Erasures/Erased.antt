-- ===== src/Store/Erasures/Erased.antt =====
-- What the erasure transaction of operator/src/store.rs leaves.
use onym_backup.Prelude.{
  ◌≡◌, refl, ◌∙◌, ap, Bool, false, ◌&&◌, some, List, [], ◌∷◌, map, Text, arith, if◌then◌else◌, any,
  eq_text, eq_text_iff, eq_text_refl, Bool-cases, inl, inr, is_none,
}
use onym_backup.Store.Rows.{Store, SnapshotRow}
use onym_backup.Store.Snapshots.{is_live, is_snapshot, update, mark_erased, snapshot_exists}
use onym_backup.Store.Outcomes.{outcome, record_outcome, erasure_status}
use onym_backup.Store.Replace.{outcome-record_outcome}
use onym_backup.Store.Erasures.{NewReceipt, add_receipts, commit_erasure}

abbrev pub named : Text → List Text → Bool
named digest digests = any (λ d. eq_text d digest) digests

one_erased :
    (h d handle digest at : Text) (rows : List SnapshotRow)
    → any
        (λ row. is_snapshot h d row && is_live row)
        (update
          (λ row. is_snapshot handle digest row && is_none row.erased_at)
          (λ row. record row { retained = record row.retained { erased_at = some at } })
          rows)
      ≡ (if eq_text handle h && eq_text digest d
          then false
          else any (λ row. is_snapshot h d row && is_live row) rows)
unfolding any update
one_erased h d handle digest at [] = ground arith
one_erased h d handle digest at (row ∷ rows) =
    elim (Bool-cases (is_snapshot handle digest row && is_none row.erased_at)) [
      | inl e ↦ rw e (
          ground (
            arith,
            e,
            one_erased h d handle digest at rows,
            eq_text_iff row.holder_handle handle,
            eq_text_iff row.digest digest,
            eq_text_iff row.holder_handle h,
            eq_text_iff row.digest d,
            eq_text_iff handle h,
            eq_text_iff digest d,
          ))
      | inr e ↦ rw e (
          ground (
            arith,
            e,
            one_erased h d handle digest at rows,
            eq_text_iff row.holder_handle handle,
            eq_text_iff row.digest digest,
            eq_text_iff row.holder_handle h,
            eq_text_iff row.digest d,
            eq_text_iff handle h,
            eq_text_iff digest d,
          ))
    ]

all_erased :
    (h d handle at : Text) (digests : List Text) (rows : List SnapshotRow)
    → any (λ row. is_snapshot h d row && is_live row) (mark_erased handle digests at rows) ≡ (
        if eq_text handle h && named d digests
        then false
        else any (λ row. is_snapshot h d row && is_live row) rows)
unfolding mark_erased any
all_erased h d handle at [] rows = ground arith
all_erased h d handle at (digest ∷ digests) rows = ground (
  arith,
  all_erased h d handle at digests (
      update (λ row. is_snapshot handle digest row && is_none row.erased_at)
        (λ row. record row { retained = record row.retained { erased_at = some at } }) rows),
  one_erased h d handle digest at rows,
)

pub receipts_only :
    (handle scope stamp : Text) (rs : List NewReceipt) (s : Store)
    → (add_receipts handle scope stamp rs s).snapshots ≡ s.snapshots
unfolding add_receipts
receipts_only handle scope stamp [] s = refl
receipts_only handle scope stamp (r ∷ rs) s = receipts_only handle scope stamp rs _

-- After the erasure transaction the named digests of the holder are not live, every other pair of a
-- holder and a digest is live exactly when it was, and the holder's operation id is answered by the
-- acknowledged erasure with the ids of its receipts.
pub commit_erasure_erases :
    (h d handle scope : Text) (digests : List Text) (receipts : List NewReceipt)
    (operation_id stamp : Text) (s : Store)
    → (snapshot_exists h d (commit_erasure handle scope digests receipts operation_id stamp s)
        ≡ (if eq_text handle h && named d digests then false else snapshot_exists h d s))
      × (outcome handle operation_id
            (commit_erasure handle scope digests receipts operation_id stamp s)
          ≡ some (record {
            operation_id = operation_id;
            holder_handle = handle;
            subject = scope;
            status = erasure_status;
            receipt_ids = some (map (λ r. r.receipt_id) receipts);
            recorded_at = stamp;
          }))
unfolding commit_erasure snapshot_exists record_outcome
commit_erasure_erases h d handle scope digests receipts operation_id stamp s = (
  ap (any (λ row. is_snapshot h d row && is_live row)) (receipts_only handle scope stamp receipts _)
      ∙ all_erased h d handle stamp digests s.snapshots,
  outcome-record_outcome _ handle operation_id _
      ∙ rw (eq_text_refl handle, eq_text_refl operation_id) refl,
)
