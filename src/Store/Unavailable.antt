-- ===== src/Store/Unavailable.antt =====
-- What `mark_unavailable` of operator/src/store.rs does to reads.
use onym_backup.Prelude.{
  ◌≡◌, false, ◌&&◌, some, List, [], ◌∷◌, Text, arith, if◌then◌else◌, any, eq_text, eq_text_iff,
  Bool-cases, inl, inr,
}
use onym_backup.Store.Rows.{Store, SnapshotRow}
use onym_backup.Store.Snapshots.{is_live, is_snapshot, update, mark_unavailable, snapshot_exists}

live_elsewhere :
    (h d handle digest at : Text) (rows : List SnapshotRow)
    → any
        (λ row. is_snapshot h d row && is_live row)
        (update
          (λ row. is_snapshot handle digest row && is_live row)
          (λ row. record row { retained = record row.retained { retained_until = some at } })
          rows)
      ≡ (if eq_text handle h && eq_text digest d
          then false
          else any (λ row. is_snapshot h d row && is_live row) rows)
unfolding any update
live_elsewhere h d handle digest at [] = ground arith
live_elsewhere h d handle digest at (row ∷ rows) =
    elim (Bool-cases (is_snapshot handle digest row && is_live row)) [
      | inl e ↦ rw e (
          ground (
            arith,
            e,
            live_elsewhere h d handle digest at rows,
            eq_text_iff row.holder_handle handle,
            eq_text_iff row.digest digest,
            eq_text_iff row.holder_handle h,
            eq_text_iff row.digest d,
            eq_text_iff handle h,
            eq_text_iff digest d,
          ))
      | inr e ↦ rw e (
          ground (
            arith,
            e,
            live_elsewhere h d handle digest at rows,
            eq_text_iff row.holder_handle handle,
            eq_text_iff row.digest digest,
            eq_text_iff row.holder_handle h,
            eq_text_iff row.digest d,
            eq_text_iff handle h,
            eq_text_iff digest d,
          ))
    ]

-- Once a holder's snapshot is marked unavailable it is no longer live, and every other pair of a
-- holder and a digest is live exactly when it was.
pub snapshot_exists-mark_unavailable :
    (h d handle digest at : Text) (s : Store)
    → snapshot_exists h d (mark_unavailable handle digest at s).1
      ≡ (if eq_text handle h && eq_text digest d then false else snapshot_exists h d s)
unfolding snapshot_exists mark_unavailable
snapshot_exists-mark_unavailable h d handle digest at s =
    live_elsewhere h d handle digest at s.snapshots
