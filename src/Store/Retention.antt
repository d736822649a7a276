-- ===== src/Store/Retention.antt =====
-- What `retain` of operator/src/store.rs does to the snapshots.
use onym_backup.Prelude.{
  ◌≡◌, refl, Bool, true, ◌&&◌, ◌||◌, none, List, [], ◌∷◌, Text, arith, any, any-append_last,
  eq_text_refl, Bool-cases, inl, inr, is_some,
}
use onym_backup.Store.Rows.{Store, SnapshotRow, UploadRow}
use onym_backup.Store.Snapshots.{is_live, is_snapshot, update, retain, snapshot_exists}

-- the test that `retain` updates by
abbrev pub dormant : Text → Text → SnapshotRow → Bool
dormant handle digest row =
    is_snapshot handle digest row && (is_some row.erased_at || is_some row.retained_until)

revived :
    (handle digest : Text) (f : SnapshotRow → SnapshotRow) (rows : List SnapshotRow)
    → ((row : SnapshotRow)
        → ((f row).holder_handle ≡ row.holder_handle)
          × ((f row).digest ≡ digest)
          × ((f row).erased_at ≡ none)
          × ((f row).retained_until ≡ none))
    → any (is_snapshot handle digest) rows ≡ true
    → any
        (λ row. is_snapshot handle digest row && is_live row)
        (update (dormant handle digest) f rows)
      ≡ true
unfolding any update
revived handle digest f [] k h = cc
revived handle digest f (row ∷ rows) k h = elim (Bool-cases (dormant handle digest row)) [
  | inl e ↦ rw e (ground (arith, k row, eq_text_refl digest))
  | inr e ↦ rw e (ground (arith, revived handle digest f rows k))
]

-- After `retain`, the snapshot is held and live: new, already live, or brought back.
pub snapshot_exists-retain :
    (upload : UploadRow) (at : Text) (s : Store)
    → snapshot_exists upload.holder_handle upload.digest (retain upload at s) ≡ true
unfolding snapshot_exists retain
snapshot_exists-retain upload at s =
    elim (Bool-cases (any (is_snapshot upload.holder_handle upload.digest) s.snapshots)) [
      | inl e ↦ rw e (
          revived upload.holder_handle upload.digest _ s.snapshots (λ row. (refl, refl, refl, refl))
            e)
      | inr e ↦ rw e (
          any-append_last _ s.snapshots _
            (ground (arith, eq_text_refl upload.holder_handle, eq_text_refl upload.digest)))
    ]
