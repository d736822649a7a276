-- ===== src/Sweep/Kept.antt =====
-- What `reconcile` of operator/src/sweep.rs keeps for the holders: the bytes of live snapshots, and
-- the grants that are still open.
use onym_backup.Prelude.{
  ◌≡◌, refl, sym, ap, subst, ◌∙◌, Bool, true, not, ◌&&◌, List, [], ◌∷◌, ◌++◌, Text, arith, select,
  any, is_some, Bool-cases, inl, inr,
}
use onym_backup.Prelude.Each.{each-keeps}
use onym_backup.Clock.{Clock, Time}
use onym_backup.Blobs.Digest.{digest_prefix}
use onym_backup.Blobs.Disk.{SnapshotPath, Blobs, snapshot_dir}
use onym_backup.Blobs.Files.{discard_upload, incoming_on_disk, retained_on_disk}
use onym_backup.Store.Rows.{Store, SnapshotRow}
use onym_backup.Store.Snapshots.{is_live, is_snapshot, is_older, snapshot_exists, all_retained_keys}
use onym_backup.Store.Uploads.{expired_uploads, upload}
use onym_backup.Operator.{Operator, State}
use onym_backup.Sweep.Cutoffs.{Cutoffs}
use onym_backup.Sweep.Grants.{drop_grant, drop_expired, discard_unknown, drop_orphan_incoming}
use onym_backup.Sweep.Bytes.{drop_orphan_snapshots}
use onym_backup.Sweep.Reconcile.{stored, before_lapses, tidy, reconcile}
use onym_backup.Sweep.Tables.{store-drop_orphan_snapshots}
use onym_backup.Sweep.Quota.{tidied_snapshots}
use onym_backup.Sweep.Unlinked.{unlink_keeps}
use onym_backup.Sweep.Readable.{blobs-mark_lost}
use onym_backup.Sweep.Consistent.{before_orphans}

retained-discard_unknown :
    (u : Text) (s : State) → (discard_unknown u s).1.blobs.retained ≡ s.blobs.retained
unfolding discard_unknown discard_upload
retained-discard_unknown u s = elim (Bool-cases (is_some (upload u s.store))) [
  | inl e ↦ rw e refl
  | inr e ↦ rw e refl
]

retained-drop_orphan_incoming :
    (s : State) → (drop_orphan_incoming s).1.blobs.retained ≡ s.blobs.retained
unfolding drop_orphan_incoming
retained-drop_orphan_incoming s =
    each-keeps (λ t. t.blobs.retained ≡ s.blobs.retained) discard_unknown
      (λ u t e. retained-discard_unknown u t ∙ e) (incoming_on_disk s.blobs) s refl

retained-drop_expired :
    (c : Clock) (now : Text) (s : State)
    → (drop_expired c now s).1.blobs.retained ≡ s.blobs.retained
unfolding drop_expired drop_grant discard_upload
retained-drop_expired c now s =
    each-keeps (λ t. t.blobs.retained ≡ s.blobs.retained) drop_grant (λ u t e. e)
      (expired_uploads c now s.store) s refl

-- rows that go were not live
fewer_live :
    (p q : SnapshotRow → Bool) (rows : List SnapshotRow)
    → any p (select q rows) ≡ true
    → any p rows ≡ true
unfolding any select
fewer_live p q [] h = h
fewer_live p q (row ∷ rows) h = ground (arith, h, fewer_live p q rows)

module _ (o : Operator) (revoked : List Text) (charges : Bool) (now_at : Time)
    (cutoffs : Cutoffs) where
  retained_before :
      (s : State)
      → (before_lapses o revoked charges now_at cutoffs s).1.blobs.retained ≡ s.blobs.retained
  unfolding before_lapses stored
  retained_before s =
      ap (λ b. b.retained) (blobs-mark_lost cutoffs.now _)
      ∙ retained-drop_orphan_incoming _
      ∙ retained-drop_expired o.clock cutoffs.now _

  same_dir :
      (p : SnapshotPath) (b b2 : Blobs)
      → b.retained ≡ b2.retained
      → snapshot_dir p b ≡ snapshot_dir p b2
  unfolding snapshot_dir
  same_dir p b b2 e = rw e refl

  live_before :
      (h d : Text) (s t : Store)
      → t.snapshots
        ≡ select (λ row. not (is_older o.clock row.erased_at cutoffs.erased_reference)) s.snapshots
      → snapshot_exists h d t ≡ true
      → snapshot_exists h d s ≡ true
  unfolding snapshot_exists
  live_before h d s t e k =
      fewer_live _ _ s.snapshots
        (subst (λ rows. any (λ row. is_snapshot h d row && is_live row) rows ≡ true) e k)

  -- A snapshot that is live after a sweep has the very bytes that it had before: the sweep unlinks
  -- nothing of it.
  pub reconcile_keeps_bytes :
      (h d : Text) (s : State)
      → snapshot_exists h
          (digest_prefix ++ d)
          (reconcile o revoked charges now_at cutoffs s).1.store
        ≡ true
      → snapshot_dir (h, d) (reconcile o revoked charges now_at cutoffs s).1.blobs
        ≡ snapshot_dir (h, d) s.blobs
  unfolding reconcile drop_orphan_snapshots
  reconcile_keeps_bytes h d s k =
      let start = before_orphans o revoked charges now_at cutoffs s in
      let orphans = (drop_orphan_snapshots start).1 in
      let live =
        live_before h (digest_prefix ++ d) orphans.store
          (tidy o revoked charges now_at cutoffs orphans.store).1
          (tidied_snapshots o revoked charges now_at cutoffs orphans.store) k in
      unlink_keeps (all_retained_keys start.store) (retained_on_disk start.blobs) h d start (
        ap (snapshot_exists h (digest_prefix ++ d)) (sym (store-drop_orphan_snapshots start))
        ∙ live)
      ∙ same_dir (h, d) start.blobs s.blobs (retained_before s)
