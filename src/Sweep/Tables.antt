-- ===== src/Sweep/Tables.antt =====
-- What a sweep keeps of the tables, `reconcile` in operator/src/sweep.rs.
use onym_backup.Prelude.{
  ◌≡◌, refl, sym, subst, ◌∙◌, Bool, List, Text, eq_text, Bool-cases, inl, inr, any, is_some,
}
use onym_backup.Prelude.Each.{each-keeps}
use onym_backup.Prelude.Exec.{ok, err}
use onym_backup.Error.{Fallible}
use onym_backup.Clock.{Clock, Time}
use onym_backup.Documents.Json.{Json}
use onym_backup.Blobs.Digest.{digest_prefix}
use onym_backup.Blobs.Disk.{SnapshotPath, eq_path}
use onym_backup.Prelude.{◌++◌}
use onym_backup.Blobs.Files.{incoming_on_disk, retained_on_disk}
use onym_backup.Store.Rows.{Store, SnapshotRow}
use onym_backup.Store.Snapshots.{
  mark_unavailable, snapshot_exists, all_live_snapshots, all_retained_keys, holders_with_snapshots,
}
use onym_backup.Store.Uploads.{drop_upload, upload, expired_uploads}
use onym_backup.Lapse.Window.{post_grace_due}
use onym_backup.Operator.{Operator, State}
use onym_backup.Sweep.Cutoffs.{Cutoffs}
use onym_backup.Sweep.Grace.{erase_action, expire_one, expire_all, expire_holder, expire_post_grace}
use onym_backup.Sweep.Grants.{drop_grant, drop_expired, discard_unknown, drop_orphan_incoming}
use onym_backup.Sweep.Bytes.{
  lost_bytes, mark_row, check_row, mark_lost, unlink_unless_live, drop_orphan_snapshots,
}
use onym_backup.Sweep.Reconcile.{stored, before_lapses, tidy, reconcile}
use onym_backup.Sweep.Lapsed.{Lapsed, lapses-Lapsed}

module _ (P : Store → Type 0)
    (mark : (h d at : Text) (s : Store) → P s → P (mark_unavailable h d at s).1) where
  expired_one : (now h : Text) (due : Text × Text) (s : Store) → P s → P (expire_one now h due s).1
  unfolding expire_one
  expired_one now h (d, after_grace) s k = elim (Bool-cases (eq_text after_grace erase_action)) [
    | inl e ↦ rw e (mark h d now s k)
    | inr e ↦ rw e k
  ]

  pub expire_post_grace-keeps :
      (c : Clock) (j : Json) (revoked : List Text) (now_at : Time) (now : Text) (s : Store)
      → P s
      → P (expire_post_grace c j revoked now_at now s).1
  unfolding expire_post_grace expire_all expire_holder
  expire_post_grace-keeps c j revoked now_at now s k =
      each-keeps P (expire_holder c j revoked now_at now)
        (λ handle t g. holder handle t (post_grace_due c j t handle revoked now_at) g)
        (holders_with_snapshots s) s k
    where
      holder :
          (handle : Text) (t : Store) (r : Fallible (List (Text × Text)))
          → P t
          → P (expire_all now handle r t).1
      holder handle t (err e) g = g
      holder handle t (ok due) g =
          each-keeps P (expire_one now handle) (expired_one now handle) due t g

  checked_row :
      (now : Text) (row : SnapshotRow) (s : State) → P s.store → P (check_row now row s).1.store
  unfolding check_row mark_row
  checked_row now row s k =
      elim (Bool-cases (snapshot_exists row.holder_handle row.digest s.store)) [
        | inr e ↦ rw e k
        | inl e ↦ rw e (elim (Bool-cases (lost_bytes row s.blobs)) [
          | inr f ↦ rw f k
          | inl f ↦ rw f (mark row.holder_handle row.digest now s.store k)
        ])
      ]

  pub mark_lost-keeps : (now : Text) (s : State) → P s.store → P (mark_lost now s).1.store
  unfolding mark_lost
  mark_lost-keeps now s k =
      each-keeps (λ t. P t.store) (check_row now) (checked_row now) (all_live_snapshots s.store) s k

module _ (P : Store → Type 0) (drop : (u : Text) (s : Store) → P s → P (drop_upload u s)) where
  pub drop_expired-keeps :
      (c : Clock) (now : Text) (s : State) → P s.store → P (drop_expired c now s).1.store
  unfolding drop_expired drop_grant
  drop_expired-keeps c now s k =
      each-keeps (λ t. P t.store) drop_grant (λ u t g. drop u t.store g)
        (expired_uploads c now s.store) s k

-- steps (2) and (4) leave the tables alone
discarded : (u : Text) (s : State) → (discard_unknown u s).1.store ≡ s.store
unfolding discard_unknown
discarded u s = elim (Bool-cases (is_some (upload u s.store))) [
  | inl e ↦ rw e refl
  | inr e ↦ rw e refl
]

pub store-drop_orphan_incoming : (s : State) → (drop_orphan_incoming s).1.store ≡ s.store
unfolding drop_orphan_incoming
store-drop_orphan_incoming s =
    each-keeps (λ t. t.store ≡ s.store) discard_unknown (λ u t e. discarded u t ∙ e)
      (incoming_on_disk s.blobs) s refl

pub store-unlink_unless_live :
    (live : List SnapshotPath) (path : SnapshotPath) (s : State)
    → (unlink_unless_live live path s).1.store ≡ s.store
unfolding unlink_unless_live
store-unlink_unless_live live path s = elim (Bool-cases (any (eq_path path) live)) [
  | inl e ↦ rw e refl
  | inr e ↦ rw e (elim (Bool-cases (snapshot_exists path.0 (digest_prefix ++ path.1) s.store)) [
    | inl f ↦ rw f refl
    | inr f ↦ rw f refl
  ])
]

pub store-drop_orphan_snapshots : (s : State) → (drop_orphan_snapshots s).1.store ≡ s.store
unfolding drop_orphan_snapshots
store-drop_orphan_snapshots s =
    each-keeps (λ t. t.store ≡ s.store) (unlink_unless_live (all_retained_keys s.store))
      (λ path t e. store-unlink_unless_live (all_retained_keys s.store) path t ∙ e)
      (retained_on_disk s.blobs) s refl

module _ (o : Operator) (revoked : List Text) (charges : Bool) (now_at : Time) (cutoffs : Cutoffs)
    (P : Store → Type 0)
    (mark : (h d at : Text) (s : Store) → P s → P (mark_unavailable h d at s).1)
    (drop : (u : Text) (s : Store) → P s → P (drop_upload u s)) where
  pub before_lapses-keeps :
      (s : State) → P s.store → P (before_lapses o revoked charges now_at cutoffs s).1.store
  unfolding before_lapses stored
  before_lapses-keeps s k = mark_lost-keeps P mark cutoffs.now _ (
      subst P (sym (store-drop_orphan_incoming _)) (
        drop_expired-keeps P drop o.clock cutoffs.now _
          (expire_post_grace-keeps P mark o.clock o.json revoked now_at cutoffs.now s.store k)))

  pub reconcile-keeps :
      ((s t : Store) → Lapsed s t → P s → P t)
      → ((s : Store) → P s → P (tidy o revoked charges now_at cutoffs s).1)
      → (s : State) → P s.store
      → P (reconcile o revoked charges now_at cutoffs s).1.store
  unfolding reconcile
  reconcile-keeps lapse tidied s k = tidied _ (
      subst P (sym (store-drop_orphan_snapshots _))
        (lapse _ _ (lapses-Lapsed o revoked charges now_at cutoffs _) (before_lapses-keeps s k)))
