-- ===== src/Sweep/Quota.antt =====
-- The quota under `reconcile` of operator/src/sweep.rs.
use onym_backup.Prelude.{ℕ, ◌≡◌, refl, sym, ap, Bool, not, List, Text, select}
use onym_backup.Clock.{Time}
use onym_backup.Store.Rows.{Store}
use onym_backup.Store.Nonces.{sweep_nonces}
use onym_backup.Store.Erasures.{sweep_outcomes_and_receipts}
use onym_backup.Store.Snapshots.{is_older, sweep_erased_references}
use onym_backup.Store.Uploads.{drop_upload}
use onym_backup.Store.Quota.{
  WithinQuota, WithinQuota-same, WithinQuota-select, mark_unavailable-WithinQuota,
}
use onym_backup.Operator.{Operator, State}
use onym_backup.Sweep.Cutoffs.{Cutoffs}
use onym_backup.Sweep.Reconcile.{tidy, reconcile}
use onym_backup.Sweep.Tables.{reconcile-keeps}

module _ (o : Operator) (revoked : List Text) (charges : Bool) (now_at : Time)
    (cutoffs : Cutoffs) where
  pub tidied_snapshots :
      (s : Store)
      → (tidy o revoked charges now_at cutoffs s).1.snapshots
        ≡ select (λ row. not (is_older o.clock row.erased_at cutoffs.erased_reference)) s.snapshots
  unfolding tidy sweep_nonces sweep_outcomes_and_receipts sweep_erased_references
  tidied_snapshots s = refl

  -- A sweep takes no holder over the quota.
  pub reconcile-WithinQuota :
      (most : ℕ) (s : State)
      → WithinQuota most s.store
      → WithinQuota most (reconcile o revoked charges now_at cutoffs s).1.store
  unfolding drop_upload
  reconcile-WithinQuota most s w =
      reconcile-keeps o revoked charges now_at cutoffs (WithinQuota most)
        (λ h d at t. mark_unavailable-WithinQuota most h d at t)
        (λ u t. WithinQuota-same most t _ refl)
        (λ t u l. WithinQuota-same most t u (sym (ap (λ v. v.snapshots) l.same)))
        (λ t. WithinQuota-select most t _ _ (tidied_snapshots t)) s w
