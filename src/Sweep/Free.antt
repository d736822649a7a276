-- ===== src/Sweep/Free.antt =====
-- `reconcile` of operator/src/sweep.rs for an operator that charges nothing.
use onym_backup.Prelude.{◌≡◌, refl, sym, ap, subst, false, none, List, [], ◌∷◌, Text, select, find?}
use onym_backup.Prelude.Each.{each}
use onym_backup.Prelude.Exec.{ok}
use onym_backup.Clock.{Clock, Time}
use onym_backup.Documents.Json.{Json}
use onym_backup.Store.Rows.{Store}
use onym_backup.Store.Nonces.{sweep_nonces}
use onym_backup.Store.Erasures.{sweep_outcomes_and_receipts}
use onym_backup.Store.Snapshots.{
  distinct, holders_with_snapshots, mark_unavailable, sweep_erased_references,
}
use onym_backup.Store.Uploads.{drop_upload}
use onym_backup.Store.Entitlements.{
  entitlement_horizon, horizon_loop, lapse_state, lapsed_holders, sweep_superseded_entitlements,
}
use onym_backup.Lapse.Window.{lifecycle_horizon, post_grace_due}
use onym_backup.Operator.{Operator, State}
use onym_backup.Sweep.Cutoffs.{Cutoffs}
use onym_backup.Sweep.Grace.{expire_all, expire_holder, expire_post_grace}
use onym_backup.Sweep.Records.{
  sweep_records, holders_losing_entitlements, adopt_unrecorded, settle_lapses,
}
use onym_backup.Sweep.Reconcile.{stored, before_lapses, lapses, tidy, reconcile}
use onym_backup.Sweep.Tables.{before_lapses-keeps, store-drop_orphan_snapshots}

-- Nothing is recorded of any holder's payment.
pub record Unpaid (s : Store) : Type 0 where
  pub records : s.holder_entitlements ≡ []
  pub states : s.lapse_states ≡ []

module _ (c : Clock) (j : Json) (revoked : List Text) where
  no_horizon :
      (handle : Text) (s : Store) → Unpaid s → lifecycle_horizon c j s handle revoked ≡ ok none
  unfolding lifecycle_horizon entitlement_horizon horizon_loop lapse_state select find?
  no_horizon handle s k = rw (k.records, k.states) refl

  none_due :
      (now_at : Time) (handle : Text) (s : Store)
      → Unpaid s
      → post_grace_due c j s handle revoked now_at ≡ ok []
  unfolding post_grace_due
  none_due now_at handle s k = rw (no_horizon handle s k) refl

  none_expired :
      (now_at : Time) (now : Text) (handles : List Text) (s : Store)
      → Unpaid s
      → each (expire_holder c j revoked now_at now) handles s ≡ (0, s)
  unfolding each expire_holder expire_all
  none_expired now_at now [] s k = refl
  none_expired now_at now (handle ∷ handles) s k =
      rw (none_due now_at handle s k, none_expired now_at now handles s k) refl

  swept-Unpaid :
      (floor : Text) (s : Store) → Unpaid s → Unpaid (sweep_records c j revoked floor s).1
  unfolding sweep_records holders_losing_entitlements sweep_superseded_entitlements each distinct
      select
  swept-Unpaid floor s k = rw k.records (record { records = refl; states = k.states })

  settled-Unpaid :
      (now_at : Time) (s : Store) → Unpaid s → Unpaid (settle_lapses c j revoked now_at s).1
  unfolding settle_lapses lapsed_holders each
  settled-Unpaid now_at s k = rw k.states (record { records = k.records; states = refl })

module _ (o : Operator) (revoked : List Text) (now_at : Time) (cutoffs : Cutoffs) where
  open o use {clock, json}

  lapses-Unpaid : (s : Store) → Unpaid s → Unpaid (lapses o revoked false now_at cutoffs s).1
  unfolding lapses adopt_unrecorded
  lapses-Unpaid s k =
      settled-Unpaid clock json revoked now_at _
        (swept-Unpaid clock json revoked cutoffs.entitlement s k)

  marked-Unpaid : (h d at : Text) (s : Store) → Unpaid s → Unpaid (mark_unavailable h d at s).1
  unfolding mark_unavailable
  marked-Unpaid h d at s k = record { records = k.records; states = k.states }

  dropped-Unpaid : (u : Text) (s : Store) → Unpaid s → Unpaid (drop_upload u s)
  unfolding drop_upload
  dropped-Unpaid u s k = record { records = k.records; states = k.states }

  tidied-Unpaid : (s : Store) → Unpaid s → Unpaid (tidy o revoked false now_at cutoffs s).1
  unfolding tidy sweep_nonces sweep_outcomes_and_receipts sweep_erased_references
  tidied-Unpaid s k = record { records = k.records; states = k.states }

  -- For an operator that does not charge, with no entitlement record and no lapse state, a sweep
  -- expires no snapshot for want of payment and leaves no entitlement record and no lapse state.
  pub free_sweep :
      (s : State)
      → Unpaid s.store
      → ((reconcile o revoked false now_at cutoffs s).0.post_grace_snapshots ≡ 0)
        × Unpaid (reconcile o revoked false now_at cutoffs s).1.store
  unfolding reconcile before_lapses stored expire_post_grace
  free_sweep s k =
      let first =
        before_lapses-keeps o revoked false now_at cutoffs Unpaid marked-Unpaid dropped-Unpaid s
          k in
      (
        ap (λ r. r.0)
            (none_expired clock json revoked now_at cutoffs.now (holders_with_snapshots s.store)
              s.store k),
        tidied-Unpaid _
            (subst Unpaid (sym (store-drop_orphan_snapshots _)) (lapses-Unpaid _ first)),
      )
