-- ===== src/Sweep/Reconcile.antt =====
-- `reconcile` of operator/src/sweep.rs: one sweep, as the timer runs it, with no request between its
-- steps. What the source logs and passes over on an error of SQLite or of the file system is not
-- modelled, since those do not fail here.
use onym_backup.Prelude.{ℕ, Bool, List, Text}
use onym_backup.Clock.{Time}
use onym_backup.Store.Rows.{Store}
use onym_backup.Store.Nonces.{sweep_nonces}
use onym_backup.Store.Erasures.{sweep_outcomes_and_receipts}
use onym_backup.Store.Snapshots.{sweep_erased_references}
use onym_backup.Operator.{Operator, State}
use onym_backup.Sweep.Cutoffs.{Cutoffs}
use onym_backup.Sweep.Grace.{expire_post_grace}
use onym_backup.Sweep.Grants.{drop_expired, drop_orphan_incoming}
use onym_backup.Sweep.Bytes.{mark_lost, drop_orphan_snapshots}
use onym_backup.Sweep.Records.{sweep_records, adopt_unrecorded, settle_lapses}

pub record Swept : Type 0 where
  pub post_grace_snapshots : ℕ
  pub aged_entitlements : ℕ
  pub forgotten_lapse_state : ℕ
  pub expired_grants : ℕ
  pub orphan_incoming : ℕ
  pub orphan_snapshots : ℕ
  pub unavailable_snapshots : ℕ
  pub spent_nonces : ℕ
  pub aged_outcomes : ℕ
  pub aged_receipts : ℕ
  pub forgotten_references : ℕ

-- a step on the tables alone
unfoldable pub stored : (Store → ℕ × Store) → State → ℕ × State
stored step s = let r = step s.store in (r.0, record s { store = r.1 })

module _ (o : Operator) (revoked : List Text) (charges : Bool) (now_at : Time)
    (cutoffs : Cutoffs) where
  open o use {clock, json}

  -- Steps (3b) to (3d).
  unfoldable pub lapses : Store → (ℕ × ℕ) × Store
  unfolding sweep_records adopt_unrecorded settle_lapses
  lapses s =
      let aged = sweep_records clock json revoked cutoffs.entitlement s in
      let adopted = adopt_unrecorded clock json charges revoked now_at aged.1 in
      let forgotten = settle_lapses clock json revoked now_at adopted in
      ((aged.0, forgotten.0), forgotten.1)

  -- Steps (5) to (8).
  unfoldable pub tidy : Store → (ℕ × (ℕ × ℕ) × ℕ) × Store
  unfolding sweep_nonces sweep_outcomes_and_receipts sweep_erased_references
  tidy s =
      let nonces = sweep_nonces clock cutoffs.nonce s in
      let metadata = sweep_outcomes_and_receipts clock cutoffs.outcome cutoffs.receipt nonces.1 in
      let references = sweep_erased_references clock cutoffs.erased_reference metadata.1 in
      ((nonces.0, metadata.0, references.0), references.1)

  -- Steps (0) to (3).
  unfoldable pub before_lapses : State → (ℕ × ℕ × ℕ × ℕ) × State
  unfolding stored expire_post_grace drop_expired drop_orphan_incoming mark_lost
  before_lapses s =
      let grace = stored (expire_post_grace clock json revoked now_at cutoffs.now) s in
      let grants = drop_expired clock cutoffs.now grace.1 in
      let incoming = drop_orphan_incoming grants.1 in
      let lost = mark_lost cutoffs.now incoming.1 in
      ((grace.0, grants.0, incoming.0, lost.0), lost.1)

  unfoldable pub reconcile : State → Swept × State
  unfolding before_lapses lapses drop_orphan_snapshots tidy
  reconcile s =
      let first = before_lapses s in
      let lapsed = lapses first.1.store in
      let orphans = drop_orphan_snapshots (record first.1 { store = lapsed.1 }) in
      let tidied = tidy orphans.1.store in
      (
        record {
          post_grace_snapshots = first.0.0;
          aged_entitlements = lapsed.0.0;
          forgotten_lapse_state = lapsed.0.1;
          expired_grants = first.0.1;
          orphan_incoming = first.0.2;
          orphan_snapshots = orphans.0;
          unavailable_snapshots = first.0.3;
          spent_nonces = tidied.0.0;
          aged_outcomes = tidied.0.1.0;
          aged_receipts = tidied.0.1.1;
          forgotten_references = tidied.0.2;
        },
        record orphans.1 { store = tidied.1 },
      )
