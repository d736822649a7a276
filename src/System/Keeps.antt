-- ===== src/System/Keeps.antt =====
-- The quota under the handlers outside the upload profile: erasures.rs, entitlements.rs, operations.rs
-- and export.rs of operator/src.
use onym_backup.Prelude.{ℕ, refl, Option, List, Text, Bytes}
use onym_backup.Prelude.Exec.Preserves.{Preserves, Preserves-modify, preserve_rules}
use onym_backup.Clock.{Time}
use onym_backup.Store.Rows.{Store, SnapshotRow, OutcomeRow}
use onym_backup.Store.Outcomes.{record_outcome}
use onym_backup.Store.Erasures.{NewReceipt, commit_erasure}
use onym_backup.Store.Erasures.Erased.{receipts_only}
use onym_backup.Store.Entitlements.{
  VerifiedEntitlement, insert_entitlement, forget_lapse_state, register_entitlement,
}
use onym_backup.Store.Quota.{WithinQuota, WithinQuota-same, mark_erased-WithinQuota}
use onym_backup.Operator.{Operator, on_store}
use onym_backup.Auth.{Headers, Holder}
use onym_backup.Lapse.Keeps.{register-Preserves}
use onym_backup.Uploads.Keeps.{QuotaOfState, authenticate-keeps, require-keeps, on_store-keeps}
use onym_backup.Erasures.Erase.{EraseRequest, replay_receipts, erase_targets, decide, erase}
use onym_backup.Entitlements.Register.{put_on_record, register}
use onym_backup.Operations.{query}
use onym_backup.Export.Container.{manifest, receipt}

module _ (most : ℕ) where
  recorded :
      (row : OutcomeRow) (s : Store) → WithinQuota most s → WithinQuota most (record_outcome row s)
  unfolding record_outcome
  recorded row s w = WithinQuota-same most s _ refl w

  erased :
      (handle scope : Text) (digests : List Text) (rs : List NewReceipt) (id stamp : Text)
      (s : Store)
      → WithinQuota most s
      → WithinQuota most (commit_erasure handle scope digests rs id stamp s)
  unfolding commit_erasure record_outcome
  erased handle scope digests rs id stamp s w =
      mark_erased-WithinQuota most handle stamp digests s _ (receipts_only handle scope stamp rs _)
        w

module _ (o : Operator) (most : ℕ) where
  open o use {clock}

  replay-keeps :
      (holder : Holder) (request : EraseRequest) (stamp : Text)
      → Preserves (WithinQuota most) (replay_receipts o holder request stamp)
  unfolding replay_receipts
  replay-keeps holder request stamp = search (preserve_rules, Preserves-modify, recorded) depth 24

  targets-keeps :
      (new_id : ℕ → Text) (holder : Holder) (request : EraseRequest) (stamp : Text)
      (targets : List SnapshotRow)
      → Preserves (WithinQuota most) (erase_targets o new_id holder request stamp targets)
  unfolding erase_targets
  targets-keeps new_id holder request stamp targets =
      search (preserve_rules, Preserves-modify, erased) depth 24

  decide-keeps :
      (new_id : ℕ → Text) (holder : Holder) (request : EraseRequest) (stamp : Text)
      → Preserves (WithinQuota most) (decide o new_id holder request stamp)
  unfolding decide
  decide-keeps new_id holder request stamp =
      search (preserve_rules, replay-keeps, targets-keeps) depth 24

  decided :
      (new_id : ℕ → Text) (holder : Holder) (request : EraseRequest) (stamp : Text)
      → Preserves (QuotaOfState most) (on_store (decide o new_id holder request stamp))
  decided new_id holder request stamp =
      on_store-keeps most _ (decide-keeps new_id holder request stamp)

  pub erase-keeps :
      (read_body : Bytes → Option EraseRequest) (new_id : ℕ → Text) (headers : Headers)
      (body : Bytes) (now : Time)
      → Preserves (QuotaOfState most) (erase o read_body new_id headers body now)
  unfolding erase
  erase-keeps read_body new_id headers body now =
      search (preserve_rules, Preserves-modify, authenticate-keeps, require-keeps, decided) depth 24

  registered :
      (handle : Text) (e : VerifiedEntitlement) (stamp : Text)
      → Preserves (QuotaOfState most) (on_store (register_entitlement clock handle e stamp))
  unfolding insert_entitlement forget_lapse_state
  registered handle e stamp = on_store-keeps most _ (
      register-Preserves o (WithinQuota most) (λ row s w. WithinQuota-same most s _ refl w)
        (λ h s w. WithinQuota-same most s _ refl w) handle e stamp)

  record-keeps :
      (holder : Holder) (e : VerifiedEntitlement) (now : Time)
      → Preserves (QuotaOfState most) (put_on_record o holder e now)
  unfolding put_on_record
  record-keeps holder e now = search (preserve_rules, registered) depth 20

  pub register-keeps :
      (headers : Headers) (body : Bytes) (now : Time)
      → Preserves (QuotaOfState most) (register o headers body now)
  unfolding register
  register-keeps headers body now =
      search (preserve_rules, authenticate-keeps, require-keeps, record-keeps) depth 24

  pub query-keeps :
      (path id : Text) (headers : Headers) (now : Time)
      → Preserves (QuotaOfState most) (query o path id headers now)
  unfolding query
  query-keeps path id headers now =
      search (preserve_rules, authenticate-keeps, require-keeps) depth 24

  pub manifest-keeps :
      (headers : Headers) (now : Time) → Preserves (QuotaOfState most) (manifest o headers now)
  unfolding manifest
  manifest-keeps headers now = search (preserve_rules, authenticate-keeps) depth 24

  pub receipt-keeps :
      (id : Text) (headers : Headers) (now : Time)
      → Preserves (QuotaOfState most) (receipt o id headers now)
  unfolding receipt
  receipt-keeps id headers now = search (preserve_rules, authenticate-keeps) depth 24
