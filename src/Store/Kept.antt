-- ===== src/Store/Kept.antt =====
-- The tables of snapshots, receipts and coverage, which most statements of operator/src/store.rs
-- leave alone.
use onym_backup.Prelude.{◌≡◌, Text, Bytes, Bool-cases, inl, inr}
use onym_backup.Prelude.Exec.Preserves.{Preserves}
use onym_backup.Clock.{Time}
use onym_backup.Store.Rows.{Store}
use onym_backup.Store.Nonces.{record_nonce, seen}
use onym_backup.Store.Entitlements.{insert_entitlement, forget_lapse_state}
use onym_backup.Operator.{Operator}
use onym_backup.Auth.{Headers, Holder, authenticate}
use onym_backup.Auth.Honoured.{authenticate-Preserves}
use onym_backup.Lapse.Access.{Operation, require}
use onym_backup.Lapse.Keeps.{require-Preserves}
use onym_backup.Prelude.{List}

pub record Kept (before s : Store) : Type 0 where
  pub snapshots : s.snapshots ≡ before.snapshots
  pub receipts : s.erasure_receipts ≡ before.erasure_receipts
  pub covers : s.receipt_snapshots ≡ before.receipt_snapshots

module _ (before : Store) where
  nonce-Kept : (h n at : Text) (s : Store) → Kept before s → Kept before (record_nonce h n at s).1
  unfolding record_nonce
  nonce-Kept h n at s k = elim (Bool-cases (seen s.seen_nonces h n)) [
    | inl new ↦ rw new k
    | inr new ↦
        rw new (record { snapshots = k.snapshots; receipts = k.receipts; covers = k.covers })
  ]

  module _ (o : Operator) where
    open o use {clock, crypto, config}

    pub authenticate-Kept :
        (headers : Headers) (method path : Text) (body : Bytes) (now : Time)
        → Preserves (Kept before) (authenticate clock crypto headers method path body config now)
    authenticate-Kept headers method path body now =
        authenticate-Preserves clock crypto headers method path body config (Kept before) now
          nonce-Kept

    pub require-Kept :
        (holder : Holder) (headers : Headers) (gone : List Text) (operation : Operation)
        (now : Time)
        → Preserves (Kept before) (require o holder headers gone operation now)
    unfolding insert_entitlement forget_lapse_state
    require-Kept holder headers gone operation now =
        require-Preserves o (Kept before)
          (λ row s k. record { snapshots = k.snapshots; receipts = k.receipts; covers = k.covers })
          (λ handle s k. record {
            snapshots = k.snapshots;
            receipts = k.receipts;
            covers = k.covers;
          })
          holder headers gone operation now
