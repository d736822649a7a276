-- ===== src/Uploads/Keeps.antt =====
-- The quota under the handlers of operator/src/uploads.rs and operator/src/export.rs.
use onym_backup.Prelude.{ℕ, ◌≡◌, refl, Option, none, some, List, Text, Bytes, arith}
use onym_backup.Prelude.Int.{ℤ}
use onym_backup.Prelude.Exec.{Exec}
use onym_backup.Prelude.Exec.Preserves.{Preserves, Preserves-modify, preserve_rules}
use onym_backup.Error.{Error}
use onym_backup.Clock.{Time}
use onym_backup.Store.Rows.{Store, UploadRow}
use onym_backup.Store.Nonces.{record_nonce}
use onym_backup.Store.Uploads.{begin_upload, drop_upload}
use onym_backup.Store.Entitlements.{insert_entitlement, forget_lapse_state}
use onym_backup.Store.Quota.{WithinQuota, WithinQuota-same}
use onym_backup.Operator.{Operator, State, on_store, on_blobs}
use onym_backup.Auth.{Headers, Holder, authenticate}
use onym_backup.Auth.Honoured.{authenticate-Preserves}
use onym_backup.Lapse.Access.{require, Operation}
use onym_backup.Lapse.Keeps.{require-Preserves}
use onym_backup.Uploads.Preflight.{
  PreflightRequest, resume, admit, fresh_grant, grant_upload, on_open_grant, preflight,
}
use onym_backup.Uploads.Transfer.{claim_upload, put_chunk, abandon}

-- The quota invariant of a state.
abbrev pub QuotaOfState : ℕ → State → Type 0
QuotaOfState most s = WithinQuota most s.store

same_snapshots :
    (handle nonce at : Text) (s : Store)
    → s.snapshots ≡ (record_nonce handle nonce at s).1.snapshots
unfolding record_nonce
same_snapshots handle nonce at s = ground arith

nonce-keeps :
    (most : ℕ) (handle nonce at : Text) (s : Store)
    → WithinQuota most s
    → WithinQuota most (record_nonce handle nonce at s).1
nonce-keeps most handle nonce at s w =
    WithinQuota-same most s _ (same_snapshots handle nonce at s) w

module _ {A : Type 0} (most : ℕ) where
  pub on_store-keeps :
      (m : Exec Error Store A)
      → Preserves (WithinQuota most) m
      → Preserves (QuotaOfState most) (on_store m)
  unfolding on_store
  on_store-keeps m k = record { at = λ s w. k.at s.store w }

  on_blobs-keeps : (m : Exec Error _ A) → Preserves (QuotaOfState most) (on_blobs m)
  unfolding on_blobs
  on_blobs-keeps m = record { at = λ s w. w }

module _ (o : Operator) (most : ℕ) where
  open o use {clock, crypto, config}

  pub authenticate-keeps :
      (headers : Headers) (method path : Text) (body : Bytes) (now : Time)
      → Preserves
          (QuotaOfState most)
          (on_store (authenticate clock crypto headers method path body config now))
  authenticate-keeps headers method path body now =
      on_store-keeps most (authenticate clock crypto headers method path body config now) (
        authenticate-Preserves clock crypto headers method path body config (WithinQuota most) now
          (nonce-keeps most))

  pub require-keeps :
      (holder : Holder) (headers : Headers) (gone : List Text) (operation : Operation) (now : Time)
      → Preserves (QuotaOfState most) (on_store (require o holder headers gone operation now))
  unfolding insert_entitlement forget_lapse_state
  require-keeps holder headers gone operation now =
      on_store-keeps most (require o holder headers gone operation now) (
        require-Preserves o (WithinQuota most) (λ row s w. WithinQuota-same most s _ refl w)
          (λ handle s w. WithinQuota-same most s _ refl w) holder headers gone operation now)

  pub abandon-keeps : (u : Text) (s : State) → QuotaOfState most s → QuotaOfState most (abandon u s)
  unfolding abandon drop_upload
  abandon-keeps u s w = WithinQuota-same most s.store _ refl w

  pub claim-keeps :
      (u : Text) (headers : Headers) (method path : Text) (body : Bytes) (now : Time)
      → Preserves (QuotaOfState most) (claim_upload o u headers method path body now)
  unfolding claim_upload
  claim-keeps u headers method path body now = search (preserve_rules, authenticate-keeps) depth 16

  pub put_chunk-keeps :
      (u : Text) (index : ℤ) (headers : Headers) (body : Bytes) (now : Time)
      → Preserves (QuotaOfState most) (put_chunk o u index headers body now)
  unfolding put_chunk
  put_chunk-keeps u index headers body now =
      search (preserve_rules, claim-keeps, on_blobs-keeps) depth 16

  begun : (row : UploadRow) (s : Store) → s.snapshots ≡ (begin_upload row s).1.snapshots
  unfolding begin_upload
  begun row s = ground arith

  begin-keeps : (row : UploadRow) → Preserves (QuotaOfState most) (on_store (begin_upload row))
  begin-keeps row =
      on_store-keeps most (begin_upload row)
        (record { at = λ s w. WithinQuota-same most s _ (begun row s) w })

  grant-keeps :
      (holder : Holder) (request : PreflightRequest) (size : ℕ) (stamp : Text) (now : Time)
      (u : Text)
      → Preserves (QuotaOfState most) (grant_upload o holder request size stamp now u)
  unfolding grant_upload
  grant-keeps holder request size stamp now u =
      search (preserve_rules, Preserves-modify, begin-keeps) depth 20

  admit-keeps :
      (holder : Holder) (request : PreflightRequest) (size : ℕ) (stamp : Text) (now : Time)
      (u : Text)
      → Preserves (QuotaOfState most) (admit o holder request size stamp now u)
  unfolding admit
  admit-keeps holder request size stamp now u = search (preserve_rules, grant-keeps) depth 20

  fresh-keeps :
      (holder : Holder) (headers : Headers) (request : PreflightRequest) (size : ℕ) (stamp : Text)
      (now : Time) (u : Text)
      → Preserves (QuotaOfState most) (fresh_grant o holder headers request size stamp now u)
  unfolding fresh_grant
  fresh-keeps holder headers request size stamp now u =
      search (preserve_rules, require-keeps, admit-keeps) depth 20

  resume-keeps : (row : UploadRow) (size : ℕ) → Preserves (QuotaOfState most) (resume o row size)
  unfolding resume
  resume-keeps row size = search preserve_rules depth 16

  open-keeps :
      (found : Option UploadRow) (holder : Holder) (headers : Headers) (request : PreflightRequest)
      (size : ℕ) (stamp : Text) (now : Time) (u : Text)
      → Preserves
          (QuotaOfState most)
          (on_open_grant o found holder headers request size stamp now u)
  unfolding on_open_grant
  open-keeps (some row) holder headers request size stamp now u = resume-keeps row size
  open-keeps none holder headers request size stamp now u =
      fresh-keeps holder headers request size stamp now u

  pub preflight-keeps :
      (read_body : Bytes → Option PreflightRequest) (u : Text) (headers : Headers) (body : Bytes)
      (now : Time)
      → Preserves (QuotaOfState most) (preflight o read_body u headers body now)
  unfolding preflight
  preflight-keeps read_body u headers body now =
      search (preserve_rules, authenticate-keeps, open-keeps) depth 24
