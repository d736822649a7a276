-- ===== src/Erasures/Erase.antt =====
-- `erase` of operator/src/erasures.rs.
use onym_backup.Prelude.{
  ℕ, not, Option, some, List, [], ◌∷◌, map, Text, Bytes, text, if◌then◌else◌, is_empty, trim,
}
use onym_backup.Prelude.Sort.{sorted_set}
use onym_backup.Prelude.Exec.{
  Exec, pure, fail, lift, gets, modify, or_fail, require_that, ◌>>=◌, ◌>>◌,
}
use onym_backup.Error.{
  Error, bad_request, internal, not_found, retention_expired, receipt_expired, Resource,
}
use onym_backup.Clock.{Time}
use onym_backup.Documents.Json.{Value}
use onym_backup.Blobs.Disk.{Blobs, SnapshotPath}
use onym_backup.Blobs.Files
use onym_backup.Store.Rows.{Store, SnapshotRow}
use onym_backup.Store.Snapshots.{snapshots_in_scope, scope_is_unavailable, erased_digests}
use onym_backup.Store.Outcomes.{record_outcome, erasure_status}
use onym_backup.Store.Erasures.{commit_erasure}
use onym_backup.Store.Receipts.{latest_receipts_for_erased_scope}
use onym_backup.Operator.{Operator, State, on_store, revoked}
use onym_backup.Auth.{Headers, Holder, authenticate}
use onym_backup.Lapse.Access.{require, Operation}
use onym_backup.Erasures.Mint.{check_scope, hex_of_all, decode_receipts, mint}

pub record EraseRequest : Type 0 where
  pub operation_id : Text
  pub scope : Text

-- what the locked section hands over: the receipts to answer with, and the bytes to unlink
pub record Decision : Type 0 where
  pub receipts : List Value
  pub doomed : List SnapshotPath

-- the bytes of each, one after the other
unfoldable pub unlink_all : List SnapshotPath → Blobs → Blobs
unlink_all [] b = b
unlink_all (path ∷ paths) b = unlink_all paths (Files.erase path b)

-- nothing was ever kept in the scope, or its receipts have gone
unfoldable pub no_receipt : List Text → Error
no_receipt erased = if is_empty erased then not_found Resource.snapshot else receipt_expired

module _ (o : Operator) where
  open o use {clock, crypto, json, config}

  -- nothing is live in the scope: the newest receipts again, or the reason that there are none
  unfoldable pub replay_receipts : Holder → EraseRequest → Text → Exec Error Store Decision
  unfolding decode_receipts
  replay_receipts holder request stamp = do
    unavailable ← gets (scope_is_unavailable holder.handle request.scope)
    require_that (not unavailable) retention_expired
    erased ← gets (erased_digests holder.handle request.scope)
    found ← gets (latest_receipts_for_erased_scope clock holder.handle request.scope erased)
    existing ← lift found
    if is_empty existing then fail (no_receipt erased) else do
      modify (
          record_outcome (record {
            operation_id = request.operation_id;
            holder_handle = holder.handle;
            subject = request.scope;
            status = erasure_status;
            receipt_ids = some (map (λ r. r.0) existing);
            recorded_at = stamp;
          }))
      documents ← lift (decode_receipts o existing)
      pure (record { receipts = documents; doomed = [] })

  -- Everything that can refuse comes before the transaction; the digests of stored rows after it.
  unfoldable pub erase_targets :
      (ℕ → Text) → Holder → EraseRequest → Text → List SnapshotRow → Exec Error Store Decision
  unfolding mint hex_of_all
  erase_targets new_id holder request stamp targets = do
    s ← gets (λ s. s)
    minted ← lift (
        mint o new_id request.scope stamp targets
          (sorted_set (map (λ row. row.accepted_terms_id) targets)) 0 s)
    modify (
        commit_erasure holder.handle request.scope (map (λ row. row.digest) targets)
          (map (λ m. m.0) minted) request.operation_id stamp)
    doomed ← lift (hex_of_all holder.handle targets)
    pure (record { receipts = map (λ m. m.1) minted; doomed = doomed })

  -- the section under the store's lock, from the body on
  unfoldable pub decide : (ℕ → Text) → Holder → EraseRequest → Text → Exec Error Store Decision
  unfolding check_scope replay_receipts erase_targets
  decide new_id holder request stamp = do
    require_that (not (is_empty (trim request.operation_id)))
        (bad_request "operationId is required")
    lift (check_scope request.scope)
    targets ← gets (snapshots_in_scope clock holder.handle request.scope)
    if is_empty targets
        then replay_receipts holder request stamp
        else erase_targets new_id holder request stamp targets

  -- `read_body` is serde's reading of the body.
  unfoldable pub erase :
      (Bytes → Option EraseRequest)
      → (ℕ → Text)
      → Headers
      → Bytes
      → Time
      → Exec Error State (List Value)
  unfolding decide unlink_all
  erase read_body new_id headers body now = do
    stamp ← or_fail (clock.format now) (internal "format timestamp")
    holder ←
        on_store
          (authenticate clock crypto headers (text "POST") (text "/v1/erasures") body config now)
    gone ← gets revoked
    on_store (require o holder headers gone Operation.erase now)
    request ← or_fail (read_body body) (bad_request "erasure body")
    decision ← on_store (decide new_id holder request stamp)
    modify (λ s. record s { blobs = unlink_all decision.doomed s.blobs })
    pure decision.receipts
