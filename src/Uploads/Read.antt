-- ===== src/Uploads/Read.antt =====
-- `list` and `download` of operator/src/uploads.rs, and `snapshot` of operator/src/export.rs.
use onym_backup.Prelude.{
  Option, none, some, List, [], ◌++◌, map, Text, Bytes, text, if◌then◌else◌, is_some,
}
use onym_backup.Prelude.Exec.{ok, err, Exec, pure, fail, lift, gets, modify, or_fail, ◌>>=◌, ◌>>◌}
use onym_backup.Error.{Error, Fallible, not_found, retention_expired, internal, Resource}
use onym_backup.Clock.{Time}
use onym_backup.Blobs.Digest.{digest_hex, digest_prefix}
use onym_backup.Blobs.Files.{chunk_paths}
use onym_backup.Store.Rows.{SnapshotRow}
use onym_backup.Store.Snapshots.{snapshot_record, snapshots_including_erased, mark_unavailable}
use onym_backup.Operator.{Operator, State, on_store, revoked}
use onym_backup.Auth.{Headers, Holder, authenticate}
use onym_backup.Lapse.Access.{require, Operation}

pub data ListStatus : Type 0 where
  erased retention_is_over retained : ListStatus

-- the status of a listed row
unfoldable pub list_status : SnapshotRow → ListStatus
list_status row =
    if is_some row.erased_at
    then erased
    else if is_some row.retained_until
    then retention_is_over
    else retained

-- the two refusals of a read; `none` lets it go on
unfoldable pub read_refusal : SnapshotRow → Option Error
read_refusal row =
    if is_some row.erased_at
    then some (not_found Resource.snapshot)
    else if is_some row.retained_until
    then some retention_expired
    else none

module _ (o : Operator) where
  open o use {clock, crypto, config}

  unfoldable pub list : Headers → Time → Exec Error State (List (SnapshotRow × ListStatus))
  unfolding list_status
  list headers now = do
    holder ←
        on_store
          (authenticate clock crypto headers (text "GET") (text "/v1/snapshots") [] config now)
    gone ← gets revoked
    on_store (require o holder headers gone Operation.list now)
    rows ← gets (λ s. snapshots_including_erased clock holder.handle s.store)
    pure (map (λ row. (row, list_status row)) rows)

  unfoldable pub refuse_if : Option Error → Exec Error State (Unit {0})
  refuse_if none = pure tt
  refuse_if (some e) = fail e

  -- bytes that are gone take the row with them
  unfoldable pub serve :
      Holder → Text → Time → Fallible (List Bytes) → Exec Error State (List Bytes)
  serve holder digest now (ok parts) = pure parts
  serve holder digest now (err retention_expired) = do
    unavailable_at ← or_fail (clock.format now) (internal "format timestamp")
    modify
        (λ s. record s { store = (mark_unavailable holder.handle digest unavailable_at s.store).1 })
    fail retention_expired
  serve holder digest now (err e) = fail e

  -- from the row's lookup on, for the download and the export alike
  unfoldable pub fetch_snapshot : Holder → Text → Time → Exec Error State (List Bytes)
  unfolding refuse_if read_refusal serve
  fetch_snapshot holder digest_path now = do
    let digest = digest_prefix ++ digest_path
    lift (digest_hex digest)
    found ← gets (λ s. snapshot_record holder.handle digest s.store)
    row ← or_fail found (not_found Resource.snapshot)
    refuse_if (read_refusal row)
    read ←
        gets (λ s.
          chunk_paths (holder.handle, digest_path) row.chunk_count row.sealed_byte_size s.blobs)
    serve holder digest now read

  -- the parts whose bytes are streamed
  unfoldable pub download : Text → Headers → Time → Exec Error State (List Bytes)
  unfolding fetch_snapshot
  download digest_path headers now = do
    holder ← on_store (
        authenticate clock crypto headers (text "GET") (text "/v1/snapshots/" ++ digest_path) []
          config now)
    gone ← gets revoked
    on_store (require o holder headers gone Operation.download now)
    fetch_snapshot holder digest_path now

  -- the same bytes with no payment asked: `GET /v1/exports/{digest}`
  unfoldable pub export_snapshot : Text → Headers → Time → Exec Error State (List Bytes)
  unfolding fetch_snapshot
  export_snapshot digest_path headers now = do
    holder ← on_store (
        authenticate clock crypto headers (text "GET") (text "/v1/exports/" ++ digest_path) []
          config now)
    fetch_snapshot holder digest_path now
