-- ===== src/Uploads/Commit.antt =====
-- `commit` of operator/src/uploads.rs: an upload becomes a retained snapshot.
use onym_backup.Prelude.{
  ℕ, ◌-◌, not, none, ◌++◌, Text, Bytes, text, ltb, ◌==◌, if◌then◌else◌, eq_text, is_empty,
}
use onym_backup.Prelude.Exec.{
  Exec, pure, fail, lift, gets, modify, or_fail, require_that, ◌>>=◌, ◌>>◌,
}
use onym_backup.Error.{Error, upload_incomplete, digest_mismatch, internal}
use onym_backup.Clock.{Time}
use onym_backup.Blobs.Digest.{digest_hex}
use onym_backup.Blobs.Arrival.{arrival}
use onym_backup.Blobs.Disk.{incoming_dir}
use onym_backup.Blobs.Files
use onym_backup.Blobs.Files.{digest_of}
use onym_backup.Store.Rows.{Store, UploadRow}
use onym_backup.Store.Snapshots.{usage, snapshot_exists, retain}
use onym_backup.Store.Uploads.{open_grants, drop_upload}
use onym_backup.Store.Outcomes.{record_outcome, retained_status}
use onym_backup.Operator.{Operator, State, on_blobs}
use onym_backup.Auth.{Headers}
use onym_backup.Uploads.Preflight.{quota_refusal}
use onym_backup.Uploads.Transfer.{claim_upload, abandon}

pub record CommitOutcome : Type 0 where
  pub digest : Text
  pub sealed_byte_size : ℕ
  pub terms_id : Text

-- the rows of a commit whose bytes are in place
unfoldable pub settle : UploadRow → Text → Store → Store
settle row retained_at s =
    record_outcome
      (record {
        operation_id = row.operation_id;
        holder_handle = row.holder_handle;
        subject = row.digest;
        status = retained_status;
        receipt_ids = none;
        recorded_at = retained_at;
      })
      (drop_upload row.upload_id (retain row retained_at s))

module _ (o : Operator) where
  open o use {clock, crypto, config}

  -- The quota again, now that the bytes are about to count; `open_grants` includes this one.
  unfoldable pub check_quota : UploadRow → Text → Exec Error State (Unit {0})
  unfolding quota_refusal abandon
  check_quota row now_stamp = do
    held ← gets (λ s. snapshot_exists row.holder_handle row.digest s.store)
    if held then pure tt else do
      used ← gets (λ s. usage row.holder_handle s.store)
      open_now ← gets (λ s. open_grants clock row.holder_handle now_stamp s.store)
      if ltb used.0 config.maximum_retained_snapshots then pure tt else do
        modify (abandon row.upload_id)
        fail (quota_refusal o used (open_now.0 - 1) (open_now.1 - row.sealed_byte_size))

  -- The section under both locks: the bytes are renamed into place before the row says so.
  unfoldable pub seal : UploadRow → Text → Text → Exec Error State CommitOutcome
  unfolding check_quota settle
  seal row hex retained_at = do
    check_quota row retained_at
    on_blobs (
        Files.commit crypto row.upload_id row.holder_handle hex row.chunk_count
          row.sealed_byte_size)
    modify (λ s. record s { store = settle row retained_at s.store })
    pure (record {
      digest = row.digest;
      sealed_byte_size = row.sealed_byte_size;
      terms_id = row.accepted_terms_id;
    })

  -- A mismatch gives up the upload: nothing it holds can become the snapshot that was declared.
  unfoldable pub give_up : Text → Exec Error State CommitOutcome
  unfolding abandon
  give_up upload_id = do modify (abandon upload_id); fail digest_mismatch

  unfoldable pub verify_digest : UploadRow → Time → Exec Error State CommitOutcome
  unfolding seal give_up
  verify_digest row now = do
    read ← gets (λ s. digest_of crypto row.upload_id row.chunk_count s.blobs)
    digest ← lift read
    if not (eq_text digest row.digest) then give_up row.upload_id else do
      hex ← lift (digest_hex digest)
      retained_at ← or_fail (clock.format now) (internal "format timestamp")
      seal row hex retained_at

  -- from the count of what has come on, before any byte is read back
  unfoldable pub check_parts : Text → UploadRow → Time → Exec Error State CommitOutcome
  unfolding verify_digest
  check_parts upload_id row now = do
    (received, missing) ← gets (λ s. arrival (incoming_dir upload_id s.blobs) row.chunk_count)
    require_that (is_empty missing) (upload_incomplete missing row.chunk_count)
    if not (received == row.sealed_byte_size) then give_up upload_id else verify_digest row now

  unfoldable pub commit : Text → Headers → Bytes → Time → Exec Error State CommitOutcome
  unfolding check_parts
  commit upload_id headers body now = do
    row ←
        claim_upload o upload_id headers (text "POST")
          (text "/v1/uploads/" ++ (upload_id ++ text "/commit")) body now
    check_parts upload_id row now
