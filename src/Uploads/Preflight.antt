-- ===== src/Uploads/Preflight.antt =====
-- `preflight` of operator/src/uploads.rs: the one question before a transfer.
use onym_backup.Prelude.{
  ℕ, zero, suc, ◌+◌, ◌-◌, ◌*◌, Option, none, some, List, [], ◌∷◌, map, Text, Bytes, text, ltb, leb,
  ◌==◌, if◌then◌else◌, eq_text,
}
use onym_backup.Prelude.Int.{ℤ, pos, negsuc, wrap_i64, div_i64, pred_int}
use onym_backup.Prelude.Exec.{
  ok, err, Exec, pure, lift, gets, modify, or_fail, require_that, ◌>>=◌, ◌>>◌,
}
use onym_backup.Error.{
  Error, Fallible, bad_request, terms_changed, snapshot_too_large, quota_exceeded, internal,
}
use onym_backup.Clock.{Time}
use onym_backup.Blobs.Digest.{digest_hex}
use onym_backup.Blobs.Arrival.{Range, arrival}
use onym_backup.Blobs.Disk.{incoming_dir}
use onym_backup.Blobs.Files
use onym_backup.Store.Rows.{UploadRow}
use onym_backup.Store.Snapshots.{usage, snapshot_exists, digest_suite}
use onym_backup.Store.Uploads.{begin_upload, open_grants, open_grant_for}
use onym_backup.Operator.{Operator, State, on_store, revoked}
use onym_backup.Auth.{Headers, Holder, authenticate}
use onym_backup.Lapse.Access.{require, Operation}

-- `PreflightRequest` with its `SnapshotReference`; serde reads it
pub record PreflightRequest : Type 0 where
  pub operation_id : Text
  pub algorithm : Text
  pub digest : Text
  pub sealed_byte_size : ℤ
  pub accepted_terms_id : Text
  pub supersedes : Option Text

pub record UploadGrant : Type 0 where
  pub upload_id : Text
  pub chunk_bytes : ℕ
  pub chunk_count : ℤ
  pub expires_at : Text
  pub accepted_terms_id : Text
  pub missing_chunks : List (ℤ × ℤ)

pub data PreflightReply : Type 0 where
  granted : UploadGrant → PreflightReply
  -- the digest, its size and the current terms
  already_retained : Text → ℕ → Text → PreflightReply

-- `sealed_byte_size <= 0` is refused
positive_size : ℤ → Fallible ℕ
positive_size (pos (suc n)) = ok (suc n)
positive_size (pos zero) = err (bad_request "sealedByteSize must be positive")
positive_size (negsuc n) = err (bad_request "sealedByteSize must be positive")

check_previous : Text → Text → Fallible Text → Fallible (Unit {0})
check_previous digest previous (ok hex) =
    if eq_text previous digest
    then err (bad_request "a snapshot cannot supersede itself")
    else ok tt
check_previous digest previous (err e) = err e

check_supersedes : Text → Option Text → Fallible (Unit {0})
unfolding check_previous
check_supersedes digest none = ok tt
check_supersedes digest (some previous) = check_previous digest previous (digest_hex previous)

-- `(sealed_byte_size + chunk_bytes - 1) / chunk_bytes`
unfoldable pub chunk_count_for : ℕ → ℕ → ℤ
chunk_count_for sealed_byte_size chunk_bytes =
    div_i64 (wrap_i64 (sealed_byte_size + chunk_bytes - 1)) chunk_bytes

abbrev int_range : Range → ℤ × ℤ
int_range r = (pos r.0, pos r.1)

module _ (o : Operator) where
  open o use {clock, crypto, config, documents}

  -- a holder who asks again gets the grant that is open, if the sizes agree
  unfoldable pub resume : UploadRow → ℕ → Exec Error State PreflightReply
  unfolding pred_int
  resume grant size = do
    require_that (grant.sealed_byte_size == size)
        (bad_request "sealedByteSize disagrees with the open grant for this digest")
    b ← gets (λ s. s.blobs)
    pure (
        granted (record {
          upload_id = grant.upload_id;
          chunk_bytes = grant.chunk_bytes;
          chunk_count = grant.chunk_count;
          expires_at = grant.expires_at;
          accepted_terms_id = grant.accepted_terms_id;
          missing_chunks =
              map int_range (arrival (incoming_dir grant.upload_id b) grant.chunk_count).1;
        }))

  unfoldable pub quota_refusal : ℕ × ℕ → ℕ → ℕ → Error
  quota_refusal used grants grant_bytes =
      quota_exceeded used.0 config.maximum_retained_snapshots used.1
        (wrap_i64 (config.maximum_sealed_snapshot_bytes * config.maximum_retained_snapshots)) grants
        grant_bytes

  -- the new grant: its directory, then its row
  unfoldable pub grant_upload :
      Holder → PreflightRequest → ℕ → Text → Time → Text → Exec Error State PreflightReply
  unfolding chunk_count_for pred_int
  grant_upload holder request size now_stamp now upload_id = do
    let count = chunk_count_for size config.chunk_bytes
    expires ← or_fail (clock.checked_add now config.upload_expiry_secs) (internal "grant expiry")
    expires_at ← or_fail (clock.format expires) (internal "format timestamp")
    modify (λ s. record s { blobs = Files.begin_upload upload_id s.blobs })
    on_store (
        begin_upload (record {
          upload_id = upload_id;
          holder_handle = holder.handle;
          operation_id = request.operation_id;
          digest = request.digest;
          sealed_byte_size = size;
          chunk_bytes = config.chunk_bytes;
          chunk_count = count;
          accepted_terms_id = request.accepted_terms_id;
          supersedes = request.supersedes;
          expires_at = expires_at;
        }))
    pure (
        granted (record {
          upload_id = upload_id;
          chunk_bytes = config.chunk_bytes;
          chunk_count = count;
          expires_at = expires_at;
          accepted_terms_id = request.accepted_terms_id;
          missing_chunks = (pos 0, pred_int count) ∷ [];
        }))

  -- size and quota: live snapshots and live grants together
  unfoldable pub admit :
      Holder → PreflightRequest → ℕ → Text → Time → Text → Exec Error State PreflightReply
  unfolding quota_refusal grant_upload
  admit holder request size now_stamp now upload_id = do
    require_that (leb size config.maximum_sealed_snapshot_bytes)
        (snapshot_too_large config.maximum_sealed_snapshot_bytes)
    used ← gets (λ s. usage holder.handle s.store)
    open_now ← gets (λ s. open_grants clock holder.handle now_stamp s.store)
    require_that (ltb (used.0 + open_now.0) config.maximum_retained_snapshots)
        (quota_refusal used open_now.0 open_now.1)
    grant_upload holder request size now_stamp now upload_id

  unfoldable pub fresh_grant :
      Holder → Headers → PreflightRequest → ℕ → Text → Time → Text → Exec Error State PreflightReply
  unfolding admit
  fresh_grant holder headers request size now_stamp now upload_id = do
    require_that (eq_text request.accepted_terms_id documents.terms_id)
        (terms_changed documents.terms_id)
    gone ← gets revoked
    on_store (require o holder headers gone Operation.preflight now)
    held ← gets (λ s. snapshot_exists holder.handle request.digest s.store)
    if held
        then pure (already_retained request.digest size documents.terms_id)
        else admit holder request size now_stamp now upload_id

  unfoldable pub on_open_grant :
      Option UploadRow
      → Holder
      → Headers
      → PreflightRequest
      → ℕ
      → Text
      → Time
      → Text
      → Exec Error State PreflightReply
  unfolding resume fresh_grant
  on_open_grant (some grant) holder headers request size now_stamp now upload_id = resume grant size
  on_open_grant none holder headers request size now_stamp now upload_id =
      fresh_grant holder headers request size now_stamp now upload_id

  -- `read_body` is serde's reading of the body, `upload_id` the new UUID.
  unfoldable pub preflight :
      (Bytes → Option PreflightRequest)
      → Text
      → Headers
      → Bytes
      → Time
      → Exec Error State PreflightReply
  unfolding on_open_grant positive_size check_supersedes
  preflight read_body upload_id headers body now = do
    holder ←
        on_store
          (authenticate clock crypto headers (text "POST") (text "/v1/preflight") body config now)
    request ← or_fail (read_body body) (bad_request "preflight body")
    require_that (eq_text request.algorithm digest_suite)
        (bad_request "unsupported digest algorithm")
    lift (digest_hex request.digest)
    size ← lift (positive_size request.sealed_byte_size)
    lift (check_supersedes request.digest request.supersedes)
    now_stamp ← or_fail (clock.format now) (internal "format timestamp")
    open_grant ← gets (λ s. open_grant_for clock holder.handle request.digest now_stamp s.store)
    on_open_grant open_grant holder headers request size now_stamp now upload_id
