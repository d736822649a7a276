-- ===== src/Uploads/Transfer.antt =====
-- `put_chunk`, `has_expired` and `abandon` of operator/src/uploads.rs, and the section that
-- `put_chunk` and `commit` share: a live grant of the asking holder.
use onym_backup.Prelude.{
  ℕ, suc, ◌*◌, Bool, not, Option, none, some, ◌∷◌, ◌++◌, Text, Bytes, text, ltb, leb, ◌==◌,
  if◌then◌else◌, eq_text, length,
}
use onym_backup.Prelude.Int.{ℤ, pos, negsuc, sub_ℕ, eq_int}
use onym_backup.Prelude.Decimal.{decimal}
use onym_backup.Prelude.Exec.{ok, err, Exec, pure, lift, gets, or_fail, require_that, ◌>>=◌, ◌>>◌}
use onym_backup.Error.{Error, Fallible, bad_request, not_found, upload_expired, internal, Resource}
use onym_backup.Clock.{Clock, Time}
use onym_backup.Blobs.Files.{write_chunk, discard_upload}
use onym_backup.Store.Rows.{UploadRow}
use onym_backup.Store.Uploads.{upload, drop_upload}
use onym_backup.Operator.{Operator, State, on_store, on_blobs}
use onym_backup.Auth.{Headers, authenticate}

module _ (c : Clock) where
  unfoldable pub has_expired : Text → Time → Fallible Bool
  has_expired expires_at now = elim (c.parse expires_at) [
    | none ↦ err (internal "unparseable grant expiry")
    | some expiry ↦ ok (leb expiry.nanos now.nanos)
  ]

-- an `i64` in a path
unfoldable pub int_text : ℤ → Text
int_text (pos n) = decimal n
int_text (negsuc n) = b'-' ∷ decimal (suc n)

-- The length of chunk `i` of `n`: what is left for the last one, else the chunk size. Nothing wraps
-- in a row that `preflight` wrote.
unfoldable pub expected_length : UploadRow → ℕ → ℕ → ℤ
expected_length row n i =
    if suc i == n then sub_ℕ row.sealed_byte_size (row.chunk_bytes * i) else pos row.chunk_bytes

-- `index < 0 || index >= chunk_count` is refused
unfoldable pub index_in_grant : ℤ → ℤ → Option (ℕ × ℕ)
index_in_grant (pos i) (pos n) = if ltb i n then some (i, n) else none
index_in_grant _ _ = none

unfoldable pub abandon : Text → State → State
abandon upload_id s = record s {
  blobs = discard_upload upload_id s.blobs;
  store = drop_upload upload_id s.store;
}

module _ (o : Operator) where
  open o use {clock, crypto, config}

  -- A grant of another holder is not told apart from one that is not there.
  unfoldable pub claim_upload :
      Text → Headers → Text → Text → Bytes → Time → Exec Error State UploadRow
  unfolding has_expired
  claim_upload upload_id headers method path body now = do
    holder ← on_store (authenticate clock crypto headers method path body config now)
    found ← gets (λ s. upload upload_id s.store)
    row ← or_fail found (not_found Resource.upload)
    require_that (eq_text row.holder_handle holder.handle) (not_found Resource.upload)
    expired ← lift (has_expired clock row.expires_at now)
    require_that (not expired) upload_expired
    pure row

  unfoldable pub put_chunk : Text → ℤ → Headers → Bytes → Time → Exec Error State (Unit {0})
  unfolding claim_upload index_in_grant expected_length int_text
  put_chunk upload_id index headers body now = do
    row ←
        claim_upload upload_id headers (text "PUT")
          (text "/v1/uploads/" ++ (upload_id ++ (text "/chunks/" ++ int_text index))) body now
    (i, n) ←
        or_fail (index_in_grant index row.chunk_count) (bad_request "chunk index outside the grant")
    require_that (eq_int (pos (length body)) (expected_length row n i)) (bad_request "chunk length")
    on_blobs (write_chunk upload_id i body)
