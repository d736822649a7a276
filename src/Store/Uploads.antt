-- ===== src/Store/Uploads.antt =====
-- The statements of operator/src/store.rs on `uploads`.
use onym_backup.Prelude.{
  ℕ, ◌+◌, Bool, not, ◌&&◌, Option, List, [], ◌∷◌, ◌++◌, map, Text, if◌then◌else◌, length, select,
  find?, any, eq_text, head?,
}
use onym_backup.Prelude.Exec.{ok, err, Exec}
use onym_backup.Error.{Error, internal}
use onym_backup.Clock.{Clock, jd_lt, jd_le}
use onym_backup.Store.Rows.{Store, UploadRow}
use onym_backup.Store.Snapshots.{order_desc}

abbrev pub is_upload : Text → UploadRow → Bool
is_upload upload_id row = eq_text row.upload_id upload_id

-- INSERT; a repeated primary key is an error of SQLite
unfoldable pub begin_upload : UploadRow → Exec Error Store (Unit {0})
unfolding any
begin_upload row s =
    if any (is_upload row.upload_id) s.uploads
    then (err (internal "UNIQUE constraint failed"), s)
    else (ok tt, record s { uploads = s.uploads ++ row ∷ [] })

unfoldable pub upload : Text → Store → Option UploadRow
unfolding find?
upload upload_id s = find? (is_upload upload_id) s.uploads

unfoldable pub drop_upload : Text → Store → Store
unfolding select
drop_upload upload_id s = record s {
  uploads = select (λ row. not (is_upload upload_id row)) s.uploads;
}

unfoldable pub sum_grants : List UploadRow → ℕ
sum_grants [] = 0
sum_grants (row ∷ rows) = row.sealed_byte_size + sum_grants rows

module _ (c : Clock) where
  -- `julianday(expires_at) > julianday(now)`
  abbrev pub is_open : Text → UploadRow → Bool
  is_open now row = jd_lt c now row.expires_at

  -- number and bytes of a holder's live grants
  unfoldable pub open_grants : Text → Text → Store → ℕ × ℕ
  unfolding select sum_grants
  open_grants handle now s =
      let rows = select (λ row. eq_text row.holder_handle handle && is_open now row) s.uploads in
      (length rows, sum_grants rows)

  -- the grant to resume, the one that expires last
  unfoldable pub open_grant_for : Text → Text → Text → Store → Option UploadRow
  unfolding select order_desc
  open_grant_for handle digest now s = head? (
      order_desc (λ row. c.julianday row.expires_at)
        (select
          (λ row.
            eq_text row.holder_handle handle && (eq_text row.digest digest && is_open now row))
          s.uploads))

  unfoldable pub expired_uploads : Text → Store → List Text
  unfolding select
  expired_uploads now s =
      map (λ row. row.upload_id) (select (λ row. jd_le c row.expires_at now) s.uploads)
