-- ===== src/Sweep/Grants.antt =====
-- Steps (1) and (2) of `reconcile` in operator/src/sweep.rs: grants that ran out, and directories of
-- uploads with no grant.
use onym_backup.Prelude.{ℕ, Text, if◌then◌else◌, is_some}
use onym_backup.Prelude.Each.{each}
use onym_backup.Clock.{Clock}
use onym_backup.Blobs.Files.{discard_upload, incoming_on_disk}
use onym_backup.Store.Uploads.{upload, drop_upload, expired_uploads}
use onym_backup.Operator.{State}

-- the bytes before the row
unfoldable pub drop_grant : Text → State → ℕ × State
unfolding discard_upload drop_upload
drop_grant upload_id s = (
  1,
  record s { blobs = discard_upload upload_id s.blobs; store = drop_upload upload_id s.store },
)

unfoldable pub drop_expired : Clock → Text → State → ℕ × State
unfolding drop_grant each
drop_expired c now s = each drop_grant (expired_uploads c now s.store) s

unfoldable pub discard_unknown : Text → State → ℕ × State
unfolding discard_upload
discard_unknown upload_id s =
    if is_some (upload upload_id s.store)
    then (0, s)
    else (1, record s { blobs = discard_upload upload_id s.blobs })

unfoldable pub drop_orphan_incoming : State → ℕ × State
unfolding discard_unknown each
drop_orphan_incoming s = each discard_unknown (incoming_on_disk s.blobs) s
