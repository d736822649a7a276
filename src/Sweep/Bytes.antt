-- ===== src/Sweep/Bytes.antt =====
-- Steps (3) and (4) of `reconcile` in operator/src/sweep.rs: rows whose bytes are not there, and bytes
-- with no row.
use onym_backup.Prelude.{ℕ, List, ◌++◌, Text, Bytes, if◌then◌else◌, any, Bool, true, false}
use onym_backup.Prelude.Each.{each}
use onym_backup.Prelude.Exec.{ok, err}
use onym_backup.Error.{Fallible, retention_expired}
use onym_backup.Blobs.Digest.{digest_hex, digest_prefix}
use onym_backup.Blobs.Disk.{Blobs, SnapshotPath, eq_path}
use onym_backup.Blobs.Files
use onym_backup.Blobs.Files.{chunk_paths, retained_on_disk}
use onym_backup.Store.Rows.{SnapshotRow}
use onym_backup.Store.Snapshots.{
  all_live_snapshots, snapshot_exists, mark_unavailable, all_retained_keys,
}
use onym_backup.Operator.{State}

-- the one error that says that the bytes are not there as they should be
unfoldable pub is_expired : Fallible (List Bytes) → Bool
is_expired (err retention_expired) = true
is_expired (err _) = false
is_expired (ok _) = false

unfoldable pub inspect_row : SnapshotRow → Fallible Text → Blobs → Bool
unfolding is_expired chunk_paths
inspect_row row (err e) b = false
inspect_row row (ok hex) b =
    is_expired (chunk_paths (row.holder_handle, hex) row.chunk_count row.sealed_byte_size b)

-- a digest that names no directory is passed over
unfoldable pub lost_bytes : SnapshotRow → Blobs → Bool
unfolding inspect_row
lost_bytes row b = inspect_row row (digest_hex row.digest) b

unfoldable pub mark_row : Text → SnapshotRow → State → ℕ × State
unfolding mark_unavailable
mark_row now row s =
    let marked = mark_unavailable row.holder_handle row.digest now s.store in
    (marked.0, record s { store = marked.1 })

-- one row of the listing, checked again before it is read
unfoldable pub check_row : Text → SnapshotRow → State → ℕ × State
unfolding lost_bytes mark_row
check_row now row s =
    if snapshot_exists row.holder_handle row.digest s.store
    then if lost_bytes row s.blobs then mark_row now row s else (0, s)
    else (0, s)

unfoldable pub mark_lost : Text → State → ℕ × State
unfolding check_row each
mark_lost now s = each (check_row now) (all_live_snapshots s.store) s

unfoldable pub unlink : SnapshotPath → State → ℕ × State
unlink path s = (1, record s { blobs = Files.erase path s.blobs })

-- One directory of the listing. `live` was read before it, so the row is looked for again.
unfoldable pub unlink_unless_live : List SnapshotPath → SnapshotPath → State → ℕ × State
unfolding unlink any
unlink_unless_live live path s =
    if any (eq_path path) live
    then (0, s)
    else if snapshot_exists path.0 (digest_prefix ++ path.1) s.store
    then (0, s)
    else unlink path s

unfoldable pub drop_orphan_snapshots : State → ℕ × State
unfolding unlink_unless_live each
drop_orphan_snapshots s =
    each (unlink_unless_live (all_retained_keys s.store)) (retained_on_disk s.blobs) s
