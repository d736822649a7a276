-- ===== src/Tests/Sweep.antt =====
-- Sweeps at concrete states.
use onym_backup.Prelude.{
  ◌≡◌, refl, true, false, none, List, [], ◌∷◌, ◌++◌, Text, text, All, is_some, if◌then◌else◌,
  eq_text, strip_prefix, all, any, ℕ,
}
use onym_backup.Prelude.Int.{pos}
use onym_backup.Blobs.Digest.{digest_hex, digest_prefix}
use onym_backup.Blobs.Disk.{Blobs, SnapshotPath, snapshot_dir, eq_path, chunk}
use onym_backup.Prelude.Each.{each}
use onym_backup.Prelude.Assoc.{remove, lookup}
use onym_backup.Clock.{jd_le}
use onym_backup.Lapse.Window.{post_grace_due}
use onym_backup.Store.Entitlements.{
  entitlement_horizon, lapse_state, lapsed_holders, sweep_superseded_entitlements,
}
use onym_backup.Sweep.Records.{holders_losing_entitlements}
use onym_backup.Blobs.Files.{retained_on_disk, incoming_on_disk}
use onym_backup.Store.Rows.{Store, UploadRow, in_memory}
use onym_backup.Store.Snapshots.{
  retain, snapshot_exists, all_live_snapshots, holders_with_snapshots, all_retained_keys,
}
use onym_backup.Store.Uploads.{expired_uploads, upload}
use onym_backup.Operator.{State}
use onym_backup.Sweep.Cutoffs.{Cutoffs}
use onym_backup.Sweep.Bytes.{unlink_unless_live}
use onym_backup.Sweep.Reconcile.{reconcile}
use onym_backup.Sweep.Consistent.{Consistent, reconcile-Consistent}
use onym_backup.Sweep.Kept.{reconcile_keeps_bytes}
use onym_backup.Sweep.Granted.{reconcile_grants}
use onym_backup.Sweep.Expired.{has_run_out}
use onym_backup.Sweep.Unlinked.{unlink_keeps}
use onym_backup.Sweep.Free.{Unpaid, free_sweep}
use onym_backup.Tests.Fixture.{clock, zeros, hex}
use onym_backup.Tests.Setting.{operator, at_second}
use onym_backup.Tests.Data.{row}

abbrev stamp : ℕ → Text
stamp n = n ∷ 0 ∷ []

abbrev cutoffs : Cutoffs
cutoffs = record {
  now = stamp 9_000_000;
  nonce = stamp 1_000_000;
  outcome = stamp 1_000_000;
  receipt = stamp 1_000_000;
  erased_reference = stamp 1_000_000;
  entitlement = stamp 1_000_000;
}

abbrev hex_name : Text
hex_name = hex (zeros 32)

-- one byte in one part
abbrev small : UploadRow
small = record row { digest = digest_prefix ++ hex_name; sealed_byte_size = 1; chunk_count = pos 1 }

-- an upload that has run out
abbrev old_grant : UploadRow
old_grant = record row { upload_id = text "u9"; expires_at = stamp 2_000_000 }

abbrev tables : Store
tables = record (retain small (stamp 5_000_000) in_memory) { uploads = old_grant ∷ [] }

-- its bytes, a directory with no row, and directories of uploads
abbrev tree : Blobs
tree = record {
  incoming = (text "u9", []) ∷ (text "lost", []) ∷ [];
  retained =
      ((text "h", hex_name), (0, 7 ∷ []) ∷ []) ∷ ((text "h", text "gone"), (0, 7 ∷ []) ∷ []) ∷ [];
}

abbrev before : State
before = record { store = tables; blobs = tree; revocation = none }

abbrev swept : State
swept = (reconcile operator [] false (at_second 9) cutoffs before).1

reconcile-Consistent_example : Consistent swept
reconcile-Consistent_example = reconcile-Consistent operator [] false (at_second 9) cutoffs before

still_live : snapshot_exists (text "h") (digest_prefix ++ hex_name) swept.store ≡ true
unfolding reconcile snapshot_exists retained_on_disk all_live_snapshots incoming_on_disk
    expired_uploads holders_with_snapshots retain in_memory post_grace_due entitlement_horizon
    lapse_state jd_le remove eq_text text upload digest_hex strip_prefix all snapshot_dir lookup
    eq_path chunk all_retained_keys lapsed_holders sweep_superseded_entitlements
    holders_losing_entitlements
still_live = refl

reconcile_keeps_bytes_example :
    snapshot_dir (text "h", hex_name) swept.blobs ≡ snapshot_dir (text "h", hex_name) tree
reconcile_keeps_bytes_example =
    reconcile_keeps_bytes operator [] false (at_second 9) cutoffs (text "h") hex_name before
      still_live

reconcile_grants_example :
    ((u : Text)
      → upload u swept.store
        ≡ (if any (has_run_out clock cutoffs.now u) tables.uploads then none else upload u tables))
    × All (λ e. is_some (upload e.0 swept.store) ≡ true) swept.blobs.incoming
reconcile_grants_example = reconcile_grants operator [] false (at_second 9) cutoffs before

unpaid : Unpaid tables
unfolding retain in_memory
unpaid = record { records = refl; states = refl }

free_sweep_example :
    ((reconcile operator [] false (at_second 9) cutoffs before).0.post_grace_snapshots ≡ 0)
    × Unpaid swept.store
free_sweep_example = free_sweep operator [] (at_second 9) cutoffs before unpaid

live_now : snapshot_exists (text "h") (digest_prefix ++ hex_name) tables ≡ true
unfolding snapshot_exists retain in_memory any eq_text text
live_now = refl

-- a listing of what was live that knows nothing of the snapshot
abbrev stale : List SnapshotPath
stale = []

abbrev found : List SnapshotPath
found = (text "h", hex_name) ∷ (text "h", text "gone") ∷ []

unlink_keeps_example :
    snapshot_dir (text "h", hex_name) (each (unlink_unless_live stale) found before).1.blobs
    ≡ snapshot_dir (text "h", hex_name) tree
unlink_keeps_example = unlink_keeps stale found (text "h") hex_name before live_now
