-- ===== src/Tests/Uploads.antt =====
-- A commit and a history of requests, at concrete inputs.
use onym_backup.Prelude.{
  ℕ, ◌≤◌, ◌<◌, ◌≡◌, ◌⊎◌, refl, Option, none, some, List, [], ◌∷◌, ◌++◌, Text, text, arith, length,
  eq_text, any, all, select, find?, strip_prefix,
}
use onym_backup.Prelude.Int.{pos}
use onym_backup.Prelude.Exec.{Result, ok, ◌>>=◌}
use onym_backup.Error.{Error}
use onym_backup.Clock.{Time}
use onym_backup.Payload.{verify, whole_seconds_apart, holder_key, holder_handle}
use onym_backup.Blobs.Digest.{digest_text}
use onym_backup.Blobs.Disk.{Blobs, incoming_dir}
use onym_backup.Blobs.Arrival.{arrival}
use onym_backup.Blobs.Files.{digest_of}
use onym_backup.Store.Rows.{UploadRow, in_memory}
use onym_backup.Store.Snapshots.{usage, snapshots, retain}
use onym_backup.Store.Uploads.{upload}
use onym_backup.Operator.{Operator, State}
use onym_backup.Auth.{Headers, authenticate}
use onym_backup.Uploads.Commit.{CommitOutcome, commit}
use onym_backup.Uploads.Committed.{Retained, commit_retains}
use onym_backup.System.History.{commits, after_all, quota_never_exceeded}
use onym_backup.Tests.Fixture.{clock, crypto, key}
use onym_backup.Tests.Setting.{operator, at_second, signed_headers}

abbrev row : UploadRow
row = record {
  upload_id = text "u1";
  holder_handle = holder_handle crypto key;
  operation_id = text "op1";
  digest = digest_text crypto (1 ∷ 2 ∷ 3 ∷ 4 ∷ 5 ∷ []);
  sealed_byte_size = 5;
  chunk_bytes = 4;
  chunk_count = pos 2;
  accepted_terms_id = text "t";
  supersedes = none;
  expires_at = (at_second 200_000).nanos ∷ 0 ∷ [];
}

abbrev uploaded : State
uploaded = record {
  store = record in_memory { uploads = row ∷ [] };
  blobs = record {
    incoming = (text "u1", (0, 1 ∷ 2 ∷ 3 ∷ 4 ∷ []) ∷ (1, 5 ∷ []) ∷ []) ∷ [];
    retained = [];
  };
  revocation = none;
}

abbrev headers : Headers
headers = signed_headers (at_second 100_000) (text "n1")

abbrev committed : Result Error CommitOutcome × State
committed = commit operator (text "u1") headers [] (at_second 100_000) uploaded

abbrev reply : CommitOutcome
reply = record { digest = row.digest; sealed_byte_size = 5; terms_id = text "t" }

commit_returns : committed ≡ (ok reply, committed.1)
unfolding commit authenticate verify whole_seconds_apart holder_key holder_handle in_memory ◌>>=◌
    text eq_text strip_prefix all any onym_backup.Uploads.Transfer.claim_upload
    onym_backup.Operator.on_store onym_backup.Store.Nonces.record_nonce
    onym_backup.Store.Nonces.seen onym_backup.Store.Uploads.upload arrival
    onym_backup.Blobs.Disk.part incoming_dir onym_backup.Prelude.Assoc.lookup
    onym_backup.Blobs.Disk.chunk digest_of digest_text onym_backup.Blobs.Digest.digest_hex
    onym_backup.Store.Snapshots.snapshot_exists usage onym_backup.Operator.on_blobs
    onym_backup.Blobs.Files.commit onym_backup.Blobs.Disk.eq_path
    onym_backup.Blobs.Disk.snapshot_dir onym_backup.Prelude.Assoc.insert
    onym_backup.Prelude.Assoc.remove find? select onym_backup.Clock.jd_lt
    onym_backup.Store.Uploads.open_grants
commit_returns = refl

commit_retains_example :
    (found : UploadRow) × (upload (text "u1") uploaded.store ≡ some found)
    × (arrival (incoming_dir (text "u1") uploaded.blobs) found.chunk_count
        ≡ (found.sealed_byte_size, []))
    × (digest_of crypto (text "u1") found.chunk_count uploaded.blobs ≡ ok found.digest)
    × ((at : Text) × (clock.format (at_second 100_000) ≡ some at)
        × Retained found at committed.1.store
        × (reply ≡ record {
          digest = found.digest;
          sealed_byte_size = found.sealed_byte_size;
          terms_id = found.accepted_terms_id;
        }))
commit_retains_example =
    commit_retains operator (text "u1") headers [] (at_second 100_000) uploaded committed.1 reply
      commit_returns

quota_never_exceeded_example :
    (usage row.holder_handle
      (after_all operator
        (commits (text "u1") headers [] (at_second 100_000) ∷ [])
        uploaded).store).0
    ≤ 1
unfolding in_memory
quota_never_exceeded_example =
    quota_never_exceeded operator (commits (text "u1") headers [] (at_second 100_000) ∷ []) uploaded
      row.holder_handle refl
