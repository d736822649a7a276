-- ===== src/Tests/Data.antt =====
-- Sizes, durations, chunks and rows at concrete inputs.
use mathlib.Core.List.{reverse}
use onym_backup.Prelude.{
  ◌++◌, Bytes, eq_text_refl, ℕ, ◌<◌, ◌≤◌, ◌≡◌, refl, true, false, none, some, [], ◌∷◌, text, arith,
  ltb, not, ◌&&◌, is_some, if◌then◌else◌, eq_text,
}
use onym_backup.Prelude.Int.{pos}
use onym_backup.Prelude.Exec.{ok, err}
use onym_backup.Error.{chunk_mismatch}
use onym_backup.Documents.Json.{Json, Value, string, object, Fields, end, field, insert_field}
use onym_backup.Documents.Canonical.{canonical_bytes, write_canonical}
use onym_backup.Documents.Sign.{detached, add_signature, sign_receipt}
use onym_backup.Documents.Signing.{signed_receipt, Verifies, sign_receipt-Verifies}
use onym_backup.Tests.Fixture.{key, crypto}
use onym_backup.Documents.Duration.{iso_duration, duration_seconds, duration_seconds-iso_duration}
use onym_backup.Blobs.Arrival.{arrival, in_ranges, Separated, arrival_exact}
use onym_backup.Blobs.Disk.{Dir, Blobs, part, chunk, incoming_dir}
use onym_backup.Prelude.Assoc.{lookup}
use onym_backup.Blobs.Files.{write_chunk}
use onym_backup.Blobs.Retry.{write_chunk_again}
use onym_backup.Store.Rows.{Store, UploadRow, OutcomeRow, in_memory}
use onym_backup.Store.Snapshots.{snapshot_exists, retain, mark_unavailable}
use onym_backup.Store.Retention.{snapshot_exists-retain}
use onym_backup.Store.Unavailable.{snapshot_exists-mark_unavailable}
use onym_backup.Store.Outcomes.{outcome, record_outcome, is_outcome, retained_status}
use onym_backup.Store.Replace.{outcome-record_outcome}
use onym_backup.Uploads.Preflight.{chunk_count_for}
use onym_backup.Uploads.Transfer.{expected_length}
use onym_backup.Uploads.Chunks.{chunks_cover, bytes_from}

duration_seconds-iso_duration_example : duration_seconds (iso_duration 90_000) ≡ some 90_000
duration_seconds-iso_duration_example = duration_seconds-iso_duration 90_000 (omega arith)

-- parts 0 and 3 of five
abbrev two_parts : Dir
two_parts = (0, 7 ∷ []) ∷ (3, 8 ∷ 9 ∷ []) ∷ []

two_gaps : arrival (some two_parts) (pos 5) ≡ (3, (1, 2) ∷ (4, 4) ∷ [])
unfolding arrival part chunk
two_gaps = refl

arrival_exact_example :
    ((i : ℕ)
      → in_ranges i (arrival (some two_parts) (pos 5)).1
        ≡ (ltb i 5 && not (is_some (part (some two_parts) i))))
    × Separated (reverse (arrival (some two_parts) (pos 5)).1)
arrival_exact_example = arrival_exact (some two_parts) (pos 5)

abbrev pub row : UploadRow
row = record {
  upload_id = text "u1";
  holder_handle = text "h";
  operation_id = text "op1";
  digest = text "sha256:d";
  sealed_byte_size = 9;
  chunk_bytes = 4;
  chunk_count = pos 3;
  accepted_terms_id = text "t";
  supersedes = none;
  expires_at = text "later";
}

chunks_cover_example :
    (n : ℕ) × (chunk_count_for 9 4 ≡ pos n)
    × (0 < n)
    × (bytes_from row n 0 n ≡ 9)
    × ((i : ℕ) → i < n → (m : ℕ) × (expected_length row n i ≡ pos m) × (0 < m) × (m ≤ 4))
chunks_cover_example = chunks_cover row (omega arith) (omega arith) (omega arith)

abbrev empty_upload : Blobs
empty_upload = record { incoming = (text "u1", []) ∷ []; retained = [] }

abbrev after_first : Blobs
after_first = (write_chunk (text "u1") 0 (5 ∷ 6 ∷ []) empty_upload).1

first_accepted : write_chunk (text "u1") 0 (5 ∷ 6 ∷ []) empty_upload ≡ (ok tt, after_first)
unfolding write_chunk incoming_dir lookup eq_text text chunk
first_accepted = refl

write_chunk_again_example : write_chunk (text "u1") 0 (5 ∷ 7 ∷ []) after_first ≡ (
    if eq_text (5 ∷ 6 ∷ []) (5 ∷ 7 ∷ [])
    then (ok tt, after_first)
    else (err chunk_mismatch, after_first))
write_chunk_again_example =
    write_chunk_again (text "u1") 0 (5 ∷ 6 ∷ []) (5 ∷ 7 ∷ []) empty_upload after_first
      first_accepted

abbrev retained_outcome : OutcomeRow
retained_outcome = record {
  operation_id = text "op1";
  holder_handle = text "h";
  subject = text "sha256:d";
  status = retained_status;
  receipt_ids = none;
  recorded_at = text "now";
}

outcome-record_outcome_example :
    outcome (text "other") (text "op1") (record_outcome retained_outcome in_memory) ≡ (
      if is_outcome (text "other") (text "op1") retained_outcome
      then some retained_outcome
      else outcome (text "other") (text "op1") in_memory)
outcome-record_outcome_example =
    outcome-record_outcome retained_outcome (text "other") (text "op1") in_memory

abbrev gone : Store
gone =
    (mark_unavailable (text "h") (text "sha256:d") (text "then")
      (retain row (text "now") in_memory)).1

snapshot_exists-retain_example :
    snapshot_exists (text "h") (text "sha256:d") (retain row (text "again") gone) ≡ true
snapshot_exists-retain_example = snapshot_exists-retain row (text "again") gone

snapshot_exists-mark_unavailable_example : snapshot_exists (text "h") (text "sha256:d") gone ≡ (
    if eq_text (text "h") (text "h") && eq_text (text "sha256:d") (text "sha256:d")
    then false
    else snapshot_exists (text "h") (text "sha256:d") (retain row (text "now") in_memory))
snapshot_exists-mark_unavailable_example =
    snapshot_exists-mark_unavailable (text "h") (text "sha256:d") (text "h") (text "sha256:d")
      (text "then") (retain row (text "now") in_memory)

abbrev unsigned : Fields
unsigned = field (text "version") (string (text "1")) end

abbrev signed : Value
signed = object (field (text "signature") (string (key ++ key)) unsigned)

abbrev reader : Json
reader = record { from_slice = λ b. some signed; to_vec = λ v. 7 ∷ [] }

abbrev unsigned_bytes : Bytes
unsigned_bytes = text "{\"version\":\"1\"}"

writes : canonical_bytes (object unsigned) (text "signature" ∷ []) ≡ ok unsigned_bytes
unfolding canonical_bytes write_canonical eq_text text
writes = refl

reads :
    reader.from_slice (reader.to_vec (signed_receipt crypto reader key unsigned unsigned_bytes))
    ≡ some (signed_receipt crypto reader key unsigned unsigned_bytes)
unfolding detached add_signature insert_field eq_text text
reads = refl

sign_receipt-Verifies_example :
    (document : Value) × (raw : Bytes) × (sign_receipt crypto reader key (object unsigned)
      ≡ ok (document, raw))
    × (reader.from_slice raw ≡ some document)
    × (canonical_bytes document (text "signature" ∷ []) ≡ ok unsigned_bytes)
    × Verifies crypto key document
sign_receipt-Verifies_example =
    sign_receipt-Verifies crypto reader key unsigned unsigned_bytes writes reads (λ b. refl)
      (λ m. eq_text_refl (key ++ key))
