-- ===== src/Uploads/Committed.antt =====
-- What a commit that returned went through and left, `commit` in operator/src/uploads.rs.
use onym_backup.Prelude.{
  ℕ, ◌≡◌, inl, inr, refl, sym, ap, subst, ◌∙◌, true, false, not, none, some, List, [], ◌∷◌, Text,
  Bytes, ◌==◌, if◌then◌else◌, arith, Bool-cases, eq_text_iff, eq_text_refl, is_empty, select, find?,
}
use onym_backup.Prelude.Exec.{
  ok, is_ok, Exec, ◌>>=◌, >>=-ok, or_fail-ok, lift-ok, require_that-ok, gets-ok, modify-ok, pure-ok,
  unless-ok,
}
use onym_backup.Error.{Error}
use onym_backup.Clock.{Time}
use onym_backup.Blobs.Disk.{incoming_dir}
use onym_backup.Blobs.Arrival.{Range, arrival}
use onym_backup.Blobs.Files.{digest_of}
use onym_backup.Store.Rows.{Store, UploadRow}
use onym_backup.Store.Snapshots.{snapshot_exists, retain}
use onym_backup.Store.Retention.{snapshot_exists-retain}
use onym_backup.Store.Uploads.{upload, drop_upload, is_upload}
use onym_backup.Store.Outcomes.{record_outcome, outcome, retained_status}
use onym_backup.Store.Replace.{outcome-record_outcome}
use onym_backup.Operator.{Operator, State, on_store}
use onym_backup.Store.Nonces.{record_nonce, seen}
use onym_backup.Auth.{Headers, authenticate}
use onym_backup.Auth.Honoured.{authenticate-Preserves}
use onym_backup.Uploads.Transfer.{claim_upload}
use onym_backup.Uploads.Commit.{
  CommitOutcome, settle, seal, give_up, verify_digest, check_parts, commit,
}

-- The tables say that an upload is a retained snapshot.
pub record Retained (row : UploadRow) (at : Text) (s : Store) : Type 0 where
  pub live : snapshot_exists row.holder_handle row.digest s ≡ true
  pub answered :
      outcome row.holder_handle row.operation_id s
      ≡ some (record {
        operation_id = row.operation_id;
        holder_handle = row.holder_handle;
        subject = row.digest;
        status = retained_status;
        receipt_ids = none;
        recorded_at = at;
      })
  pub closed : upload row.upload_id s ≡ none

dropped :
    (u : Text) (rows : List UploadRow)
    → find? (is_upload u) (select (λ row. not (is_upload u row)) rows) ≡ none
unfolding find? select
dropped u [] = refl
dropped u (row ∷ rows) = elim (Bool-cases (is_upload u row)) [
  | inl e ↦ rw e (dropped u rows)
  | inr e ↦ rw (e, e) (dropped u rows)
]

settle-Retained : (row : UploadRow) (at : Text) (s : Store) → Retained row at (settle row at s)
unfolding settle snapshot_exists record_outcome drop_upload upload
settle-Retained row at s = record {
  live = snapshot_exists-retain row at s;
  answered =
      outcome-record_outcome _ row.holder_handle row.operation_id _
      ∙ rw (eq_text_refl row.holder_handle, eq_text_refl row.operation_id) refl;
  closed = dropped row.upload_id (retain row at s).uploads;
}

found-id :
    (u : Text) (rows : List UploadRow) (row : UploadRow)
    → find? (is_upload u) rows ≡ some row
    → row.upload_id ≡ u
unfolding find?
found-id u [] row h = cc
found-id u (x ∷ rows) row h = ground (arith, eq_text_iff x.upload_id u, found-id u rows row)

opened :
    (u : Text) (s : Store) (row : UploadRow)
    → upload u s ≡ some row
    → find? (is_upload u) s.uploads ≡ some row
unfolding upload
opened u s row h = h

nonce-upload :
    (u handle nonce at : Text) (s : Store)
    → upload u (record_nonce handle nonce at s).1 ≡ upload u s
unfolding record_nonce upload
nonce-upload u handle nonce at s = elim (Bool-cases (seen s.seen_nonces handle nonce)) [
  | inl e ↦ rw e refl
  | inr e ↦ rw e refl
]

keeps_blobs : {A : Type 0} (m : Exec Error Store A) (s : State) → (on_store m s).1.blobs ≡ s.blobs
unfolding on_store
keeps_blobs m s = refl

whole :
    (found : ℕ × List Range) (size : ℕ)
    → (found.0 == size) ≡ true
    → is_empty found.1 ≡ true
    → found ≡ (size, [])
whole (n, []) size e f = ground arith
whole (n, r ∷ rs) size e f = absurd (ground arith)

module _ (o : Operator) where
  open o use {clock, crypto, config}

  -- a request leaves the uploads alone, whatever becomes of it
  same_upload :
      (u : Text) (headers : Headers) (method path : Text) (body : Bytes) (now : Time) (s : State)
      → upload u
          (on_store (authenticate clock crypto headers method path body config now) s).1.store
        ≡ upload u s.store
  unfolding on_store
  same_upload u headers method path body now s =
      (authenticate-Preserves clock crypto headers method path body config
          (λ v. upload u v ≡ upload u s.store) now
          (λ handle nonce at v e. nonce-upload u handle nonce at v ∙ e)).at
        s.store refl

  claim-ok :
      (u : Text) (headers : Headers) (method path : Text) (body : Bytes) (now : Time) (s t : State)
      (row : UploadRow)
      → claim_upload o u headers method path body now s ≡ (ok row, t)
      → (t.blobs ≡ s.blobs) × (upload u s.store ≡ some row) × (row.upload_id ≡ u)
  unfolding claim_upload
  claim-ok u headers method path body now s t row h =
      let (holder, s1, e1, h1) = >>=-ok _ _ s t row h in
      let (found, e2, h2) = or_fail-ok _ _ _ s1 t row (gets-ok _ _ s1 t row h1) in
      let (_, h3) = require_that-ok _ _ _ s1 t row h2 in
      let (expired, _, h4) = lift-ok _ _ s1 t row h3 in
      let (_, h5) = require_that-ok _ _ _ s1 t row h4 in
      let (same, there) = pure-ok found row s1 t h5 in
      (
        ap (λ v. v.blobs) there ∙ sym (ap (λ r. r.1.blobs) e1) ∙ keeps_blobs _ s,
        sym (same_upload u headers method path body now s)
            ∙ ap (λ r. upload u r.1.store) e1
            ∙ e2
            ∙ ap some (sym same),
        ap (λ r. r.upload_id) same ∙ found-id u s1.store.uploads found (opened u s1.store found e2),
      )

  seal-ok :
      (row : UploadRow) (hex at : Text) (s t : State) (reply : CommitOutcome)
      → seal o row hex at s ≡ (ok reply, t)
      → Retained row at t.store
        × (reply ≡ record {
          digest = row.digest;
          sealed_byte_size = row.sealed_byte_size;
          terms_id = row.accepted_terms_id;
        })
  unfolding seal
  seal-ok row hex at s t reply h =
      let (_, s1, _, h1) = >>=-ok _ _ s t reply h in
      let (_, s2, _, h2) = >>=-ok _ _ s1 t reply h1 in
      let (same, there) = pure-ok _ reply _ t (modify-ok _ _ s2 t reply h2) in
      (subst (λ v. Retained row at v.store) (sym there) (settle-Retained row at s2.store), same)

  give_up-fails : (u : Text) (s : State) → is_ok (give_up o u s).0 ≡ false
  unfolding give_up ◌>>=◌
  give_up-fails u s = refl

  abbrev Answered : UploadRow → Time → State → CommitOutcome → Type 0
  Answered row now t reply =
      (at : Text) × (clock.format now ≡ some at)
      × Retained row at t.store
      × (reply ≡ record {
        digest = row.digest;
        sealed_byte_size = row.sealed_byte_size;
        terms_id = row.accepted_terms_id;
      })

  -- A commit past the length check, when it returned.
  verify-ok :
      (row : UploadRow) (now : Time) (s t : State) (reply : CommitOutcome)
      → verify_digest o row now s ≡ (ok reply, t)
      → (digest_of crypto row.upload_id row.chunk_count s.blobs ≡ ok row.digest)
        × Answered row now t reply
  unfolding verify_digest
  verify-ok row now s t reply h =
      let (digest, e1, h1) = lift-ok _ _ s t reply (gets-ok _ _ s t reply h) in
      let (same, h2) = unless-ok _ _ _ s t reply (give_up-fails row.upload_id s) h1 in
      let (hex, _, h3) = lift-ok _ _ s t reply h2 in
      let (at, stamped, h4) = or_fail-ok _ _ _ s t reply h3 in
      let (kept, answer) = seal-ok row hex at s t reply h4 in
      (e1 ∙ ap ok ((eq_text_iff digest row.digest).0 same), (at, stamped, kept, answer))

  parts-ok :
      (u : Text) (row : UploadRow) (now : Time) (s t : State) (reply : CommitOutcome)
      → row.upload_id ≡ u
      → check_parts o u row now s ≡ (ok reply, t)
      → (arrival (incoming_dir u s.blobs) row.chunk_count ≡ (row.sealed_byte_size, []))
        × (digest_of crypto u row.chunk_count s.blobs ≡ ok row.digest)
        × Answered row now t reply
  unfolding check_parts
  parts-ok u row now s t reply id h =
      let found = arrival (incoming_dir u s.blobs) row.chunk_count in
      let (all_in, h3) =
        require_that-ok (is_empty found.1) _
          (if not (found.0 == row.sealed_byte_size) then give_up o u else verify_digest o row now) s
          t reply (gets-ok _ _ s t reply h) in
      let (size, h4) =
        unless-ok (found.0 == row.sealed_byte_size) (give_up o u) (verify_digest o row now) s t
          reply (give_up-fails u s) h3 in
      let (digest, rest) = verify-ok row now s t reply h4 in
      (
        whole found row.sealed_byte_size size all_in,
        subst (λ v. digest_of crypto v row.chunk_count s.blobs ≡ ok row.digest) id digest,
        rest,
      )

  -- A commit that returns is of the upload that the tables hold under its id, one whose parts had all come, with the declared number of
  -- bytes in all and with the declared digest. The tables then hold the snapshot as live, hold the
  -- outcome `retained` for the holder's operation id, no longer hold the upload, and the reply names
  -- the snapshot's digest, size and terms.
  pub commit_retains :
      (u : Text) (headers : Headers) (body : Bytes) (now : Time) (s t : State)
      (reply : CommitOutcome)
      → commit o u headers body now s ≡ (ok reply, t)
      → (row : UploadRow) × (upload u s.store ≡ some row)
        × (arrival (incoming_dir u s.blobs) row.chunk_count ≡ (row.sealed_byte_size, []))
        × (digest_of crypto u row.chunk_count s.blobs ≡ ok row.digest)
        × Answered row now t reply
  unfolding commit
  commit_retains u headers body now s t reply h =
      let (row, s1, e1, h1) = >>=-ok _ _ s t reply h in
      let (blobs, there, id) = claim-ok u headers _ _ body now s s1 row e1 in
      let (whole, digest, rest) = parts-ok u row now s1 t reply id h1 in
      (
        row,
        there,
        sym (ap (λ b. arrival (incoming_dir u b) row.chunk_count) blobs) ∙ whole,
        sym (ap (λ b. digest_of crypto u row.chunk_count b) blobs) ∙ digest,
        rest,
      )
