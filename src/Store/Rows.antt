-- ===== src/Store/Rows.antt =====
-- operator/src/store.rs: the tables, each a list of its rows. Timestamps are the texts that the
-- program stores; SQL's `julianday` of them is read through a `Clock`.
use onym_backup.Prelude.{ℕ, Option, List, [], Text, Bytes}
use onym_backup.Prelude.Int.{ℤ}

pub record RetainedRow : Type 0 where
  pub digest : Text
  pub algorithm : Text
  pub sealed_byte_size : ℕ
  pub chunk_count : ℤ
  pub accepted_terms_id : Text
  pub supersedes : Option Text
  pub retained_at : Text
  pub retained_until : Option Text
  pub erased_at : Option Text

-- a row of `snapshots`; its key is the pair of holder and digest
pub record SnapshotRow : Type 0 where
  pub holder_handle : Text
  pub retained : RetainedRow
  pub open retained use *

-- a row of `uploads`; `received_mask` is written empty and never read, `started_at` never read
pub record UploadRow : Type 0 where
  pub upload_id : Text
  pub holder_handle : Text
  pub operation_id : Text
  pub digest : Text
  pub sealed_byte_size : ℕ
  pub chunk_bytes : ℕ
  pub chunk_count : ℤ
  pub accepted_terms_id : Text
  pub supersedes : Option Text
  pub expires_at : Text

pub record OutcomeRow : Type 0 where
  pub operation_id : Text
  pub holder_handle : Text
  pub subject : Text
  pub status : Text
  pub receipt_ids : Option (List Text)
  pub recorded_at : Text

pub record TermsRow : Type 0 where
  pub terms_id : Text
  pub raw : Bytes
  pub signature : Bytes
  pub first_seen : Text

pub record ReceiptRow : Type 0 where
  pub receipt_id : Text
  pub holder_handle : Text
  pub scope : Text
  pub terms_id : Text
  pub raw : Bytes
  pub issued_at : Text

-- a row of `receipt_snapshots`
pub record CoverRow : Type 0 where
  pub receipt_id : Text
  pub digest : Text

pub record EntitlementRow : Type 0 where
  pub entitlement_id : Text
  pub holder_handle : Text
  pub offer_id : Text
  pub not_before : Text
  pub expires_at : Text
  pub raw : Bytes
  pub registered_at : Text

pub record NonceRow : Type 0 where
  pub holder_handle : Text
  pub nonce : Text
  pub seen_at : Text

pub record LapseState : Type 0 where
  pub lapsed_at : Text
  pub grace_expires_at : Text
  pub post_grace_action : Text

pub record LapseRow : Type 0 where
  pub holder_handle : Text
  pub state : LapseState

pub record EpochRow : Type 0 where
  pub epoch : ℤ
  pub fetched_at : Text
  pub document : Bytes

pub record Store : Type 0 where
  pub snapshots : List SnapshotRow
  pub uploads : List UploadRow
  pub operation_outcomes : List OutcomeRow
  pub terms_documents : List TermsRow
  pub erasure_receipts : List ReceiptRow
  pub receipt_snapshots : List CoverRow
  pub holder_entitlements : List EntitlementRow
  pub seen_nonces : List NonceRow
  pub lapse_states : List LapseRow
  pub revocation_cache : List EpochRow

-- `Store::open` on a fresh file, and `Store::in_memory`
unfoldable pub in_memory : Store
in_memory = record {
  snapshots = [];
  uploads = [];
  operation_outcomes = [];
  terms_documents = [];
  erasure_receipts = [];
  receipt_snapshots = [];
  holder_entitlements = [];
  seen_nonces = [];
  lapse_states = [];
  revocation_cache = [];
}
