-- ===== src/Export/Container.antt =====
-- `manifest` and `receipt` of operator/src/export.rs.
use mathlib.Core.List.{reverse}
use onym_backup.Prelude.{
  ℕ, ◌==◌, none, some, List, [], ◌∷◌, ◌++◌, map, Text, Bytes, text, if◌then◌else◌, strip_prefix,
}
use onym_backup.Prelude.Sort.{sorted_set}
use onym_backup.Prelude.Exec.{Exec, pure, gets, or_fail, ◌>>=◌}
use onym_backup.Error.{Error, not_found, internal, Resource}
use onym_backup.Clock.{Time}
use onym_backup.Store.Rows.{SnapshotRow}
use onym_backup.Store.Snapshots.{snapshots}
use onym_backup.Store.Receipts.{receipts}
use onym_backup.Store.Erasures
use onym_backup.Store.Erasures.{receipt_terms_ids}
use onym_backup.Operator.{Operator, State, on_store}
use onym_backup.Auth.{Headers, authenticate}

-- One entry of the manifest's `snapshots`. The reference's version is always 1.
pub record SnapshotEntry : Type 0 where
  pub algorithm : Text
  pub digest : Text
  pub sealed_byte_size : ℕ
  pub accepted_terms_id : Text
  pub terms_url : Text
  pub retained_at : Text
  pub file : Text

pub record TermsEntry : Type 0 where
  pub terms_id : Text
  pub terms_url : Text
  pub file : Text
  pub signature : Text

-- the manifest of the container; its version is always 1
pub record Container : Type 0 where
  pub exported_at : Text
  pub operator : Text
  pub snapshots : List SnapshotEntry
  pub receipts : List Text
  pub terms : List TermsEntry

unfoldable pub hex_of : Text → Text
hex_of digest = elim (strip_prefix (text "sha256:") digest) [ none ↦ digest | some hex ↦ hex ]

drop_slashes : Text → Text
drop_slashes [] = []
drop_slashes (c ∷ t) = let rest = drop_slashes t in if c == b'/' then rest else c ∷ t

unfoldable pub receipt_file : Text → Text
receipt_file id = text "receipts/" ++ (id ++ text ".json")

module _ (o : Operator) where
  open o use {clock, crypto, config, documents}

  unfoldable pub terms_url : Text → Text
  unfolding hex_of drop_slashes
  terms_url terms_id =
      reverse (drop_slashes (reverse config.public_url))
      ++ (text "/terms/" ++ (hex_of terms_id ++ text ".json"))

  unfoldable pub snapshot_entry : SnapshotRow → SnapshotEntry
  unfolding terms_url hex_of
  snapshot_entry row = record {
    algorithm = row.algorithm;
    digest = row.digest;
    sealed_byte_size = row.sealed_byte_size;
    accepted_terms_id = row.accepted_terms_id;
    terms_url = terms_url row.accepted_terms_id;
    retained_at = row.retained_at;
    file = text "snapshots/" ++ (hex_of row.digest ++ text ".seal");
  }

  unfoldable pub terms_entry : Text → TermsEntry
  unfolding terms_url hex_of
  terms_entry id = record {
    terms_id = id;
    terms_url = terms_url id;
    file = text "terms/" ++ (hex_of id ++ text ".json");
    signature = text "terms/" ++ (hex_of id ++ text ".json.sig");
  }

  -- live snapshots, and the receipts' terms too: a receipt may pin the terms of a snapshot that is gone
  unfoldable pub container : List SnapshotRow → List (Text × Bytes) → List Text → Text → Container
  unfolding snapshot_entry terms_entry receipt_file
  container rows found receipt_terms exported_at = record {
    exported_at = exported_at;
    operator = documents.operator_key;
    snapshots = map snapshot_entry rows;
    receipts = map (λ r. receipt_file r.0) found;
    terms = map terms_entry (sorted_set (map (λ row. row.accepted_terms_id) rows ++ receipt_terms));
  }

  unfoldable pub manifest : Headers → Time → Exec Error State Container
  unfolding container
  manifest headers now = do
    holder ←
        on_store (authenticate clock crypto headers (text "GET") (text "/v1/exports") [] config now)
    rows ← gets (λ s. snapshots clock holder.handle s.store)
    found ← gets (λ s. receipts clock holder.handle s.store)
    receipt_terms ← gets (λ s. receipt_terms_ids holder.handle s.store)
    exported_at ← or_fail (clock.format now) (internal "format timestamp")
    pure (container rows found receipt_terms exported_at)

  -- the stored bytes of one receipt
  unfoldable pub receipt : Text → Headers → Time → Exec Error State Bytes
  receipt receipt_id headers now = do
    holder ← on_store (
        authenticate clock crypto headers (text "GET") (text "/v1/exports/receipts/" ++ receipt_id)
          [] config now)
    found ← gets (λ s. Erasures.receipt holder.handle receipt_id s.store)
    row ← or_fail found (not_found Resource.receipt)
    pure row.raw
