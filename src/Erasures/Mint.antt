-- ===== src/Erasures/Mint.antt =====
-- The receipts of `erase` in operator/src/erasures.rs, and what it reads of texts and stored bytes.
use onym_backup.Prelude.{
  ℕ, suc, List, [], ◌∷◌, map, Text, Bytes, text, if◌then◌else◌, eq_text, select,
}
use onym_backup.Prelude.Exec.{ok}
use onym_backup.Prelude.Results.{◌>>=◌, ok_or}
use onym_backup.Error.{Fallible, internal, not_found, Resource}
use onym_backup.Documents.Json.{Value, get, as_str}
use onym_backup.Documents.Sign.{sign_receipt}
use onym_backup.Blobs.Digest.{digest_hex}
use onym_backup.Blobs.Disk.{SnapshotPath}
use onym_backup.Store.Rows.{Store, SnapshotRow}
use onym_backup.Store.Snapshots.{scope_all}
use onym_backup.Store.Terms.{terms_document}
use onym_backup.Store.Erasures.{NewReceipt}
use onym_backup.Operator.{Operator}
use onym_backup.Erasures.Compose.{compose}

unfoldable pub check_scope : Text → Fallible (Unit {0})
check_scope scope = if eq_text scope scope_all then ok tt else digest_hex scope >>= λ hex. ok tt

unfoldable pub hex_of_all : Text → List SnapshotRow → Fallible (List SnapshotPath)
hex_of_all handle [] = ok []
hex_of_all handle (row ∷ rows) =
    let rest = hex_of_all handle rows in
    digest_hex row.digest >>= λ hex. rest >>= λ more. ok ((handle, hex) ∷ more)

module _ (o : Operator) where
  open o use {clock, crypto, json, config}

  unfoldable pub decode_receipts : List (Text × Bytes) → Fallible (List Value)
  decode_receipts [] = ok []
  decode_receipts (receipt ∷ receipts) =
      let rest = decode_receipts receipts in
      ok_or (json.from_slice receipt.1) (internal "stored receipt") >>= λ document.
      rest >>= λ more. ok (document ∷ more)

  -- The receipt for one pinned terms id, with the document to answer with.
  mint_one : Text → Text → Text → List SnapshotRow → Text → Store → Fallible (NewReceipt × Value)
  unfolding select
  mint_one id scope stamp targets terms_id s =
      ok_or (terms_document terms_id s) (not_found Resource.terms) >>= λ row.
      ok_or (json.from_slice row.raw) (internal "stored terms") >>= λ terms.
      let covered =
        map (λ row. row.digest) (select (λ row. eq_text row.accepted_terms_id terms_id) targets) in
      compose o id terms terms_id scope covered stamp >>= λ receipt.
      ok_or (as_str (get (text "receiptId") receipt)) (internal "receipt has no id")
      >>= λ receipt_id. sign_receipt crypto json config.signing_seed receipt >>= λ signed. ok (
        record { receipt_id = receipt_id; terms_id = terms_id; raw = signed.1; covers = covered },
        signed.0,
      )

  -- one receipt for each pinned terms id; `new_id` gives the new UUIDs
  unfoldable pub mint :
      (ℕ → Text)
      → Text
      → Text
      → List SnapshotRow
      → List Text
      → ℕ
      → Store
      → Fallible (List (NewReceipt × Value))
  unfolding mint_one
  mint new_id scope stamp targets [] n s = ok []
  mint new_id scope stamp targets (terms_id ∷ pinned) n s =
      let rest = mint new_id scope stamp targets pinned (suc n) s in
      mint_one (new_id n) scope stamp targets terms_id s >>= λ minted.
      rest >>= λ more. ok (minted ∷ more)
