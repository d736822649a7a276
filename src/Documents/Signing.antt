-- ===== src/Documents/Signing.antt =====
-- A signed document and the bytes its signature covers, operator/src/documents.rs.
use onym_backup.Prelude.{
  ◌≡◌, refl, ap, ◌∙◌, true, some, [], ◌∷◌, Text, Bytes, text, any, eq_text, eq_text_refl,
  Bool-cases, inl, inr,
}
use onym_backup.Prelude.Exec.{ok}
use onym_backup.Crypto.{Crypto}
use onym_backup.Documents.Sign.{signature_field, add_signature, detached, sign, sign_receipt}
use onym_backup.Documents.Json.{
  Json, Value, string, get, get_field, as_str, object, Fields, end, field, remove_field,
  insert_field,
}
use onym_backup.Documents.Canonical.{write_canonical, canonical_bytes}

remove-remove :
    (key : Text) (fields : Fields)
    → remove_field key (remove_field key fields) ≡ remove_field key fields
unfolding remove_field
remove-remove key end = refl
remove-remove key (field k v rest) = elim (Bool-cases (eq_text k key)) [
  | inl e ↦ rw e (remove-remove key rest)
  | inr e ↦ rw (e, e) (ap (field k v) (remove-remove key rest))
]

remove-insert :
    (key : Text) (v : Value) (fields : Fields)
    → remove_field key (insert_field key v fields) ≡ remove_field key fields
unfolding insert_field remove_field
remove-insert key v fields = rw (eq_text_refl key) (remove-remove key fields)

signed_bytes :
    (v : Value) (fields : Fields)
    → canonical_bytes (object (insert_field signature_field v fields)) (signature_field ∷ [])
      ≡ canonical_bytes (object fields) (signature_field ∷ [])
unfolding canonical_bytes
signed_bytes v fields =
    ap (λ f. write_canonical (object f)) (remove-insert signature_field v fields)

-- What a verifier checks of a document: the signature in it, over the rest of it, by this key.
abbrev pub Verifies : Crypto → Bytes → Value → Type 0
Verifies x key document =
    (encoded : Text) × (signature : Bytes) × (signed : Bytes) × (as_str
        (get signature_field document)
      ≡ some encoded)
    × (x.base64_decode encoded ≡ some signature)
    × (canonical_bytes document (signature_field ∷ []) ≡ ok signed)
    × (x.verify key signed signature ≡ true)

module _ (x : Crypto) (j : Json) (seed : Bytes) (fields : Fields) (bytes : Bytes) where
  -- the receipt with its signature
  abbrev pub signed_receipt : Value
  signed_receipt =
      add_signature x bytes (signature_field ∷ []) (detached x j seed bytes) (object fields)

  same_bytes :
      canonical_bytes signed_receipt (signature_field ∷ [])
      ≡ canonical_bytes (object fields) (signature_field ∷ [])
  unfolding add_signature any eq_text text
  same_bytes = signed_bytes (string (detached x j seed bytes)) fields

  receipt-Verifies :
      canonical_bytes (object fields) (signature_field ∷ []) ≡ ok bytes
      → ((b : Bytes) → x.base64_decode (x.base64_encode b) ≡ some b)
      → ((m : Bytes) → x.verify (x.verifying_key seed) m (x.sign seed m) ≡ true)
      → Verifies x (x.verifying_key seed) signed_receipt
  unfolding add_signature detached any eq_text text get get_field insert_field
  receipt-Verifies e decodes genuine = (
    x.base64_encode (x.sign seed bytes),
    x.sign seed bytes,
    bytes,
    refl,
    decodes (x.sign seed bytes),
    same_bytes ∙ e,
    genuine bytes,
  )

  -- A receipt that can be written canonically is signed, where serde reads the signed document back as it
  -- wrote it, base64 decodes what it encoded, and Ed25519 verifies what it signed. The document that is
  -- answered is what the stored bytes are read as, and a verifier that takes the signature out of it
  -- finds the signature to be the operator's over the rest, the same bytes as of the receipt unsigned.
  pub sign_receipt-Verifies :
      canonical_bytes (object fields) (signature_field ∷ []) ≡ ok bytes
      → j.from_slice (j.to_vec signed_receipt) ≡ some signed_receipt
      → ((b : Bytes) → x.base64_decode (x.base64_encode b) ≡ some b)
      → ((m : Bytes) → x.verify (x.verifying_key seed) m (x.sign seed m) ≡ true)
      → (document : Value) × (raw : Bytes) × (sign_receipt x j seed (object fields)
          ≡ ok (document, raw))
        × (j.from_slice raw ≡ some document)
        × (canonical_bytes document (signature_field ∷ []) ≡ ok bytes)
        × Verifies x (x.verifying_key seed) document
  unfolding sign_receipt sign
  sign_receipt-Verifies e read_back decodes genuine = (
    signed_receipt,
    j.to_vec signed_receipt,
    rw (e, read_back) refl,
    read_back,
    same_bytes ∙ e,
    receipt-Verifies e decodes genuine,
  )
