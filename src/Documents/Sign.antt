-- ===== src/Documents/Sign.antt =====
-- `sign`, `detached` and `sign_receipt` of operator/src/documents.rs.
use onym_backup.Prelude.{List, [], ◌∷◌, Text, Bytes, text, if◌then◌else◌, any, eq_text}
use onym_backup.Prelude.Exec.{ok}
use onym_backup.Prelude.Results.{◌>>=◌, ok_or}
use onym_backup.Error.{Fallible, internal}
use onym_backup.Crypto.{Crypto}
use onym_backup.Blobs.Digest.{digest_text}
use onym_backup.Documents.Json.{
  Json, Value, null, bool, number, string, array, object, insert_field,
}
use onym_backup.Documents.Canonical.{canonical_bytes}

-- the names that a signed document adds
abbrev pub terms_id_field : Text
terms_id_field = text "termsId"

abbrev pub signature_field : Text
signature_field = text "signature"

-- a document that is an object gets its entries, another value none
unfoldable pub add_signature : Crypto → Bytes → List Text → Text → Value → Value
unfolding any
add_signature x bytes omitting encoded (object fields) =
    let named =
      if any (eq_text terms_id_field) omitting
      then insert_field terms_id_field (string (digest_text x bytes)) fields
      else fields in
    object (insert_field signature_field (string encoded) named)
add_signature x bytes omitting encoded null = null
add_signature x bytes omitting encoded (bool b) = bool b
add_signature x bytes omitting encoded (number n) = number n
add_signature x bytes omitting encoded (string t) = string t
add_signature x bytes omitting encoded (array vs) = array vs

module _ (x : Crypto) (j : Json) (seed : Bytes) where
  -- the base64 of a signature over exactly these bytes
  unfoldable pub detached : Bytes → Text
  detached bytes = x.base64_encode (x.sign seed bytes)

  unfoldable pub sign : Value → List Text → Fallible Bytes
  unfolding add_signature detached
  sign document omitting = canonical_bytes document omitting >>= λ bytes.
      ok (j.to_vec (add_signature x bytes omitting (detached bytes) document))

  unfoldable pub sign_receipt : Value → Fallible (Value × Bytes)
  unfolding sign
  sign_receipt receipt = sign receipt (signature_field ∷ []) >>= λ bytes.
      ok_or (j.from_slice bytes) (internal "signed receipt is not JSON") >>= λ document.
      ok (document, bytes)
