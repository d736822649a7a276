-- ===== src/Api/Terms.antt =====
-- `terms` of operator/src/api.rs: the terms by their content, those in force and all before them.
use onym_backup.Prelude.{
  Bool, true, false, Option, none, some, ◌++◌, Text, Bytes, text, if◌then◌else◌, eq_text,
  strip_prefix, strip_suffix,
}
use onym_backup.Prelude.Exec.{ok, err}
use onym_backup.Prelude.Results.{◌>>=◌, ok_or}
use onym_backup.Error.{Fallible, not_found, Resource}
use onym_backup.Store.Rows.{Store, TermsRow}
use onym_backup.Store.Terms.{terms_document}
use onym_backup.Operator.{Operator, Documents}

-- A document as JSON, or a detached signature as text. A stored signature is the text that boot wrote;
-- that it might not be UTF-8 is not modelled.
pub data Served : Type 0 where
  json_document : Bytes → Served
  signature_document : Text → Served

unfoldable pub without_suffix : Text → Option Text → Fallible (Text × Bool)
unfolding strip_suffix
without_suffix file (some requested) = ok (requested, true)
without_suffix file none =
    ok_or (strip_suffix (text ".json") file) (not_found Resource.terms) >>= λ requested.
    ok (requested, false)

-- the name asked for, and whether it is its signature
unfoldable pub requested_terms : Text → Fallible (Text × Bool)
unfolding without_suffix strip_suffix
requested_terms file = without_suffix file (strip_suffix (text ".json.sig") file)

unfoldable pub serve : Bool → Bytes → Text → Served
serve detached raw signature = if detached then signature_document signature else json_document raw

unfoldable pub current_hex : Documents → Text
current_hex d = elim (strip_prefix (text "sha256:") d.terms_id) [
  | none ↦ d.terms_id
  | some hex ↦ hex
]

unfoldable pub serve_row : Bool → Option TermsRow → Fallible Served
unfolding serve
serve_row detached none = err (not_found Resource.terms)
serve_row detached (some row) = ok (serve detached row.raw row.signature)

unfoldable pub stored_terms : Text → Bool → Store → Fallible Served
unfolding serve_row
stored_terms requested detached s =
    serve_row detached (terms_document (text "sha256:" ++ requested) s)

unfoldable pub terms : Operator → Text → Store → Fallible Served
unfolding requested_terms current_hex serve stored_terms
terms o file s = requested_terms file >>= λ asked.
    if eq_text asked.0 (current_hex o.documents)
    then ok (serve asked.1 o.documents.terms o.documents.terms_signature)
    else stored_terms asked.0 asked.1 s
