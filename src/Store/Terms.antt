-- ===== src/Store/Terms.antt =====
-- The statements of operator/src/store.rs on `terms_documents`.
use onym_backup.Prelude.{Bool, Option, [], ◌∷◌, ◌++◌, Text, if◌then◌else◌, find?, any, eq_text}
use onym_backup.Store.Rows.{Store, TermsRow}

abbrev pub is_terms : Text → TermsRow → Bool
is_terms terms_id row = eq_text row.terms_id terms_id

-- INSERT OR IGNORE
unfoldable pub remember_terms : TermsRow → Store → Store
unfolding any
remember_terms row s =
    if any (is_terms row.terms_id) s.terms_documents
    then s
    else record s { terms_documents = s.terms_documents ++ row ∷ [] }

unfoldable pub terms_document : Text → Store → Option TermsRow
unfolding find?
terms_document terms_id s = find? (is_terms terms_id) s.terms_documents
