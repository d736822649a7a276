-- ===== src/Api/Served.antt =====
-- What the terms route of operator/src/api.rs serves.
use onym_backup.Prelude.{
  ◌≡◌, refl, ◌⊎◌, inl, inr, Bool, Option, none, some, List, [], ◌∷◌, ◌++◌, Text, text, arith,
  eq_text, eq_text_iff, find?, Bool-cases, true, false, sym, ap, ◌∙◌, Bytes, strip_suffix,
  strip_prefix, strip_prefix_sound, strip_suffix_sound, subst, Option-cases,
}
use onym_backup.Prelude.Exec.{ok}
use onym_backup.Prelude.Results.{>>=-ok, ok_or}
use onym_backup.Prelude.Checks.{ok-injective}
use onym_backup.Error.{not_found, Resource}
use onym_backup.Store.Rows.{Store, TermsRow}
use onym_backup.Store.Terms.{terms_document, is_terms}
use onym_backup.Operator.{Operator, Documents}
use onym_backup.Api.Terms.{
  Served, json_document, signature_document, requested_terms, without_suffix, serve, serve_row,
  current_hex, stored_terms, terms,
}

found_terms :
    (id : Text) (rows : List TermsRow) (row : TermsRow)
    → find? (is_terms id) rows ≡ some row
    → row.terms_id ≡ id
unfolding find?
found_terms id [] row h = cc
found_terms id (x ∷ rows) row h = ground (arith, eq_text_iff x.terms_id id, found_terms id rows row)

document_id :
    (id : Text) (s : Store) (row : TermsRow) → terms_document id s ≡ some row → row.terms_id ≡ id
unfolding terms_document
document_id id s row h = found_terms id s.terms_documents row h

-- The document and the signature that a digest's hex names: those in force, if it is the hex of their
-- own id, or those of a row that was stored under that digest.
abbrev pub Named : Operator → Store → Text → Bytes → Text → Type 0
Named o s requested raw signature =
    (((o.documents.terms_id ≡ text "sha256:" ++ requested) ⊎ (o.documents.terms_id ≡ requested))
      × (raw ≡ o.documents.terms)
      × (signature ≡ o.documents.terms_signature))
    ⊎ ((row : TermsRow) × (terms_document (text "sha256:" ++ requested) s ≡ some row)
        × (row.terms_id ≡ text "sha256:" ++ requested)
        × (raw ≡ row.raw)
        × (signature ≡ row.signature))

-- What the two suffixes stand for.
abbrev pub Answers : Text → Text → Bytes → Text → Served → Type 0
Answers file requested raw signature served =
    ((file ≡ requested ++ text ".json.sig") × (served ≡ signature_document signature))
    ⊎ ((file ≡ requested ++ text ".json") × (served ≡ json_document raw))

-- which of the two a request's flag means
abbrev Suffixed : Text → Text × Bool → Type 0
Suffixed file asked =
    ((file ≡ asked.0 ++ text ".json.sig") × (asked.1 ≡ true))
    ⊎ ((file ≡ asked.0 ++ text ".json") × (asked.1 ≡ false))

by_suffix :
    (file : Text) (asked : Text × Bool) (long : Option Text)
    → strip_suffix (text ".json.sig") file ≡ long
    → without_suffix file long ≡ ok asked
    → Suffixed file asked
unfolding without_suffix
by_suffix file asked (some t) e k =
    subst (Suffixed file) (ok-injective _ asked k)
      (inl (strip_suffix_sound (text ".json.sig") file t e, refl))
by_suffix file asked none e k =
    let (t, f, k1) =
      >>=-ok (ok_or (strip_suffix (text ".json") file) (not_found Resource.terms)) _ k in
    elim (Option-cases (strip_suffix (text ".json") file)) [
      | inl g ↦ absurd (ground (arith, f, g))
      | inr (u, g) ↦
          subst (Suffixed file) (ok-injective _ asked k1)
            (inr (strip_suffix_sound (text ".json") file t (g ∙ ground (arith, f, g)), refl))
    ]

asked_suffix :
    (file : Text) (asked : Text × Bool) → requested_terms file ≡ ok asked → Suffixed file asked
unfolding requested_terms
asked_suffix file asked h = by_suffix file asked (strip_suffix (text ".json.sig") file) refl h

answer :
    (file : Text) (asked : Text × Bool) (raw : Bytes) (signature : Text) (served : Served)
    → Suffixed file asked
    → served ≡ serve asked.1 raw signature
    → Answers file asked.0 raw signature served
unfolding serve
answer file asked raw signature served (inl (e, f)) h = inl (e, h ∙ rw f refl)
answer file asked raw signature served (inr (e, f)) h = inr (e, h ∙ rw f refl)

current_id :
    (d : Documents) (requested : Text)
    → requested ≡ current_hex d
    → (d.terms_id ≡ text "sha256:" ++ requested) ⊎ (d.terms_id ≡ requested)
unfolding current_hex
current_id d requested h = elim (Option-cases (strip_prefix (text "sha256:") d.terms_id)) [
  | inl e ↦ inr (sym (h ∙ rw (e, current_hex) refl))
  | inr (t, e) ↦ inl (
      strip_prefix_sound (text "sha256:") d.terms_id requested
        (e ∙ ap some (sym (h ∙ rw (e, current_hex) refl))))
]

served_row :
    (detached : Bool) (found : Option TermsRow) (served : Served)
    → serve_row detached found ≡ ok served
    → (row : TermsRow) × (found ≡ some row) × (served ≡ serve detached row.raw row.signature)
unfolding serve_row
served_row detached none served h = cc
served_row detached (some row) served h = (row, refl, ground (arith, h))

-- A name of the terms route that is answered is a digest's hex with `.json` or with `.json.sig`. The
-- first is answered with a document and the second with its signature: of the terms in force only
-- where the hex is of their own id, and otherwise of a row that was stored under that digest.
pub terms-Named :
    (o : Operator) (file : Text) (s : Store) (served : Served)
    → terms o file s ≡ ok served
    → (requested : Text) × (raw : Bytes) × (signature : Text) × Named o s requested raw signature
      × Answers file requested raw signature served
unfolding terms stored_terms
terms-Named o file s served h =
    let (asked, e, h1) = >>=-ok (requested_terms file) _ h in
    let suffix = asked_suffix file asked e in
    elim (Bool-cases (eq_text asked.0 (current_hex o.documents))) [
      | inl f ↦ (
        asked.0,
        o.documents.terms,
        o.documents.terms_signature,
        inl (current_id o.documents asked.0 ((eq_text_iff _ _).0 f), refl, refl),
        answer file asked o.documents.terms o.documents.terms_signature served suffix
            (ground (arith, h1, f)),
      )
      | inr f ↦
          let (row, g, same) =
            served_row asked.1 (terms_document (text "sha256:" ++ asked.0) s) served
              (ground (arith, h1, f)) in
          (
            asked.0,
            row.raw,
            row.signature,
            inr (row, g, document_id (text "sha256:" ++ asked.0) s row g, refl, refl),
            answer file asked row.raw row.signature served suffix same,
          )
    ]
