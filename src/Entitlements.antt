-- ===== src/Entitlements.antt =====
-- operator/src/entitlements.rs: what makes a credential count.
pub mod Register
pub mod Registered
pub mod Verified
use onym_backup.Prelude.{
  Bool, true, false, not, ◌||◌, Option, none, some, List, [], ◌∷◌, Text, Bytes, text, ltb, ◌==◌,
  if◌then◌else◌, length, eq_text, trim,
}
use onym_backup.Prelude.Int.{pos, eq_int}
use onym_backup.Prelude.Exec.{ok, err}
use onym_backup.Prelude.Checks.{◌>>=◌, ◌>>◌, ok_or, require_that}
use onym_backup.Error.{Error, Fallible, invalid_entitlement}
use onym_backup.Clock.{Time}
use onym_backup.Config.{requires_entitlement}
use onym_backup.Config.Issuers.{key_of_issuer}
use onym_backup.Documents.Json.{Value, null, object, get, as_str, as_i64}
use onym_backup.Documents.Canonical.{canonical_bytes}
use onym_backup.Store.Entitlements.{VerifiedEntitlement, contains}
use onym_backup.Operator.{Operator}
use onym_backup.Auth.{Headers}

abbrev pub entitlement_header : Text
entitlement_header = text "x-onym-entitlement"

-- every error becomes the one refusal
unfoldable pub or_refuse : {A : Type 0} → Fallible A → Error → Fallible A
or_refuse (ok a) e = ok a
or_refuse (err _) e = err e

-- `None | Some(Null)`: a quota is a balance this operator does not keep
no_quota : Option Value → Bool
no_quota none = true
no_quota (some null) = true
no_quota (some _) = false

is_object : Value → Bool
is_object (object _) = true
is_object _ = false

module _ (o : Operator) where
  open o use {clock, crypto, json, config}

  unfoldable pub refused : Error
  refused = invalid_entitlement config.entitlement_issuers

  unfoldable pub string_at : Value → Text → Fallible Text
  unfolding refused
  string_at document key = ok_or (as_str (get key document)) refused

  is_version : Option Value → Bool
  is_version v = elim (as_i64 v) [ none ↦ false | some n ↦ eq_int n (pos 1) ]

  -- the version and the type
  check_kind : Value → Fallible (Unit {0})
  unfolding refused string_at is_version is_object
  check_kind document = do
    require_that (is_object document) refused
    require_that (is_version (get (text "version") document)) refused
    kind ← string_at document (text "type")
    require_that (eq_text kind (text "SeatEntitlement")) refused

  -- a trusted issuer's signature over the document less its signature
  unfoldable pub check_signature : Value → Fallible (Unit {0})
  unfolding refused string_at or_refuse
  check_signature document = do
    issuer ← string_at document (text "issuer")
    key ← ok_or (key_of_issuer crypto issuer config.entitlement_issuers) refused
    encoded ← string_at document (text "signature")
    signature ← ok_or (crypto.base64_decode encoded) refused
    require_that (length signature == 64) refused
    signed ← or_refuse (canonical_bytes document (text "signature" ∷ [])) refused
    require_that (crypto.verify key signed signature) refused

  -- for this operator, and for this holder
  unfoldable pub check_parties : Value → Text → Fallible (Unit {0})
  unfolding refused string_at
  check_parties document holder_reference = do
    audience ← string_at document (text "audience")
    require_that (eq_text audience config.component_id) refused
    subject ← string_at document (text "subject")
    require_that (eq_text subject holder_reference) refused

  -- from when and until when, now between them
  unfoldable pub check_dates : Value → Time → Fallible (Time × Time)
  unfolding refused string_at
  check_dates document now = do
    not_before_text ← string_at document (text "notBefore")
    not_before ← ok_or (clock.parse not_before_text) refused
    expires_text ← string_at document (text "expiresAt")
    expires_at ← ok_or (clock.parse expires_text) refused
    require_that (not (ltb now.nanos not_before.nanos || ltb expires_at.nanos now.nanos)) refused
    ok (not_before, expires_at)

  -- not revoked, and without a quota
  unfoldable pub check_grant :
      Bytes → Value → List Text → Time × Time → Fallible VerifiedEntitlement
  unfolding refused string_at no_quota
  check_grant raw document revoked dates = do
    entitlement_id ← string_at document (text "entitlementId")
    require_that (not (contains entitlement_id revoked)) refused
    require_that (no_quota (get (text "quota") document)) refused
    offer_id ← string_at document (text "offerId")
    ok (record {
      entitlement_id = entitlement_id;
      offer_id = offer_id;
      not_before = dates.0;
      expires_at = dates.1;
      raw = raw;
    })

  unfoldable pub verify : Bytes → Text → List Text → Time → Fallible VerifiedEntitlement
  unfolding refused check_kind check_signature check_parties check_dates check_grant
  verify raw holder_reference revoked now = do
    document ← ok_or (json.from_slice raw) refused
    check_kind document
    check_signature document
    check_parties document holder_reference
    dates ← check_dates document now
    check_grant raw document revoked dates

  some_verified : Fallible VerifiedEntitlement → Fallible (Option VerifiedEntitlement)
  some_verified (ok v) = ok (some v)
  some_verified (err e) = err e

  -- a header that is there must verify; no header is no credential
  from_header :
      (Text → Option Bytes)
      → Option Text
      → Text
      → List Text
      → Time
      → Fallible (Option VerifiedEntitlement)
  unfolding some_verified verify ◌>>=◌ ok_or
  from_header decode none holder_reference revoked now = ok none
  from_header decode (some value) holder_reference revoked now =
      ok_or (decode value) refused >>= λ raw.
      some_verified (verify raw holder_reference revoked now)

  -- `decode` is base64's decoding of the trimmed header
  unfoldable pub presented :
      Headers → Text → List Text → Time → Fallible (Option VerifiedEntitlement)
  unfolding from_header
  presented headers holder_reference revoked now =
      if not (requires_entitlement config)
      then ok none
      else from_header (λ value. crypto.base64_decode (trim value)) (headers entitlement_header)
          holder_reference revoked now
