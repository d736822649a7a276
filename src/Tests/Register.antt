-- ===== src/Tests/Register.antt =====
-- A registration that succeeds.
use onym_backup.Prelude.Checks
use onym_backup.Prelude.{
  ◌≡◌, refl, true, Option, none, some, [], ◌∷◌, ◌++◌, Text, Bytes, text, eq_text, any, strip_prefix,
  all,
}
use onym_backup.Prelude.Int.{pos}
use onym_backup.Prelude.Exec.{Result, ok, ◌>>=◌}
use onym_backup.Error.{Error}
use onym_backup.Payload
use onym_backup.Payload.{whole_seconds_apart, holder_key, holder_handle}
use onym_backup.Documents.Canonical.{canonical_bytes, write_canonical}
use onym_backup.Store.Nonces.{record_nonce, seen}
use onym_backup.Lapse.Access.{require}
use onym_backup.Config.{Config, requires_entitlement}
use onym_backup.Config.Issuers.{key_of_issuer}
use onym_backup.Documents.Json.{Value, number, integer, string, object, end, field, get}
use onym_backup.Store.Rows.{in_memory}
use onym_backup.Store.Entitlements.{
  VerifiedEntitlement, lapse_state, register_entitlement, contains,
}
use onym_backup.Operator.{Operator, State, on_store, revoked}
use onym_backup.Auth.{Holder, authenticate}
use onym_backup.Entitlements.{verify}
use onym_backup.Entitlements.Register.{register, registered_reply}
use onym_backup.Entitlements.Verified.{Sound}
use onym_backup.Entitlements.Registered.{is_recorded, register_recorded}
use onym_backup.Auth.{Headers}
use onym_backup.Tests.Fixture.{clock, crypto, key, hex, reference}
use onym_backup.Tests.Setting.{config, operator, at_second, signed_headers}

abbrev issuer : Text
issuer = text "onym:key:" ++ hex key

abbrev charging : Config
charging = record config { entitlement_issuers = issuer ∷ []; offers = text "monthly" ∷ [] }

abbrev later : Text
later = 200_000_000_000_000 ∷ 0 ∷ []

abbrev credential : Value
credential = object (
    field (text "version") (number (integer (pos 1))) (
      field (text "type") (string (text "SeatEntitlement")) (
        field (text "issuer") (string issuer) (
          field (text "signature") (string (key ++ key)) (
            field (text "audience") (string (text "onym:component:test")) (
              field (text "subject") (string reference) (
                field (text "notBefore") (string (5 ∷ 0 ∷ [])) (
                  field (text "expiresAt") (string later) (
                    field (text "entitlementId") (string (text "e1"))
                      (field (text "offerId") (string (text "monthly")) end))))))))))

abbrev request : Value
request =
    object (
      field (text "version") (number (integer (pos 1))) (field (text "entitlement") credential end))

abbrev read : Bytes → Option Value
read [] = some request
read (b ∷ bs) = some credential

abbrev charger : Operator
charger = record operator {
  config = charging;
  json = record { from_slice = read; to_vec = λ v. [] };
}

abbrev empty : State
empty = record {
  store = in_memory;
  blobs = record { incoming = []; retained = [] };
  revocation = none;
}

abbrev headers : Headers
headers = signed_headers (at_second 100_000) (text "n1")

abbrev run : Result Error Value × State
run = register charger headers [] (at_second 100_000) empty

registers : run ≡ (ok (registered_reply (text "e1") later), run.1)
unfolding register ◌>>=◌ on_store authenticate eq_text text Payload.verify whole_seconds_apart
    holder_key strip_prefix all record_nonce seen in_memory require requires_entitlement get
    canonical_bytes write_canonical verify holder_handle register_entitlement contains
    registered_reply key_of_issuer revoked Checks.◌>>=◌ Checks.ok_or Checks.require_that
registers = refl

register_recorded_example :
    (holder : Holder) × (u : State) × (asked : Value) × (entitlement : Value) × (raw : Bytes)
    × (e : VerifiedEntitlement) × (on_store
          (authenticate clock crypto headers
            (text "POST")
            (text "/v1/entitlements")
            []
            charging
            (at_second 100_000))
          empty
        ≡ (ok holder, u))
    × (requires_entitlement charging ≡ true)
    × (read [] ≡ some asked)
    × (get (text "entitlement") asked ≡ some entitlement)
    × (canonical_bytes entitlement [] ≡ ok raw)
    × Sound charger raw holder.reference (revoked u) (at_second 100_000) e
    × (any (is_recorded holder.handle e) run.1.store.holder_entitlements ≡ true)
    × (lapse_state holder.handle run.1.store ≡ none)
register_recorded_example =
    register_recorded charger headers [] (at_second 100_000) empty run.1
      (registered_reply (text "e1") later) registers
