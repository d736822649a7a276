-- ===== src/Entitlements/Register.antt =====
-- `register` of operator/src/entitlements.rs: a credential goes on record before it is needed.
use onym_backup.Prelude.{Bool, true, false, none, some, [], Text, Bytes, text}
use onym_backup.Prelude.Int.{pos, eq_int}
use onym_backup.Prelude.Exec.{Exec, pure, lift, gets, or_fail, require_that, ◌>>=◌, ◌>>◌}
use onym_backup.Error.{Error, bad_request, internal}
use onym_backup.Clock.{Time}
use onym_backup.Config.{requires_entitlement}
use onym_backup.Documents.Json.{Value, bool, string, object, end, field, get, as_i64}
use onym_backup.Documents.Canonical.{canonical_bytes}
use onym_backup.Store.Entitlements.{VerifiedEntitlement, register_entitlement}
use onym_backup.Operator.{Operator, State, on_store, revoked}
use onym_backup.Auth.{Headers, Holder, authenticate}
use onym_backup.Lapse.Access.{require, Operation}
use onym_backup.Entitlements.{verify}

is_version_one : Value → Bool
is_version_one request = elim (as_i64 (get (text "version") request)) [
  | none ↦ false
  | some n ↦ eq_int n (pos 1)
]

unfoldable pub registered_reply : Text → Text → Value
registered_reply entitlement_id expires_at = object (
    field (text "entitlementId") (string entitlement_id)
      (field (text "expiresAt") (string expires_at) (field (text "registered") (bool true) end)))

module _ (o : Operator) where
  open o use {clock, crypto, json, config}

  -- from the verified credential on
  unfoldable pub put_on_record : Holder → VerifiedEntitlement → Time → Exec Error State Value
  unfolding registered_reply
  put_on_record holder verified now = do
    stamp ← or_fail (clock.format now) (internal "format timestamp")
    on_store (register_entitlement clock holder.handle verified stamp)
    expires_at ← or_fail (clock.format verified.expires_at) (internal "format timestamp")
    pure (registered_reply verified.entitlement_id expires_at)

  -- The credential is written again by the canonical writer before it is verified.
  unfoldable pub register : Headers → Bytes → Time → Exec Error State Value
  unfolding is_version_one put_on_record
  register headers body now = do
    holder ←
        on_store (
          authenticate clock crypto headers (text "POST") (text "/v1/entitlements") body config now)
    gone ← gets revoked
    on_store (require o holder headers gone Operation.register now)
    require_that (requires_entitlement config) (
        bad_request
          "this operator declares no entitlement issuers and never consults an entitlement")
    request ← or_fail (json.from_slice body) (bad_request "body is not JSON")
    require_that (is_version_one request) (bad_request "version must be 1")
    entitlement ← or_fail (get (text "entitlement") request) (bad_request "entitlement is required")
    raw ← lift (canonical_bytes entitlement [])
    verified ← lift (verify o raw holder.reference gone now)
    put_on_record holder verified now
