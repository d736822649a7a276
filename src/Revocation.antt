-- ===== src/Revocation.antt =====
-- operator/src/revocation.rs: the revocation epoch in force, and the reading of a published one.
pub mod Newest
use onym_backup.Prelude.{
  ℕ, Bool, true, false, ◌&&◌, Option, none, some, List, [], ◌∷◌, Text, Bytes, text, ◌==◌,
  if◌then◌else◌, length, any,
}
use onym_backup.Prelude.Int.{ltb_int}
use onym_backup.Prelude.Exec.{Result, ok, err}
use onym_backup.Prelude.Results.{◌>>=◌, ◌>>◌, ok_or, require_that}
use onym_backup.Error.{Error, Fallible, internal}
use onym_backup.Clock.{Clock, Time}
use onym_backup.Crypto.{Crypto}
use onym_backup.Config.Issuers.{issuer_key}
use onym_backup.Documents.Json.{Value, object, get, as_str, as_i64, string_items}
use onym_backup.Documents.Canonical.{canonical_bytes}
use onym_backup.Operator.{Operator, Epoch}

-- `Revocation::install`: whether the epoch was installed, and the cache; the lock is not poisoned
unfoldable pub install : Epoch → Time → Option (Epoch × Time) → Bool × Option (Epoch × Time)
install epoch fetched_at none = (true, some (epoch, fetched_at))
install epoch fetched_at (some held) =
    if ltb_int epoch.epoch held.0.epoch
    then (false, some held)
    else (true, some (epoch, fetched_at))

abbrev malformed : Error
malformed = internal "revocation epoch did not verify"

is_object : Value → Bool
is_object (object _) = true
is_object _ = false

module _ (o : Operator) where
  open o use {clock, crypto, json, config}

  -- any pinned issuer's key; a reference that names no key has none
  signed_by : Bytes → Bytes → Text → Bool
  signed_by signed signature issuer = elim (issuer_key crypto issuer) [
    | none ↦ false
    | some key ↦ crypto.verify key signed signature
  ]

  unfoldable pub parse : Bytes → Fallible Epoch
  unfolding is_object signed_by any
  parse raw = do
    document ← ok_or (json.from_slice raw) malformed
    require_that (is_object document) malformed
    encoded ← ok_or (as_str (get (text "signature") document)) malformed
    signature ← ok_or (crypto.base64_decode encoded) malformed
    require_that (length signature == 64) malformed
    signed ← canonical_bytes document (text "signature" ∷ [])
    require_that (any (signed_by signed signature) config.entitlement_issuers) malformed
    epoch ← ok_or (as_i64 (get (text "epoch") document)) malformed
    published ← ok_or (as_str (get (text "publishedAt") document)) malformed
    published_at ← ok_or (clock.parse published) malformed
    ok (record {
      epoch = epoch;
      published_at = published_at;
      revoked = string_items (get (text "revoked") document);
      raw = raw;
    })
