-- ===== src/Auth.antt =====
-- operator/src/auth.rs: the holder of a request, proved from its headers and recorded single-use.
pub mod Honoured
pub mod Replay
pub mod Reopened
use onym_backup.Prelude.{ℕ, true, false, Option, Text, Bytes, text, if◌then◌else◌}
use onym_backup.Prelude.Exec.{ok, err, Exec, lift, or_fail, ◌>>=◌}
use onym_backup.Error.{Error, signature_invalid, internal}
use onym_backup.Clock.{Clock, Time}
use onym_backup.Crypto.{Crypto}
use onym_backup.Config.{Config}
use onym_backup.Payload.{Request, VerifiedProof, verify}
use onym_backup.Store.Rows.{Store}
use onym_backup.Store.Nonces.{record_nonce}

-- `headers.get(name)` as text, by lower-case name; a value that is not text reads as absent
abbrev pub Headers : Type 0
Headers = Text → Option Text

pub record Holder : Type 0 where
  pub reference : Text
  pub handle : Text

abbrev pub holder_header : Text
holder_header = text "x-onym-holder"

abbrev pub timestamp_header : Text
timestamp_header = text "x-onym-timestamp"

abbrev pub nonce_header : Text
nonce_header = text "x-onym-nonce"

abbrev pub signature_header : Text
signature_header = text "x-onym-signature"

-- the nonce goes into the table before the request is honoured
unfoldable pub record_proof : VerifiedProof → Text → Text → Exec Error Store Holder
record_proof proof reference seen_at store =
    let recorded = record_nonce proof.handle proof.nonce seen_at store in
    if recorded.0
    then (ok (record { reference = reference; handle = proof.handle }), recorded.1)
    else (err signature_invalid, recorded.1)

module _ (c : Clock) (x : Crypto) where
  unfoldable pub authenticate :
      Headers → Text → Text → Bytes → Config → Time → Exec Error Store Holder
  unfolding record_proof
  authenticate headers method path body config now = do
    reference ← or_fail (headers holder_header) signature_invalid
    timestamp ← or_fail (headers timestamp_header) signature_invalid
    nonce ← or_fail (headers nonce_header) signature_invalid
    signature ← or_fail (headers signature_header) signature_invalid
    proof ← lift (
        verify c x
          (record {
            method = method;
            path = path;
            holder = reference;
            timestamp = timestamp;
            nonce = nonce;
            body = body;
          })
          signature now config.max_skew_secs)
    seen_at ← or_fail (c.format now) (internal "format timestamp")
    record_proof proof reference seen_at
