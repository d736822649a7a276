-- ===== src/Tests/Setting.antt =====
-- A free operator and signed requests of one holder.
use onym_backup.Prelude.{ℕ, ◌*◌, none, some, [], ◌∷◌, ◌++◌, Text, text, if◌then◌else◌, eq_text}
use onym_backup.Clock.{Time, nanos_per_second}
use onym_backup.Config.{Config}
use onym_backup.Documents.Json.{Json}
use onym_backup.Operator.{Operator, Documents}
use onym_backup.Auth.{Headers, holder_header, timestamp_header, nonce_header, signature_header}
use onym_backup.Tests.Fixture.{clock, crypto, key, reference}

abbrev pub config : Config
config = record {
  component_id = text "onym:component:test";
  public_url = text "https://backup.example";
  signing_seed = key;
  entitlement_issuers = [];
  revocation_url = none;
  revocation_poll_secs = 900;
  offers = [];
  maximum_sealed_snapshot_bytes = 1000;
  maximum_retained_snapshots = 1;
  chunk_bytes = 4;
  upload_expiry_secs = 3600;
  max_skew_secs = 300;
  outcome_retention_secs = 21600;
  receipt_retention_secs = 86400;
  erased_reference_retention_secs = 86400;
}

abbrev pub json : Json
json = record { from_slice = λ b. none; to_vec = λ v. [] }

abbrev pub documents : Documents
documents = record {
  manifest = [];
  profile = [];
  manifest_signature = [];
  terms_signature = [];
  terms_id = text "sha256:terms";
  terms = [];
  operator_key = text "onym:key:op";
}

abbrev pub operator : Operator
operator = record {
  clock = clock;
  crypto = crypto;
  json = json;
  config = config;
  documents = documents;
}

abbrev pub at_second : ℕ → Time
at_second n = record { nanos = n * nanos_per_second; offset = 0 }

-- The four headers of a request signed at an instant.
abbrev pub signed_headers : Time → Text → Headers
signed_headers t nonce name =
    if eq_text name holder_header
    then some reference
    else if eq_text name timestamp_header
    then some (t.nanos ∷ t.offset ∷ [])
    else if eq_text name nonce_header
    then some nonce
    else if eq_text name signature_header
    then some (key ++ key)
    else none
