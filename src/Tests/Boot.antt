-- ===== src/Tests/Boot.antt =====
-- An environment that boots, cached epochs and served terms, at concrete inputs.
use onym_backup.Prelude.{
  Bytes, ◌≡◌, refl, true, not, none, some, [], ◌∷◌, Text, text, if◌then◌else◌, eq_text, all,
}
use onym_backup.Prelude.Int.{pos, ltb_int}
use onym_backup.Prelude.Exec.{ok}
use onym_backup.Prelude.Checks.{◌>>=◌, ok_or, require_that}
use onym_backup.Prelude.Signed.{parse_i64}
use onym_backup.Prelude.Decimal.{parse_digits}
use onym_backup.Store.Terms.{terms_document}
use onym_backup.Config.{Config}
use onym_backup.Config.Env.{Env, from_env}
use onym_backup.Config.Boot.{ValidConfig, from_env_valid}
use onym_backup.Store.Rows.{Store, TermsRow, in_memory}
use onym_backup.Store.Epochs.{cache_epoch, latest_epoch, latest_epoch-cache_epoch}
use onym_backup.Api.Terms.{json_document, terms}
use onym_backup.Api.Served.{Named, Answers, terms-Named}
use onym_backup.Tests.Fixture.{clock, crypto, zeros, hex}
use onym_backup.Tests.Setting.{operator, at_second}

abbrev env : Env
env name =
    if eq_text name (text "BACKUP_COMPONENT_ID")
    then some (text "onym:component:test")
    else if eq_text name (text "BACKUP_PUBLIC_URL")
    then some (text "https://backup.example/")
    else if eq_text name (text "BACKUP_SIGNING_SEED")
    then some (hex (zeros 32))
    else if eq_text name (text "BACKUP_MAX_SNAPSHOTS")
    then some (text " 5 ")
    else none

abbrev booted : Config
booted = record {
  component_id = text "onym:component:test";
  public_url = text "https://backup.example";
  signing_seed = zeros 32;
  entitlement_issuers = [];
  revocation_url = none;
  revocation_poll_secs = 900;
  offers = [];
  maximum_sealed_snapshot_bytes = 2_147_483_648;
  maximum_retained_snapshots = 5;
  chunk_bytes = 8_388_608;
  upload_expiry_secs = 86_400;
  max_skew_secs = 300;
  outcome_retention_secs = 21_600;
  receipt_retention_secs = 31_536_000;
  erased_reference_retention_secs = 31_536_000;
}

boots : from_env crypto clock env (at_second 100_000_000) ≡ ok booted
unfolding from_env ◌>>=◌ ok_or eq_text text require_that parse_i64 all parse_digits
boots = refl

from_env_valid_example : ValidConfig crypto clock (at_second 100_000_000) booted
from_env_valid_example = from_env_valid crypto clock env (at_second 100_000_000) booted boots

abbrev cached : Store
cached = cache_epoch (pos 4) (text "then") (1 ∷ []) in_memory

no_newer : all (λ row. not (ltb_int (pos 5) row.epoch)) cached.revocation_cache ≡ true
unfolding cache_epoch in_memory all
no_newer = refl

latest_epoch-cache_epoch_example :
    latest_epoch (cache_epoch (pos 5) (text "now") (2 ∷ []) cached) ≡ some (2 ∷ [], text "now")
latest_epoch-cache_epoch_example =
    latest_epoch-cache_epoch (pos 5) (text "now") (2 ∷ []) cached no_newer

abbrev past_terms : TermsRow
past_terms = record {
  terms_id = text "sha256:old";
  raw = 3 ∷ [];
  signature = 4 ∷ [];
  first_seen = text "then";
}

abbrev with_terms : Store
with_terms = record in_memory { terms_documents = past_terms ∷ [] }

served_old : terms operator (text "old.json") with_terms ≡ ok (json_document (3 ∷ []))
unfolding terms text eq_text terms_document
served_old = refl

terms-Named_example :
    (requested : Text) × (raw : Bytes) × (signature : Text) × Named operator with_terms requested
      raw signature
    × Answers (text "old.json") requested raw signature (json_document (3 ∷ []))
terms-Named_example =
    terms-Named operator (text "old.json") with_terms (json_document (3 ∷ [])) served_old
